-- ===== src/Drivers/Motion/Same.antt =====
-- The two character devices of the motion sensor do the same on the bus.
use config_env.Prelude.{
  [], ℕ, ◌+◌, ◌<◌, ◌≡◌, refl, ◌∙◌, sym, ap, List, ◌∷◌, Bool, true, false, Option, none, some, take,
  drop, replicate, arith, length, ltb, ◌&&◌, take_all,
}
use config_env.Drivers.Regmap.{Regmap}
use config_env.Drivers.Iio.Registers.{accel_xout_h}
use config_env.Drivers.Motion.{Motion, Attr, motion_of}
use config_env.Drivers.Motion.Spi
use config_env.Drivers.Motion.Spi.{Sync}
use config_env.Drivers.Motion.SpiRegmap

-- What a register map over SPI with 8-bit registers and values and the read flag 0x80 sends: the
-- register's number, with the flag for a read, and then the values, or one byte for each that is read.
pub record IsOverSpi {Chip : Type 0} (rm : Regmap Chip) (spi_sync : Sync Chip) : Type 0 where
  pub bulk_reads :
      (reg n : ℕ) (c : Chip)
      → reg < 128
      → (rm.regmap_bulk_read reg n c).1 ≡ (spi_sync ((reg + 128) ∷ replicate n 0) c).1
  pub bulk_fails :
      (reg n : ℕ) (c : Chip)
      → reg < 128
      → (spi_sync ((reg + 128) ∷ replicate n 0) c).0 ≡ none
      → (rm.regmap_bulk_read reg n c).0 ≡ none
  pub bulk_gives :
      (reg n : ℕ) (c : Chip) (b : ℕ) (bs : List ℕ)
      → reg < 128
      → (spi_sync ((reg + 128) ∷ replicate n 0) c).0 ≡ some (b ∷ bs)
      → (rm.regmap_bulk_read reg n c).0 ≡ some bs
  pub reads :
      (reg : ℕ) (c : Chip)
      → reg < 128
      → (rm.regmap_read reg c).1 ≡ (spi_sync ((reg + 128) ∷ 0 ∷ []) c).1
  pub writes :
      (reg v : ℕ) (c : Chip)
      → reg < 128
      → v < 256
      → (rm.regmap_write reg v c).1 ≡ (spi_sync (reg ∷ v ∷ []) c).1

-- A transfer receives as many bytes as it sends.
pub record IsFullDuplex {Chip : Type 0} (spi_sync : Sync Chip) : Type 0 where
  pub received :
      (tx : List ℕ) (c : Chip) (rx : List ℕ) → (spi_sync tx c).0 ≡ some rx → length rx ≡ length tx

-- The end of `icm20608_readdata` of the SPI driver, given what the transfer gives.
abbrev decoded : {Chip : Type 0} → Motion → Option (List ℕ) × Chip → Bool × Motion × Chip
decoded m (none, c') = (false, m, c')
decoded m (some rx, c') = (true, motion_of (take 14 (drop 1 rx)), c')

decoded_same :
    {Chip : Type 0} (rm : Regmap Chip) (m : Motion) (c : Chip) (given : Option (List ℕ) × Chip)
    → (rm.regmap_bulk_read accel_xout_h 14 c).1 ≡ given.1
    → (given.0 ≡ none → (rm.regmap_bulk_read accel_xout_h 14 c).0 ≡ none)
    → ((b : ℕ) (bs : List ℕ)
        → given.0 ≡ some (b ∷ bs)
        → (rm.regmap_bulk_read accel_xout_h 14 c).0 ≡ some bs)
    → ((rx : List ℕ) → given.0 ≡ some rx → length rx ≡ 15)
    → decoded m given ≡ SpiRegmap.icm20608_readdata rm m c
unfolding SpiRegmap.icm20608_readdata
decoded_same rm m c (none, c') same fails gives size = let e = fails refl in ground arith
decoded_same rm m c (some [], c') same fails gives size =
    let e = size [] refl in absurd (omega arith)
decoded_same rm m c (some (b ∷ bs), c') same fails gives size =
    let e = size (b ∷ bs) refl in
    let whole = take_all 14 bs (omega arith) in let read = gives b bs refl in ground arith

decoding :
    {Chip : Type 0} (spi_sync : Sync Chip) (m : Motion) (c : Chip)
    → Spi.icm20608_readdata spi_sync m c
      ≡ decoded m (spi_sync ((accel_xout_h + 128) ∷ replicate 14 0) c)
unfolding Spi.icm20608_readdata Spi.icm20608_read_regs
decoding spi_sync m c = ground arith

step :
    {Chip : Type 0} (rm : Regmap Chip) (spi_sync : Sync Chip)
    → IsOverSpi rm spi_sync
    → (reg v : ℕ) (c c' : Chip) → ltb reg 128 && ltb v 256 ≡ true
    → c ≡ c'
    → Spi.icm20608_write_reg spi_sync reg v c ≡ SpiRegmap.icm20608_write_reg rm reg v c'
unfolding Spi.icm20608_write_reg Spi.icm20608_write_regs
step rm spi_sync over reg v c c' h e =
    let small : (reg < 128) × (v < 256) = ground arith in
    let same = over.writes reg v c small.0 small.1 in rw (sym e) (ground arith)

read_same :
    {Chip : Type 0} (rm : Regmap Chip) (spi_sync : Sync Chip)
    → IsOverSpi rm spi_sync
    → (reg : ℕ) (c : Chip) → reg < 128
    → (Spi.icm20608_read_reg spi_sync reg c).1 ≡ (SpiRegmap.icm20608_read_reg rm reg c).1
unfolding Spi.icm20608_read_reg Spi.icm20608_read_regs
read_same rm spi_sync over reg c h = ground (arith, over.reads reg c h)

init_same :
    {Chip : Type 0} (rm : Regmap Chip) (spi_sync : Sync Chip)
    → IsOverSpi rm spi_sync
    → (c : Chip) → Spi.icm20608_init spi_sync c ≡ SpiRegmap.icm20608_init rm c
unfolding Spi.icm20608_init SpiRegmap.icm20608_init
init_same rm spi_sync over c =
    let write = step rm spi_sync over in
    let woken = write 107 0x01 _ _ refl (write 107 0x80 c c refl refl) in
    let asked =
      ap (λ d. (Spi.icm20608_read_reg spi_sync 117 d).1) woken
      ∙ read_same rm spi_sync over 117 _ (omega arith) in
    write 35 0 _ _ refl (
      write 30 0 _ _ refl (
        write 108 0 _ _ refl (
          write 29 4 _ _ refl (
            write 26 4 _ _ refl
              (write 28 24 _ _ refl (write 27 24 _ _ refl (write 25 0 _ _ refl asked)))))))

-- The two drivers read the same values, whether the transfer succeeds or not.
readdata_same :
    {Chip : Type 0} (rm : Regmap Chip) (spi_sync : Sync Chip)
    → IsOverSpi rm spi_sync
    → IsFullDuplex spi_sync
    → (m : Motion) (c : Chip)
    → Spi.icm20608_readdata spi_sync m c ≡ SpiRegmap.icm20608_readdata rm m c
readdata_same rm spi_sync over duplex m c =
    let tx = (accel_xout_h + 128) ∷ replicate 14 0 in
    let given = spi_sync tx c in
    decoding spi_sync m c
    ∙ decoded_same rm m c given (over.bulk_reads accel_xout_h 14 c (omega arith))
        (over.bulk_fails accel_xout_h 14 c (omega arith))
        (λ b bs. over.bulk_gives accel_xout_h 14 c b bs (omega arith))
        (λ rx. duplex.received tx c rx)

-- What a user and the chip see of the two drivers is the same: a read of the device, a read of each
-- file in sysfs, and what the setting-up leaves of the chip. (The register map sends what its
-- configuration says, and a transfer receives as much as it sends.)
pub same_driver :
    {Chip : Type 0} (rm : Regmap Chip) (spi_sync : Sync Chip) (m : Motion) (c : Chip)
    → IsOverSpi rm spi_sync
    → IsFullDuplex spi_sync
    → ((cnt uncopied : ℕ)
        → Spi.icm20608_read spi_sync cnt uncopied m c ≡ SpiRegmap.icm20608_read rm cnt uncopied m c)
      × ((a : Attr) → Spi.icm20608_show spi_sync a m c ≡ SpiRegmap.icm20608_show rm a m c)
      × (Spi.icm20608_init spi_sync c ≡ SpiRegmap.icm20608_init rm c)
unfolding Spi.icm20608_read Spi.icm20608_show SpiRegmap.icm20608_read SpiRegmap.icm20608_show
same_driver rm spi_sync m c over duplex =
    let data_same = readdata_same rm spi_sync over duplex m c in
    (λ cnt uncopied. rw data_same, λ a. rw data_same, init_same rm spi_sync over c)
