-- ===== src/Drivers/Ap3216c/Readings.antt =====
-- What driver/i2c/ap3216c/ap3216c.c reports of the sensor.
use config_env.Prelude.{
  [], ℕ, ◌+◌, ◌-◌, ◌*◌, ◌/◌, ◌%◌, ◌^◌, ◌<◌, ◌≤◌, min, List, ◌∷◌, ◌≡◌, refl, ◌∙◌, ◌==◌, some, take,
  length, length-take, get_or, arith, ltb, if◌then◌else◌,
}
use config_env.Drivers.Words.{be16}
use config_env.Drivers.Ap3216c.{
  sent, wanted, Transfer, Light, light_of, image, ap3216c_read_regs, ap3216c_read_single_reg,
  ap3216c_readdata, ap3216c_read,
}

-- The word that a caller finds in its buffer, on a little-endian machine.
abbrev pub word_at : List ℕ → ℕ → ℕ
word_at bs i = be16 (get_or bs (2 * i + 1) 0) (get_or bs (2 * i) 0)

-- Reading one register gives a byte, or fails.
pub record GivesBytes {Chip : Type 0} (i2c_transfer : Transfer Chip) : Type 0 where
  pub byte :
      (r : ℕ) (c : Chip) (bs : List ℕ)
      → (i2c_transfer (sent (r ∷ []) ∷ wanted 1 ∷ []) c).0 ≡ some bs
      → get_or bs 0 0 < 256

-- Reading one register gives what it holds, and changes none: no transfer fails, and no measurement
-- ends between two reads.
pub record IsSteady {Chip : Type 0} (i2c_transfer : Transfer Chip) (at : Chip → ℕ → ℕ)
    : Type 0 where
  pub reads :
      (r : ℕ) (c : Chip) → (i2c_transfer (sent (r ∷ []) ∷ wanted 1 ∷ []) c).0 ≡ some (at c r ∷ [])
  pub keeps : (r : ℕ) (c : Chip) → at (i2c_transfer (sent (r ∷ []) ∷ wanted 1 ∷ []) c).1 ≡ at c

-- The registers hold a measurement without an overflow, whatever the bits that are not used hold.
pub record Holds (at : ℕ → ℕ) (ir als ps : ℕ) : Type 0 where
  pub ir_unused : ℕ
  pub ps_unused : ℕ
  pub object : ℕ
  pub ps_high : ℕ
  pub ir_unused_lt : ir_unused < 32
  pub ps_unused_lt : ps_unused < 4
  pub ir_low : at 0x0A ≡ ir % 4 + 4 * ir_unused
  pub ir_rest : at 0x0B ≡ ir / 4
  pub als_low : at 0x0C ≡ als % 256
  pub als_rest : at 0x0D ≡ als / 256
  pub ps_low : at 0x0E ≡ ps % 16 + 16 * ps_unused + 128 * object
  pub ps_rest : at 0x0F ≡ ps / 16 + 64 * ps_high

ir_joined :
    (ir u : ℕ)
    → u < 32
    → (if (ir % 4 + 4 * u) / 128 % 2 == 1 then 0 else ir / 4 * 4 + (ir % 4 + 4 * u) % 4) ≡ ir
ir_joined ir u h =
    let clear : (ir % 4 + 4 * u) / 128 % 2 ≡ 0 = omega arith in
    let low : ir / 4 * 4 + (ir % 4 + 4 * u) % 4 ≡ ir = omega arith in rw clear low

als_joined : (als : ℕ) → be16 (als / 256) (als % 256) ≡ als
als_joined als = omega arith

ps_joined :
    (ps u o w : ℕ)
    → ps < 1024
    → u < 4
    → (if (ps % 16 + 16 * u + 128 * o) / 64 % 2 == 1
        then 0
        else (ps / 16 + 64 * w) % 64 * 16 + (ps % 16 + 16 * u + 128 * o) % 16)
      ≡ ps
ps_joined ps u o w h hu =
    let clear : (ps % 16 + 16 * u + 128 * o) / 64 % 2 ≡ 0 = omega arith in
    let low : (ps / 16 + 64 * w) % 64 * 16 + (ps % 16 + 16 * u + 128 * o) % 16 ≡ ps = omega arith in
    rw clear low

light_of-Holds :
    (at : ℕ → ℕ) (ir als ps : ℕ)
    → ir < 1024
    → als < 2 ^ 16
    → ps < 1024
    → Holds at ir als ps
    → light_of (at 0x0A) (at 0x0B) (at 0x0C) (at 0x0D) (at 0x0E) (at 0x0F)
      ≡ record { ir = ir; als = als; ps = ps }
light_of-Holds at ir als ps hi ha hp h =
    let irs = ir_joined ir h.ir_unused h.ir_unused_lt in
    let alss = als_joined als in
    let pss = ps_joined ps h.ps_unused h.object h.ps_high hp h.ps_unused_lt in
    rw (h.ir_low, h.ir_rest, h.als_low, h.als_rest, h.ps_low, h.ps_rest, irs, alss, pss)

-- The values are in range.
abbrev pub InRange : Light → Type 0
InRange light = (light.ir < 1024) × (light.als < 2 ^ 16) × (light.ps < 1024)

light_of-InRange :
    (b0 b1 b2 b3 b4 b5 : ℕ) → b1 < 256 → b2 < 256 → b3 < 256 → InRange (light_of b0 b1 b2 b3 b4 b5)
light_of-InRange b0 b1 b2 b3 b4 b5 h1 h2 h3 = (ground arith, omega arith, ground arith)

-- The words of a whole read.
abbrev pub IsImage : List ℕ → Light → Type 0
IsImage bs light =
    (word_at bs 0 ≡ light.ir) × (word_at bs 1 ≡ light.ps) × (word_at bs 2 ≡ light.als)

copied-IsImage :
    (count : ℕ) (light : Light)
    → 6 ≤ count
    → InRange light
    → let bytes = take ((if ltb 6 count then 6 else count) - 0) (image light) in
      (length bytes ≡ 6) × IsImage bytes light
copied-IsImage count light h (hi, ha, hp) =
    let whole : (if ltb 6 count then 6 else count) - 0 ≡ 6 = ground arith in
    rw whole (refl, (omega arith, omega arith, omega arith))

module _ {Chip : Type 0} (i2c_transfer : Transfer Chip) where
  module _ (at : Chip → ℕ → ℕ) (laws : IsSteady i2c_transfer at) where
    single_reg-at :
        (r : ℕ) (c : Chip)
        → ((ap3216c_read_single_reg i2c_transfer r c).0 ≡ at c r)
          × (at (ap3216c_read_single_reg i2c_transfer r c).1 ≡ at c)
    unfolding ap3216c_read_single_reg ap3216c_read_regs
    single_reg-at r c = ground (arith, laws.reads r c, laws.keeps r c)

    readdata-at :
        (c : Chip)
        → (ap3216c_readdata i2c_transfer c).0
          ≡ light_of (at c 0x0A) (at c 0x0B) (at c 0x0C) (at c 0x0D) (at c 0x0E) (at c 0x0F)
    unfolding ap3216c_readdata
    readdata-at c =
        let read = ap3216c_read_single_reg i2c_transfer in
        let c1 = (read 0x0A c).1 in
        let c2 = (read 0x0B c1).1 in
        let c3 = (read 0x0C c2).1 in
        let c4 = (read 0x0D c3).1 in
        let c5 = (read 0x0E c4).1 in
        let (r0, k0) = single_reg-at 0x0A c in
        let (r1, k1) = single_reg-at 0x0B c1 in
        let (r2, k2) = single_reg-at 0x0C c2 in
        let (r3, k3) = single_reg-at 0x0D c3 in
        let (r4, k4) = single_reg-at 0x0E c4 in
        let (r5, k5) = single_reg-at 0x0F c5 in rw (r0, r1, r2, r3, r4, r5, k4, k3, k2, k1, k0) refl

    -- A measurement of ten bits of infrared light, sixteen of ambient light and ten of proximity is
    -- reported as the sensor holds it, whatever the bits of its registers that are not used hold.
    -- (No transfer fails and no measurement ends between the reads.)
    pub measurement_reported :
        (c : Chip) (ir als ps : ℕ)
        → ir < 1024
        → als < 2 ^ 16
        → ps < 1024
        → Holds (at c) ir als ps
        → (ap3216c_readdata i2c_transfer c).0 ≡ record { ir = ir; als = als; ps = ps }
    measurement_reported c ir als ps hi ha hp h =
        readdata-at c ∙ light_of-Holds (at c) ir als ps hi ha hp h

  single_reg-lt :
      GivesBytes i2c_transfer
      → (r : ℕ) (c : Chip) → (ap3216c_read_single_reg i2c_transfer r c).0 < 256
  unfolding ap3216c_read_single_reg ap3216c_read_regs
  single_reg-lt laws r c = grind arith

  -- Whatever transfers fail, the values that are reported are in range: below 1024 for the infrared
  -- light and the proximity, below 65536 for the ambient light.
  readdata-InRange :
      (c : Chip) → GivesBytes i2c_transfer → InRange (ap3216c_readdata i2c_transfer c).0
  unfolding ap3216c_readdata
  readdata-InRange c laws =
      let read = ap3216c_read_single_reg i2c_transfer in
      let c1 = (read 0x0A c).1 in
      let c2 = (read 0x0B c1).1 in
      let c3 = (read 0x0C c2).1 in
      let c4 = (read 0x0D c3).1 in
      let c5 = (read 0x0E c4).1 in
      light_of-InRange (read 0x0A c).0 (read 0x0B c1).0 (read 0x0C c2).0 (read 0x0D c3).0
        (read 0x0E c4).0 (read 0x0F c5).0 (single_reg-lt laws 0x0B c1) (single_reg-lt laws 0x0C c2)
        (single_reg-lt laws 0x0D c3)

  -- A read counts the bytes that were copied: at most six, and at most what was asked for.
  read_counted :
      (count uncopied : ℕ) (c : Chip)
      → length (ap3216c_read i2c_transfer count uncopied c).0 ≡ min count 6 - uncopied
  unfolding ap3216c_read
  read_counted count uncopied c =
      let n = if ltb 6 count then 6 else count in
      length-take (n - uncopied) (image (ap3216c_readdata i2c_transfer c).0) ∙ ground arith

  -- A read of at least six bytes of which all are copied gives six: the caller finds infrared light,
  -- proximity and ambient light in them, in this order, as the sensor's data was read.
  read_whole :
      (count : ℕ) (c : Chip)
      → 6 ≤ count
      → GivesBytes i2c_transfer
      → let bytes = (ap3216c_read i2c_transfer count 0 c).0 in
        (length bytes ≡ 6) × IsImage bytes (ap3216c_readdata i2c_transfer c).0
  unfolding ap3216c_read
  read_whole count c h laws =
      copied-IsImage count (ap3216c_readdata i2c_transfer c).0 h (readdata-InRange c laws)
