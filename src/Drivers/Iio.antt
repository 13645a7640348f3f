-- ===== src/Drivers/Iio.antt =====
-- driver/iio/icm20608/icm20608.c: the channels of the motion sensor. Each function runs under `lock`.
pub mod Registers
pub mod Attributes
pub mod Trigger
pub mod Probe
use config_env.Prelude.{
  [], ℕ, ◌+◌, ◌*◌, ◌/◌, ◌%◌, List, ◌∷◌, ◌==◌, if◌then◌else◌, Option, none, some, ℤ, pos, negsuc,
  get_or,
}
use config_env.Drivers.Words.{be16, to_short, cpu_to_be16}
use config_env.Drivers.Regmap.{Regmap}
use Registers.*

-- `chan->type`, and the argument `mask`.
pub data ChanType : Type 0 where
  angl_vel accel temp other_type : ChanType

pub data Info : Type 0 where
  raw scale offset calibbias other_info : Info

-- `struct iio_chan_spec`: `axis` is `channel2 - IIO_MOD_X`, 0 for the temperature.
pub record Channel : Type 0 where
  pub chan_type : ChanType
  pub axis : ℕ
  pub scan_index : ℕ

abbrev pub channel : ChanType → ℕ → ℕ → Channel
channel t a i = record { chan_type = t; axis = a; scan_index = i }

-- `enum inv_icm20608_scan` numbers the accelerometer 0 to 2, the temperature 3 and the gyroscope 4 to 6.
abbrev pub icm20608_channels : List Channel
icm20608_channels =
    channel temp 0 3
    ∷ channel angl_vel 0 4
    ∷ channel angl_vel 1 5
    ∷ channel angl_vel 2 6
    ∷ channel accel 1 1
    ∷ channel accel 0 0
    ∷ channel accel 2 2
    ∷ []

abbrev pub gyro_scale_icm20608 : List ℕ
gyro_scale_icm20608 = 7629 ∷ 15258 ∷ 30517 ∷ 61035 ∷ []

abbrev pub accel_scale_icm20608 : List ℕ
accel_scale_icm20608 = 61035 ∷ 122070 ∷ 244140 ∷ 488281 ∷ []

-- What a read returns: IIO_VAL_INT, IIO_VAL_INT_PLUS_MICRO and IIO_VAL_INT_PLUS_NANO with the values
-- that are set, or -EINVAL.
pub data ReadResult : Type 0 where
  val_int : ℤ → ReadResult
  val_micro : (val val2 : ℕ) → ReadResult
  val_nano : (val val2 : ℕ) → ReadResult
  read_einval : ReadResult

-- What a write returns: 0, -EINVAL, or an error of the register map.
pub data WriteResult : Type 0 where
  written : WriteResult
  write_einval : WriteResult
  failed : ℕ → WriteResult

-- The loop over a table of scales: the index of `val`.
unfoldable pub find_scale : List ℕ → ℕ → ℤ → Option ℕ
find_scale [] i val = none
find_scale (s ∷ ss) i (pos n) = if s == n then some i else find_scale ss (i + 1) (pos n)
find_scale (s ∷ ss) i (negsuc n) = none

-- `(value & 0x18) >> 3`
abbrev pub scale_field : ℕ → ℕ
scale_field value = value / 8 % 4

module _ {Chip : Type 0} (rm : Regmap Chip) where
  -- `data` is left as it was where the read fails: `unset` is what it holds.
  unfoldable pub icm20608_read_onereg : (unset : ℕ) → ℕ → Chip → ℕ × Chip
  icm20608_read_onereg unset reg c = elim (rm.regmap_read reg c).0 [
    | none ↦ (unset % 256, (rm.regmap_read reg c).1)
    | some v ↦ (v % 256, (rm.regmap_read reg c).1)
  ]

  abbrev pub icm20608_write_onereg : ℕ → ℕ → Chip → Chip
  icm20608_write_onereg reg value c = (rm.regmap_write reg value c).1

  -- The register that the writes set, in order; `mdelay` and the message with the chip's id are left out.
  unfoldable pub icm20608_reginit : (unset : ℕ) → Chip → Chip
  unfolding icm20608_read_onereg
  icm20608_reginit unset c =
      let c1 = icm20608_write_onereg pwr_mgmt_1 0x80 c in
      let c2 = icm20608_write_onereg pwr_mgmt_1 0x01 c1 in
      let (value, c3) = icm20608_read_onereg unset who_am_i c2 in
      let c4 = icm20608_write_onereg smplrt_div 0x00 c3 in
      let c5 = icm20608_write_onereg gyro_config 0x18 c4 in
      let c6 = icm20608_write_onereg accel_config 0x18 c5 in
      let c7 = icm20608_write_onereg config 0x04 c6 in
      let c8 = icm20608_write_onereg accel_config2 0x04 c7 in
      let c9 = icm20608_write_onereg pwr_mgmt_2 0x00 c8 in
      let c10 = icm20608_write_onereg lp_mode_cfg 0x00 c9 in
      icm20608_write_onereg int_enable 0x01 c10

  unfoldable pub icm20608_sensor_set : (reg axis : ℕ) (val : ℤ) → Chip → WriteResult × Chip
  icm20608_sensor_set reg axis val c =
      let (result, c') = rm.regmap_bulk_write (reg + axis * 2) (cpu_to_be16 val) c in
      if result == 0 then (written, c') else (write_einval, c')

  unfoldable pub icm20608_sensor_show : (reg axis : ℕ) → Chip → ReadResult × Chip
  icm20608_sensor_show reg axis c =
      let (d, c') = rm.regmap_bulk_read (reg + axis * 2) 2 c in
      elim d [
        | none ↦ (read_einval, c')
        | some bs ↦ (val_int (to_short (be16 (get_or bs 0 0) (get_or bs 1 0))), c')
      ]

  unfoldable pub icm20608_read_channel_data : Channel → Chip → ReadResult × Chip
  unfolding icm20608_sensor_show
  icm20608_read_channel_data chan c = elim chan.chan_type [
    | angl_vel ↦ icm20608_sensor_show gyro_xout_h chan.axis c
    | accel ↦ icm20608_sensor_show accel_xout_h chan.axis c
    | temp ↦ icm20608_sensor_show temp_out_h 0 c
    | other_type ↦ (read_einval, c)
  ]

  -- `d = i << 3`
  unfoldable pub write_scale : List ℕ → ℕ → ℤ → Chip → WriteResult × Chip
  unfolding find_scale
  write_scale table reg val c = elim (find_scale table 0 val) [
    | none ↦ (write_einval, c)
    | some i ↦
        let (result, c') = rm.regmap_write reg (i * 8) c in
        if result == 0 then (written, c') else (failed result, c')
  ]

  abbrev pub icm20608_write_gyro_scale : ℤ → Chip → WriteResult × Chip
  icm20608_write_gyro_scale = write_scale gyro_scale_icm20608 gyro_config

  abbrev pub icm20608_write_accel_scale : ℤ → Chip → WriteResult × Chip
  icm20608_write_accel_scale = write_scale accel_scale_icm20608 accel_config
