-- ===== src/Drivers/Iio/Attributes.antt =====
-- driver/iio/icm20608/icm20608.c: `icm20608_read_raw` and `icm20608_write_raw`, behind the files in sysfs.
pub mod Scale
pub mod Bias
use config_env.Prelude.{ℕ, ◌/◌, ◌%◌, ℤ, pos, get_or}
use config_env.Drivers.Regmap.{Regmap}
use config_env.Drivers.Iio.Registers.{gyro_config, accel_config, xg_offs_usrh, xa_offset_h}
use config_env.Drivers.Iio.{
  angl_vel, accel, temp, other_type, Info, raw, scale, offset, calibbias, other_info, Channel,
  gyro_scale_icm20608, accel_scale_icm20608, ReadResult, val_int, val_micro, val_nano, read_einval,
  WriteResult, write_einval, icm20608_read_onereg, icm20608_read_channel_data, icm20608_sensor_show,
  icm20608_sensor_set, scale_field, icm20608_write_gyro_scale, icm20608_write_accel_scale,
}

-- ICM20608_TEMP_SCALE and ICM20608_TEMP_OFFSET
abbrev pub temp_scale : ℕ
temp_scale = 326800000

abbrev pub temp_offset : ℕ
temp_offset = 0

-- Writes are parsed in millionths or in billionths.
pub data Format : Type 0 where
  plus_micro plus_nano : Format

unfoldable pub icm20608_write_raw_get_fmt : Channel → Info → Format
icm20608_write_raw_get_fmt chan mask = elim mask [
  | scale ↦ elim chan.chan_type [ angl_vel ↦ plus_micro | _ ↦ plus_nano ]
  | _ ↦ plus_micro
]

module _ {Chip : Type 0} (rm : Regmap Chip) where
  unfoldable pub read_scale : (unset : ℕ) → Channel → Chip → ReadResult × Chip
  read_scale unset chan c = elim chan.chan_type [
    | angl_vel ↦
        let (value, c') = icm20608_read_onereg rm unset gyro_config c in
        (val_micro 0 (get_or gyro_scale_icm20608 (scale_field value) 0), c')
    | accel ↦
        let (value, c') = icm20608_read_onereg rm unset accel_config c in
        (val_nano 0 (get_or accel_scale_icm20608 (scale_field value) 0), c')
    | temp ↦ (val_micro (temp_scale / 1000000) (temp_scale % 1000000), c)
    | other_type ↦ (read_einval, c)
  ]

  -- `unset` is what `data` in `icm20608_read_onereg` holds before the read.
  unfoldable pub icm20608_read_raw : (unset : ℕ) → Channel → Info → Chip → ReadResult × Chip
  unfolding read_scale
  icm20608_read_raw unset chan mask c = elim mask [
    | raw ↦ icm20608_read_channel_data rm chan c
    | scale ↦ read_scale unset chan c
    | offset ↦ elim chan.chan_type [ temp ↦ (val_int (pos temp_offset), c) | _ ↦ (read_einval, c) ]
    | calibbias ↦ elim chan.chan_type [
      | angl_vel ↦ icm20608_sensor_show rm xg_offs_usrh chan.axis c
      | accel ↦ icm20608_sensor_show rm xa_offset_h chan.axis c
      | _ ↦ (read_einval, c)
    ]
    | other_info ↦ (read_einval, c)
  ]

  unfoldable pub icm20608_write_raw : Channel → (val val2 : ℤ) → Info → Chip → WriteResult × Chip
  icm20608_write_raw chan val val2 mask c = elim mask [
    | scale ↦ elim chan.chan_type [
      | angl_vel ↦ icm20608_write_gyro_scale rm val2 c
      | accel ↦ icm20608_write_accel_scale rm val2 c
      | _ ↦ (write_einval, c)
    ]
    | calibbias ↦ elim chan.chan_type [
      | angl_vel ↦ icm20608_sensor_set rm xg_offs_usrh chan.axis val c
      | accel ↦ icm20608_sensor_set rm xa_offset_h chan.axis val c
      | _ ↦ (write_einval, c)
    ]
    | _ ↦ (write_einval, c)
  ]
