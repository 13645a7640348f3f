-- ===== src/Drivers/Iio/Trigger.antt =====
-- driver/iio/icm20608/icm20608.c: the triggered buffer.
pub mod Samples
use config_env.Prelude.{ℕ, ◌%◌, List, Bool, ◌==◌, if◌then◌else◌, Option, none, some}
use config_env.Drivers.Regmap.{Regmap}
use config_env.Drivers.Iio.Registers.{int_status, int_enable, accel_xout_h}

abbrev pub output_data_size : ℕ
output_data_size = 14

module _ {Chip : Type 0} (rm : Regmap Chip) where
  -- The data that is pushed to the buffers, if any. `int_status` is 0 where its read fails.
  unfoldable pub icm20608_trigger_handler : Chip → Option (List ℕ) × Chip
  icm20608_trigger_handler c =
      let (status, c1) = rm.regmap_read int_status c in
      let (data', c2) = rm.regmap_bulk_read accel_xout_h output_data_size c1 in
      if elim status [ none ↦ 0 | some v ↦ v % 2 ] == 0 then (none, c1) else (data', c2)

  unfoldable pub icm20608_trigger_set_state : Bool → Chip → ℕ × Chip
  icm20608_trigger_set_state state c = rm.regmap_write int_enable (if state then 0x01 else 0x00) c
