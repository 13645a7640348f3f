-- ===== src/Drivers/Iio/Trigger/Samples.antt =====
-- What the triggered buffer of driver/iio/icm20608/icm20608.c holds.
use config_env.Prelude.{
  ℕ, zero, suc, ◌+◌, ◌*◌, ◌%◌, List, ◌≡◌, Bool, none, some, get_elem?, get_or, arith, ℤ,
}
use config_env.Drivers.Words.{be16, to_short}
use config_env.Drivers.Regmap.{Regmap, contents, IsRegmap}
use config_env.Drivers.Iio.Registers.{int_status, accel_xout_h}
use config_env.Drivers.Iio.{
  raw, Channel, icm20608_channels, val_int, icm20608_read_channel_data, icm20608_sensor_show,
}
use config_env.Drivers.Iio.Attributes.{icm20608_read_raw}
use config_env.Drivers.Iio.Trigger.{output_data_size, icm20608_trigger_handler}

-- The sample of a channel: big-endian and signed, at its scan index.
abbrev pub sample : List ℕ → ℕ → ℤ
sample bytes i = to_short (be16 (get_or bytes (2 * i) 0) (get_or bytes (2 * i + 1) 0))

module _ {Chip : Type 0} (rm : Regmap Chip) (at : Chip → ℕ → ℕ) (plain : ℕ → Bool)
    (laws : IsRegmap rm at plain) where
  -- Reading the raw value of a channel gives its sample of the data at that moment.
  pub raw-sample :
      (k unset : ℕ) (chan : Channel) (c : Chip)
      → get_elem? icm20608_channels k ≡ some chan
      → (icm20608_read_raw rm unset chan raw c).0
        ≡ val_int (sample (contents (at c) accel_xout_h output_data_size) chan.scan_index)
  unfolding icm20608_read_raw icm20608_read_channel_data icm20608_sensor_show
  raw-sample zero unset chan c e = ground (arith, laws.bulk_reads 0x41 2 c)
  raw-sample (suc zero) unset chan c e = ground (arith, laws.bulk_reads 0x43 2 c)
  raw-sample (suc (suc zero)) unset chan c e = ground (arith, laws.bulk_reads 0x45 2 c)
  raw-sample (suc (suc (suc zero))) unset chan c e = ground (arith, laws.bulk_reads 0x47 2 c)
  raw-sample (suc (suc (suc (suc zero)))) unset chan c e = ground (arith, laws.bulk_reads 0x3D 2 c)
  raw-sample (suc (suc (suc (suc (suc zero))))) unset chan c e =
      ground (arith, laws.bulk_reads 0x3B 2 c)
  raw-sample (suc (suc (suc (suc (suc (suc zero)))))) unset chan c e =
      ground (arith, laws.bulk_reads 0x3F 2 c)
  raw-sample (suc (suc (suc (suc (suc (suc (suc k))))))) unset chan c e = cc

  -- When data is ready, the handler pushes 14 bytes in which each of the seven channels finds, at its
  -- scan index, the value that reading the channel's file would have given at that moment.
  pub pushed_samples :
      (k unset : ℕ) (chan : Channel) (c : Chip)
      → at c int_status % 2 ≡ 1
      → get_elem? icm20608_channels k ≡ some chan
      → (bytes : List ℕ) × ((icm20608_trigger_handler rm c).0 ≡ some bytes)
        × ((icm20608_read_raw rm unset chan raw (rm.regmap_read int_status c).1).0
            ≡ val_int (sample bytes chan.scan_index))
  unfolding icm20608_trigger_handler
  pushed_samples k unset chan c ready e =
      let c1 = (rm.regmap_read int_status c).1 in
      (
        contents (at c1) accel_xout_h output_data_size,
        ground (arith, laws.reads int_status c, laws.bulk_reads accel_xout_h output_data_size c1),
        raw-sample k unset chan c1 e,
      )

  -- An interrupt without data reads the status and nothing else, and pushes nothing.
  spurious_interrupt :
      (c : Chip)
      → at c int_status % 2 ≡ 0
      → icm20608_trigger_handler rm c ≡ (none, (rm.regmap_read int_status c).1)
  unfolding icm20608_trigger_handler
  spurious_interrupt c quiet = ground (arith, laws.reads int_status c)
