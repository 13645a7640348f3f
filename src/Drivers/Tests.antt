-- ===== src/Drivers/Tests.antt =====
-- Examples for the theorems on the sensor drivers.
mod Samples
use config_env.Prelude.{
  [], ℕ, zero, suc, ◌<◌, List, ◌∷◌, ◌≡◌, ◌≢◌, refl, ◌⊎◌, true, false, ◌==◌, if◌then◌else◌, some,
  pos, arith, get_or, ltb,
}
use config_env.Drivers.RegisterFile.{RegisterFile, at, every, register_file, register_file_laws}
use config_env.Drivers.RegisterBus.{
  i2c_bus, i2c_bus-IsSteady, spi_bus, spi_bus-IsFullDuplex, register_file-IsOverSpi,
}
use config_env.Drivers.Probe.{Kernel, region, char_device, class, device, files, register_map}
use config_env.Drivers.Iio.{
  angl_vel, accel, raw, scale, Channel, channel, written, val_int, val_micro, icm20608_reginit,
}
use config_env.Drivers.Iio.Attributes.{icm20608_read_raw, icm20608_write_raw}
use config_env.Drivers.Iio.Attributes.Scale.{gyro_kind, scale-read_back}
use config_env.Drivers.Iio.Trigger.{icm20608_trigger_handler}
use config_env.Drivers.Iio.Trigger.Samples.{sample, pushed_samples}
use config_env.Drivers.Iio.Registers.{gyro_config}
use config_env.Drivers.Iio.Probe
use config_env.Drivers.Ap3216c.{ap3216c_probe, ap3216c_remove, ap3216c_readdata}
use config_env.Drivers.Ap3216c.Lifetime.{probe_all_or_none}
use config_env.Drivers.Ap3216c.Readings.{Holds, measurement_reported}
use config_env.Drivers.Motion.{Motion, Attr}
use config_env.Drivers.Motion.Spi
use config_env.Drivers.Motion.SpiRegmap
use config_env.Drivers.Motion.Same.{same_driver}

-- Data is ready, and each register holds its address, or 200 from 0x40 on.
abbrev chip : RegisterFile
chip r = if r == 0x3A then 1 else if ltb r 0x40 then r else 200

other_register : 0x1C ≢ gyro_config
other_register e = ground arith

abbrev gyro_x : Channel
gyro_x = channel angl_vel 0 4

scale-read_back_example :
    let r = icm20608_write_raw register_file gyro_x (pos 0) (pos 30517) scale chip in
    (r.0 ≡ written)
    × ((icm20608_read_raw register_file 0 gyro_x scale r.1).0 ≡ val_micro 0 30517)
    × (at r.1 0x1C ≡ at chip 0x1C)
scale-read_back_example =
    scale-read_back register_file at every register_file_laws gyro_kind 2 0 0x1C gyro_x (pos 0) chip
      (omega arith) refl refl refl other_register

unlisted : (i : ℕ) → i < 4 → pos 7630 ≢ pos (get_or (7629 ∷ 15258 ∷ 30517 ∷ 61035 ∷ []) i 0)
unlisted zero h e = ground arith
unlisted (suc zero) h e = ground arith
unlisted (suc (suc zero)) h e = ground arith
unlisted (suc (suc (suc zero))) h e = ground arith
unlisted (suc (suc (suc (suc i)))) h e = omega arith

abbrev accel_y : Channel
accel_y = channel accel 1 1

abbrev accel_z : Channel
accel_z = channel accel 2 2

pushed_samples_example :
    (bytes : List ℕ) × ((icm20608_trigger_handler register_file chip).0 ≡ some bytes)
    × ((icm20608_read_raw register_file 0 gyro_x raw (register_file.regmap_read 0x3A chip).1).0
        ≡ val_int (sample bytes 4))
pushed_samples_example =
    pushed_samples register_file at every register_file_laws 1 0 gyro_x chip refl refl

abbrev iio_kernel : Probe.IioKernel
iio_kernel = record {
  devm_iio_device_alloc = true;
  regmap_init_spi = 0;
  devm_iio_trigger_alloc = true;
  iio_device_register = 19;
}

abbrev kernel : Kernel
kernel = record {
  regmap_init_spi = 0;
  alloc_chrdev_region = 16;
  cdev_add = 0;
  class_create = 0;
  device_create = 0;
  spi_setup = 0;
  sysfs_create_group = 0;
}

abbrev late_kernel : Kernel
late_kernel = record {
  regmap_init_spi = 0;
  alloc_chrdev_region = 0;
  cdev_add = 0;
  class_create = 0;
  device_create = 0;
  spi_setup = 0;
  sysfs_create_group = 17;
}

probe_all_or_none_example :
    let r = ap3216c_probe i2c_bus late_kernel true [] chip in
    ((r.0 ≡ 0)
      × (r.1 ≡ files ∷ device ∷ class ∷ char_device ∷ region ∷ [])
      × (ap3216c_remove i2c_bus r.1 ≡ []))
    ⊎ ((r.0 ≢ 0) × (r.1 ≡ []))
probe_all_or_none_example = probe_all_or_none i2c_bus late_kernel true [] chip

-- 700 of infrared light, 65000 of ambient light and 5 of proximity, with an object near.
abbrev light_chip : RegisterFile
light_chip r =
    if r == 0x0A
    then 124
    else if r == 0x0B
    then 175
    else if r == 0x0C
    then 232
    else if r == 0x0D
    then 253
    else if r == 0x0E
    then 149
    else if r == 0x0F
    then 128
    else 0

light_chip-Holds : Holds (at light_chip) 700 65000 5
light_chip-Holds = record {
  ir_unused = 31;
  ps_unused = 1;
  object = 1;
  ps_high = 2;
  ir_unused_lt = omega arith;
  ps_unused_lt = omega arith;
  ir_low = refl;
  ir_rest = refl;
  als_low = refl;
  als_rest = refl;
  ps_low = refl;
  ps_rest = refl;
}

measurement_reported_example :
    (ap3216c_readdata i2c_bus light_chip).0 ≡ record { ir = 700; als = 65000; ps = 5 }
measurement_reported_example =
    measurement_reported i2c_bus at i2c_bus-IsSteady light_chip 700 65000 5 (omega arith)
      (omega arith) (omega arith) light_chip-Holds

abbrev still : Motion
still = record { gx = 0; gy = 0; gz = 0; ax = 1; ay = 2; az = 2048; temp = 25 }

same_driver_example :
    ((cnt uncopied : ℕ)
      → Spi.icm20608_read spi_bus cnt uncopied still chip
        ≡ SpiRegmap.icm20608_read register_file cnt uncopied still chip)
    × ((a : Attr)
        → Spi.icm20608_show spi_bus a still chip
          ≡ SpiRegmap.icm20608_show register_file a still chip)
    × (Spi.icm20608_init spi_bus chip ≡ SpiRegmap.icm20608_init register_file chip)
same_driver_example =
    same_driver register_file spi_bus still chip register_file-IsOverSpi spi_bus-IsFullDuplex
