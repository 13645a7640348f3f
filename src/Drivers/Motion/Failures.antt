-- ===== src/Drivers/Motion/Failures.antt =====
-- What the character device of driver/spi/icm-20608/icm20608.c shows when a transfer fails.
use config_env.Prelude.{ℕ, ◌+◌, ◌∷◌, ◌≡◌, none, replicate, arith}
use config_env.Drivers.Iio.Registers.{accel_xout_h}
use config_env.Drivers.Motion.{Motion, Attr, shown}
use config_env.Drivers.Motion.Spi.{
  Sync, icm20608_read_regs, icm20608_readdata, icm20608_read, icm20608_show,
}

-- When the sensor cannot be read, a read of the device fails, but a file in sysfs shows the value of an
-- earlier read, and no error. The values that are kept do not change.
stale_shown :
    {Chip : Type 0} (spi_sync : Sync Chip) (a : Attr) (cnt uncopied : ℕ) (m : Motion) (c : Chip)
    → (spi_sync ((accel_xout_h + 128) ∷ replicate 14 0) c).0 ≡ none
    → ((icm20608_read spi_sync cnt uncopied m c).0 ≡ none)
      × ((icm20608_show spi_sync a m c).0 ≡ shown a m)
      × ((icm20608_show spi_sync a m c).1 ≡ m)
unfolding icm20608_read icm20608_show icm20608_readdata icm20608_read_regs
stale_shown spi_sync a cnt uncopied m c e = ground arith
