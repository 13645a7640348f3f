-- ===== src/Drivers/Motion/SpiRegmap.antt =====
-- driver/regmap/icm-20608/icm20608.c
use config_env.Prelude.{
  ℕ, List, ◌∷◌, Bool, true, false, not, ◌==◌, if◌then◌else◌, Option, none, some,
}
use config_env.Drivers.Probe.{
  Resource, register_map, region, char_device, class, device, files, Kernel, release,
}
use config_env.Drivers.Regmap.{Regmap}
use config_env.Drivers.Iio.Registers.{
  pwr_mgmt_1, pwr_mgmt_2, who_am_i, smplrt_div, gyro_config, accel_config, config, accel_config2,
  lp_mode_cfg, accel_xout_h,
}
use config_env.Drivers.Motion.Spi.{fifo_en}
use config_env.Drivers.Motion.{Motion, motion_of, Attr, shown, copied}

module _ {Chip : Type 0} (rm : Regmap Chip) where
  abbrev pub icm20608_read_reg : ℕ → Chip → Option ℕ × Chip
  icm20608_read_reg reg c = rm.regmap_read reg c

  abbrev pub icm20608_write_reg : (reg data' : ℕ) → Chip → Chip
  icm20608_write_reg reg data' c = (rm.regmap_write reg data' c).1

  -- Whether 0 is returned and not an error, and the values that are kept.
  unfoldable pub icm20608_readdata : Motion → Chip → Bool × Motion × Chip
  icm20608_readdata m c =
      let (result, c') = rm.regmap_bulk_read accel_xout_h 14 c in
      elim result [ none ↦ (false, m, c') | some bytes ↦ (true, motion_of bytes, c') ]

  -- The result of `icm20608_readdata` is not looked at.
  unfoldable pub icm20608_show : Attr → Motion → Chip → ℕ × Motion × Chip
  icm20608_show a m c = let (ok, m', c') = icm20608_readdata m c in (shown a m', m', c')

  -- The bytes that the caller finds in its buffer, or `none` for an error.
  unfoldable pub icm20608_read :
      (cnt uncopied : ℕ) → Motion → Chip → Option (List ℕ) × Motion × Chip
  icm20608_read cnt uncopied m c =
      let (ok, m', c') = icm20608_readdata m c in
      (if ok then some (copied cnt uncopied m') else none, m', c')

  -- The delays and the message with the chip's id are left out.
  unfoldable pub icm20608_init : Chip → Chip
  icm20608_init c =
      let c1 = icm20608_write_reg pwr_mgmt_1 0x80 c in
      let c2 = icm20608_write_reg pwr_mgmt_1 0x01 c1 in
      let c3 = (icm20608_read_reg who_am_i c2).1 in
      let c4 = icm20608_write_reg smplrt_div 0x00 c3 in
      let c5 = icm20608_write_reg gyro_config 0x18 c4 in
      let c6 = icm20608_write_reg accel_config 0x18 c5 in
      let c7 = icm20608_write_reg config 0x04 c6 in
      let c8 = icm20608_write_reg accel_config2 0x04 c7 in
      let c9 = icm20608_write_reg pwr_mgmt_2 0x00 c8 in
      let c10 = icm20608_write_reg lp_mode_cfg 0x00 c9 in icm20608_write_reg fifo_en 0x00 c10

abbrev pub fail_cdev_add : List Resource → List Resource
fail_cdev_add held = release register_map (release region held)

abbrev pub fail_class_create : List Resource → List Resource
fail_class_create held = fail_cdev_add (release char_device held)

abbrev pub fail_device_create : List Resource → List Resource
fail_device_create held = fail_class_create (release class held)

abbrev pub fail_device : List Resource → List Resource
fail_device held = fail_device_create (release device held)

-- 0, or the number of the error; and the resources that are held afterwards.
unfoldable pub icm20608_probe :
    {Chip : Type 0} → Regmap Chip → Kernel → List Resource → Chip → ℕ × List Resource × Chip
icm20608_probe rm k held c =
    let h0 = register_map ∷ held in
    let h1 = region ∷ h0 in
    let h2 = char_device ∷ h1 in
    let h3 = class ∷ h2 in
    let h4 = device ∷ h3 in
    let c' = icm20608_init rm c in
    if not (k.regmap_init_spi == 0)
    then (k.regmap_init_spi, held, c)
    else if not (k.alloc_chrdev_region == 0)
    then (k.alloc_chrdev_region, h0, c)
    else if not (k.cdev_add == 0)
    then (k.cdev_add, fail_cdev_add h1, c)
    else if not (k.class_create == 0)
    then (k.class_create, fail_class_create h2, c)
    else if not (k.device_create == 0)
    then (k.device_create, fail_device_create h3, c)
    else if not (k.spi_setup == 0)
    then (k.spi_setup, fail_device h4, c)
    else if k.sysfs_create_group == 0
    then (0, files ∷ h4, c')
    else (k.sysfs_create_group, fail_device h4, c')

abbrev pub icm20608_remove : List Resource → List Resource
icm20608_remove held =
    release register_map
      (release region (release char_device (release class (release device (release files held)))))
