-- ===== src/Drivers/Motion/Lifetime.antt =====
-- What the probes of the two character devices of the motion sensor hold and give back.
use config_env.Prelude.{List, ◌∷◌, ◌≡◌, ◌≢◌, ◌⊎◌, ◌&&◌, not, ◌==◌, if◌then◌else◌, arith}
use config_env.Drivers.Regmap.{Regmap}
use config_env.Drivers.Probe.{
  Resource, register_map, region, char_device, class, device, files, Kernel,
}
use config_env.Drivers.Motion.Spi
use config_env.Drivers.Motion.Spi.{Sync}
use config_env.Drivers.Motion.SpiRegmap

-- Whatever the kernel's calls return, a probe of the SPI driver that fails holds what was held before
-- it, and after one that succeeds, the removal of the driver gives everything back.
spi_all_or_none :
    {Chip : Type 0} (spi_sync : Sync Chip) (k : Kernel) (held : List Resource) (c : Chip)
    → let r = Spi.icm20608_probe spi_sync k held c in
      ((r.0 ≡ 0)
        × (r.1 ≡ files ∷ device ∷ class ∷ char_device ∷ region ∷ held)
        × (Spi.icm20608_remove r.1 ≡ held))
      ⊎ ((r.0 ≢ 0) × (r.1 ≡ held))
unfolding Spi.icm20608_probe
spi_all_or_none spi_sync k held c = ground arith

-- The same of the driver over a register map, with one exception: when the register map was made and
-- the numbers of the character device are refused, the probe fails and holds the register map.
pub regmap_leaks :
    {Chip : Type 0} (rm : Regmap Chip) (k : Kernel) (held : List Resource) (c : Chip)
    → let r = SpiRegmap.icm20608_probe rm k held c in
      ((r.0 ≡ 0)
        × (r.1 ≡ files ∷ device ∷ class ∷ char_device ∷ region ∷ register_map ∷ held)
        × (SpiRegmap.icm20608_remove r.1 ≡ held))
      ⊎ ((r.0 ≢ 0)
          × (r.1 ≡ (
              if k.regmap_init_spi == 0 && not (k.alloc_chrdev_region == 0)
              then register_map ∷ held
              else held)))
unfolding SpiRegmap.icm20608_probe
regmap_leaks rm k held c = ground arith
