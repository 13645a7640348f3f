-- ===== src/Drivers/Ap3216c/Lifetime.antt =====
-- What the probe of driver/i2c/ap3216c/ap3216c.c holds and gives back.
use config_env.Prelude.{List, ◌∷◌, ◌≡◌, ◌≢◌, Bool, arith, ◌⊎◌}
use config_env.Drivers.Probe.{Resource, region, char_device, class, device, files, Kernel}
use config_env.Drivers.Ap3216c.{
  Transfer, ap3216c_probe, ap3216c_remove, ap3216c_write_single_reg, ap3216c_write_regs,
}

module _ {Chip : Type 0} (i2c_transfer : Transfer Chip) where
  -- Whatever the calls of the kernel and the transfers return, a probe that fails holds what was held
  -- before it, and after one that succeeds, the removal of the driver gives everything back.
  pub probe_all_or_none :
      (k : Kernel) (i2c_check : Bool) (held : List Resource) (c : Chip)
      → let r = ap3216c_probe i2c_transfer k i2c_check held c in
        ((r.0 ≡ 0)
          × (r.1 ≡ files ∷ device ∷ class ∷ char_device ∷ region ∷ held)
          × (ap3216c_remove i2c_transfer r.1 ≡ held))
        ⊎ ((r.0 ≢ 0) × (r.1 ≡ held))
  unfolding ap3216c_probe ap3216c_write_single_reg ap3216c_write_regs
  probe_all_or_none k i2c_check held c = ground arith
