-- ===== src/Drivers/Iio/Probe.antt =====
-- driver/iio/icm20608/icm20608.c: the probe and the removal. What the kernel frees with the device by
-- itself (`devm_`) is left out.
use config_env.Prelude.{
  [], ℕ, List, ◌∷◌, ◌++◌, ◌≡◌, ◌≢◌, ◌⊎◌, Bool, false, not, ◌==◌, if◌then◌else◌, arith,
}
use config_env.Drivers.Regmap.{Regmap}
use config_env.Drivers.Iio.{icm20608_reginit}

pub data Owned : Type 0 where
  register_map iio_device : Owned

-- The results that decide: the others are only printed, or not looked at.
pub record IioKernel : Type 0 where
  pub devm_iio_device_alloc : Bool
  pub regmap_init_spi : ℕ
  pub devm_iio_trigger_alloc : Bool
  pub iio_device_register : ℕ

-- What is held, and what was given back without being held.
pub record Ledger : Type 0 where
  pub held : List Owned
  pub unowned : List Owned

abbrev pub ledger : List Owned → List Owned → Ledger
ledger h u = record { held = h; unowned = u }

-- `regmap_exit` and `iio_device_unregister`
abbrev pub regmap_exit : List Owned → Ledger
regmap_exit [] = ledger [] (register_map ∷ [])
regmap_exit (register_map ∷ h) = ledger h []
regmap_exit (iio_device ∷ h) = ledger (iio_device ∷ (regmap_exit h).held) (regmap_exit h).unowned

abbrev pub iio_device_unregister : List Owned → Ledger
iio_device_unregister [] = ledger [] (iio_device ∷ [])
iio_device_unregister (iio_device ∷ h) = ledger h []
iio_device_unregister (register_map ∷ h) =
    ledger (register_map ∷ (iio_device_unregister h).held) (iio_device_unregister h).unowned

-- 0, or the number of the error: ENOMEM is 12. All three labels are one place.
unfoldable pub icm20608_probe :
    {Chip : Type 0} → Regmap Chip → (unset : ℕ) → IioKernel → Chip → ℕ × Ledger × Chip
icm20608_probe rm unset k c =
    let h1 = register_map ∷ [] in
    let h2 = iio_device ∷ h1 in
    if not k.devm_iio_device_alloc
    then (12, ledger [] [], c)
    else if not (k.regmap_init_spi == 0)
    then (k.regmap_init_spi, iio_device_unregister [], c)
    else if not k.devm_iio_trigger_alloc
    then (12, iio_device_unregister h1, c)
    else if not (k.iio_device_register == 0)
    then (k.iio_device_register, iio_device_unregister h1, c)
    else (0, ledger h2 [], icm20608_reginit rm unset c)

abbrev pub icm20608_remove : List Owned → Ledger
icm20608_remove held =
    let first = regmap_exit held in
    let second = iio_device_unregister first.held in
    ledger second.held (second.unowned ++ first.unowned)

-- A probe that succeeds holds the register map and the device, and the removal gives both back. One
-- that fails, other than for want of memory at its start, takes back a device that it has not
-- registered, and keeps the register map where it has made one.
failed_probe_unregisters :
    {Chip : Type 0} (rm : Regmap Chip) (unset : ℕ) (k : IioKernel) (c : Chip)
    → let r = icm20608_probe rm unset k c in
      ((r.0 ≡ 0) × (r.2 ≡ icm20608_reginit rm unset c) × (icm20608_remove r.1.held ≡ ledger [] []))
      ⊎ ((r.0 ≡ 12) × (k.devm_iio_device_alloc ≡ false) × (r.1 ≡ ledger [] []) × (r.2 ≡ c))
      ⊎ ((r.0 ≢ 0)
          × (r.2 ≡ c)
          × (r.1
              ≡ ledger
                  (if k.regmap_init_spi == 0 then register_map ∷ [] else [])
                  (iio_device ∷ [])))
unfolding icm20608_probe
failed_probe_unregisters rm unset k c = ground arith
