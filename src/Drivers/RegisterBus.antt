-- ===== src/Drivers/RegisterBus.antt =====
-- The chip of the register file on an I2C bus and on an SPI bus: with it the tests run the drivers.
use config_env.Prelude.{
  [], ℕ, zero, suc, ◌+◌, ◌-◌, ◌≡◌, refl, ap, List, ◌∷◌, ltb, if◌then◌else◌, none, some, length,
  replicate, arith,
}
use config_env.Drivers.Regmap.{contents}
use config_env.Drivers.RegisterFile.{RegisterFile, at, set_all, register_file}
use config_env.Drivers.Ap3216c.{sent, wanted, Transfer}
use config_env.Drivers.Ap3216c.Readings.{IsSteady, GivesBytes}
use config_env.Drivers.Motion.Spi.{Sync}
use config_env.Drivers.Motion.Same.{IsOverSpi, IsFullDuplex}

abbrev pub i2c_bus : Transfer RegisterFile
i2c_bus (sent (r ∷ []) ∷ wanted n ∷ []) c = (some (contents (at c) r n), c)
i2c_bus (sent (r ∷ vs) ∷ []) c = (some [], set_all r vs c)
i2c_bus messages c = (none, c)

pub i2c_bus-IsSteady : IsSteady i2c_bus at
i2c_bus-IsSteady = record { reads = λ r c. refl; keeps = λ r c. refl }

pub i2c_bus-GivesBytes : GivesBytes i2c_bus
i2c_bus-GivesBytes = record { byte = λ r c bs e. ground arith }

abbrev pub spi_bus : Sync RegisterFile
spi_bus [] c = (none, c)
spi_bus (a ∷ vs) c =
    if ltb a 128
    then (some (a ∷ vs), set_all a vs c)
    else (some (0 ∷ contents (at c) (a - 128) (length vs)), c)

length-contents : (f : ℕ → ℕ) (r n : ℕ) → length (contents f r n) ≡ n
length-contents f r zero = refl
length-contents f r (suc n) = ap suc (length-contents f (r + 1) n)

length-replicate : (n x : ℕ) → length (replicate n x) ≡ n
length-replicate zero x = refl
length-replicate (suc n) x = ap suc (length-replicate n x)

received-spi_bus :
    (tx : List ℕ) (c : RegisterFile) (rx : List ℕ)
    → (spi_bus tx c).0 ≡ some rx
    → length rx ≡ length tx
received-spi_bus [] c rx e = cc
received-spi_bus (a ∷ vs) c rx e = ground (arith, length-contents (at c) (a - 128) (length vs))

pub spi_bus-IsFullDuplex : IsFullDuplex spi_bus
spi_bus-IsFullDuplex = record { received = received-spi_bus }

pub register_file-IsOverSpi : IsOverSpi register_file spi_bus
register_file-IsOverSpi = record {
  bulk_reads = λ reg n c h. ground arith;
  bulk_fails = λ reg n c h e. ground arith;
  bulk_gives = λ reg n c b bs h e. ground (arith, length-replicate n 0);
  reads = λ reg c h. ground arith;
  writes = λ reg v c h hv. ground arith;
}
