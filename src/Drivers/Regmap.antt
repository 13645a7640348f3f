-- ===== src/Drivers/Regmap.antt =====
-- The kernel's register maps with 8-bit registers, as the drivers under driver/ use them: a parameter.
-- A chip, with the bus to it, is a value of any type.
use config_env.Prelude.{
  [], ℕ, zero, suc, ◌+◌, ◌<◌, ◌≡◌, List, ◌∷◌, Bool, true, ◌==◌, if◌then◌else◌, Option, some,
}

-- Reads give `none`, and writes another number than 0, where the kernel returns an error.
pub record Regmap (Chip : Type 0) : Type 0 where
  pub regmap_read : ℕ → Chip → Option ℕ × Chip
  pub regmap_write : ℕ → ℕ → Chip → ℕ × Chip
  pub regmap_bulk_read : (reg count : ℕ) → Chip → Option (List ℕ) × Chip
  pub regmap_bulk_write : ℕ → List ℕ → Chip → ℕ × Chip

-- The contents of registers one after another.
abbrev pub contents : (ℕ → ℕ) → (reg count : ℕ) → List ℕ
contents at reg zero = []
contents at reg (suc n) = at reg ∷ contents at (reg + 1) n

-- What the drivers rely on while no transfer fails: reads give what the registers hold; a register that
-- is `plain` (configuration, which the chip itself leaves alone) holds what was written last, and
-- reading changes no such register.
pub record IsRegmap {Chip : Type 0} (rm : Regmap Chip) (at : Chip → ℕ → ℕ) (plain : ℕ → Bool)
    : Type 0 where
  pub bytes : (c : Chip) (r : ℕ) → at c r < 256
  pub reads : (r : ℕ) (c : Chip) → (rm.regmap_read r c).0 ≡ some (at c r)
  pub read_keeps : (r j : ℕ) (c : Chip) → plain j ≡ true → at (rm.regmap_read r c).1 j ≡ at c j
  pub writes : (r v : ℕ) (c : Chip) → (rm.regmap_write r v c).0 ≡ 0
  pub write_sets :
      (r v j : ℕ) (c : Chip)
      → plain r ≡ true
      → plain j ≡ true
      → v < 256
      → at (rm.regmap_write r v c).1 j ≡ (if j == r then v else at c j)
  pub bulk_reads : (r n : ℕ) (c : Chip) → (rm.regmap_bulk_read r n c).0 ≡ some (contents (at c) r n)
  pub bulk_read_keeps :
      (r n j : ℕ) (c : Chip) → plain j ≡ true → at (rm.regmap_bulk_read r n c).1 j ≡ at c j
  pub bulk_writes : (r : ℕ) (vs : List ℕ) (c : Chip) → (rm.regmap_bulk_write r vs c).0 ≡ 0
  pub bulk_write_sets :
      (r hi lo j : ℕ) (c : Chip)
      → plain j ≡ true
      → hi < 256
      → lo < 256
      → at (rm.regmap_bulk_write r (hi ∷ lo ∷ []) c).1 j
        ≡ (if j == r then hi else if j == r + 1 then lo else at c j)
