-- ===== src/Drivers/RegisterFile.antt =====
-- A chip whose registers hold what is written: with it the tests run the drivers.
use config_env.Prelude.{
  [], ℕ, ◌+◌, ◌%◌, refl, List, ◌∷◌, Bool, true, ◌==◌, if◌then◌else◌, some, arith,
}
use config_env.Drivers.Regmap.{Regmap, contents, IsRegmap}

-- The contents of every register.
abbrev pub RegisterFile : Type 0
RegisterFile = ℕ → ℕ

abbrev pub at : RegisterFile → ℕ → ℕ
at c r = c r % 256

abbrev pub set : ℕ → ℕ → RegisterFile → RegisterFile
set r v c j = if j == r then v else c j

abbrev pub set_all : ℕ → List ℕ → RegisterFile → RegisterFile
set_all r [] c = c
set_all r (v ∷ vs) c = set r v (set_all (r + 1) vs c)

abbrev pub register_file : Regmap RegisterFile
register_file = record {
  regmap_read = λ r c. (some (at c r), c);
  regmap_write = λ r v c. (0, set r v c);
  regmap_bulk_read = λ r n c. (some (contents (at c) r n), c);
  regmap_bulk_write = λ r vs c. (0, set_all r vs c);
}

abbrev pub every : ℕ → Bool
every r = true

pub register_file_laws : IsRegmap register_file at every
register_file_laws = record {
  bytes = λ c r. omega arith;
  reads = λ r c. refl;
  read_keeps = λ r j c p. refl;
  writes = λ r v c. refl;
  write_sets = λ r v j c p q h. ground arith;
  bulk_reads = λ r n c. refl;
  bulk_read_keeps = λ r n j c p. refl;
  bulk_writes = λ r vs c. refl;
  bulk_write_sets = λ r hi lo j c p h l. ground arith;
}
