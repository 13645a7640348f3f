-- ===== src/Prelude/Strings.antt =====
-- The texts of the C sources: bytes up to a NUL.
use Prim.Native.Nat.{ℕ}
use mathlib.Core.List.{[], List, ◌∷◌}
use config_env.Prelude.Tests.{◌==◌, if◌then◌else◌}

-- The bytes up to the first NUL, as `strlen` and `%s` see them.
abbrev pub c_string : List ℕ → List ℕ
c_string [] = []
c_string (b ∷ bs) = if b == 0 then [] else b ∷ c_string bs
