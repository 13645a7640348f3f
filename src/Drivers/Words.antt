-- ===== src/Drivers/Words.antt =====
-- The conversions between bytes and the kernel's `short` and `__be16` that the sensor drivers use.
use config_env.Prelude.{
  [], ℕ, ◌+◌, ◌-◌, ◌*◌, ◌/◌, ◌%◌, ◌^◌, ◌≡◌, ltb, if◌then◌else◌, arith, ℤ, pos, negsuc, ◌≤ℤ◌, List,
  ◌∷◌,
}

-- `be16_to_cpup`, and `(hi << 8) | lo`: the operands of `|` share no bit.
abbrev pub be16 : (hi lo : ℕ) → ℕ
be16 hi lo = hi * 256 + lo

-- The cast of a 16-bit pattern to `short`.
abbrev pub to_short : ℕ → ℤ
to_short n = if ltb n (2 ^ 15) then pos n else negsuc (2 ^ 16 - n - 1)

-- The cast of an `int` to 16 bits.
abbrev pub to_u16 : ℤ → ℕ
to_u16 (pos n) = n % 2 ^ 16
to_u16 (negsuc n) = 2 ^ 16 - 1 - n % 2 ^ 16

-- `cpu_to_be16(val)` as the two bytes in memory.
abbrev pub cpu_to_be16 : ℤ → List ℕ
cpu_to_be16 val = to_u16 val / 256 ∷ to_u16 val % 256 ∷ []

-- An `int` that fits a `short` survives the way through two bytes.
pub to_short-to_u16 :
    (val : ℤ)
    → negsuc (2 ^ 15 - 1) ≤ℤ val
    → val ≤ℤ pos (2 ^ 15 - 1)
    → to_short (be16 (to_u16 val / 256) (to_u16 val % 256)) ≡ val
to_short-to_u16 (pos n) lo hi = ground arith
to_short-to_u16 (negsuc n) lo hi = ground arith
