-- ===== src/Gps/Checksum.antt =====
-- script/gps/main.c: `do_checksum`, the 8-bit Fletcher checksum of UBX frames.
pub mod Detect
use config_env.Prelude.{[], ℕ, ◌+◌, ◌-◌, ◌%◌, List, ◌∷◌, Bool, ◌&&◌, ◌==◌, get_or, take}

-- The loop over the bytes: `CK_A` and `CK_B` are `unsigned char`.
unfoldable pub fletcher : List ℕ → ℕ → ℕ → ℕ × ℕ
fletcher [] a b = (a, b)
fletcher (x ∷ xs) a b = let a' = (a + x) % 256 in fletcher xs a' ((b + a') % 256)

-- `do_checksum(buf, len)`, whose callers give `2 ≤ len`: the last two of the `len` bytes are the
-- checksum of those before them.
unfoldable pub do_checksum : List ℕ → ℕ → Bool
unfolding fletcher
do_checksum buf len =
    let (a, b) = fletcher (take (len - 2) buf) 0 0 in
    a == get_or buf (len - 2) 0 && b == get_or buf (len - 1) 0
