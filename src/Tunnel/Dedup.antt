-- ===== src/Tunnel/Dedup.antt =====
-- script/tun-vpn/ustun.c: `dedup_state`, the table of the packet numbers last seen.
pub mod Window
use config_env.Prelude.{ℕ, ◌-◌, ◌%◌, Bool, true, false, ◌==◌, if◌then◌else◌, ltb}
use config_env.Tunnel.Wire.{seq_map_size, conn_timeout}

-- An array whose indices are kept in range by `%`.
abbrev pub update : (ℕ → ℕ) → ℕ → ℕ → ℕ → ℕ
update f k v i = if i == k then v else f i

-- `dedup_state_t`; `last_update` in seconds. (`ts - last_update > 180` is false for an earlier `ts` in
-- C and here alike.)
pub record Dedup : Type 0 where
  pub seq_map : ℕ → ℕ
  pub last_update : ℕ

-- `memset(seq_map, 0x55AA, …)` writes the low byte of 0x55AA into each byte.
abbrev pub filler : ℕ
filler = 0xAAAA

abbrev pub cleared : ℕ → Dedup
cleared ts = record { seq_map = λ i. filler; last_update = ts }

-- The table is dropped after a silence of more than three minutes.
unfoldable pub expire : ℕ → Dedup → Dedup
expire ts d = if ltb conn_timeout (ts - d.last_update) then cleared ts else d

unfoldable pub look_up : ℕ → ℕ → Dedup → Bool × Dedup
look_up seq ts d =
    let idx = seq % seq_map_size in
    if d.seq_map idx == seq
    then (true, d)
    else (false, record { seq_map = update d.seq_map idx seq; last_update = ts })

-- Under `dedup_mutex`; `ts` is `time(NULL)` as read before the lock.
unfoldable pub is_duplicate : ℕ → ℕ → Dedup → Bool × Dedup
unfolding expire look_up
is_duplicate seq ts d = look_up seq ts (expire ts d)
