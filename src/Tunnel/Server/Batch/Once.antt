-- ===== src/Tunnel/Server/Batch/Once.antt =====
-- What the server (script/tun-vpn/ustun.c) writes when packets come late, twice, or not at all.
use config_env.Prelude.{
  [], ℕ, ◌+◌, ◌-◌, ◌%◌, ◌^◌, ◌≤◌, ◌<◌, List, ◌∷◌, ◌≡◌, refl, ◌∙◌, ap, ◌≢◌, subst, Bool, true, false,
  ◌||◌, ◌==◌, if◌then◌else◌, Bool-cases, inl, inr, arith,
}
use config_env.Tunnel.Wire.{seq_map_size, conn_timeout}
use config_env.Tunnel.Codec.{Codec}
use config_env.Tunnel.Dedup.{Dedup, is_duplicate}
use config_env.Tunnel.Server.{Server}
use config_env.Tunnel.Server.Batch.{
  Arrival, AllPlain, content, passed, Writes, receive_batch-passed,
}

-- `x` is one of the `k` numbers from `n` on, where 0 comes after 65535.
abbrev pub InWindow : (n k x : ℕ) → Type 0
InWindow n k x = (x < 2 ^ 16) × ((x + 2 ^ 16 - n) % 2 ^ 16 < k)

-- Two of 8192 numbers in a row have places of their own.
pub window_places :
    (n x y : ℕ)
    → n < 2 ^ 16
    → InWindow n seq_map_size x
    → InWindow n seq_map_size y
    → x % seq_map_size ≡ y % seq_map_size
    → x ≡ y
window_places n x y small wx wy e = omega arith

abbrev pub is_in : ℕ → List ℕ → Bool
is_in x [] = false
is_in x (y ∷ ys) = y == x || is_in x ys

-- The specification: of the packets, in the order of their arrival, those whose number did not come
-- before.
abbrev pub first_copies : (seen : List ℕ) → List Arrival → List (List ℕ)
first_copies seen [] = []
first_copies seen (a ∷ batch) =
    let others = first_copies seen batch in
    let rest = first_copies (a.message.header.seq ∷ seen) batch in
    if is_in a.message.header.seq seen then others else content a.message ∷ rest

-- All the numbers are of the window, and all come within three minutes of `t`.
abbrev pub Timely : (n t : ℕ) → List Arrival → Type 0
Timely n t [] = Unit {0}
Timely n t (a ∷ batch) =
    InWindow n seq_map_size a.message.header.seq
    × (t ≤ a.ts)
    × (a.ts ≤ t + conn_timeout)
    × Timely n t batch

-- The table holds a number of the window exactly if it was seen.
abbrev pub Agrees : (n : ℕ) → List ℕ → Dedup → Type 0
Agrees n seen d =
    (x : ℕ) → InWindow n seq_map_size x → (d.seq_map (x % seq_map_size) == x) ≡ is_in x seen

abbrev pub mark : (seq ts : ℕ) → Dedup → Dedup
mark seq ts d = record {
  seq_map = λ i. if i == seq % seq_map_size then seq else d.seq_map i;
  last_update = ts;
}

module _ (t : ℕ) (d : Dedup) (seq ts : ℕ) (recent : t ≤ d.last_update)
    (soon : ts ≤ t + conn_timeout) where
  pub duplicate-seen :
      (d.seq_map (seq % seq_map_size) == seq) ≡ true → is_duplicate seq ts d ≡ (true, d)
  unfolding is_duplicate
  duplicate-seen e = ground arith

  pub duplicate-new :
      (d.seq_map (seq % seq_map_size) == seq) ≡ false
      → is_duplicate seq ts d ≡ (false, mark seq ts d)
  unfolding is_duplicate
  duplicate-new e = ground arith

module _ (n t : ℕ) (small : n < 2 ^ 16) where
  Agrees-new :
      (seen : List ℕ) (d : Dedup) (seq ts : ℕ)
      → InWindow n seq_map_size seq
      → Agrees n seen d
      → Agrees n (seq ∷ seen) (mark seq ts d)
  Agrees-new seen d seq ts w h x wx = ground (arith, h x wx, window_places n x seq small wx w)

  pub passed-first_copies :
      (batch : List Arrival) (seen : List ℕ) (d : Dedup)
      → Timely n t batch
      → t ≤ d.last_update
      → Agrees n seen d
      → passed batch d ≡ first_copies seen batch
  unfolding passed
  passed-first_copies [] seen d timely recent h = refl
  passed-first_copies (a ∷ batch) seen d (w, from, to, timely) recent h =
      let seq = a.message.header.seq in
      elim (Bool-cases (is_in seq seen)) [
        | inl old ↦
            rw (old, duplicate-seen t d seq a.ts recent to (h seq w ∙ old))
              (passed-first_copies batch seen d timely recent h)
        | inr new ↦
            rw (new, duplicate-new t d seq a.ts recent to (h seq w ∙ new))
              (ap (λ outs. content a.message ∷ outs)
                (passed-first_copies batch (seq ∷ seen) _ timely from
                  (Agrees-new seen d seq a.ts w h)))
      ]

-- Whatever the network does to whole packets whose numbers are among 8192 in a row, that is lose them,
-- repeat them, change their order or send them over both paths, the server writes each packet that
-- arrives exactly once, at its first arrival: if they arrive within three minutes, the table of numbers
-- is younger than that, and it holds none of the numbers at the start.
pub batch_written-first_copies :
    (rs : Codec) (n t : ℕ) (batch : List Arrival) (s : Server)
    → n < 2 ^ 16
    → AllPlain batch
    → Timely n t batch
    → t ≤ s.dedup.last_update
    → ((x : ℕ) → InWindow n seq_map_size x → s.dedup.seq_map (x % seq_map_size) ≢ x)
    → Writes rs batch s (first_copies [] batch)
batch_written-first_copies rs n t batch s small plain timely recent fresh =
    subst (Writes rs batch s)
      (passed-first_copies n t small batch [] s.dedup timely recent
        (λ x w. ground (arith, fresh x w)))
      (receive_batch-passed rs batch s plain)
