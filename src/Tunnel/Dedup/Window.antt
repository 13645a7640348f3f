-- ===== src/Tunnel/Dedup/Window.antt =====
-- What `is_duplicate` (script/tun-vpn/ustun.c) remembers, against the history of its calls.
use config_env.Prelude.{
  [], ℕ, ◌+◌, ◌%◌, ◌≤◌, List, ◌∷◌, ◌≡◌, refl, Bool, true, ◌&&◌, ◌||◌, ◌==◌, if◌then◌else◌, arith,
  not, ◌++◌, ◌∙◌,
}
use config_env.Tunnel.Wire.{seq_map_size, conn_timeout}
use config_env.Tunnel.Dedup.{Dedup, filler, cleared, is_duplicate}

-- A call: the packet number and the time.
abbrev pub Call : Type 0
Call = ℕ × ℕ

-- The state after a history of calls, the latest call first.
pub after : Dedup → List Call → Dedup
after d [] = d
after d ((seq, ts) ∷ calls) = (is_duplicate seq ts (after d calls)).1

-- The specification: the last number before, if any, that falls into the same place of the table.
pub last_in_slot : ℕ → List Call → ℕ
last_in_slot idx [] = filler
last_in_slot idx ((seq, ts) ∷ calls) =
    if seq % seq_map_size == idx then seq else last_in_slot idx calls

-- All the calls are within `conn_timeout` of `t`.
abbrev pub Within : ℕ → List Call → Type 0
Within t [] = Unit {0}
Within t ((seq, ts) ∷ calls) = (t ≤ ts) × (ts ≤ t + conn_timeout) × Within t calls

module _ (t : ℕ) where
  after-last_update :
      (calls : List Call) → Within t calls → t ≤ (after (cleared t) calls).last_update
  unfolding after is_duplicate
  after-last_update [] w = omega arith
  after-last_update ((seq, ts) ∷ calls) w = ground (arith, after-last_update calls)

  after-seq_map :
      (calls : List Call) (idx : ℕ)
      → Within t calls
      → (after (cleared t) calls).seq_map idx ≡ last_in_slot idx calls
  unfolding after is_duplicate last_in_slot
  after-seq_map [] idx w = refl
  after-seq_map ((seq, ts) ∷ calls) idx w = ground (
    arith,
    after-last_update calls,
    after-seq_map calls idx,
    after-seq_map calls (seq % seq_map_size),
  )

  -- In the three minutes after the table is cleared, a packet counts as a duplicate exactly when its
  -- number equals the last one before it that falls into the same of the 8192 places, where a place
  -- without any counts as holding 0xAAAA.
  pub is_duplicate-last :
      (calls : List Call) (seq ts : ℕ)
      → Within t ((seq, ts) ∷ calls)
      → (is_duplicate seq ts (after (cleared t) calls)).0
        ≡ (last_in_slot (seq % seq_map_size) calls == seq)
  unfolding is_duplicate
  is_duplicate-last calls seq ts w =
      ground (arith, after-last_update calls, after-seq_map calls (seq % seq_map_size))

-- No call of the list is about another number in the place of `seq`.
abbrev pub undisturbed : ℕ → List Call → Bool
undisturbed seq [] = true
undisturbed seq ((s, ts) ∷ calls) =
    (s == seq || not (s % seq_map_size == seq % seq_map_size)) && undisturbed seq calls

last_in_slot-undisturbed :
    (seq : ℕ) (later calls : List Call)
    → undisturbed seq later ≡ true
    → last_in_slot (seq % seq_map_size) calls ≡ seq
    → last_in_slot (seq % seq_map_size) (later ++ calls) ≡ seq
unfolding last_in_slot
last_in_slot-undisturbed seq [] calls h e = e
last_in_slot-undisturbed seq ((s, ts) ∷ later) calls h e =
    ground (arith, last_in_slot-undisturbed seq later calls)

-- A copy of a packet is dropped, however many packets came in between, if none of those had another
-- number of the same place (so never for fewer than 8192 numbers in a row), within three minutes.
copy_dropped :
    (t seq first ts : ℕ) (later earlier : List Call)
    → Within t ((seq, ts) ∷ (later ++ (seq, first) ∷ earlier))
    → undisturbed seq later ≡ true
    → (is_duplicate seq ts (after (cleared t) (later ++ (seq, first) ∷ earlier))).0 ≡ true
unfolding last_in_slot
copy_dropped t seq first ts later earlier w h = ground (
  arith,
  is_duplicate-last t (later ++ (seq, first) ∷ earlier) seq ts w,
  last_in_slot-undisturbed seq later ((seq, first) ∷ earlier),
)

-- No call of the list falls into the place of `seq`.
abbrev pub untouched : ℕ → List Call → Bool
untouched seq [] = true
untouched seq ((s, ts) ∷ calls) =
    not (s % seq_map_size == seq % seq_map_size) && untouched seq calls

last_in_slot-untouched :
    (seq : ℕ) (calls : List Call)
    → untouched seq calls ≡ true
    → last_in_slot (seq % seq_map_size) calls ≡ filler
unfolding last_in_slot
last_in_slot-untouched seq [] h = refl
last_in_slot-untouched seq ((s, ts) ∷ calls) h = ground (arith, last_in_slot-untouched seq calls)

-- The first packet of its place after the table was cleared is let through, unless its number is the
-- filler 0xAAAA: that packet is dropped although no copy of it was seen.
first_of_slot :
    (t seq ts : ℕ) (calls : List Call)
    → Within t ((seq, ts) ∷ calls)
    → untouched seq calls ≡ true
    → (is_duplicate seq ts (after (cleared t) calls)).0 ≡ (0xAAAA == seq)
first_of_slot t seq ts calls w h =
    is_duplicate-last t calls seq ts w ∙ rw (last_in_slot-untouched seq calls h)
