-- ===== src/Gps/Dump/Retries.antt =====
-- The retries of `dump_ubx_cfg` (script/gps/main.c).
use config_env.Prelude.{
  [], ℕ, zero, suc, ◌+◌, ◌<◌, List, ◌∷◌, ◌++◌, ◌≡◌, refl, ap, subst, ◌∙◌, append-nil, inl, inr,
  Bool, true, false, Bool-cases, arith, length, some, get_elem?,
}
use config_env.Gps.Types.{CfgPoll}
use config_env.Gps.Tables.{ubx_debug_message}
use config_env.Gps.Poll.{pending, ok, nak, cksum_err}
use config_env.Gps.Dump.{Line, Outcome, settles, retry, dump, cfg_polls, dump_ubx_cfg, debug_writes}

-- An outcome as `poll_ubx_data` gives it: a line on success, and nothing in the file otherwise.
abbrev pub OneLine : Outcome → Type 0
OneLine (ok, w) = length w ≡ 1
OneLine (pending, w) = w ≡ []
OneLine (nak, w) = w ≡ []
OneLine (cksum_err, w) = w ≡ []

-- An entry of the dump from attempt `first` on: no attempt before the last settled the message, the
-- last one did unless it was the final try, and the lines are those of the last attempt.
pub record IsEntry (poll : ℕ → Outcome) (limit first : ℕ) (lines : List Line) (made : ℕ)
    : Type 0 where
  pub last : ℕ
  pub counted : made ≡ suc last
  pub few : last < limit
  pub retried : (k : ℕ) → k < last → settles (poll (first + k)).0 ≡ false
  pub settled : suc last < limit → settles (poll (first + last)).0 ≡ true
  pub lines_of_last : lines ≡ (poll (first + last)).1

unsettled_nothing : (o : Outcome) → OneLine o → settles o.0 ≡ false → o.1 ≡ []
unsettled_nothing (pending, w) h e = h
unsettled_nothing (ok, w) h e = cc
unsettled_nothing (nak, w) h e = h
unsettled_nothing (cksum_err, w) h e = h

module _ (poll : ℕ → Outcome) where
  IsEntry-now :
      (left n : ℕ)
      → (1 < suc left → settles (poll n).0 ≡ true)
      → IsEntry poll (suc left) n (poll n).1 1
  IsEntry-now left n h = record {
    last = 0;
    counted = refl;
    few = omega arith;
    retried = λ k l. absurd (omega arith);
    settled = λ l. ap (λ (t : ℕ). settles (poll t).0) (omega arith) ∙ h l;
    lines_of_last = ap (λ (t : ℕ). (poll t).1) (omega arith);
  }

  later_retried :
      (n last : ℕ)
      → settles (poll n).0 ≡ false
      → ((k : ℕ) → k < last → settles (poll (n + 1 + k)).0 ≡ false)
      → (k : ℕ) → k < suc last
      → settles (poll (n + k)).0 ≡ false
  later_retried n last e h zero l = ap (λ (t : ℕ). settles (poll t).0) (omega arith) ∙ e
  later_retried n last e h (suc k) l =
      ap (λ (t : ℕ). settles (poll t).0) (omega arith) ∙ h k (omega arith)

  IsEntry-later :
      (left n : ℕ) {more : List Line} {made : ℕ}
      → settles (poll n).0 ≡ false
      → (poll n).1 ≡ []
      → IsEntry poll left (n + 1) more made
      → IsEntry poll (suc left) n ((poll n).1 ++ more) (made + 1)
  IsEntry-later left n e nothing ih = record {
    last = suc ih.last;
    counted = omega (arith, ih.counted);
    few = omega (arith, ih.few);
    retried = later_retried n ih.last e ih.retried;
    settled = λ l. ap (λ (t : ℕ). settles (poll t).0) (omega arith) ∙ ih.settled (omega arith);
    lines_of_last = rw nothing (ih.lines_of_last ∙ ap (λ (t : ℕ). (poll t).1) (omega arith));
  }

  retry-IsEntry :
      ((n : ℕ) → OneLine (poll n))
      → (left n : ℕ)
      → IsEntry poll (suc left) n (retry (suc left) poll n).0 (retry (suc left) poll n).1
  unfolding retry
  retry-IsEntry one zero n = elim (Bool-cases (settles (poll n).0)) [
    | inl e ↦ rw e (IsEntry-now 0 n (λ l. absurd (omega arith)))
    | inr e ↦ rw (e, append-nil) (IsEntry-now 0 n (λ l. absurd (omega arith)))
  ]
  retry-IsEntry one (suc left) n = elim (Bool-cases (settles (poll n).0)) [
    | inl e ↦ rw e (IsEntry-now (suc left) n (λ l. e))
    | inr e ↦ rw e (
        IsEntry-later (suc left) n e (unsettled_nothing (poll n) (one n) e)
          (retry-IsEntry one left (n + 1)))
  ]

module _ (poll : CfgPoll → ℕ → ℕ → Outcome)
    (one : (m : CfgPoll) (i n : ℕ) → OneLine (poll m i n)) where
  dump-IsEntry :
      (stop : ℕ → Bool) (ms : List CfgPoll) (i k : ℕ) {entry : List Line × ℕ}
      → get_elem? (dump ms poll stop i) k ≡ some entry
      → (m : CfgPoll) × (get_elem? ms k ≡ some m) × IsEntry (poll m (i + k)) 3 0 entry.0 entry.1
  unfolding dump
  dump-IsEntry stop [] i k h = cc
  dump-IsEntry stop (m ∷ ms) i zero {entry = entry} h =
      (m, refl, rw (← e, i_zero) (retry-IsEntry (poll m i) (one m i) 2 0))
    where
      e : retry 3 (poll m i) 0 ≡ entry
      e = ground arith

      i_zero : i + 0 ≡ i
      i_zero = omega arith
  dump-IsEntry stop (m ∷ ms) i (suc k) {entry = entry} h = elim (Bool-cases (stop i)) [
    | inl halt ↦ absurd (ground arith)
    | inr go ↦
        let (x, e, entry_of_x) = dump-IsEntry stop ms (i + 1) k {entry = entry} (ground arith) in
        (x, e, subst (λ (t : ℕ). IsEntry (poll x t) 3 0 entry.0 entry.1) (omega arith) entry_of_x)
  ]

-- What a dump holds, if each poll writes one line on success and none otherwise: its `k`th entry
-- belongs to the `k`th message of the modem's table. The message was polled once to three times; no
-- attempt but the last was answered or rejected, the last one was unless it was the third, and the
-- lines of the entry are those of the last attempt.
pub dump_entries :
    (poll : ℕ → CfgPoll → ℕ → ℕ → Outcome)
    → ((timeout : ℕ) (m : CfgPoll) (i n : ℕ) → OneLine (poll timeout m i n))
    → (modem : ℕ) (stop : ℕ → Bool) (k : ℕ) {entry : List Line × ℕ}
    → get_elem? (dump_ubx_cfg true true modem poll stop) k ≡ some entry
    → (m : CfgPoll) × (get_elem? (cfg_polls modem).0 k ≡ some m)
      × IsEntry (poll (cfg_polls modem).1 m k) 3 0 entry.0 entry.1
unfolding dump_ubx_cfg
dump_entries poll one modem stop k {entry = entry} h =
    let t = (cfg_polls modem).1 in
    let (x, e, entry_of_x) =
      dump-IsEntry (poll t) (one t) stop (cfg_polls modem).0 0 k {entry = entry} h in
    (x, e, subst (λ (i : ℕ). IsEntry (poll t x i) 3 0 entry.0 entry.1) (omega arith) entry_of_x)

-- `ubx_debug_message` sends each message of its table whole and nothing behind it.
pub debug_writes_whole : debug_writes ≡ ubx_debug_message
unfolding debug_writes ubx_debug_message
debug_writes_whole = refl
