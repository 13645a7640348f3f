-- ===== src/Gps/Antenna/Changes.antt =====
-- What the log of `ant_status_record` (script/gps/main.c) says.
use config_env.Prelude.{
  [], ℕ, ◌+◌, ◌%◌, ◌^◌, ◌<◌, Bool-cases, inl, inr, ◌≤◌, List, ◌∷◌, ◌++◌, ◌≡◌, sym, true, ◌==◌,
  if◌then◌else◌, not, all_of, map, arith, append_assoc, append-nil,
}
use config_env.Gps.Antenna.{Second, Log, plus_three, antenna_of, log_status, ant_status_loop}

-- The values of each second.
abbrev statuses : List Second → List ℕ
statuses [] = []
statuses (s ∷ ss) = plus_three s.ant_detct s.ant_short ∷ statuses ss

-- A list from which every element goes that equals the one before it.
abbrev pub changes : ℕ → List ℕ → List ℕ
changes last [] = []
changes last (x ∷ xs) = if x == last then changes last xs else x ∷ changes x xs

abbrev pub printed_in : List Second → ℕ
printed_in [] = 0
printed_in (s ∷ ss) = s.printed + printed_in ss

-- As long as no exit is asked for and all that is printed fits the limit of the file, each change of the
-- antenna's state gives one line, in order, and a state that stays the same gives none.
changes_logged :
    (log_size : ℕ) (l : Log) (ss : List Second)
    → log_size < 2 ^ 32
    → all_of (λ (s : Second). not s.gl_exit) ss ≡ true
    → l.fsize + printed_in ss ≤ log_size
    → (ant_status_loop log_size l ss).lines
      ≡ l.lines ++ map antenna_of (changes l.last_status (statuses ss))
unfolding ant_status_loop log_status
changes_logged log_size l [] small h fits = sym (append-nil l.lines)
changes_logged log_size l (s ∷ ss) small h fits =
    elim (Bool-cases (l.last_status == plus_three s.ant_detct s.ant_short)) [
      | inl same ↦ ground (arith, changes_logged log_size l ss small)
      | inr other ↦
          let status = plus_three s.ant_detct s.ant_short in
          let l' : Log = record {
            fsize = (l.fsize + s.printed) % 2 ^ 32;
            lines = l.lines ++ antenna_of status ∷ [];
            last_status = status;
          } in
          ground (
            arith,
            changes_logged log_size l' ss small,
            append_assoc l.lines (antenna_of status ∷ [])
                (map antenna_of (changes status (statuses ss))),
          )
    ]
