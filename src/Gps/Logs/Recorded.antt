-- ===== src/Gps/Logs/Recorded.antt =====
-- What the recorder of script/gps/main.c writes to its files, and how large it lets them grow.
use config_env.Prelude.{
  [], ℕ, ◌+◌, ◌^◌, ◌≤◌, ◌<◌, List, ◌∷◌, ◌++◌, ◌≡◌, refl, ◌∙◌, ap, sym, Bool, true, not, ◌&&◌, ◌||◌,
  ltb, leb, ◌==◌, all_of, length, length-append, append_assoc, append-nil, arith, inl, inr,
  Bool-cases, Option, none, some, false,
}
use config_env.Gps.Logs.{
  DirEntry, Turn, LogFile, Recorder, rotates, write_log, gnss_log_record, get_log_filename,
}

abbrev pub joined : List LogFile → List ℕ
joined [] = []
joined (f ∷ fs) = f.added ++ joined fs

-- All the bytes that were written, in the order in which the files were opened.
abbrev pub written : Recorder → List ℕ
written r = joined r.closed ++ r.file.added

abbrev pub bytes_in : List Turn → List ℕ
bytes_in [] = []
bytes_in (t ∷ ts) = t.bytes ++ bytes_in ts

joined-append : (fs : List LogFile) (f : LogFile) → joined (fs ++ f ∷ []) ≡ joined fs ++ f.added
joined-append [] f = append-nil f.added
joined-append (g ∷ fs) f =
    ap (λ x. g.added ++ x) (joined-append fs f) ∙ sym (append_assoc g.added (joined fs) f.added)

empty : (bs : List ℕ) → ltb 0 (length bs) ≡ false → bs ≡ []
empty [] h = refl
empty (b ∷ bs) h = ground arith

abbrev pub file_size : LogFile → ℕ
file_size f = f.old_size + length f.added

-- The recorder keeps to its limit: the open file has at most `log_size` bytes, and each file before it
-- had at most one read more when it was closed.
pub record IsLimited (log_size : ℕ) (r : Recorder) : Type 0 where
  pub current : file_size r.file ≤ log_size
  pub counted : r.fsize ≡ file_size r.file
  pub before : all_of (λ (f : LogFile). leb (file_size f) (log_size + 2048)) r.closed ≡ true

new_file_size :
    (log_size : ℕ) (path : List ℕ) (dir : Option (List DirEntry)) (stamp : List ℕ)
    → (get_log_filename log_size path dir stamp true).1 ≡ 0
unfolding get_log_filename
new_file_size log_size path none stamp = refl
new_file_size log_size path (some es) stamp = refl

all_of-append :
    (p : LogFile → Bool) (fs : List LogFile) (f : LogFile)
    → all_of p fs ≡ true
    → p f ≡ true
    → all_of p (fs ++ f ∷ []) ≡ true
all_of-append p [] f h e = ground arith
all_of-append p (g ∷ fs) f h e = ground (arith, all_of-append p fs f)

module _ (log_size : ℕ) (path : List ℕ) where
  written-write_log :
      (t : Turn) (r : Recorder) → written (write_log log_size path t r) ≡ written r ++ t.bytes
  unfolding write_log
  written-write_log t r = elim (Bool-cases (ltb 0 (length t.bytes))) [
    | inl more ↦ ground (
      arith,
      joined-append r.closed (record r.file { added = r.file.added ++ t.bytes }),
      append_assoc (joined r.closed) r.file.added t.bytes,
      append-nil (joined r.closed ++ (r.file.added ++ t.bytes)),
    )
    | inr nothing ↦ ground (arith, empty t.bytes, append-nil (written r))
  ]

  -- Every byte that is read is written exactly once and in order: while no exit is asked for and new
  -- files open, what was written to the files, in the order of their opening, is what was written to
  -- them before and then all the bytes read since, wherever the rotations cut them. (What becomes of a
  -- file after it was closed is not part of this: the rotations remove the oldest packed ones.)
  pub all_bytes_written :
      (r : Recorder) (ts : List Turn)
      → all_of (λ (t : Turn). t.reopened && not t.gl_exit) ts ≡ true
      → written (gnss_log_record log_size path r ts) ≡ written r ++ bytes_in ts
  unfolding gnss_log_record
  all_bytes_written r [] h = sym (append-nil (written r))
  all_bytes_written r (t ∷ ts) h = ground (
    arith,
    all_bytes_written (write_log log_size path t r) ts,
    written-write_log t r,
    append_assoc (written r) t.bytes (bytes_in ts),
  )

  write_log-IsLimited :
      (t : Turn) (r : Recorder)
      → log_size + 2048 < 2 ^ 32
      → length t.bytes ≤ 2048
      → t.found ≡ 0
      → IsLimited log_size r
      → IsLimited log_size (write_log log_size path t r)
  unfolding write_log
  write_log-IsLimited t r big small new v = ground (
    arith,
    new_file_size log_size path t.dir t.stamp,
    length-append r.file.added t.bytes,
    all_of-append (λ (f : LogFile). leb (file_size f) (log_size + 2048)) r.closed
        (record r.file { added = r.file.added ++ t.bytes }),
  )

  -- However many reads of up to 2048 bytes there are, the open file never exceeds the limit and each
  -- file that was closed exceeded it by at most one read, if this holds at the start with `fsize` the
  -- size of the open file, and if no file that a rotation opens has bytes already, as the one just
  -- closed has when two rotations fall into the same second. (The limit is below 2^32 - 2048.)
  pub gnss_log_record-IsLimited :
      (r : Recorder) (ts : List Turn)
      → log_size + 2048 < 2 ^ 32
      → all_of (λ (t : Turn). leb (length t.bytes) 2048 && t.found == 0) ts ≡ true
      → IsLimited log_size r
      → IsLimited log_size (gnss_log_record log_size path r ts)
  unfolding gnss_log_record
  gnss_log_record-IsLimited r [] big reads v = v
  gnss_log_record-IsLimited r (t ∷ ts) big reads v =
      let w = write_log-IsLimited t r big (ground arith) (ground arith) v in
      let rest = gnss_log_record-IsLimited (write_log log_size path t r) ts big (ground arith) w in
      elim (Bool-cases (rotates log_size t r && not t.reopened || t.gl_exit)) [
        | inl stop ↦ rw (stop) w
        | inr go ↦ rw (go) rest
      ]

  -- Where the new file is there already, its bytes are not counted: with more of them than the limit, a
  -- rotation leaves a file open that exceeds it, and `fsize` at 0.
  same_second :
      (t : Turn) (r : Recorder)
      → rotates log_size t r ≡ true
      → log_size < t.found
      → (log_size < file_size (write_log log_size path t r).file)
        × ((write_log log_size path t r).fsize ≡ 0)
  unfolding write_log
  same_second t r rotate many = ground (arith, new_file_size log_size path t.dir t.stamp)
