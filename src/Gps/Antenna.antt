-- ===== src/Gps/Antenna.antt =====
-- script/gps/main.c: `ant_status_record`, the log of the antenna's state.
pub mod Changes
use config_env.Prelude.{
  [], ℕ, ◌+◌, ◌*◌, ◌%◌, ◌^◌, List, ◌∷◌, ◌++◌, Bool, false, ◌||◌, ◌==◌, if◌then◌else◌, ltb, Option,
  none, some,
}

-- What `read_gpio_value` returns is `none` for -1.
abbrev pub plus_one : Option ℕ → ℕ
plus_one none = 0
plus_one (some n) = n + 1

-- `ant_detct * 2 + ant_short`, an integer from -3 up, as the number that is larger by three.
abbrev pub plus_three : (detect short : Option ℕ) → ℕ
plus_three detect short = 2 * plus_one detect + plus_one short

-- The four lines that the `switch` prints.
pub data Antenna : Type 0 where
  antenna_open antenna_normal antenna_short antenna_invalid : Antenna

-- `status` is 0, 2, 3 or another number.
unfoldable pub antenna_of : ℕ → Antenna
antenna_of status =
    if status == 3
    then antenna_open
    else if status == 5
    then antenna_normal
    else if status == 6
    then antenna_short
    else antenna_invalid

-- One second: the two values, what `fprintf` returns (0 for an error), and `gl_exit` after it.
pub record Second : Type 0 where
  pub ant_detct : Option ℕ
  pub ant_short : Option ℕ
  pub printed : ℕ
  pub gl_exit : Bool

-- The file's size and lines, and `last_status`, larger by three as well.
pub record Log : Type 0 where
  pub fsize : ℕ
  pub lines : List Antenna
  pub last_status : ℕ

-- `last_status` starts as -1.
abbrev pub opened_log : ℕ → Log
opened_log fsize = record { fsize = fsize; lines = []; last_status = 2 }

-- The body of the loop.
unfoldable pub log_status : ℕ → Second → Log → Log
unfolding antenna_of
log_status log_size s l =
    let status = plus_three s.ant_detct s.ant_short in
    if l.last_status == status then l else record {
      fsize = (l.fsize + s.printed) % 2 ^ 32;
      lines = l.lines ++ antenna_of status ∷ [];
      last_status = status;
    }

-- Whether the body ends in `break`.
abbrev pub is_full : ℕ → Second → Log → Bool
is_full log_size s l =
    if l.last_status == plus_three s.ant_detct s.ant_short
    then false
    else if ltb 0 s.printed
    then ltb log_size ((l.fsize + s.printed) % 2 ^ 32)
    else false

-- `while(!gl_exit)`, entered with `gl_exit` unset.
unfoldable pub ant_status_loop : ℕ → Log → List Second → Log
unfolding log_status
ant_status_loop log_size l [] = l
ant_status_loop log_size l (s ∷ ss) =
    let l' = log_status log_size s l in
    let rest = ant_status_loop log_size l' ss in
    if is_full log_size s l || s.gl_exit then l' else rest

-- `size` is that of the file that is there, if it is a regular one; `none` where no log is kept.
unfoldable pub ant_status_record :
    ℕ → (size : Option ℕ) (fopen_ok : Bool) → List Second → Option Log
unfolding ant_status_loop
ant_status_record log_size none fopen_ok ss =
    if fopen_ok then some (ant_status_loop log_size (opened_log 0) ss) else none
ant_status_record log_size (some size) fopen_ok ss =
    if ltb log_size size
    then none
    else if fopen_ok
    then some (ant_status_loop log_size (opened_log size) ss)
    else none
