-- ===== src/Gps/Zone.antt =====
-- script/gps/main.c: `tz_update`, the time zone of the process.
pub mod Reading
use config_env.Prelude.{
  c_string, [], ℕ, zero, suc, List, ◌∷◌, ◌++◌, Bool, true, false, ◌&&◌, ◌||◌, ◌==◌, if◌then◌else◌,
  ltb, Option, none, some, take, set, get_or, length, replicate, ◌-◌,
}

-- `sys_tz` has 16 bytes.
abbrev pub tz_size : ℕ
tz_size = 16

-- `while(ret > 0)`: line ends become 0, from index `ret` down to 1; `none` for an index outside.
unfoldable pub strip : ℕ → List ℕ → Option (List ℕ)
strip zero buf = some buf
strip (suc n) buf =
    let c = get_or buf (suc n) 0 in
    let rest = strip n (if c == 13 || c == 10 then set buf (suc n) 0 else buf) in
    if ltb (suc n) (length buf) then rest else none

abbrev pub same : List ℕ → List ℕ → Bool
same [] [] = true
same [] (y ∷ ys) = false
same (x ∷ xs) [] = false
same (x ∷ xs) (y ∷ ys) = x == y && same xs ys

-- What the function does: it returns -1, reads outside of `sys_tz`, or returns 0 with TZ as it is then.
pub data Zone : Type 0 where
  no_file : Zone
  out_of_bounds : Zone
  zone : List ℕ → Zone

-- `file` is what `/etc/TZ` holds; `tz_now` is the variable TZ, which is set. `gl_tz` holds 15 characters, "TZ=" included.
unfoldable pub tz_update : (file : Option (List ℕ)) (tz_now : List ℕ) → Zone
unfolding strip
tz_update none tz_now = no_file
tz_update (some file) tz_now =
    let read = take tz_size file in
    let buf = read ++ replicate (tz_size - length read) 0 in
    if ltb 0 (length read)
    then elim (strip (length read) buf) [
      | none ↦ out_of_bounds
      | some sys_tz ↦
          zone (if same (c_string sys_tz) tz_now then tz_now else take 12 (c_string sys_tz))
    ]
    else zone tz_now
