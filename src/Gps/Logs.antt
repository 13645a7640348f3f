-- ===== src/Gps/Logs.antt =====
-- script/gps/main.c: the files that the recorder keeps. A string is the list of its characters.
pub mod Recorded
use config_env.Prelude.{
  [], ℕ, ◌+◌, ◌-◌, ◌%◌, ◌^◌, List, ◌∷◌, ◌++◌, Bool, true, false, not, ◌&&◌, ◌||◌, ◌==◌,
  if◌then◌else◌, ltb, leb, Option, none, some, take, length,
}

-- `strrchr`: the string from its last `c` on.
abbrev pub strrchr : List ℕ → ℕ → Option (List ℕ)
strrchr [] c = none
strrchr (x ∷ xs) c = elim (strrchr xs c) [
  | some s ↦ some s
  | none ↦ if x == c then some (x ∷ xs) else none
]

abbrev pub starts : List ℕ → List ℕ → Bool
starts xs [] = true
starts [] (y ∷ ys) = false
starts (x ∷ xs) (y ∷ ys) = x == y && starts xs ys

-- `strstr(s, t) != NULL`
abbrev pub strstr : List ℕ → List ℕ → Bool
strstr [] t = starts [] t
strstr (x ∷ xs) t = starts (x ∷ xs) t || strstr xs t

abbrev pub ubx_suffix : List ℕ
ubx_suffix = 46 ∷ 117 ∷ 98 ∷ 120 ∷ []

abbrev pub gz_suffix : List ℕ
gz_suffix = 46 ∷ 103 ∷ 122 ∷ []

-- An entry of the directory, and what `stat` says of it: whether it is a regular file, its time and size.
pub record DirEntry : Type 0 where
  pub d_name : List ℕ
  pub is_reg : Bool
  pub st_mtime : ℕ
  pub st_size : ℕ

-- The two conditions of both loops: no hidden name, and the suffix.
unfoldable pub is_log : List ℕ → DirEntry → Bool
is_log suffix e =
    not (starts e.d_name (46 ∷ []))
    && e.is_reg
    && elim (strrchr e.d_name 46) [ none ↦ false | some s ↦ strstr s suffix ]

-- `snprintf(buf, 128, "%s/%s", path, name)`
abbrev pub file_path : List ℕ → List ℕ → List ℕ
file_path path name = take 127 (path ++ 47 ∷ name)

-- The loop of `get_log_filename`: the first file that is newer than the ones before it and not full.
unfoldable pub find_log : ℕ → List ℕ → ℕ → List DirEntry → Option (List ℕ × ℕ)
unfolding is_log
find_log log_size path mtime [] = none
find_log log_size path mtime (e ∷ es) =
    let newer = find_log log_size path e.st_mtime es in
    let rest = find_log log_size path mtime es in
    if is_log ubx_suffix e && ltb mtime e.st_mtime
    then (if ltb e.st_size log_size then some (file_path path e.d_name, e.st_size) else newer)
    else rest

-- The file's name and size. `dir` is `none` where `opendir` fails; `stamp` is the name by the clock.
unfoldable pub get_log_filename :
    ℕ → List ℕ → Option (List DirEntry) → List ℕ → (new_file : Bool) → List ℕ × ℕ
get_log_filename log_size path none stamp new_file = (file_path path stamp, 0)
get_log_filename log_size path (some es) stamp new_file =
    elim (if new_file then none else find_log log_size path 0 es) [
      | some f ↦ f
      | none ↦ (file_path path stamp, 0)
    ]

abbrev pub max_files : ℕ
max_files = 50

-- The loop of `log_rotate`: the number of packed files, and the oldest with its time.
unfoldable pub oldest : List ℕ → ℕ → List ℕ → ℕ → List DirEntry → ℕ × List ℕ
oldest path time file count [] = (count, file)
oldest path time file count (e ∷ es) =
    let older = oldest path e.st_mtime (file_path path e.d_name) (count + 1) es in
    let other = oldest path time file (count + 1) es in
    let rest = oldest path time file count es in
    if is_log gz_suffix e then (if ltb e.st_mtime time then older else other) else rest

-- What a rotation does: the file that it removes, if any, and the one that a child packs, if any.
pub record Rotation : Type 0 where
  pub removed : Option (List ℕ)
  pub packed : Option (List ℕ)

unfoldable pub log_rotate : List ℕ → List ℕ → (now : ℕ) → Option (List DirEntry) → Rotation
log_rotate path file now none = record { removed = none; packed = none }
log_rotate path file now (some es) =
    let (count, old) = oldest path now [] 0 es in
    record {
      removed = if leb (max_files - 1) count && ltb 0 (length old) then some old else none;
      packed = some file;
    }

-- One turn of the loop of `gnss_log_record`: the bytes read, and what a rotation would meet. The name by
-- the clock changes once a second, and the file is opened with "a+": it may be there already, perhaps
-- just closed, with `found` bytes.
pub record Turn : Type 0 where
  pub bytes : List ℕ
  pub now : ℕ
  pub dir : Option (List DirEntry)
  pub stamp : List ℕ
  pub found : ℕ
  pub reopened : Bool
  pub gl_exit : Bool

-- A file that was opened: its name, how many bytes it had then, and what was written to it since.
pub record LogFile : Type 0 where
  pub name : List ℕ
  pub old_size : ℕ
  pub added : List ℕ

-- The file that is open, with `fsize`; the files that were closed, as they were then; and the rotations,
-- which later pack those files and remove the oldest packed ones.
pub record Recorder : Type 0 where
  pub file : LogFile
  pub fsize : ℕ
  pub closed : List LogFile
  pub rotations : List Rotation

-- `if(bytes_read > 0) …`, without the `break`
unfoldable pub write_log : ℕ → List ℕ → Turn → Recorder → Recorder
unfolding log_rotate get_log_filename
write_log log_size path t r =
    let fsize = (r.fsize + length t.bytes) % 2 ^ 32 in
    let written : LogFile = record r.file { added = r.file.added ++ t.bytes } in
    let (name, size) = get_log_filename log_size path t.dir t.stamp true in
    if not (ltb 0 (length t.bytes))
    then r
    else if ltb log_size fsize
    then record {
      file = record { name = name; old_size = t.found; added = [] };
      fsize = size;
      closed = r.closed ++ written ∷ [];
      rotations = r.rotations ++ log_rotate path r.file.name t.now t.dir ∷ [];
    }
    else record r { fsize = fsize; file = written }

-- Whether the turn rotates.
abbrev pub rotates : ℕ → Turn → Recorder → Bool
rotates log_size t r = ltb 0 (length t.bytes) && ltb log_size ((r.fsize + length t.bytes) % 2 ^ 32)

-- `do … while(!gl_exit)`, left where the new file does not open.
unfoldable pub gnss_log_record : ℕ → List ℕ → Recorder → List Turn → Recorder
unfolding write_log
gnss_log_record log_size path r [] = r
gnss_log_record log_size path r (t ∷ ts) =
    let r' = write_log log_size path t r in
    let rest = gnss_log_record log_size path r' ts in
    if rotates log_size t r && not t.reopened || t.gl_exit then r' else rest
