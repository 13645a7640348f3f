-- ===== src/Trace.antt =====
-- libevent/ftrace/trace_hooks.c: the hooks that the compiler calls at the start and the end of each
-- function, and the lines that they write.
pub mod Names
pub mod Tree
mod Tests
use config_env.Prelude.{
  [], ℕ, zero, suc, ◌+◌, ◌-◌, ◌*◌, List, ◌∷◌, ◌++◌, Bool, true, false, ◌&&◌, ◌==◌, ltb,
  if◌then◌else◌, Option, none, some, take, drop, length, replicate,
}

-- Characters by their codes.
abbrev pub Text : Type 0
Text = List ℕ

-- `backtrace_symbols` for one address: `none` is NULL.
abbrev pub Symbols : Type 0
Symbols = ℕ → Option Text

-- `strchr`, as an index.
unfoldable pub index_of : ℕ → Text → Option ℕ
index_of c [] = none
index_of c (x ∷ xs) =
    if x == c then some 0 else elim (index_of c xs) [ none ↦ none | some i ↦ some (i + 1) ]

-- The text up to the `+`, if it fits.
abbrev pub up_to_plus : Option ℕ → Text → ℕ → Option Text
up_to_plus none rest out_len = none
up_to_plus (some len) rest out_len =
    if ltb 0 len && ltb len (out_len - 1) then some (take len rest) else none

abbrev pub from_paren : Option ℕ → Text → ℕ → Option Text
from_paren none sym out_len = none
from_paren (some p) sym out_len =
    up_to_plus (index_of b'+' (drop (p + 1) sym)) (drop (p + 1) sym) out_len

-- Where there is no such name, the whole text is copied as far as it fits.
abbrev pub name_or_text : Option Text → Text → ℕ → Text
name_or_text none sym out_len = take (out_len - 1) sym
name_or_text (some name) sym out_len = name

abbrev pub name_of_symbol : Option Text → ℕ → Text
name_of_symbol none out_len = []
name_of_symbol (some sym) out_len =
    name_or_text (from_paren (index_of b'(' sym) sym out_len) sym out_len

unfoldable pub extract_name : Symbols → (addr out_len : ℕ) → Text
unfolding index_of
extract_name symbols addr out_len = name_of_symbol (symbols addr) out_len

-- The file's two statics, and what was written to the standard error, a text for each call of `write`.
pub record Tracer : Type 0 where
  pub in_trace : Bool
  pub depth : ℕ
  pub written : List Text

abbrev pub enter_arrow : Text
enter_arrow = b'-' ∷ b'>' ∷ b' ' ∷ []

abbrev pub exit_arrow : Text
exit_arrow = b'<' ∷ b'-' ∷ b' ' ∷ []

abbrev pub newline : ℕ
newline = 10

-- `" %*s-> %s\n"`, the width being twice the depth.
unfoldable pub line : (depth : ℕ) → Text → Text → Text
line depth arrow name = b' ' ∷ (replicate (depth * 2) b' ' ++ (arrow ++ (name ++ newline ∷ [])))

-- A line that does not fit into `buf` is not written.
unfoldable pub write_line : Text → Tracer → Tracer
write_line l s = if ltb (length l) 512 then record s { written = s.written ++ l ∷ [] } else s

module _ (symbols : Symbols) where
  -- Both hooks call `extract_name`, at the address `helper`, which the compiler may instrument too:
  -- then the hooks are called again while they run. `nested` is how deep such calls are followed.
  unfoldable mutual
    pub enter : (nested helper func : ℕ) → Tracer → Tracer
    enter zero helper func s = s
    enter (suc nested) helper func s =
        let within =
          leave nested helper helper (enter nested helper helper (record s { in_trace = true })) in
        let shown =
          write_line (line within.depth enter_arrow (extract_name symbols func 256)) within in
        if s.in_trace then s else record shown { depth = shown.depth + 1; in_trace = false }

    pub leave : (nested helper func : ℕ) → Tracer → Tracer
    leave zero helper func s = s
    leave (suc nested) helper func s =
        let within =
          leave nested helper helper
            (enter nested helper helper (record s { in_trace = true; depth = s.depth - 1 })) in
        let shown =
          write_line (line within.depth exit_arrow (extract_name symbols func 256)) within in
        if s.in_trace then s else record shown { in_trace = false }

-- What a thread does, in order.
pub data Event : Type 0 where
  entered : ℕ → Event
  left : ℕ → Event

unfoldable pub trace : Symbols → (nested helper : ℕ) → List Event → Tracer → Tracer
trace symbols nested helper [] s = s
trace symbols nested helper (entered func ∷ es) s =
    trace symbols nested helper es (enter symbols nested helper func s)
trace symbols nested helper (left func ∷ es) s =
    trace symbols nested helper es (leave symbols nested helper func s)
