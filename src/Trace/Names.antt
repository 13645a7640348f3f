-- ===== src/Trace/Names.antt =====
-- The names that libevent/ftrace/trace_hooks.c takes from what `backtrace_symbols` gives.
use config_env.Prelude.{
  [], ℕ, suc, ◌+◌, ◌-◌, ◌<◌, ◌∷◌, ◌++◌, ◌≡◌, refl, ◌∙◌, ap, Bool, true, not, ◌==◌, ◌&&◌, Option,
  none, some, drop, length, length-take, take-append, arith,
}
use config_env.Trace.{
  Text, Symbols, index_of, up_to_plus, from_paren, name_or_text, name_of_symbol, extract_name,
}

-- The character is nowhere in the text.
abbrev lacks : ℕ → Text → Bool
lacks c [] = true
lacks c (x ∷ xs) = not (x == c) && lacks c xs

index_of-append :
    (c : ℕ) (xs ys : Text) → lacks c xs ≡ true → index_of c (xs ++ c ∷ ys) ≡ some (length xs)
unfolding index_of
index_of-append c [] ys h = ground arith
index_of-append c (x ∷ xs) ys h = ground (arith, index_of-append c xs ys)

drop-past : (xs ys : Text) (c : ℕ) → drop (length xs + 1) (xs ++ c ∷ ys) ≡ ys
drop-past [] ys c = refl
drop-past (x ∷ xs) ys c =
    ap (λ n. drop n (x ∷ (xs ++ c ∷ ys))) (next (length xs)) ∙ drop-past xs ys c
  where
    next : (n : ℕ) → suc n + 1 ≡ suc (n + 1)
    next n = omega arith

-- From a text of the form `file(name+offset) [address]`, the name, where it is not empty, holds no `+`
-- and has fewer than 255 characters, and the file's path holds no `(`.
extract_name-symbol :
    (symbols : Symbols) (addr : ℕ) (file name rest : Text)
    → symbols addr ≡ some (file ++ b'(' ∷ (name ++ b'+' ∷ rest))
    → lacks b'(' file ≡ true
    → lacks b'+' name ≡ true
    → 0 < length name
    → length name < 255
    → extract_name symbols addr 256 ≡ name
unfolding extract_name
extract_name-symbol symbols addr file name rest e no_paren no_plus some_name fits =
    let sym = file ++ b'(' ∷ (name ++ b'+' ∷ rest) in
    ap (λ o. name_of_symbol o 256) e
    ∙ ap (λ i. name_or_text (from_paren i sym 256) sym 256)
        (index_of-append b'(' file (name ++ b'+' ∷ rest) no_paren)
    ∙ ap (λ t. name_or_text (up_to_plus (index_of b'+' t) t 256) sym 256)
        (drop-past file (name ++ b'+' ∷ rest) b'(')
    ∙ ap (λ i. name_or_text (up_to_plus i (name ++ b'+' ∷ rest) 256) sym 256)
        (index_of-append b'+' name rest no_plus)
    ∙ ground (arith, take-append name (b'+' ∷ rest) (length name) refl)

up_to_plus-fits :
    (i : Option ℕ) (rest sym : Text) (out_len : ℕ)
    → 0 < out_len
    → length (name_or_text (up_to_plus i rest out_len) sym out_len) < out_len
up_to_plus-fits none rest sym out_len room = omega (arith, length-take (out_len - 1) sym)
up_to_plus-fits (some len) rest sym out_len room =
    ground (arith, length-take (out_len - 1) sym, length-take len rest)

from_paren-fits :
    (i : Option ℕ) (sym : Text) (out_len : ℕ)
    → 0 < out_len
    → length (name_or_text (from_paren i sym out_len) sym out_len) < out_len
from_paren-fits none sym out_len room = omega (arith, length-take (out_len - 1) sym)
from_paren-fits (some p) sym out_len room =
    up_to_plus-fits (index_of b'+' (drop (p + 1) sym)) (drop (p + 1) sym) sym out_len room

name_of_symbol-fits :
    (o : Option Text) (out_len : ℕ) → 0 < out_len → length (name_of_symbol o out_len) < out_len
name_of_symbol-fits none out_len room = room
name_of_symbol-fits (some sym) out_len room = from_paren-fits (index_of b'(' sym) sym out_len room

-- The name and its terminating NUL fit into the buffer.
pub extract_name-fits :
    (symbols : Symbols) (addr out_len : ℕ)
    → 0 < out_len
    → length (extract_name symbols addr out_len) < out_len
unfolding extract_name
extract_name-fits symbols addr out_len room = name_of_symbol-fits (symbols addr) out_len room
