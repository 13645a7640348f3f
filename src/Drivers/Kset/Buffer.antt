-- ===== src/Drivers/Kset/Buffer.antt =====
-- What is read from the file my_buffer of driver/sysfs/sysfs_kset_example.c after a write.
use config_env.Prelude.{
  [], ℕ, zero, suc, List, ◌∷◌, ◌++◌, ◌≡◌, refl, ◌∙◌, ap, ltb, lt→ltb, ◌==◌, if◌then◌else◌,
  Bool-cases, inl, inr, none, some, length, c_string, arith,
}
use config_env.Drivers.Kset.{
  ExampleData, my_buffer_size, text_in, strncpy, my_buffer_store, my_buffer_show,
}

text_in-strncpy :
    (n : ℕ) (text : List ℕ)
    → text_in (strncpy n text)
      ≡ (if ltb (length (c_string text)) n then some (c_string text) else none)
unfolding text_in strncpy
text_in-strncpy zero [] = refl
text_in-strncpy zero (b ∷ text) = ground arith
text_in-strncpy (suc n) [] = rw (lt→ltb 0 (suc n) (omega arith)) refl
text_in-strncpy (suc n) (b ∷ text) = elim (Bool-cases (b == 0)) [
  | inl nul ↦ simp (nul, lt→ltb 0 (suc n) (omega arith)) refl
  | inr other ↦ ground (arith, text_in-strncpy n text)
]

-- A text written to my_buffer is read back up to its first NUL and with a newline more, if it has at
-- most 255 bytes before that NUL. A longer one leaves no NUL in the array, and the read runs past its
-- end.
pub my_buffer-read_back :
    (buf : List ℕ) (d : ExampleData)
    → my_buffer_show (my_buffer_store buf d).1 ≡ (
        if ltb (length (c_string buf)) my_buffer_size then some (c_string buf ++ 10 ∷ []) else none)
unfolding my_buffer_show my_buffer_store
my_buffer-read_back buf d =
    ap (λ r. elim r [ none ↦ none | some text ↦ some (text ++ 10 ∷ []) ])
      (text_in-strncpy my_buffer_size buf)
    ∙ elim (Bool-cases (ltb (length (c_string buf)) my_buffer_size)) [
      | inl fits ↦ rw fits refl
      | inr long ↦ rw long refl
    ]
