-- ===== src/Drivers/Sysfs.antt =====
-- driver/sysfs: the files of kobject_example.c, and the number's file of kobj_attribute_example.c.
use config_env.Prelude.{
  [], ℕ, List, ◌∷◌, ◌≡◌, refl, Bool, true, false, not, ◌&&◌, ◌==◌, if◌then◌else◌, take, length,
}
use config_env.Prelude.{ℤ}

-- The two attributes, by their names.
pub data Attribute : Type 0 where
  my_int_file my_second_int_file : Attribute

abbrev pub name : Attribute → List ℕ
name my_int_file = b'm' ∷ b'y' ∷ b'_' ∷ b'i' ∷ b'n' ∷ b't' ∷ []
name my_second_int_file =
    b'm' ∷ b'y' ∷ b'_' ∷ b's' ∷ b'e' ∷ b'c' ∷ b'o' ∷ b'n' ∷ b'd' ∷ b'_' ∷ b'i' ∷ b'n' ∷ b't' ∷ []

pub record Numbers : Type 0 where
  pub my_int : ℤ
  pub my_second_int : ℤ

abbrev pub same_text : List ℕ → List ℕ → Bool
same_text [] [] = true
same_text [] (y ∷ ys) = false
same_text (x ∷ xs) [] = false
same_text (x ∷ xs) (y ∷ ys) = x == y && same_text xs ys

-- `strncmp(attr->name, "my_int", 6)`, which is not 0 where the texts differ.
abbrev pub differs : Attribute → Bool
differs a = not (same_text (take 6 (name a)) (name my_int_file))

-- The number that is shown.
unfoldable pub my_file_show : Attribute → Numbers → ℤ
my_file_show a s = if differs a then s.my_int else s.my_second_int

-- `kstrtoint` is the kernel's: the number, or the error's number. What is returned: the bytes that were
-- taken, or the error.
pub data Parsed : Type 0 where
  number : ℤ → Parsed
  failed : ℕ → Parsed

pub data Stored : Type 0 where
  took : ℕ → Stored
  refused : ℕ → Stored

unfoldable pub store_parsed : Attribute → (count : ℕ) → Parsed → Numbers → Stored × Numbers
store_parsed a count (failed e) s = (refused e, s)
store_parsed a count (number n) s =
    (took count, if differs a then record s { my_int = n } else record s { my_second_int = n })

unfoldable pub my_file_store : (List ℕ → Parsed) → Attribute → List ℕ → Numbers → Stored × Numbers
unfolding store_parsed
my_file_store kstrtoint a buf s = store_parsed a (length buf) (kstrtoint buf) s

abbrev pub other : Attribute → Attribute
other my_int_file = my_second_int_file
other my_second_int_file = my_int_file

-- What a write to a file does to both files.
abbrev pub Writes : Attribute → (count : ℕ) → Parsed → Numbers → Stored × Numbers → Type 0
Writes a count (failed e) s r = r ≡ (refused e, s)
Writes a count (number n) s r =
    (r.0 ≡ took count)
    × (my_file_show a r.1 ≡ n)
    × (my_file_show (other a) r.1 ≡ my_file_show (other a) s)

store_parsed-Writes :
    (a : Attribute) (count : ℕ) (p : Parsed) (s : Numbers)
    → Writes a count p s (store_parsed a count p s)
unfolding store_parsed my_file_show
store_parsed-Writes a count (failed e) s = refl
store_parsed-Writes my_int_file count (number n) s = (refl, refl, refl)
store_parsed-Writes my_second_int_file count (number n) s = (refl, refl, refl)

-- Either of the two files shows the number that was last written to it, and the other one what it
-- showed before; what is no number is refused with `kstrtoint`'s error and changes nothing.
my_file_store-Writes :
    (kstrtoint : List ℕ → Parsed) (a : Attribute) (buf : List ℕ) (s : Numbers)
    → Writes a (length buf) (kstrtoint buf) s (my_file_store kstrtoint a buf s)
unfolding my_file_store
my_file_store-Writes kstrtoint a buf s = store_parsed-Writes a (length buf) (kstrtoint buf) s

-- But each file is kept in the variable that is named after the other one.
crossed :
    (s : Numbers)
    → (my_file_show my_int_file s ≡ s.my_second_int)
      × (my_file_show my_second_int_file s ≡ s.my_int)
unfolding my_file_show
crossed s = (refl, refl)
