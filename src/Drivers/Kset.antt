-- ===== src/Drivers/Kset.antt =====
-- driver/sysfs/sysfs_kset_example.c: the two files of each object, which kobj_attribute_example.c has
-- too, and the loading and unloading of the module with its three objects.
pub mod Buffer
pub mod Lifetime
use config_env.Prelude.{
  [], ℕ, zero, suc, List, ◌∷◌, ◌==◌, if◌then◌else◌, Bool, true, false, Option, none, some, length,
  replicate, ◌++◌, ℤ,
}
use config_env.Drivers.Sysfs.{Parsed, number, failed}

-- `struct my_example_data`, without its kobject.
pub record ExampleData : Type 0 where
  pub my_int : ℤ
  pub my_buffer : List ℕ

abbrev pub my_buffer_size : ℕ
my_buffer_size = 256

-- `kstrtoint` is the kernel's. A text that is no number gives 0 back: no byte is taken.
unfoldable pub my_file_store : (List ℕ → Parsed) → (buf : List ℕ) → ExampleData → ℕ × ExampleData
my_file_store kstrtoint buf d = elim (kstrtoint buf) [
  | failed e ↦ (0, d)
  | number n ↦ (length buf, record d { my_int = n })
]

unfoldable pub my_file_show : ExampleData → ℤ
my_file_show d = d.my_int

-- The bytes of an array up to its first NUL; `none` if there is none and the array is left.
unfoldable pub text_in : List ℕ → Option (List ℕ)
text_in [] = none
text_in (b ∷ bs) =
    let rest = text_in bs in
    if b == 0 then some [] else elim rest [ none ↦ none | some text ↦ some (b ∷ text) ]

-- `strncpy`: at most `n` bytes, filled up with NULs. The text that the kernel passes to a `store` ends
-- with a NUL behind its last byte.
unfoldable pub strncpy : (n : ℕ) → List ℕ → List ℕ
strncpy zero text = []
strncpy (suc n) [] = replicate (suc n) 0
strncpy (suc n) (b ∷ bs) =
    let rest = strncpy n bs in if b == 0 then replicate (suc n) 0 else b ∷ rest

unfoldable pub my_buffer_store : (buf : List ℕ) → ExampleData → ℕ × ExampleData
my_buffer_store buf d = (length buf, record d { my_buffer = strncpy my_buffer_size buf })

-- `sysfs_emit` with "%s\n"; `none` is a read behind the array.
unfoldable pub my_buffer_show : ExampleData → Option (List ℕ)
my_buffer_show d = elim (text_in d.my_buffer) [ none ↦ none | some text ↦ some (text ++ 10 ∷ []) ]

-- What the module asks of the kernel; the objects are "setA", "setB" and "setC", by number.
pub record KsetKernel : Type 0 where
  pub kset_create_and_add : Bool
  pub kzalloc : ℕ → Bool
  pub kobject_init_and_add : ℕ → ℕ

pub data Pointer : Type 0 where
  null err_ptr : Pointer
  object : ℕ → Pointer

-- What is held: the kset, the objects in memory, and the module's three pointers.
pub record Kset : Type 0 where
  pub example_kset : Bool
  pub memory : List ℕ
  pub m_data_1 : Pointer
  pub m_data_2 : Pointer
  pub m_data_3 : Pointer

abbrev pub unloaded : Kset
unloaded = record {
  example_kset = false;
  memory = [];
  m_data_1 = null;
  m_data_2 = null;
  m_data_3 = null;
}

-- `none`: the object is not there.
unfoldable pub free : ℕ → List ℕ → Option (List ℕ)
free n [] = none
free n (m ∷ ms) =
    let rest = free n ms in
    if n == m then some ms else elim rest [ none ↦ none | some ms' ↦ some (m ∷ ms') ]

-- `kfree`, and `kobject_put`, which drops the only reference, so that `my_file_release` frees the
-- object. `none` is an access to memory that is not there.
unfoldable pub kfree : Pointer → Kset → Option Kset
kfree null s = some s
kfree err_ptr s = none
kfree (object n) s = elim (free n s.memory) [
  | none ↦ none
  | some ms ↦ some (record s { memory = ms })
]

unfoldable pub kobject_put : Pointer → Kset → Option Kset
unfolding kfree
kobject_put p s = kfree p s

-- The object that a failing `kobject_init_and_add` has not taken is freed at once.
unfoldable pub create_kobject : KsetKernel → ℕ → Kset → Pointer × Kset
create_kobject k n s =
    if k.kzalloc n
    then if k.kobject_init_and_add n == 0
      then (object n, record s { memory = n ∷ s.memory })
      else (err_ptr, s)
    else (err_ptr, s)

abbrev pub is_null : Pointer → Bool
is_null null = true
is_null err_ptr = false
is_null (object n) = false

-- What `example_init` returns, as the number of the error, and what is held after it.
pub record Loaded : Type 0 where
  pub ret : ℕ
  pub state : Kset

abbrev pub and_then {ℓ ℓ'} : {A : Type ℓ} {B : Type ℓ'} → Option A → (A → Option B) → Option B
and_then none next = none
and_then (some x) next = next x

-- The labels of `example_init`, from the last one on.
unfoldable pub seta_error : Kset → Option Loaded
seta_error s = some (record { ret = 22; state = record s { example_kset = false } })

unfoldable pub setb_error : Kset → Option Loaded
setb_error s = and_then (kobject_put s.m_data_1 s) (λ s. and_then (kfree s.m_data_1 s) seta_error)

unfoldable pub setc_error : Kset → Option Loaded
setc_error s = and_then (kobject_put s.m_data_2 s) (λ s. and_then (kfree s.m_data_2 s) setb_error)

unfoldable pub example_init : KsetKernel → Option Loaded
example_init k =
    let a = create_kobject k 0 (record unloaded { example_kset = true }) in
    let sa : Kset = record a.1 { m_data_1 = a.0 } in
    let b = create_kobject k 1 sa in
    let sb : Kset = record b.1 { m_data_2 = b.0 } in
    let c = create_kobject k 2 sb in
    let sc : Kset = record c.1 { m_data_3 = c.0 } in
    if k.kset_create_and_add
    then if is_null a.0
      then seta_error sa
      else if is_null b.0
      then setb_error sb
      else if is_null c.0
      then setc_error sc
      else some (record { ret = 0; state = sc })
    else some (record { ret = 12; state = unloaded })

unfoldable pub example_exit : Kset → Option Kset
example_exit s = and_then (kobject_put s.m_data_1 s) (λ s.
    and_then (kobject_put s.m_data_2 s)
      (λ s. and_then (kobject_put s.m_data_3 s) (λ s. some (record s { example_kset = false }))))
