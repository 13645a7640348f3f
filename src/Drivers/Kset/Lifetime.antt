-- ===== src/Drivers/Kset/Lifetime.antt =====
-- Loading and unloading driver/sysfs/sysfs_kset_example.c.
use config_env.Prelude.{
  [], ℕ, List, ◌∷◌, ◌≡◌, refl, Bool, true, false, ◌&&◌, ◌==◌, if◌then◌else◌, none, some, arith,
}
use config_env.Drivers.Kset.{
  KsetKernel, Pointer, Kset, free, kfree, kobject_put, create_kobject, setb_error, setc_error,
  is_null, example_init, example_exit, err_ptr, object,
}

-- The kernel grants the object.
abbrev pub granted : KsetKernel → ℕ → Bool
granted k n = k.kzalloc n && k.kobject_init_and_add n == 0

abbrev slot : ℕ → Bool → Pointer
slot n b = if b then object n else err_ptr

abbrev hold : ℕ → Bool → List ℕ → List ℕ
hold n b ms = if b then n ∷ ms else ms

-- The module with those of its objects that were granted.
abbrev loaded : (a b c : Bool) → Kset
loaded a b c = record {
  example_kset = true;
  memory = hold 2 c (hold 1 b (hold 0 a []));
  m_data_1 = slot 0 a;
  m_data_2 = slot 1 b;
  m_data_3 = slot 2 c;
}

create_kobject_lem :
    (k : KsetKernel) (n : ℕ) (s : Kset)
    → create_kobject k n s
      ≡ (slot n (granted k n), record s { memory = hold n (granted k n) s.memory })
unfolding create_kobject
create_kobject_lem k n s = ground arith

slot-not_null : (n : ℕ) (b : Bool) → is_null (slot n b) ≡ false
slot-not_null n true = refl
slot-not_null n false = refl

example_init-loaded :
    (k : KsetKernel)
    → k.kset_create_and_add ≡ true
    → example_init k
      ≡ some (record { ret = 0; state = loaded (granted k 0) (granted k 1) (granted k 2) })
unfolding example_init
example_init-loaded k there = simp (there, create_kobject_lem, slot-not_null) refl

example_exit-loaded :
    (a b c : Bool)
    → example_exit (loaded a b c) ≡ (
        if a && b && c
        then some (record (loaded a b c) { example_kset = false; memory = [] })
        else none)
unfolding example_exit kobject_put kfree free
example_exit-loaded false b c = refl
example_exit-loaded true false false = refl
example_exit-loaded true false true = refl
example_exit-loaded true true false = refl
example_exit-loaded true true true = refl

-- A load, and the unloading after it.
pub record Life (k : KsetKernel) : Type 0 where
  pub state : Kset
  pub loads : example_init k ≡ some (record { ret = 0; state = state })
  pub unloads : example_exit state ≡ (
      if granted k 0 && granted k 1 && granted k 2
      then some (record state { example_kset = false; memory = [] })
      else none)

-- Once the kset is there the module always loads, whichever of its objects are refused. Unloading it
-- frees all if the kernel granted all three; otherwise it puts a pointer that is no object.
pub kset-Life : (k : KsetKernel) → k.kset_create_and_add ≡ true → Life k
kset-Life k there = record {
  state = loaded (granted k 0) (granted k 1) (granted k 2);
  loads = example_init-loaded k there;
  unloads = example_exit-loaded (granted k 0) (granted k 1) (granted k 2);
}

-- The labels for a failure, which are never reached, would free an object twice.
freed_twice :
    (a c : Bool)
    → (setb_error (loaded true false c) ≡ none) × (setc_error (loaded a true false) ≡ none)
unfolding setb_error setc_error kobject_put kfree free
freed_twice true true = (refl, refl)
freed_twice true false = (refl, refl)
freed_twice false true = (refl, refl)
freed_twice false false = (refl, refl)
