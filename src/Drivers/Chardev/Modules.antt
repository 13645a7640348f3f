-- ===== src/Drivers/Chardev/Modules.antt =====
-- Loading and unloading driver/chardev/dummy_char/dummy-char.c and simple_chardev/chardev.c.
use config_env.Prelude.{[], ℕ, List, ◌∷◌, ◌≡◌, ◌≢◌, not, ◌&&◌, ◌==◌, if◌then◌else◌, arith}
use config_env.Drivers.Probe.{Resource, region, char_device, class, device, Kernel, release}

-- What `init` returns, and what is held after it.
pub record Loaded : Type 0 where
  pub ret : ℕ
  pub held : List Resource

abbrev pub add_if : ℕ → Resource → List Resource → List Resource
add_if ret r held = if ret == 0 then r ∷ held else held

-- The result of `cdev_add` is not looked at.
unfoldable pub dummy_char_init_module : Kernel → Loaded
dummy_char_init_module k =
    let with_class = class ∷ region ∷ [] in
    let with_cdev = add_if k.cdev_add char_device with_class in
    if not (k.alloc_chrdev_region == 0)
    then record { ret = k.alloc_chrdev_region; held = [] }
    else if not (k.class_create == 0)
    then record { ret = k.class_create; held = release region (region ∷ []) }
    else if not (k.device_create == 0)
    then record { ret = 1; held = release region (release class with_cdev) }
    else record { ret = 0; held = device ∷ with_cdev }

unfoldable pub dummy_char_cleanup_module : List Resource → List Resource
dummy_char_cleanup_module held =
    release class (release char_device (release device (release region held)))

-- Two devices; of the four results of the loop none is looked at, and each is given by one call.
unfoldable pub mychardev_init : Kernel → Loaded
mychardev_init k =
    let one = λ (held : List Resource).
      add_if k.device_create device (add_if k.cdev_add char_device held) in
    if k.alloc_chrdev_region == 0
    then record { ret = 0; held = one (one (class ∷ region ∷ [])) }
    else record { ret = 0; held = [] }

unfoldable pub mychardev_exit : List Resource → List Resource
mychardev_exit held = release region (release class (release device (release device held)))

-- What a load comes to, and the unloading after it.
pub record Life (k : Kernel) : Type 0 where
  pub unloaded :
      (dummy_char_init_module k).ret ≡ 0
      → dummy_char_cleanup_module (dummy_char_init_module k).held ≡ []
  pub failed :
      (dummy_char_init_module k).ret ≢ 0
      → (dummy_char_init_module k).held ≡ (
          if k.alloc_chrdev_region == 0 && k.class_create == 0 && k.cdev_add == 0
          then char_device ∷ []
          else [])
  pub kept :
      k.alloc_chrdev_region ≡ 0
      → k.cdev_add ≡ 0
      → mychardev_exit (mychardev_init k).held ≡ char_device ∷ char_device ∷ []

-- Unloading dummy-char gives back all that a successful load took; a load that fails gives all back but
-- the character device, which stays where only `device_create` fails. Unloading the simple devices
-- leaves both of their character devices behind.
chardev-Life : (k : Kernel) → Life k
unfolding dummy_char_init_module dummy_char_cleanup_module mychardev_init mychardev_exit
chardev-Life k = record { unloaded = ground arith; failed = ground arith; kept = ground arith }
