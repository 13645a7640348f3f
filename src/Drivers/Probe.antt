-- ===== src/Drivers/Probe.antt =====
-- What a probe of the drivers for sensors takes from the kernel, and what its calls return.
use config_env.Prelude.{[], ℕ, List, ◌∷◌, Bool, true, false, if◌then◌else◌}

-- `register_map` is taken by `regmap_init_spi`, `region` by `alloc_chrdev_region`, `char_device` by
-- `cdev_add`, `class` by `class_create`, `device` by `device_create`, `files` by `sysfs_create_group`.
pub data Resource : Type 0 where
  register_map region char_device class device files : Resource

-- What the calls return: 0, or the error's number.
pub record Kernel : Type 0 where
  pub regmap_init_spi : ℕ
  pub alloc_chrdev_region : ℕ
  pub cdev_add : ℕ
  pub class_create : ℕ
  pub device_create : ℕ
  pub spi_setup : ℕ
  pub sysfs_create_group : ℕ

abbrev pub same_resource : Resource → Resource → Bool
same_resource register_map register_map = true
same_resource region region = true
same_resource char_device char_device = true
same_resource class class = true
same_resource device device = true
same_resource files files = true
same_resource x y = false

-- The last of the resources of its kind is given back.
abbrev pub release : Resource → List Resource → List Resource
release r [] = []
release r (x ∷ held) = if same_resource r x then held else x ∷ release r held
