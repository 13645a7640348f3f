-- ===== src/Drivers/Ap3216c.antt =====
-- driver/i2c/ap3216c/ap3216c.c: the light and proximity sensor.
pub mod Readings
pub mod Lifetime
use config_env.Prelude.{
  [], ℕ, ◌+◌, ◌-◌, ◌*◌, ◌/◌, ◌%◌, List, ◌∷◌, ◌++◌, Bool, not, ◌==◌, leb, ltb, if◌then◌else◌, Option,
  none, some, take, get_or,
}
use config_env.Drivers.Words.{be16}
use config_env.Drivers.Probe.{Resource, region, char_device, class, device, files, Kernel, release}

-- `struct i2c_msg`: the bytes that are sent, or the number of bytes that are read.
pub data I2cMsg : Type 0 where
  sent : List ℕ → I2cMsg
  wanted : ℕ → I2cMsg

-- `i2c_transfer`, a parameter: the bytes read, or `none` where it returns an error.
abbrev pub Transfer : Type 0 → Type 0
Transfer Chip = List I2cMsg → Chip → Option (List ℕ) × Chip

-- `ir`, `als` and `ps` of `struct ap3216c_device`.
pub record Light : Type 0 where
  pub ir : ℕ
  pub als : ℕ
  pub ps : ℕ

pub data Attr : Type 0 where
  attr_ir attr_als attr_ps : Attr

abbrev pub systemcong : ℕ
systemcong = 0x00

abbrev pub irdatalow : ℕ
irdatalow = 0x0A

-- The six registers' bytes, as `ap3216c_readdata` takes them apart: `|` joins disjoint bits, and the
-- shifted byte of the infrared light has ten bits.
abbrev pub light_of : (b0 b1 b2 b3 b4 b5 : ℕ) → Light
light_of b0 b1 b2 b3 b4 b5 = record {
  ir = if b0 / 128 % 2 == 1 then 0 else b1 * 4 + b0 % 4;
  als = be16 b3 b2;
  ps = if b4 / 64 % 2 == 1 then 0 else b5 % 64 * 16 + b4 % 16;
}

-- A `u16` in memory: the machine is little-endian.
abbrev pub le16 : ℕ → List ℕ
le16 n = n % 256 ∷ n / 256 % 256 ∷ []

-- `buf` of `ap3216c_read`.
abbrev pub image : Light → List ℕ
image light = le16 light.ir ++ le16 light.ps ++ le16 light.als

module _ {Chip : Type 0} (i2c_transfer : Transfer Chip) where
  unfoldable pub ap3216c_read_regs : (reg len : ℕ) → Chip → Option (List ℕ) × Chip
  ap3216c_read_regs reg len c = i2c_transfer (sent (reg ∷ []) ∷ wanted len ∷ []) c

  -- The number of bytes written, or `none` for -1. `buf` holds `len` bytes.
  unfoldable pub ap3216c_write_regs : (reg : ℕ) (buf : List ℕ) (len : ℕ) → Chip → Option ℕ × Chip
  ap3216c_write_regs reg buf len c =
      let n = if leb 64 len then 63 else len in
      let (result, c') = i2c_transfer (sent (reg ∷ take n buf) ∷ []) c in
      elim result [ none ↦ (none, c') | some bs ↦ (some n, c') ]

  -- `*data` stays 0 where the read fails.
  unfoldable pub ap3216c_read_single_reg : ℕ → Chip → ℕ × Chip
  unfolding ap3216c_read_regs
  ap3216c_read_single_reg reg c =
      let (result, c') = ap3216c_read_regs reg 1 c in
      elim result [ none ↦ (0, c') | some bs ↦ (get_or bs 0 0, c') ]

  unfoldable pub ap3216c_write_single_reg : (reg data' : ℕ) → Chip → Option ℕ × Chip
  unfolding ap3216c_write_regs
  ap3216c_write_single_reg reg data' c = ap3216c_write_regs reg (data' ∷ []) 1 c

  unfoldable pub ap3216c_readdata : Chip → Light × Chip
  unfolding ap3216c_read_single_reg
  ap3216c_readdata c =
      let (b0, c1) = ap3216c_read_single_reg irdatalow c in
      let (b1, c2) = ap3216c_read_single_reg (irdatalow + 1) c1 in
      let (b2, c3) = ap3216c_read_single_reg (irdatalow + 2) c2 in
      let (b3, c4) = ap3216c_read_single_reg (irdatalow + 3) c3 in
      let (b4, c5) = ap3216c_read_single_reg (irdatalow + 4) c4 in
      let (b5, c6) = ap3216c_read_single_reg (irdatalow + 5) c5 in (light_of b0 b1 b2 b3 b4 b5, c6)

  -- The number that is printed.
  unfoldable pub ap3216c_show : Attr → Chip → ℕ × Chip
  unfolding ap3216c_readdata
  ap3216c_show a c =
      let (light, c') = ap3216c_readdata c in
      elim a [ attr_ir ↦ (light.ir, c') | attr_als ↦ (light.als, c') | attr_ps ↦ (light.ps, c') ]

  -- The read of the configuration, whose value is only printed.
  unfoldable pub ap3216c_open : Chip → Chip
  unfolding ap3216c_read_single_reg
  ap3216c_open c = (ap3216c_read_single_reg systemcong c).1

  -- The bytes that the caller finds in its buffer; their number is returned. `copy_to_user` leaves the
  -- last `uncopied` bytes.
  unfoldable pub ap3216c_read : (count uncopied : ℕ) → Chip → List ℕ × Chip
  unfolding ap3216c_readdata
  ap3216c_read count uncopied c =
      let n = if ltb 6 count then 6 else count in
      let (light, c') = ap3216c_readdata c in (take (n - uncopied) (image light), c')

  abbrev pub fail_cdev_add : List Resource → List Resource
  fail_cdev_add held = release region held

  abbrev pub fail_class_create : List Resource → List Resource
  fail_class_create held = fail_cdev_add (release char_device held)

  abbrev pub fail_device_create : List Resource → List Resource
  fail_device_create held = fail_class_create (release class held)

  abbrev pub fail_device : List Resource → List Resource
  fail_device held = fail_device_create (release device held)

  -- 0, or the number of the error; and the resources that are held afterwards. `i2c_check` is what
  -- `i2c_check_functionality` answers, EIO is 5, and a failed write gives the number 1.
  unfoldable pub ap3216c_probe :
      Kernel → (i2c_check : Bool) → List Resource → Chip → ℕ × List Resource × Chip
  unfolding ap3216c_write_single_reg
  ap3216c_probe k i2c_check held c =
      let h1 = region ∷ held in
      let h2 = char_device ∷ h1 in
      let h3 = class ∷ h2 in
      let h4 = device ∷ h3 in
      let (reset, c1) = ap3216c_write_single_reg systemcong 0x04 c in
      let (started, c2) = ap3216c_write_single_reg systemcong 0x03 c1 in
      if not i2c_check
      then (5, held, c)
      else if not (k.alloc_chrdev_region == 0)
      then (k.alloc_chrdev_region, held, c)
      else if not (k.cdev_add == 0)
      then (k.cdev_add, fail_cdev_add h1, c)
      else if not (k.class_create == 0)
      then (k.class_create, fail_class_create h2, c)
      else if not (k.device_create == 0)
      then (k.device_create, fail_device_create h3, c)
      else elim reset [
        | none ↦ (1, fail_device h4, c1)
        | some n ↦ elim started [
          | none ↦ (1, fail_device h4, c2)
          | some m ↦
              if k.sysfs_create_group == 0
              then (0, files ∷ h4, c2)
              else (k.sysfs_create_group, fail_device h4, c2)
        ]
      ]

  abbrev pub ap3216c_remove : List Resource → List Resource
  ap3216c_remove held =
      release region (release char_device (release class (release device (release files held))))
