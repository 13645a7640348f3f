-- ===== src/Drivers/Motion.antt =====
-- driver/spi/icm-20608/icm20608.c and driver/regmap/icm-20608/icm20608.c: the motion sensor as a
-- character device. The values that both keep, and how they take the sensor's bytes apart.
pub mod Spi
pub mod SpiRegmap
pub mod Signs
pub mod Same
pub mod Failures
pub mod Lifetime
use config_env.Prelude.{
  [], ℕ, ◌+◌, ◌%◌, ◌/◌, ◌^◌, ◌-◌, List, ◌∷◌, ◌++◌, get_or, ltb, if◌then◌else◌, take,
}
use config_env.Drivers.Words.{be16}

-- The values of `struct icm20608_dev`, which are never negative.
pub record Motion : Type 0 where
  pub gx : ℕ
  pub gy : ℕ
  pub gz : ℕ
  pub ax : ℕ
  pub ay : ℕ
  pub az : ℕ
  pub temp : ℕ

pub data Attr : Type 0 where
  attr_gx attr_gy attr_gz attr_ax attr_ay attr_az attr_temp : Attr

abbrev pub at_bytes : List ℕ → ℕ → ℕ
at_bytes bytes i = be16 (get_or bytes i 0) (get_or bytes (i + 1) 0)

-- `data[14]`
abbrev pub motion_of : List ℕ → Motion
motion_of bytes = record {
  ax = at_bytes bytes 0;
  ay = at_bytes bytes 2;
  az = at_bytes bytes 4;
  temp = at_bytes bytes 6;
  gx = at_bytes bytes 8;
  gy = at_bytes bytes 10;
  gz = at_bytes bytes 12;
}

-- The number that is printed.
abbrev pub shown : Attr → Motion → ℕ
shown attr_gx m = m.gx
shown attr_gy m = m.gy
shown attr_gz m = m.gz
shown attr_ax m = m.ax
shown attr_ay m = m.ay
shown attr_az m = m.az
shown attr_temp m = m.temp

-- An `int` in memory: the machine is little-endian.
abbrev pub le32 : ℕ → List ℕ
le32 n = n % 256 ∷ n / 2 ^ 8 % 256 ∷ n / 2 ^ 16 % 256 ∷ n / 2 ^ 24 % 256 ∷ []

-- `data[7]` of `icm20608_read`
abbrev pub motion_image : Motion → List ℕ
motion_image m =
    le32 m.gx ++ le32 m.gy ++ le32 m.gz ++ le32 m.ax ++ le32 m.ay ++ le32 m.az ++ le32 m.temp

abbrev pub copied : (cnt uncopied : ℕ) → Motion → List ℕ
copied cnt uncopied m = take ((if ltb 28 cnt then 28 else cnt) - uncopied) (motion_image m)
