-- ===== src/Drivers/Iio/Attributes/Bias.antt =====
-- The calibration offsets that driver/iio/icm20608/icm20608.c sets and reports.
use config_env.Prelude.{
  ℕ, ◌+◌, ◌-◌, ◌*◌, ◌/◌, ◌%◌, ◌^◌, ◌<◌, ◌≡◌, ◌∙◌, ap, Bool, true, ◌==◌, if◌then◌else◌, ℤ, pos,
  negsuc, ◌≤ℤ◌, arith, ap₂,
}
use config_env.Drivers.Words.{be16, to_short, to_u16, cpu_to_be16, to_short-to_u16}
use config_env.Drivers.Regmap.{Regmap, IsRegmap}
use config_env.Drivers.Iio.Registers.{
  xg_offs_usrh, xa_offset_h, ya_offset_h, ya_offset_l, za_offset_h, za_offset_l,
}
use config_env.Drivers.Iio.{
  angl_vel, accel, calibbias, Channel, val_int, written, icm20608_sensor_set, icm20608_sensor_show,
}
use config_env.Drivers.Iio.Attributes.{icm20608_read_raw, icm20608_write_raw}

to_u16-lt : (val : ℤ) → to_u16 val < 2 ^ 16
to_u16-lt (pos n) = omega arith
to_u16-lt (negsuc n) = omega arith

module _ {Chip : Type 0} (rm : Regmap Chip) (at : Chip → ℕ → ℕ) (plain : ℕ → Bool)
    (laws : IsRegmap rm at plain) where
  sensor_set-sets :
      (reg axis j : ℕ) (val : ℤ) (c : Chip)
      → plain j ≡ true
      → ((icm20608_sensor_set rm reg axis val c).0 ≡ written)
        × (at (icm20608_sensor_set rm reg axis val c).1 j ≡ (
            if j == reg + axis * 2
            then to_u16 val / 256
            else if j == reg + axis * 2 + 1
            then to_u16 val % 256
            else at c j))
  unfolding icm20608_sensor_set
  sensor_set-sets reg axis j val c p =
      let lt = to_u16-lt val in
      let hi : to_u16 val / 256 < 256 = omega arith in
      let lo : to_u16 val % 256 < 256 = omega arith in
      ground (
        arith,
        laws.bulk_writes (reg + axis * 2) (cpu_to_be16 val) c,
        laws.bulk_write_sets (reg + axis * 2) (to_u16 val / 256) (to_u16 val % 256) j c p hi lo,
      )

  sensor_show-at :
      (reg axis : ℕ) (c : Chip)
      → (icm20608_sensor_show rm reg axis c).0
        ≡ val_int (to_short (be16 (at c (reg + axis * 2)) (at c (reg + axis * 2 + 1))))
  unfolding icm20608_sensor_show
  sensor_show-at reg axis c = ground (arith, laws.bulk_reads (reg + axis * 2) 2 c)

  -- An offset of a gyroscope axis that fits 16 bits is read back as it was written. (No transfer on the
  -- bus fails, and the axis's two registers hold what is written.)
  gyro_bias-read_back :
      (unset : ℕ) (chan : Channel) (val val2 : ℤ) (c : Chip)
      → chan.chan_type ≡ angl_vel
      → plain (xg_offs_usrh + chan.axis * 2) ≡ true
      → plain (xg_offs_usrh + chan.axis * 2 + 1) ≡ true
      → negsuc (2 ^ 15 - 1) ≤ℤ val
      → val ≤ℤ pos (2 ^ 15 - 1)
      → ((icm20608_write_raw rm chan val val2 calibbias c).0 ≡ written)
        × ((icm20608_read_raw rm unset chan calibbias
              (icm20608_write_raw rm chan val val2 calibbias c).1).0
            ≡ val_int val)
  unfolding icm20608_write_raw icm20608_read_raw
  gyro_bias-read_back unset chan val val2 c e p q low high =
      let r = xg_offs_usrh + chan.axis * 2 in
      let c' = (icm20608_sensor_set rm xg_offs_usrh chan.axis val c).1 in
      let first = sensor_set-sets xg_offs_usrh chan.axis r val c p in
      let second = sensor_set-sets xg_offs_usrh chan.axis (r + 1) val c q in
      let shown = sensor_show-at xg_offs_usrh chan.axis c' in
      let same = to_short-to_u16 val low high in
      let hi : at c' r ≡ to_u16 val / 256 = ground arith in
      let lo : at c' (r + 1) ≡ to_u16 val % 256 = ground arith in
      rw e (first.0, shown ∙ ap (λ n. val_int (to_short n)) (ap₂ be16 hi lo) ∙ ap val_int same)

  -- The accelerometer's offsets stand three registers apart, and the driver writes them two apart: an
  -- offset for the Y axis puts its low byte into that axis's high byte and leaves the low one, and an
  -- offset for the Z axis changes none of that axis's bytes, but the Y axis's low one.
  pub accel_bias_misplaced :
      (y z : Channel) (val val2 : ℤ) (c : Chip)
      → y.chan_type ≡ accel
      → y.axis ≡ 1
      → z.chan_type ≡ accel
      → z.axis ≡ 2
      → plain ya_offset_h ≡ true
      → plain ya_offset_l ≡ true
      → plain za_offset_h ≡ true
      → plain za_offset_l ≡ true
      → let c1 = (icm20608_write_raw rm y val val2 calibbias c).1 in
        let c2 = (icm20608_write_raw rm z val val2 calibbias c).1 in
        (at c1 ya_offset_h ≡ to_u16 val % 256)
        × (at c1 ya_offset_l ≡ at c ya_offset_l)
        × (at c2 za_offset_h ≡ at c za_offset_h)
        × (at c2 za_offset_l ≡ at c za_offset_l)
        × (at c2 ya_offset_l ≡ to_u16 val / 256)
  unfolding icm20608_write_raw
  accel_bias_misplaced y z val val2 c ey ay ez az yh yl zh zl =
      let y1 = (sensor_set-sets xa_offset_h 1 ya_offset_h val c yh).1 in
      let y2 = (sensor_set-sets xa_offset_h 1 ya_offset_l val c yl).1 in
      let z1 = (sensor_set-sets xa_offset_h 2 za_offset_h val c zh).1 in
      let z2 = (sensor_set-sets xa_offset_h 2 za_offset_l val c zl).1 in
      let z3 = (sensor_set-sets xa_offset_h 2 ya_offset_l val c yl).1 in
      rw (ey, ay, ez, az) (y1, y2, z1, z2, z3)
