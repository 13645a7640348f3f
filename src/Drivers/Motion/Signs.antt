-- ===== src/Drivers/Motion/Signs.antt =====
-- The values of the character devices of the motion sensor beside those of driver/iio/icm20608/icm20608.c.
use config_env.Prelude.{
  ℕ, zero, suc, ◌+◌, ◌-◌, ◌*◌, ◌^◌, ◌<◌, ◌≡◌, ◌∙◌, sym, ap, List, Bool, some, ℤ, pos, negsuc,
  get_or, get_elem?, arith,
}
use config_env.Drivers.Words.{be16, to_short}
use config_env.Drivers.Regmap.{Regmap, contents, IsRegmap}
use config_env.Drivers.Iio.{raw, Channel, icm20608_channels, ReadResult, val_int}
use config_env.Drivers.Iio.Registers.{accel_xout_h}
use config_env.Drivers.Iio.Attributes.{icm20608_read_raw}
use config_env.Drivers.Iio.Trigger.{output_data_size}
use config_env.Drivers.Iio.Trigger.Samples.{raw-sample}
use config_env.Drivers.Motion.{
  Motion, Attr, attr_gx, attr_gy, attr_gz, attr_ax, attr_ay, attr_az, attr_temp, at_bytes,
  motion_of, shown,
}
use config_env.Drivers.Motion.SpiRegmap.{icm20608_readdata, icm20608_show}

-- The channel that the industrial I/O driver has for an attribute.
abbrev pub channel_of : Attr → ℕ
channel_of attr_temp = 0
channel_of attr_gx = 1
channel_of attr_gy = 2
channel_of attr_gz = 3
channel_of attr_ay = 4
channel_of attr_ax = 5
channel_of attr_az = 6

-- A value of 16 bits with its sign taken for a digit: 65536 too much where it is negative.
abbrev pub unsigned : ℤ → ℕ
unsigned (pos n) = n
unsigned (negsuc n) = 2 ^ 16 - 1 - n

abbrev value : ReadResult → ℤ
value (val_int v) = v
value r = pos 0

unsigned-to_short :
    (hi lo : ℕ) → hi < 256 → lo < 256 → unsigned (to_short (be16 hi lo)) ≡ be16 hi lo
unsigned-to_short hi lo h l = ground arith

contents-lt : (f : ℕ → ℕ) → ((j : ℕ) → f j < 256) → (r n i : ℕ) → get_or (contents f r n) i 0 < 256
contents-lt f h r zero i = omega arith
contents-lt f h r (suc n) zero = h r
contents-lt f h r (suc n) (suc i) = contents-lt f h (r + 1) n i

shown-motion_of :
    (a : Attr) (bytes : List ℕ) (chan : Channel)
    → get_elem? icm20608_channels (channel_of a) ≡ some chan
    → shown a (motion_of bytes) ≡ at_bytes bytes (2 * chan.scan_index)
shown-motion_of attr_gx bytes chan e = ground arith
shown-motion_of attr_gy bytes chan e = ground arith
shown-motion_of attr_gz bytes chan e = ground arith
shown-motion_of attr_ax bytes chan e = ground arith
shown-motion_of attr_ay bytes chan e = ground arith
shown-motion_of attr_az bytes chan e = ground arith
shown-motion_of attr_temp bytes chan e = ground arith

module _ {Chip : Type 0} (rm : Regmap Chip) (at : Chip → ℕ → ℕ) (plain : ℕ → Bool)
    (laws : IsRegmap rm at plain) where
  -- The character device prints the sensor's values without their signs: where the industrial I/O driver
  -- reports a negative value of the same data, it prints 65536 more, and elsewhere the same. (No transfer
  -- fails.)
  pub sign_lost :
      (a : Attr) (unset : ℕ) (chan : Channel) (m : Motion) (c : Chip) (v : ℤ)
      → get_elem? icm20608_channels (channel_of a) ≡ some chan
      → (icm20608_read_raw rm unset chan raw c).0 ≡ val_int v
      → (icm20608_show rm a m c).0 ≡ unsigned v
  unfolding icm20608_show icm20608_readdata
  sign_lost a unset chan m c v e r =
      let bytes = contents (at c) accel_xout_h output_data_size in
      let i = 2 * chan.scan_index in
      let small = contents-lt (at c) (laws.bytes c) accel_xout_h output_data_size in
      let same : to_short (at_bytes bytes i) ≡ v =
        ap value (sym (raw-sample rm at plain laws (channel_of a) unset chan c e) ∙ r) in
      let printed : (icm20608_show rm a m c).0 ≡ shown a (motion_of bytes) =
        ground (arith, laws.bulk_reads accel_xout_h output_data_size c) in
      printed
      ∙ shown-motion_of a bytes chan e
      ∙ sym
          (unsigned-to_short (get_or bytes i 0) (get_or bytes (i + 1) 0) (small i) (small (i + 1)))
      ∙ ap unsigned same
