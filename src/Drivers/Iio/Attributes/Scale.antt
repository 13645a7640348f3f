-- ===== src/Drivers/Iio/Attributes/Scale.antt =====
-- The ranges of the sensor that driver/iio/icm20608/icm20608.c sets and reports.
use config_env.Prelude.{
  ℕ, zero, suc, ◌*◌, ◌<◌, List, ◌≡◌, refl, ◌∙◌, ap, Bool, true, none, some, ℤ, pos, negsuc, get_or,
  arith, ◌≢◌,
}
use config_env.Drivers.Regmap.{Regmap, IsRegmap}
use config_env.Drivers.Iio.Registers.{gyro_config, accel_config}
use config_env.Drivers.Iio.{
  ChanType, angl_vel, accel, scale, Channel, gyro_scale_icm20608, accel_scale_icm20608, ReadResult,
  val_micro, val_nano, written, write_einval, find_scale, write_scale, scale_field,
  icm20608_read_onereg,
}
use config_env.Drivers.Iio.Attributes.{read_scale, icm20608_read_raw, icm20608_write_raw}

-- The two kinds of channels that have ranges: the gyroscope's and the accelerometer's.
pub data Kind : Type 0 where
  gyro_kind accel_kind : Kind

abbrev pub type_of : Kind → ChanType
type_of gyro_kind = angl_vel
type_of accel_kind = accel

abbrev pub config_of : Kind → ℕ
config_of gyro_kind = gyro_config
config_of accel_kind = accel_config

abbrev pub table_of : Kind → List ℕ
table_of gyro_kind = gyro_scale_icm20608
table_of accel_kind = accel_scale_icm20608

-- A scale in millionths for the gyroscope, in billionths for the accelerometer.
abbrev pub reported : Kind → ℕ → ReadResult
reported gyro_kind n = val_micro 0 n
reported accel_kind n = val_nano 0 n

found_at :
    (k : Kind) (i : ℕ) → i < 4 → find_scale (table_of k) 0 (pos (get_or (table_of k) i 0)) ≡ some i
unfolding find_scale
found_at gyro_kind zero h = refl
found_at gyro_kind (suc zero) h = refl
found_at gyro_kind (suc (suc zero)) h = refl
found_at gyro_kind (suc (suc (suc zero))) h = refl
found_at gyro_kind (suc (suc (suc (suc i)))) h = absurd (omega arith)
found_at accel_kind zero h = refl
found_at accel_kind (suc zero) h = refl
found_at accel_kind (suc (suc zero)) h = refl
found_at accel_kind (suc (suc (suc zero))) h = refl
found_at accel_kind (suc (suc (suc (suc i)))) h = absurd (omega arith)

not_found :
    (k : Kind) (v : ℤ)
    → ((i : ℕ) → i < 4 → v ≢ pos (get_or (table_of k) i 0))
    → find_scale (table_of k) 0 v ≡ none
unfolding find_scale
not_found gyro_kind (pos n) h = ground (arith, h 0, h 1, h 2, h 3)
not_found gyro_kind (negsuc n) h = refl
not_found accel_kind (pos n) h = ground (arith, h 0, h 1, h 2, h 3)
not_found accel_kind (negsuc n) h = refl

module _ {Chip : Type 0} (rm : Regmap Chip) where
  write_raw-scale :
      (k : Kind) (chan : Channel) (val val2 : ℤ) (c : Chip)
      → chan.chan_type ≡ type_of k
      → icm20608_write_raw rm chan val val2 scale c
        ≡ write_scale rm (table_of k) (config_of k) val2 c
  unfolding icm20608_write_raw
  write_raw-scale gyro_kind chan val val2 c e = ground arith
  write_raw-scale accel_kind chan val val2 c e = ground arith

  read_raw-scale :
      (k : Kind) (unset : ℕ) (chan : Channel) (c : Chip)
      → chan.chan_type ≡ type_of k
      → (icm20608_read_raw rm unset chan scale c).0
        ≡ reported k
            (get_or (table_of k) (scale_field (icm20608_read_onereg rm unset (config_of k) c).0) 0)
  unfolding icm20608_read_raw read_scale
  read_raw-scale gyro_kind unset chan c e = ground arith
  read_raw-scale accel_kind unset chan c e = ground arith

  module _ (at : Chip → ℕ → ℕ) (plain : ℕ → Bool) (laws : IsRegmap rm at plain) where
    read_onereg-at : (unset r : ℕ) (c : Chip) → (icm20608_read_onereg rm unset r c).0 ≡ at c r
    unfolding icm20608_read_onereg
    read_onereg-at unset r c = ground (arith, laws.reads r c, laws.bytes c r)

    write_scale-at :
        (k : Kind) (i : ℕ) (v : ℤ) (c : Chip)
        → find_scale (table_of k) 0 v ≡ some i
        → write_scale rm (table_of k) (config_of k) v c
          ≡ (written, (rm.regmap_write (config_of k) (i * 8) c).1)
    unfolding write_scale
    write_scale-at k i v c e = ground (arith, laws.writes (config_of k) (i * 8) c)

    -- Each of the four ranges of the gyroscope and of the accelerometer can be set: the call succeeds,
    -- the range is reported when it is read back, and no other configuration register changes. (No
    -- transfer on the bus fails, and the register holds what is written.)
    pub scale-read_back :
        (k : Kind) (i unset j : ℕ) (chan : Channel) (val : ℤ) (c : Chip)
        → i < 4
        → chan.chan_type ≡ type_of k
        → plain (config_of k) ≡ true
        → plain j ≡ true
        → j ≢ config_of k
        → let n = get_or (table_of k) i 0 in
          let r = icm20608_write_raw rm chan val (pos n) scale c in
          (r.0 ≡ written)
          × ((icm20608_read_raw rm unset chan scale r.1).0 ≡ reported k n)
          × (at r.1 j ≡ at c j)
    scale-read_back k i unset j chan val c h e p q ne =
        let n = get_or (table_of k) i 0 in
        let c' = (rm.regmap_write (config_of k) (i * 8) c).1 in
        let call : icm20608_write_raw rm chan val (pos n) scale c ≡ (written, c') =
          write_raw-scale k chan val (pos n) c e ∙ write_scale-at k i (pos n) c (found_at k i h) in
        let small : i * 8 < 256 = omega arith in
        let set_to : at c' (config_of k) ≡ i * 8 =
          ground (arith, laws.write_sets (config_of k) (i * 8) (config_of k) c p p small) in
        let field : scale_field (at c' (config_of k)) ≡ i = ap scale_field set_to ∙ omega arith in
        let read_back =
          read_raw-scale k unset chan c' e
          ∙ ap (λ v. reported k (get_or (table_of k) (scale_field v) 0))
              (read_onereg-at unset (config_of k) c')
          ∙ ap (λ f. reported k (get_or (table_of k) f 0)) field in
        let kept : at c' j ≡ at c j =
          ground (arith, laws.write_sets (config_of k) (i * 8) j c p q small) in
        rw call (refl, read_back, kept)

  -- Any other scale is refused and changes nothing.
  other_scale_refused :
      (k : Kind) (chan : Channel) (val val2 : ℤ) (c : Chip)
      → chan.chan_type ≡ type_of k
      → ((i : ℕ) → i < 4 → val2 ≢ pos (get_or (table_of k) i 0))
      → icm20608_write_raw rm chan val val2 scale c ≡ (write_einval, c)
  unfolding write_scale
  other_scale_refused k chan val val2 c e h =
      write_raw-scale k chan val val2 c e ∙ rw (not_found k val2 h, write_scale)
