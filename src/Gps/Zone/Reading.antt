-- ===== src/Gps/Zone/Reading.antt =====
-- Which indices `tz_update` (script/gps/main.c) reads.
use config_env.Prelude.{
  ℕ, zero, suc, ◌-◌, ◌≤◌, ◌<◌, List, ◌++◌, ◌≡◌, refl, ◌≢◌, ◌↔◌, none, some, take, set, length,
  length-set, length-take, length-append, replicate, arith,
}
use config_env.Gps.Zone.{strip, tz_size, tz_update, out_of_bounds}

strip-none : (n : ℕ) (buf : List ℕ) → length buf ≤ n → 0 < n → strip n buf ≡ none
unfolding strip
strip-none zero buf h pos = absurd (omega arith)
strip-none (suc n) buf h pos = ground arith

strip-some : (n : ℕ) (buf : List ℕ) → n < length buf → strip n buf ≢ none
unfolding strip
strip-some zero buf h = cc
strip-some (suc n) buf h =
    ground (arith, strip-some n buf, strip-some n (set buf (suc n) 0), length-set buf (suc n) 0)

length-replicate : (n a : ℕ) → length (replicate n a) ≡ n
length-replicate zero a = refl
length-replicate (suc n) a = omega (arith, length-replicate n a)

-- A file of 16 bytes or more makes the function read behind its array; a shorter one never does.
overread_iff :
    (file tz_now : List ℕ) → (tz_update (some file) tz_now ≡ out_of_bounds) ↔ (16 ≤ length file)
unfolding tz_update
overread_iff file tz_now =
    let read = take tz_size file in
    let buf = read ++ replicate (tz_size - length read) 0 in
    let many = length-take tz_size file in
    let size = length-append read (replicate (tz_size - length read) 0) in
    let zeros = length-replicate (tz_size - length read) 0 in
    (
      λ h. ground (arith, strip-some (length read) buf),
      λ h. ground (arith, strip-none (length read) buf),
    )
