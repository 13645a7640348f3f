-- ===== src/Drivers/FakeRtc.antt =====
-- driver/rtc/fake/fake-rtc.c: a clock that counts from the time at which it was set.
use config_env.Prelude.{
  ℕ, ◌+◌, ◌-◌, ◌*◌, ◌/◌, ◌%◌, ◌^◌, ◌≤◌, ◌<◌, ◌≡◌, refl, ◌∙◌, ltb, if◌then◌else◌, arith,
}

-- `struct timespec64`
pub record Timespec : Type 0 where
  pub sec : ℕ
  pub nsec : ℕ

abbrev pub nsec_per_sec : ℕ
nsec_per_sec = 1_000_000_000

-- The statics `begin_time` and `time`.
pub record Rtc : Type 0 where
  pub begin_time : Timespec
  pub time : ℕ

-- Seconds, rounded.
unfoldable pub timespec_to_ulong : Timespec → ℕ
timespec_to_ulong ts = if ltb ts.nsec (nsec_per_sec / 2) then ts.sec else ts.sec + 1

-- The kernel's functions: `timespec64_sub`, and the two between seconds and calendar times.
pub record TimeCalls (Tm : Type 0) : Type 0 where
  pub timespec64_sub : Timespec → Timespec → Timespec
  pub rtc_time_to_tm : ℕ → Tm
  pub rtc_tm_to_time : Tm → ℕ

abbrev pub nanoseconds : Timespec → ℕ
nanoseconds t = t.sec * nsec_per_sec + t.nsec

-- What is documented of them: a difference of times in their order is the time in between, with less
-- than a second of nanoseconds; the conversions of 32-bit seconds are inverse to each other.
pub record Documented {Tm : Type 0} (k : TimeCalls Tm) : Type 0 where
  pub sub :
      (a b : Timespec)
      → nanoseconds b ≤ nanoseconds a
      → nanoseconds (k.timespec64_sub a b) + nanoseconds b ≡ nanoseconds a
  pub sub_nsec : (a b : Timespec) → (k.timespec64_sub a b).nsec < nsec_per_sec
  pub tm : (n : ℕ) → n < 2 ^ 32 → k.rtc_tm_to_time (k.rtc_time_to_tm n) ≡ n

module _ {Tm : Type 0} (k : TimeCalls Tm) where
  -- `uptime` is what `ktime_get_boottime_ts64` gives; `unsigned long` has 32 bits on the boards.
  unfoldable pub fake_rtc_read_time : (uptime : Timespec) → Rtc → Tm
  unfolding timespec_to_ulong
  fake_rtc_read_time uptime r =
      k.rtc_time_to_tm
        ((r.time + timespec_to_ulong (k.timespec64_sub uptime r.begin_time)) % 2 ^ 32)

  unfoldable pub fake_rtc_set_time : (uptime : Timespec) → Tm → Rtc → Rtc
  fake_rtc_set_time uptime tm r = record { begin_time = uptime; time = k.rtc_tm_to_time tm }

  rounded :
      (ts : Timespec) (n : ℕ)
      → ts.nsec < nsec_per_sec
      → n ≡ timespec_to_ulong ts
      → (n * nsec_per_sec ≤ nanoseconds ts + nsec_per_sec / 2)
        × (nanoseconds ts < n * nsec_per_sec + nsec_per_sec / 2)
  unfolding timespec_to_ulong
  rounded ts n small e = ground arith

  -- The clock, set to `tm` and read `elapsed` nanoseconds later, shows the time it was set to and the
  -- seconds that have passed, rounded to the nearest one: it is at most half a second ahead, and less
  -- than that behind. (Up to the end of the 32-bit seconds.)
  fake_rtc-set_read :
      Documented k
      → (tm : Tm) (r : Rtc) (start later : Timespec) → nanoseconds start ≤ nanoseconds later
      → k.rtc_tm_to_time tm + (nanoseconds later - nanoseconds start) / nsec_per_sec + 1 < 2 ^ 32
      → let shown = k.rtc_tm_to_time (fake_rtc_read_time later (fake_rtc_set_time start tm r)) in
        let elapsed = nanoseconds later - nanoseconds start in
        (k.rtc_tm_to_time tm ≤ shown)
        × ((shown - k.rtc_tm_to_time tm) * nsec_per_sec ≤ elapsed + nsec_per_sec / 2)
        × (elapsed < (shown - k.rtc_tm_to_time tm) * nsec_per_sec + nsec_per_sec / 2)
  unfolding fake_rtc_read_time fake_rtc_set_time
  fake_rtc-set_read doc tm r start later order room =
      let d = k.timespec64_sub later start in
      let seconds = timespec_to_ulong d in
      let time = k.rtc_tm_to_time tm in
      let passed = doc.sub later start order in
      let near = rounded d seconds (doc.sub_nsec later start) refl in
      let whole : (time + seconds) % 2 ^ 32 ≡ time + seconds = omega arith in
      let shown = doc.tm ((time + seconds) % 2 ^ 32) (omega arith) ∙ whole in
      rw shown (omega arith, omega arith, omega arith)
