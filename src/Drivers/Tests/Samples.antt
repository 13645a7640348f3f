-- ===== src/Drivers/Tests/Samples.antt =====
-- Examples for the theorems on the small drivers of driver/sysfs and driver/rtc.
use config_env.Prelude.{
  [], ◌∷◌, ◌≡◌, some, ◌==◌, if◌then◌else◌, ℕ, ◌-◌, ◌/◌, ◌%◌, refl, true, pos, arith,
}
use config_env.Drivers.FakeRtc.{TimeCalls, nanoseconds, Documented}
use config_env.Drivers.Kset
use config_env.Drivers.Kset.{KsetKernel, ExampleData, my_buffer_store, my_buffer_show}
use config_env.Drivers.Kset.Buffer.{my_buffer-read_back}
use config_env.Drivers.Kset.Lifetime.{kset-Life}

-- Calendar times are seconds here.
abbrev seconds_calls : TimeCalls ℕ
seconds_calls = record {
  timespec64_sub = λ a b. record {
    sec = (nanoseconds a - nanoseconds b) / 1_000_000_000;
    nsec = (nanoseconds a - nanoseconds b) % 1_000_000_000;
  };
  rtc_time_to_tm = λ n. n;
  rtc_tm_to_time = λ n. n;
}

seconds_calls-Documented : Documented seconds_calls
seconds_calls-Documented = record {
  sub = λ a b order. omega arith;
  sub_nsec = λ a b. omega arith;
  tm = λ n small. refl;
}

-- "setB" is refused.
abbrev kset_kernel : KsetKernel
kset_kernel = record {
  kset_create_and_add = true;
  kzalloc = λ n. true;
  kobject_init_and_add = λ n. if n == 1 then 17 else 0;
}

kset-Life_example : Kset.Lifetime.Life kset_kernel
kset-Life_example = kset-Life kset_kernel refl

abbrev example_data : ExampleData
example_data = record { my_int = pos 0; my_buffer = [] }

-- "hi", as `echo` writes it.
my_buffer-read_back_example :
    my_buffer_show (my_buffer_store (104 ∷ 105 ∷ 10 ∷ []) example_data).1
    ≡ some (104 ∷ 105 ∷ 10 ∷ 10 ∷ [])
my_buffer-read_back_example = my_buffer-read_back (104 ∷ 105 ∷ 10 ∷ []) example_data
