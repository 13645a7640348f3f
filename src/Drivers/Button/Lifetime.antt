-- ===== src/Drivers/Button/Lifetime.antt =====
-- The probes of driver/input/input-button.c and input-polled-button.c, when they succeed and when they
-- fail.
use config_env.Prelude.{◌≡◌, ◌≢◌, ◌↔◌, Bool, true, false, ◌&&◌, ◌==◌, arith}
use config_env.Drivers.Button.{
  nothing_held, registered, Kernel, btn_probe, btn_remove, polled_btn_probe, polled_btn_remove,
}

-- All that the probe asks of the kernel succeeds.
abbrev pub all_succeed : Kernel → Bool
all_succeed k =
    k.devm_kzalloc
    && k.input_allocate_device
    && k.gpiod_get
    && k.input_register_device == 0
    && k.request_any_context_irq == 0

-- What a run of the probe comes to, and the removal after it.
pub record Life (k : Kernel) : Type 0 where
  pub succeeds : ((btn_probe k).ret ≡ 0) ↔ (all_succeed k ≡ true)
  pub takes_all :
      (btn_probe k).ret ≡ 0
      → (btn_probe k).held ≡ record { input = registered; gpio = true; irq = true }
  pub removed : (btn_probe k).ret ≡ 0 → btn_remove (btn_probe k).held ≡ nothing_held
  pub failed :
      k.devm_kzalloc ≡ true
      → k.input_allocate_device ≡ true
      → (btn_probe k).ret ≢ 0
      → (btn_probe k).held ≢ nothing_held

-- The probe of the button succeeds exactly if the kernel grants all that it asks for; then the device
-- is registered, with its descriptor and its interrupt, and the removal gives all of it back. But once
-- both allocations have succeeded, no failure of the probe gives everything back: a failing `gpiod_get`
-- leaves the input device allocated, a failing registration leaves the descriptor taken, and a failing
-- request of the interrupt frees an input device that is registered.
btn_probe-Life : (k : Kernel) → Life k
unfolding btn_probe btn_remove
btn_probe-Life k = record {
  succeeds = ground arith;
  takes_all = ground arith;
  removed = ground arith;
  failed = ground arith;
}

-- The polled driver's probe succeeds without a descriptor, which its polling then reads.
polled_without_gpio :
    (k : Kernel)
    → k.devm_kzalloc ≡ true
    → k.input_allocate_device ≡ true
    → k.input_register_device ≡ 0
    → k.gpiod_get ≡ false
    → polled_btn_probe k ≡ record { ret = 0; held = record nothing_held { input = registered } }
unfolding polled_btn_probe
polled_without_gpio k a b r g = ground arith

-- It gives all back on removal, and after a failing registration keeps the descriptor.
polled_lifetime :
    (k : Kernel)
    → ((polled_btn_probe k).ret ≡ 0 → polled_btn_remove (polled_btn_probe k).held ≡ nothing_held)
      × ((polled_btn_probe k).ret ≢ 0
          → (polled_btn_probe k).held.gpio
            ≡ (k.devm_kzalloc && k.input_allocate_device && k.gpiod_get))
unfolding polled_btn_probe polled_btn_remove
polled_lifetime k = (ground arith, ground arith)
