-- ===== src/Drivers/Button.antt =====
-- driver/input/input-button.c and input-polled-button.c: what the two drivers for a button take and
-- give back. What the kernel's functions return is a parameter.
pub mod Lifetime
use config_env.Prelude.{ℕ, Bool, true, false, not, ◌==◌, if◌then◌else◌}

-- The input device: none, allocated, registered with the input core, or freed although the input core
-- still has it.
pub data InputDevice : Type 0 where
  absent allocated registered dangling : InputDevice

-- `polled` is the polling device that wraps an input device; `gpio` a descriptor that was not put back;
-- `irq` an interrupt that is requested.
pub record Held : Type 0 where
  pub input : InputDevice
  pub gpio : Bool
  pub irq : Bool

abbrev pub nothing_held : Held
nothing_held = record { input = absent; gpio = false; irq = false }

-- `input_free_device` is for devices that are not registered.
abbrev pub input_free_device : InputDevice → InputDevice
input_free_device absent = absent
input_free_device allocated = absent
input_free_device registered = dangling
input_free_device dangling = dangling

-- `input_unregister_device` gives the device back, too.
abbrev pub input_unregister_device : InputDevice → InputDevice
input_unregister_device absent = absent
input_unregister_device allocated = allocated
input_unregister_device registered = absent
input_unregister_device dangling = dangling

-- Whether the allocations succeed and `gpiod_get` gives a descriptor; what the registration and the
-- request of the interrupt return, 0 or the error's number.
pub record Kernel : Type 0 where
  pub devm_kzalloc : Bool
  pub input_allocate_device : Bool
  pub gpiod_get : Bool
  pub input_register_device : ℕ
  pub request_any_context_irq : ℕ

abbrev pub enodev : ℕ
enodev = 19

abbrev pub enomem : ℕ
enomem = 12

-- What is returned, and what is held then. `free_input` is the label `err_input`, `put_gpio` is
-- `err_btn`.
pub record Probed : Type 0 where
  pub ret : ℕ
  pub held : Held

abbrev pub free_input : ℕ → Held → Probed
free_input ret held = record {
  ret = ret;
  held = record held { input = input_free_device held.input };
}

abbrev pub put_gpio : ℕ → Held → Probed
put_gpio ret held = free_input ret (record held { gpio = false })

unfoldable pub btn_probe : Kernel → Probed
btn_probe k =
    let with_input = record nothing_held { input = allocated } in
    let with_gpio = record with_input { gpio = true } in
    let with_device = record with_gpio { input = registered } in
    if not k.devm_kzalloc
    then record { ret = enomem; held = nothing_held }
    else if not k.input_allocate_device
    then record { ret = enomem; held = nothing_held }
    else if not k.gpiod_get
    then record { ret = enodev; held = with_input }
    else if not (k.input_register_device == 0)
    then free_input k.input_register_device with_gpio
    else if not (k.request_any_context_irq == 0)
    then put_gpio k.request_any_context_irq with_device
    else record { ret = 0; held = record with_device { irq = true } }

unfoldable pub btn_remove : Held → Held
btn_remove held = record { input = input_unregister_device held.input; gpio = false; irq = false }

-- The other driver asks for no interrupt, and does not look at what `gpiod_get` gives.
unfoldable pub polled_btn_probe : Kernel → Probed
polled_btn_probe k =
    let with_gpio = record nothing_held { input = allocated; gpio = k.gpiod_get } in
    if not k.devm_kzalloc
    then record { ret = enomem; held = nothing_held }
    else if not k.input_allocate_device
    then record { ret = enomem; held = nothing_held }
    else if not (k.input_register_device == 0)
    then free_input k.input_register_device with_gpio
    else record { ret = 0; held = record with_gpio { input = registered } }

unfoldable pub polled_btn_remove : Held → Held
polled_btn_remove held = record held { input = input_unregister_device held.input; gpio = false }
