-- ===== src/Drivers/Gpio.antt =====
-- driver/gpio: the LED that the three drivers switch at each press of a key.
pub mod Presses
use config_env.Prelude.{ℕ, zero, suc, Bool, true, false, not}

-- The handler's static `state`, and the value that was last given to the LED's line.
pub record Led : Type 0 where
  pub state : Bool
  pub value : Bool

-- `gpio_direction_output(…, 1)` in gpio-legacy-module.c, and `GPIOD_OUT_HIGH` in
-- gpio-descriptor-module.c.
abbrev pub started_high : Led
started_high = record { state = false; value = true }

-- `gpio_direction_output(gpio_led, 0)` in gpio-legacy-dt-module.c.
abbrev pub started_low : Led
started_low = record { state = false; value = false }

unfoldable pub key_pushed_irq_handler : Led → Led
key_pushed_irq_handler l = record { state = not l.state; value = not l.state }

unfoldable pub presses : ℕ → Led → Led
unfolding key_pushed_irq_handler
presses zero l = l
presses (suc n) l = presses n (key_pushed_irq_handler l)
