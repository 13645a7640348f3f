-- ===== src/Drivers/Gpio/Presses.antt =====
-- The LED of the drivers under driver/gpio, after any number of presses.
use config_env.Prelude.{
  ℕ, zero, suc, ◌%◌, ◌≡◌, refl, ◌∙◌, sym, ◌≢◌, Bool, false, not, ◌==◌, if◌then◌else◌, arith,
}
use config_env.Drivers.Gpio.{Led, started_high, started_low, key_pushed_irq_handler, presses}

abbrev pub is_odd : ℕ → Bool
is_odd n = n % 2 == 1

state_after : (n : ℕ) (l : Led) → (presses n l).state ≡ (if is_odd n then not l.state else l.state)
unfolding presses
state_after zero l = ground arith
state_after (suc n) l = ground (arith, state_after n (key_pushed_irq_handler l))

value_after : (n : ℕ) (l : Led) → (presses (suc n) l).value ≡ (presses (suc n) l).state
unfolding presses
value_after zero l = refl
value_after (suc n) l = value_after n (key_pushed_irq_handler l)

from_off : (n : ℕ) (l : Led) → l.state ≡ false → (presses (suc n) l).value ≡ is_odd (suc n)
from_off n l off = ground (arith, value_after n l, state_after (suc n) l)

low_value : (n : ℕ) → (presses n started_low).value ≡ is_odd n
unfolding presses
low_value zero = ground arith
low_value (suc n) = from_off n started_low refl

flips : (n : ℕ) → is_odd (suc n) ≢ is_odd n
flips n = ground arith

-- What the LED shows after `n` presses and one more.
record Shows (n : ℕ) : Type 0 where
  pub high : (presses (suc n) started_high).value ≡ is_odd (suc n)
  pub low : (presses (suc n) started_low).value ≡ is_odd (suc n)
  pub first_high : (presses 1 started_high).value ≡ started_high.value
  pub each_low : (presses (suc n) started_low).value ≢ (presses n started_low).value

-- From the first press of the key on, the LED of each of the three drivers is on exactly if the number
-- of presses is odd. So where the LED starts switched off, as in gpio-legacy-dt-module.c, each press
-- changes it; where it starts switched on, as in gpio-legacy-module.c and gpio-descriptor-module.c, the
-- first press leaves it as it is.
presses-Shows : (n : ℕ) → Shows n
presses-Shows n = record {
  high = from_off n started_high refl;
  low = low_value (suc n);
  first_high = from_off 0 started_high refl;
  each_low = λ e. flips n (sym (low_value (suc n)) ∙ e ∙ low_value n);
}
