-- ===== src/Mcast/Tests.antt =====
-- An example for the theorem on mcast.
use config_env.Prelude.{[], ◌∷◌, arith, refl}
use config_env.Mcast.{Text, send_lines}
use config_env.Mcast.Typed.{Prints, send_lines-Prints}

-- A line, an empty one, and one that the end of the input ends.
abbrev typed : Text
typed = b'h' ∷ b'i' ∷ 10 ∷ 10 ∷ b'x' ∷ []

send_lines-Prints_example : Prints (send_lines 6 typed) typed
send_lines-Prints_example = send_lines-Prints 6 typed (omega arith) refl
