-- ===== src/Gps/Types.antt =====
-- script/gps/main.c: the message tables' row type and the two-byte length that each message declares.
use config_env.Prelude.{ℕ, ◌+◌, ◌*◌, List, get_or, String}

-- `struct ubx_cfg_poll`. A byte is a number below 256. `msg` holds the bytes of the initialiser:
-- C fills `msg[24]` up with zeros, which is what `msg_at` reads behind them.
pub record CfgPoll : Type 0 where
  pub desc : String
  pub msg : List ℕ

abbrev pub cfg_poll : String → List ℕ → CfgPoll
cfg_poll desc msg = record { desc = desc; msg = msg }

abbrev pub msg_size : ℕ
msg_size = 24

abbrev pub msg_at : List ℕ → ℕ → ℕ
msg_at msg i = get_or msg i 0

-- `((msg[5] << 8) | msg[4]) + 8`: the two operands of `|` share no bit, since `msg[4]` is a byte.
abbrev pub frame_length : List ℕ → ℕ
frame_length msg = msg_at msg 5 * 256 + msg_at msg 4 + 8
