-- ===== src/Gps/Tables/Valid.antt =====
-- The messages of the tables of script/gps/main.c as frames of the protocol.
use config_env.Prelude.{
  ℕ, ◌-◌, ◌≤◌, List, ◌≡◌, refl, Bool, true, ◌&&◌, some, get_elem?, all_of, all_of-get_elem?, drop,
  length, leb, ◌==◌, arith,
}
use config_env.Gps.Types.{CfgPoll, msg_size, msg_at, frame_length}
use config_env.Gps.Checksum.{do_checksum}
use config_env.Gps.Tables.{ubx_m8_cfg_poll, ubx_m9_cfg_poll, ubx_debug_message}

-- A message as the receiver wants it: the two sync characters, a declared length that takes in all
-- the bytes given and fits the array, and the checksum of what stands between.
pub record IsFrame (msg : List ℕ) : Type 0 where
  pub sync1 : msg_at msg 0 ≡ 0xB5
  pub sync2 : msg_at msg 1 ≡ 0x62
  pub whole : length msg ≡ frame_length msg
  pub fits : frame_length msg ≤ msg_size
  pub checked : do_checksum (drop 2 msg) (frame_length msg - 2) ≡ true

-- A row of one of the three tables, that is what `dump_ubx_cfg` and `ubx_debug_message` send.
pub data IsSent : List ℕ → Type 0 where
  m8 : (i : ℕ) {row : CfgPoll} → get_elem? ubx_m8_cfg_poll i ≡ some row → IsSent row.msg
  m9 : (i : ℕ) {row : CfgPoll} → get_elem? ubx_m9_cfg_poll i ≡ some row → IsSent row.msg
  debug : (i : ℕ) {msg : List ℕ} → get_elem? ubx_debug_message i ≡ some msg → IsSent msg

is_frame : List ℕ → Bool
is_frame msg =
    msg_at msg 0 == 0xB5
    && msg_at msg 1 == 0x62
    && length msg == frame_length msg
    && leb (frame_length msg) msg_size
    && do_checksum (drop 2 msg) (frame_length msg - 2)

is_frame_sound : (msg : List ℕ) → is_frame msg ≡ true → IsFrame msg
unfolding is_frame
is_frame_sound msg h = ground arith

m8_checked : all_of (λ (r : CfgPoll). is_frame r.msg) ubx_m8_cfg_poll ≡ true
unfolding is_frame do_checksum ubx_m8_cfg_poll
m8_checked = refl

m9_checked : all_of (λ (r : CfgPoll). is_frame r.msg) ubx_m9_cfg_poll ≡ true
unfolding is_frame do_checksum ubx_m9_cfg_poll
m9_checked = refl

debug_checked : all_of is_frame ubx_debug_message ≡ true
unfolding is_frame do_checksum ubx_debug_message
debug_checked = refl

-- Every message in the three tables is a well-formed frame: it starts with the sync characters, its
-- declared length is the number of bytes given and at most the 24 of the array, and its last two
-- bytes are the checksum of the bytes between.
pub IsSent-IsFrame : {msg : List ℕ} → IsSent msg → IsFrame msg
IsSent-IsFrame (m8 i {row} e) =
    is_frame_sound row.msg (all_of-get_elem? (λ (r : CfgPoll). is_frame r.msg) _ i m8_checked e)
IsSent-IsFrame (m9 i {row} e) =
    is_frame_sound row.msg (all_of-get_elem? (λ (r : CfgPoll). is_frame r.msg) _ i m9_checked e)
IsSent-IsFrame (debug i {msg} e) =
    is_frame_sound msg (all_of-get_elem? is_frame _ i debug_checked e)
