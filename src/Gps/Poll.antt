-- ===== src/Gps/Poll.antt =====
-- script/gps/main.c: `poll_ubx_data`, the parser of the receiver's answers and the loop around it.
pub mod Bounds
pub mod Answer
pub mod Verdict
pub mod Sound
pub mod Resync
pub mod Loop
use config_env.Prelude.{
  [], ℕ, ◌-◌, List, ◌∷◌, ◌++◌, Bool, true, false, ◌&&◌, ◌||◌, ◌==◌, if◌then◌else◌, ltb, leb, length,
  take, drop, String,
}
use config_env.Gps.Types.{CfgPoll, msg_at, frame_length}
use config_env.Gps.Checksum.{do_checksum}

abbrev pub sync_char1 : ℕ
sync_char1 = 0xB5

abbrev pub sync_char2 : ℕ
sync_char2 = 0x62

-- `UBX_FRAME_MAX`, the size of the array `frame`
abbrev pub frame_max : ℕ
frame_max = 2048

-- `state`: 0, 1, 2 and 3
pub data State : Type 0 where
  hunt_sync1 hunt_sync2 header payload : State

-- `done`: 0, POLL_MSG_OK and POLL_MSG_NAK; the last is only a result of the whole function.
pub data Done : Type 0 where
  pending ok nak cksum_err : Done

-- The variables of the function that outlive a byte. `frame` is the part of the array below
-- `frame_len`, so `frame_len` is its length; `written` is what `write_msg_to_file` was given.
pub record Parser : Type 0 where
  pub state : State
  pub frame : List ℕ
  pub expected_len : ℕ
  pub done : Done
  pub cksum_err_seen : Bool
  pub written : List (String × List ℕ)

abbrev pub start : Parser
start = record {
  state = hunt_sync1;
  frame = [];
  expected_len = 0;
  done = pending;
  cksum_err_seen = false;
  written = [];
}

-- `state = 0; frame_len = 0;`
abbrev pub reset : Parser → Parser
reset p = record p { state = hunt_sync1; frame = [] }

-- `frame[frame_len++] = b;`
abbrev pub store : Parser → ℕ → Parser
store p b = record p { frame = p.frame ++ b ∷ [] }

unfoldable pub on_sync1 : Parser → ℕ → Parser
on_sync1 p b = if b == sync_char1 then record p { frame = b ∷ []; state = hunt_sync2 } else p

unfoldable pub on_sync2 : Parser → ℕ → Parser
on_sync2 p b =
    if b == sync_char2
    then record (store p b) { state = header }
    else record p { state = hunt_sync1 }

-- The header is complete: its length field decides.
unfoldable pub end_header : Parser → Parser
end_header p =
    let n = frame_length p.frame in
    if ltb frame_max n || ltb n 8
    then record (reset p) { expected_len = n }
    else record p { state = payload; expected_len = n }

unfoldable pub on_header : Parser → ℕ → Parser
unfolding end_header
on_header p b = let p' = store p b in if leb 6 (length p'.frame) then end_header p' else p'

-- A whole frame is in: a NAK (class 5, id 0) for our message, our answer, or a frame of others.
unfoldable pub end_frame : CfgPoll → Parser → Parser
end_frame poll p =
    let cls = msg_at p.frame 2 in
    let id = msg_at p.frame 3 in
    let ours = λ (c i : ℕ). c == msg_at poll.msg 2 && i == msg_at poll.msg 3 in
    if cls == 0x05 && id == 0x00
    then (if leb 10 p.expected_len && ours (msg_at p.frame 6) (msg_at p.frame 7)
        then record p { done = nak }
        else p)
    else if ours cls id
    then (if do_checksum (drop 2 p.frame) (p.expected_len - 2)
        then record p {
          done = ok;
          written = p.written ++ (poll.desc, take (p.expected_len - 4) (drop 2 p.frame)) ∷ [];
        }
        else record p { cksum_err_seen = true })
    else p

unfoldable pub on_payload : CfgPoll → Parser → ℕ → Parser
unfolding end_frame
on_payload poll p b =
    let p' = store p b in
    if leb p'.expected_len (length p'.frame) then reset (end_frame poll p') else p'

dispatch : CfgPoll → State → Parser → ℕ → Parser
dispatch poll hunt_sync1 p b = on_sync1 p b
dispatch poll hunt_sync2 p b = on_sync2 p b
dispatch poll header p b = on_header p b
dispatch poll payload p b = on_payload poll p b

-- The `switch` on one byte.
pub step : CfgPoll → Parser → ℕ → Parser
unfolding dispatch on_sync1 on_sync2 on_header on_payload
step poll p b = dispatch poll p.state p b

abbrev pub is_pending : Done → Bool
is_pending pending = true
is_pending ok = false
is_pending nak = false
is_pending cksum_err = false

-- `for(i = 0; i < bytes_read && !done; i++)`
pub feed : CfgPoll → Parser → List ℕ → Parser
unfolding step
feed poll p [] = p
feed poll p (b ∷ bs) =
    let rest = feed poll (step poll p b) bs in if is_pending p.done then rest else p
