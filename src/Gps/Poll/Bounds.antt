-- ===== src/Gps/Poll/Bounds.antt =====
-- The accesses of `poll_ubx_data` (script/gps/main.c) to its array of `UBX_FRAME_MAX` bytes.
use config_env.Prelude.{[], ℕ, ◌≤◌, ◌<◌, List, ◌∷◌, ◌≡◌, refl, length, length-append, arith}
use config_env.Gps.Types.{CfgPoll}
use config_env.Gps.Poll.{
  State, hunt_sync1, hunt_sync2, header, payload, Parser, frame_max, step, feed, dispatch, on_sync1,
  on_sync2, on_header, end_header, on_payload, end_frame, start,
}

-- What each state knows of `frame_len` and `expected_len`.
abbrev pub Fits : State → ℕ → ℕ → Type 0
Fits hunt_sync1 n e = n ≤ frame_max
Fits hunt_sync2 n e = n ≡ 1
Fits header n e = (2 ≤ n) × (n < 6)
Fits payload n e = (6 ≤ n) × (n < e) × (8 ≤ e) × (e ≤ frame_max)

abbrev pub IsBounded : Parser → Type 0
IsBounded p = Fits p.state (length p.frame) p.expected_len

-- The index at which the next byte is stored, if it is.
abbrev pub write_index : State → ℕ → ℕ
write_index hunt_sync1 n = 0
write_index hunt_sync2 n = n
write_index header n = n
write_index payload n = n

write_index-lt : (s : State) (n e : ℕ) → Fits s n e → write_index s n < frame_max
write_index-lt hunt_sync1 n e h = omega arith
write_index-lt hunt_sync2 n e h = omega arith
write_index-lt header n e h = omega arith
write_index-lt payload n e h = omega arith

end_frame-same :
    (poll : CfgPoll) (p : Parser)
    → ((end_frame poll p).frame ≡ p.frame) × ((end_frame poll p).expected_len ≡ p.expected_len)
unfolding end_frame
end_frame-same poll p = ground arith

module _ (poll : CfgPoll) (p : Parser) (b : ℕ) where
  dispatch-IsBounded : (s : State) → p.state ≡ s → IsBounded p → IsBounded (dispatch poll s p b)
  unfolding dispatch on_sync1 on_sync2 on_header end_header on_payload
  dispatch-IsBounded hunt_sync1 e h = ground (arith)
  dispatch-IsBounded hunt_sync2 e h = ground (arith, length-append p.frame (b ∷ []))
  dispatch-IsBounded header e h = ground (arith, length-append p.frame (b ∷ []))
  dispatch-IsBounded payload e h = ground (arith, length-append p.frame (b ∷ []))

  pub step-IsBounded : IsBounded p → IsBounded (step poll p b)
  unfolding step
  step-IsBounded h = dispatch-IsBounded p.state refl h

feed-IsBounded :
    (poll : CfgPoll) (p : Parser) (bs : List ℕ) → IsBounded p → IsBounded (feed poll p bs)
unfolding feed
feed-IsBounded poll p [] h = h
feed-IsBounded poll p (b ∷ bs) h =
    ground (arith, feed-IsBounded poll (step poll p b) bs (step-IsBounded poll p b h))

-- Whatever bytes the receiver sends, in however many reads, the parser stays within its array: the
-- lengths fit the state, and the next byte is stored at an index below 2048.
pub feed_in_bounds :
    (poll : CfgPoll) (bs : List ℕ)
    → let p = feed poll start bs in IsBounded p × (write_index p.state (length p.frame) < frame_max)
feed_in_bounds poll bs =
    let p = feed poll start bs in
    let h : IsBounded p = feed-IsBounded poll start bs (omega arith) in
    (h, write_index-lt p.state (length p.frame) p.expected_len h)
