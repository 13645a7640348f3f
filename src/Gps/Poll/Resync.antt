-- ===== src/Gps/Poll/Resync.antt =====
-- A frame that the parser of `poll_ubx_data` (script/gps/main.c) loses: state 1 drops a second sync
-- character instead of taking it for the start of a frame.
use config_env.Prelude.{
  [], ℕ, List, ◌∷◌, ◌≡◌, ◌∙◌, Bool, true, ◌==◌, not, arith, String, all_of, append-nil, ap, sym,
}
use config_env.Gps.Types.{CfgPoll}
use config_env.Gps.Poll.{
  hunt_sync1, sync_char1, sync_char2, feed, step, dispatch, on_sync1, on_sync2,
}
use config_env.Gps.Poll.Answer.{parser, skip_noise}

module _ (poll : CfgPoll) (c : Bool) (w : List (String × List ℕ)) where
  doubled_sync :
      (f : List ℕ) (e : ℕ) (rest : List ℕ)
      → feed poll (parser hunt_sync1 f e c w) (sync_char1 ∷ sync_char1 ∷ rest)
        ≡ feed poll (parser hunt_sync1 (sync_char1 ∷ []) e c w) rest
  unfolding feed step dispatch on_sync1 on_sync2
  doubled_sync f e rest = ground arith

  -- A stray sync character right before a frame hides the frame, whatever it holds: if the first sync
  -- character does not occur again in it, the parser is hunting again at its end, the poll is still
  -- unanswered and nothing is written.
  frame_after_sync_lost :
      (f : List ℕ) (e : ℕ) (frame : List ℕ)
      → all_of (λ b. not (b == sync_char1)) frame ≡ true
      → feed poll (parser hunt_sync1 f e c w) (sync_char1 ∷ sync_char1 ∷ sync_char2 ∷ frame)
        ≡ parser hunt_sync1 (sync_char1 ∷ []) e c w
  unfolding feed
  frame_after_sync_lost f e frame quiet =
      doubled_sync f e (sync_char2 ∷ frame)
      ∙ ap (feed poll (parser hunt_sync1 (sync_char1 ∷ []) e c w))
          (sym (append-nil (sync_char2 ∷ frame)))
      ∙ skip_noise poll c w (sync_char1 ∷ []) e (sync_char2 ∷ frame) [] quiet
