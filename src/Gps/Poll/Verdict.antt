-- ===== src/Gps/Poll/Verdict.antt =====
-- What `poll_ubx_data` (script/gps/main.c) makes of each kind of frame.
use config_env.Prelude.{
  [], ℕ, ◌+◌, ◌-◌, ◌≤◌, List, ◌∷◌, ◌++◌, ◌≡◌, refl, ◌∙◌, ap, Bool, true, false, ◌&&◌, ◌==◌, not,
  length, arith, String, all_of, take-append, ◌≢◌,
}
use config_env.Gps.Types.{CfgPoll, msg_at}
use config_env.Gps.Checksum.{fletcher, do_checksum}
use config_env.Gps.Checksum.Detect.{do_checksum-append}
use config_env.Gps.Poll.{
  hunt_sync1, payload, ok, nak, Parser, sync_char1, sync_char2, frame_max, reset, feed, end_frame,
}
use config_env.Gps.Poll.Answer.{parser, covered, checksum, encode_frame, feed-done, frame_taken}

-- The message and its answer carry the same class and id; NAK frames (class 5, id 0) are not answers.
abbrev pub Answers : CfgPoll → ℕ → ℕ → Type 0
Answers poll cls id =
    (cls ≡ msg_at poll.msg 2) × (id ≡ msg_at poll.msg 3) × ((cls == 5 && id == 0) ≡ false)

module _ (poll : CfgPoll) (c : Bool) (w : List (String × List ℕ)) where
  -- A whole frame, as it stands in the array.
  abbrev whole : ℕ → ℕ → List ℕ → ℕ → ℕ → Parser
  whole cls id body x y =
      parser payload (sync_char1 ∷ sync_char2 ∷ (covered cls id body ++ x ∷ y ∷ []))
        (length body + 8) c w

  end_frame-answer :
      (cls id : ℕ) (body : List ℕ) (x y : ℕ)
      → Answers poll cls id
      → do_checksum (covered cls id body ++ x ∷ y ∷ []) (length body + 8 - 2) ≡ true
      → end_frame poll (whole cls id body x y) ≡ record (whole cls id body x y) {
        done = ok;
        written = w ++ (poll.desc, covered cls id body) ∷ [];
      }
  unfolding end_frame
  end_frame-answer cls id body x y h good =
      ground
        (arith, take-append (covered cls id body) (x ∷ y ∷ []) (length body + 8 - 4) (omega arith))

  end_frame-corrupt :
      (cls id : ℕ) (body : List ℕ) (x y : ℕ)
      → Answers poll cls id
      → do_checksum (covered cls id body ++ x ∷ y ∷ []) (length body + 8 - 2) ≡ false
      → end_frame poll (whole cls id body x y)
        ≡ record (whole cls id body x y) { cksum_err_seen = true }
  unfolding end_frame
  end_frame-corrupt cls id body x y h bad = ground arith

  end_frame-other :
      (cls id : ℕ) (body : List ℕ) (x y : ℕ)
      → (cls == 5 && id == 0) ≡ false
      → (cls == msg_at poll.msg 2 && id == msg_at poll.msg 3) ≡ false
      → end_frame poll (whole cls id body x y) ≡ whole cls id body x y
  unfolding end_frame
  end_frame-other cls id body x y h k = ground arith

  end_frame-nak :
      (x y : ℕ)
      → end_frame poll (whole 5 0 (msg_at poll.msg 2 ∷ msg_at poll.msg 3 ∷ []) x y)
        ≡ record (whole 5 0 (msg_at poll.msg 2 ∷ msg_at poll.msg 3 ∷ []) x y) { done = nak }
  unfolding end_frame
  end_frame-nak x y = ground arith

  module _ (f : List ℕ) (e : ℕ) (noise rest : List ℕ) where
    -- Whatever noise without a sync character stands before it, the frame that answers the poll, up
    -- to the length that the array holds, ends the poll: the parser reports success and has written one
    -- line, which is the message's name and the bytes from the class to the end of the payload. The
    -- bytes behind the frame are not read.
    pub answer_taken :
        (cls id : ℕ) (body : List ℕ)
        → Answers poll cls id
        → all_of (λ b. not (b == sync_char1)) noise ≡ true
        → length body + 8 ≤ frame_max
        → feed poll (parser hunt_sync1 f e c w) (noise ++ (encode_frame cls id body ++ rest))
          ≡ record (parser hunt_sync1 []
              (length body + 8)
              c
              (w ++ (poll.desc, covered cls id body) ∷ [])) { done = ok }
    answer_taken cls id body h quiet fits =
        frame_taken poll c w f e cls id noise body rest _ _ quiet fits
        ∙ ap (λ (q : Parser). feed poll (reset q) rest)
            (end_frame-answer cls id body _ _ h
              (ground (arith, do_checksum-append (covered cls id body) x y (length body + 8 - 2))))
        ∙ feed-done poll _ rest refl
      where
        x : ℕ
        x = (fletcher (covered cls id body) 0 0).0

        y : ℕ
        y = (fletcher (covered cls id body) 0 0).1

    -- The same frame with other checksum bytes is not written: the poll goes on, and remembers that
    -- it saw a bad checksum.
    corrupt_answer :
        (cls id : ℕ) (body : List ℕ) (x y : ℕ)
        → Answers poll cls id
        → checksum (covered cls id body) ≢ x ∷ y ∷ []
        → all_of (λ b. not (b == sync_char1)) noise ≡ true
        → length body + 8 ≤ frame_max
        → feed poll
            (parser hunt_sync1 f e c w)
            (noise ++ (sync_char1 ∷ sync_char2 ∷ ((covered cls id body ++ x ∷ y ∷ []) ++ rest)))
          ≡ feed poll (parser hunt_sync1 [] (length body + 8) true w) rest
    corrupt_answer cls id body x y h bad quiet fits =
        frame_taken poll c w f e cls id noise body rest x y quiet fits
        ∙ ap (λ (q : Parser). feed poll (reset q) rest)
            (end_frame-corrupt cls id body x y h
              (ground (arith, do_checksum-append (covered cls id body) x y (length body + 8 - 2))))

    -- A frame of another class or id (and no NAK) changes nothing but the length last seen.
    pub other_frame :
        (cls id : ℕ) (body : List ℕ) (x y : ℕ)
        → (cls == 5 && id == 0) ≡ false
        → (cls == msg_at poll.msg 2 && id == msg_at poll.msg 3) ≡ false
        → all_of (λ b. not (b == sync_char1)) noise ≡ true
        → length body + 8 ≤ frame_max
        → feed poll
            (parser hunt_sync1 f e c w)
            (noise ++ (sync_char1 ∷ sync_char2 ∷ ((covered cls id body ++ x ∷ y ∷ []) ++ rest)))
          ≡ feed poll (parser hunt_sync1 [] (length body + 8) c w) rest
    other_frame cls id body x y h k quiet fits =
        frame_taken poll c w f e cls id noise body rest x y quiet fits
        ∙ ap (λ (q : Parser). feed poll (reset q) rest) (end_frame-other cls id body x y h k)

    -- A NAK for the message ends the poll as rejected, whatever its two checksum bytes are: they are
    -- not looked at.
    nak_taken :
        (x y : ℕ)
        → all_of (λ b. not (b == sync_char1)) noise ≡ true
        → feed poll (parser hunt_sync1 f e c w) (
            noise
            ++ (sync_char1
                ∷ sync_char2
                ∷ ((covered 5 0 (msg_at poll.msg 2 ∷ msg_at poll.msg 3 ∷ []) ++ x ∷ y ∷ [])
                    ++ rest)))
          ≡ record (parser hunt_sync1 [] 10 c w) { done = nak }
    nak_taken x y quiet =
        frame_taken poll c w f e 5 0 noise (msg_at poll.msg 2 ∷ msg_at poll.msg 3 ∷ []) rest x y
          quiet (omega arith)
        ∙ ap (λ (q : Parser). feed poll (reset q) rest) (end_frame-nak x y)
        ∙ feed-done poll _ rest refl
