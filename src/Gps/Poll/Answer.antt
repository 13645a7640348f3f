-- ===== src/Gps/Poll/Answer.antt =====
-- How `poll_ubx_data` (script/gps/main.c) takes the frame that answers its poll, among other bytes.
use config_env.Prelude.{
  [], ℕ, ◌+◌, ◌*◌, ◌/◌, ◌%◌, ◌≤◌, ◌<◌, List, ◌∷◌, ◌++◌, ◌≡◌, refl, ap, ◌∙◌, Bool, true, false, ◌==◌,
  length, length-append, arith, String, append_assoc, all_of, not,
}
use config_env.Gps.Types.{CfgPoll}
use config_env.Gps.Checksum.{fletcher}
use config_env.Gps.Poll.{
  State, hunt_sync1, payload, pending, Parser, sync_char1, sync_char2, frame_max, reset, step, feed,
  dispatch, on_sync1, on_sync2, on_header, end_header, on_payload, end_frame, is_pending,
}

-- A parser that has not finished.
abbrev pub parser : State → List ℕ → ℕ → Bool → List (String × List ℕ) → Parser
parser s f e c w = record {
  state = s;
  frame = f;
  expected_len = e;
  done = pending;
  cksum_err_seen = c;
  written = w;
}

-- The part of a frame that its checksum covers, and the frame: an independent account of the format.
abbrev pub covered : ℕ → ℕ → List ℕ → List ℕ
covered cls id body = cls ∷ id ∷ length body % 256 ∷ length body / 256 ∷ body

abbrev pub checksum : List ℕ → List ℕ
checksum bytes = let (a, b) = fletcher bytes 0 0 in a ∷ b ∷ []

abbrev pub encode_frame : ℕ → ℕ → List ℕ → List ℕ
encode_frame cls id body =
    sync_char1 ∷ sync_char2 ∷ (covered cls id body ++ checksum (covered cls id body))

module _ (poll : CfgPoll) where
  pub feed-done : (p : Parser) (bs : List ℕ) → is_pending p.done ≡ false → feed poll p bs ≡ p
  unfolding feed
  feed-done p [] h = refl
  feed-done p (b ∷ bs) h = ground arith

  pub feed-append :
      (p : Parser) (xs ys : List ℕ) → feed poll p (xs ++ ys) ≡ feed poll (feed poll p xs) ys
  unfolding feed
  feed-append p [] ys = refl
  feed-append p (x ∷ xs) ys = ground (arith, feed-append (step poll p x) xs ys, feed-done p ys)

  module _ (c : Bool) (w : List (String × List ℕ)) where
    -- Bytes other than the first sync character are skipped while the parser hunts for one.
    pub skip_noise :
        (f : List ℕ) (e : ℕ) (noise rest : List ℕ)
        → all_of (λ b. not (b == sync_char1)) noise ≡ true
        → feed poll (parser hunt_sync1 f e c w) (noise ++ rest)
          ≡ feed poll (parser hunt_sync1 f e c w) rest
    unfolding feed step dispatch on_sync1
    skip_noise f e [] rest h = refl
    skip_noise f e (b ∷ noise) rest h = ground (arith, skip_noise f e noise rest)

    pub take_header :
        (f : List ℕ) (e cls id lo hi : ℕ) (rest : List ℕ)
        → hi * 256 + lo + 8 ≤ frame_max
        → feed poll
            (parser hunt_sync1 f e c w)
            (sync_char1 ∷ sync_char2 ∷ cls ∷ id ∷ lo ∷ hi ∷ rest)
          ≡ feed poll
              (parser payload
                (sync_char1 ∷ sync_char2 ∷ cls ∷ id ∷ lo ∷ hi ∷ [])
                (hi * 256 + lo + 8)
                c
                w)
              rest
    unfolding feed step dispatch on_sync1 on_sync2 on_header end_header
    take_header f e cls id lo hi rest h = ground arith

    pub collect :
        (f : List ℕ) (e b : ℕ) (bs rest : List ℕ)
        → length f + length (b ∷ bs) ≡ e
        → feed poll (parser payload f e c w) ((b ∷ bs) ++ rest)
          ≡ feed poll (reset (end_frame poll (parser payload (f ++ b ∷ bs) e c w))) rest
    unfolding feed step dispatch on_payload
    collect f e b [] rest h = ground (arith, length-append f (b ∷ []))
    collect f e b (x ∷ bs) rest h = ground (
      arith,
      length-append f (b ∷ []),
      append_assoc f (b ∷ []) (x ∷ bs),
      collect (f ++ b ∷ []) e x bs rest,
    )

    collect_all :
        (f : List ℕ) (e : ℕ) (bs rest : List ℕ)
        → 0 < length bs
        → length f + length bs ≡ e
        → feed poll (parser payload f e c w) (bs ++ rest)
          ≡ feed poll (reset (end_frame poll (parser payload (f ++ bs) e c w))) rest
    collect_all f e [] rest h k = absurd (omega arith)
    collect_all f e (b ∷ bs) rest h k = collect f e b bs rest k

    -- Any frame that fits the array is collected whole, behind any noise, and judged once.
    pub frame_taken :
        (f : List ℕ) (e cls id : ℕ) (noise body rest : List ℕ) (x y : ℕ)
        → all_of (λ b. not (b == sync_char1)) noise ≡ true
        → length body + 8 ≤ frame_max
        → feed poll (parser hunt_sync1 f e c w) (
            noise
            ++ (sync_char1
                ∷ sync_char2
                ∷ cls
                ∷ id
                ∷ length body % 256
                ∷ length body / 256
                ∷ ((body ++ x ∷ y ∷ []) ++ rest)))
          ≡ feed poll
              (reset (
                end_frame poll (
                  parser payload
                    (sync_char1 ∷ sync_char2 ∷ (covered cls id body ++ x ∷ y ∷ []))
                    (length body + 8)
                    c
                    w)))
              rest
    frame_taken f e cls id noise body rest x y quiet fits =
        skip_noise f e noise _ quiet
        ∙ take_header f e cls id (length body % 256) (length body / 256) _ (omega arith)
        ∙ collect_all _ _ (body ++ x ∷ y ∷ []) rest (omega (arith, length-append body (x ∷ y ∷ [])))
            (omega (arith, length-append body (x ∷ y ∷ [])))
        ∙ ap
            (λ (n : ℕ).
              feed poll
                (reset (
                  end_frame poll (
                    parser payload (sync_char1 ∷ sync_char2 ∷ (covered cls id body ++ x ∷ y ∷ [])) n
                      c w)))
                rest)
            (omega arith)
