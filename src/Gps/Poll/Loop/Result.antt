-- ===== src/Gps/Poll/Loop/Result.antt =====
-- The result of `poll_ubx_data` (script/gps/main.c) over all the turns of its loop.
use config_env.Prelude.{
  [], ℕ, zero, suc, ◌+◌, ◌%◌, ◌^◌, ◌≤◌, ◌<◌, List, ◌∷◌, ◌++◌, ◌≡◌, refl, ◌∙◌, sym, ap, ◌≢◌, Bool,
  true, false, ◌&&◌, ◌==◌, ltb, if◌then◌else◌, subst, subst₂, Option-cases, none, some, arith,
  String, Bool-cases, inl, inr, append_assoc, not, all_of, length, get_elem?,
}
use config_env.Gps.Types.{CfgPoll, frame_length}
use config_env.Gps.Poll.{
  Done, pending, ok, nak, cksum_err, Parser, feed, start, is_pending, sync_char1, frame_max,
}
use config_env.Gps.Poll.Answer.{feed-append, feed-done, encode_frame, covered}
use config_env.Gps.Poll.Verdict.{Answers, answer_taken}
use config_env.Gps.Poll.Sound.{Written, Written-more, feed_writes}
use config_env.Gps.Poll.Loop.{
  quiet, Turn, to_uint, bytes_of, bytes_in, has_failed, turns, verdict, poll_ubx_data,
}

module _ (poll : CfgPoll) (end : ℕ) where
  -- The loop ends on the first ones of the bytes received.
  turns-feed :
      (p q : Parser) (ts : List Turn)
      → turns poll end p ts ≡ some q
      → (got rest : List ℕ) × (bytes_in ts ≡ got ++ rest) × (q ≡ feed poll p got)
  unfolding turns feed
  turns-feed p q [] h = absurd (ground arith)
  turns-feed p q (t ∷ ts) h = elim (Bool-cases (has_failed t.event)) [
    | inl f ↦ ([], bytes_in (t ∷ ts), refl, ground arith)
    | inr g ↦
        elim (Bool-cases
          (ltb (to_uint t.clock) end && is_pending (feed poll p (bytes_of t.event)).done)) [
            | inl more ↦
                let (got, rest, b, e) =
                  turns-feed (feed poll p (bytes_of t.event)) q ts (ground arith) in
                (
                  bytes_of t.event ++ got,
                  rest,
                  ap (λ xs. bytes_of t.event ++ xs) b
                      ∙ sym (append_assoc (bytes_of t.event) got rest),
                  e ∙ sym (feed-append poll p (bytes_of t.event) got),
                )
            | inr over ↦ (bytes_of t.event, bytes_in ts, refl, ground arith)
          ]
  ]

  -- A turn at or after the deadline ends the loop, if nothing did before.
  turns-deadline :
      (p : Parser) (ts : List Turn) (i : ℕ) {t : Turn}
      → get_elem? ts i ≡ some t
      → end ≤ to_uint t.clock
      → turns poll end p ts ≢ none
  unfolding turns
  turns-deadline p [] i e late = cc
  turns-deadline p (u ∷ ts) zero e late = ground arith
  turns-deadline p (u ∷ ts) (suc i) {t = t} e late =
      ground (arith, turns-deadline (feed poll p (bytes_of u.event)) ts i {t = t})

  turns-done :
      (p : Parser) (ts : List Turn)
      → is_pending p.done ≡ true
      → all_of (λ (t : Turn). ltb (to_uint t.clock) end && not (has_failed t.event)) ts ≡ true
      → is_pending (feed poll p (bytes_in ts)).done ≡ false
      → turns poll end p ts ≡ some (feed poll p (bytes_in ts))
  unfolding turns feed
  turns-done p [] h in_time d = ground arith
  turns-done p (t ∷ ts) h in_time d = ground (
    arith,
    feed-append poll p (bytes_of t.event) (bytes_in ts),
    feed-done poll (feed poll p (bytes_of t.event)) (bytes_in ts),
    turns-done (feed poll p (bytes_of t.event)) ts,
  )

verdict-Written :
    (poll : CfgPoll) (got : List ℕ) (d : Done) (c : Bool) (w : List (String × List ℕ))
    → Written poll got d w
    → Written poll got (if is_pending d && c then cksum_err else d) w
verdict-Written poll got pending true w h = h
verdict-Written poll got pending false w h = h
verdict-Written poll got ok c w h = h
verdict-Written poll got nak c w h = h
verdict-Written poll got cksum_err c w h = h

module _ (poll : CfgPoll) (wrote clock timeout : ℕ) (ts : List Turn) where
  -- Whatever the receiver sends and however the reads cut it: when the function returns, its result
  -- tells what is in the file. On success that is one line with the poll's name, whose bytes start
  -- with the poll's class and id and stand among the bytes received behind the two sync characters and
  -- in front of their checksum; otherwise it is nothing.
  pub poll_writes :
      {d : Done} {w : List (String × List ℕ)}
      → poll_ubx_data poll wrote clock timeout ts ≡ some (d, w)
      → Written poll (bytes_in ts) d w
  unfolding poll_ubx_data
  poll_writes {d} {w} h = elim (Bool-cases (wrote == frame_length poll.msg % 2 ^ 16)) [
    | inl sent ↦ elim (Option-cases (turns poll (to_uint (to_uint clock + timeout)) start ts)) [
      | inl none_left ↦ ground arith
      | inr (p, e) ↦
          let (got, rest, b, f) =
            turns-feed poll (to_uint (to_uint clock + timeout)) start p ts e in
          let first : Written poll got p.done p.written =
            subst (λ (q : Parser). Written poll got q.done q.written) (sym f)
              (feed_writes poll got) in
          let line : Written poll (bytes_in ts) p.done p.written =
            subst (λ bs. Written poll bs p.done p.written) (sym b)
              (Written-more poll got rest p.done p.written first) in
          let result : verdict p ≡ d = ground arith in
          let lines : p.written ≡ w = ground arith in
          subst₂ (Written poll (bytes_in ts)) result lines
            (verdict-Written poll (bytes_in ts) p.done p.cksum_err_seen p.written line)
    ]
    | inr unsent ↦
        let result : pending ≡ d = ground arith in
        let lines : [] ≡ w = ground arith in subst₂ (Written poll (bytes_in ts)) result lines refl
  ]

  -- The function returns: at the latest after the first turn that ends at or after the deadline.
  pub poll_returns :
      (i : ℕ) {t : Turn}
      → get_elem? ts i ≡ some t
      → to_uint (to_uint clock + timeout) ≤ to_uint t.clock
      → poll_ubx_data poll wrote clock timeout ts ≢ none
  unfolding poll_ubx_data
  poll_returns i {t = t} e late =
      ground (arith, turns-deadline poll (to_uint (to_uint clock + timeout)) start ts i {t = t})

  -- The answer is found however the reads cut the bytes: if the request was written whole, every turn
  -- ends before the deadline without a failure, and the bytes of all the turns together are noise
  -- without a sync character, the frame that answers the poll, and anything behind it, then the poll
  -- succeeds and writes the frame's class, id, length and payload.
  pub poll_answered :
      (cls id : ℕ) (noise body rest : List ℕ)
      → wrote ≡ frame_length poll.msg % 2 ^ 16
      → all_of
          (λ (t : Turn).
            ltb (to_uint t.clock) (to_uint (to_uint clock + timeout)) && not (has_failed t.event))
          ts
        ≡ true
      → bytes_in ts ≡ noise ++ (encode_frame cls id body ++ rest)
      → Answers poll cls id
      → all_of (λ b. not (b == sync_char1)) noise ≡ true
      → length body + 8 ≤ frame_max
      → poll_ubx_data poll wrote clock timeout ts ≡ some (ok, (poll.desc, covered cls id body) ∷ [])
  unfolding poll_ubx_data
  poll_answered cls id noise body rest sent in_time stream answers clean fits =
      let taken = answer_taken poll false [] [] 0 noise rest cls id body answers clean fits in
      let all_taken = ap (feed poll start) stream ∙ taken in
      ground (
        arith,
        all_taken,
        turns-done poll (to_uint (to_uint clock + timeout)) start ts refl in_time
            (ap (λ (q : Parser). is_pending q.done) all_taken),
      )

-- The deadline is computed in 32-bit milliseconds. Where that sum wraps round, the loop gives up after
-- a single turn, which may be as short as one `select`: if the clock has not wrapped yet at the end of
-- a first turn without input, the poll is over with no answer, however long the timeout.
deadline_wraps :
    (poll : CfgPoll) (wrote clock timeout now : ℕ) (ts : List Turn)
    → wrote ≡ frame_length poll.msg % 2 ^ 16
    → timeout < 2 ^ 32
    → 2 ^ 32 ≤ to_uint clock + timeout
    → to_uint clock ≤ to_uint now
    → poll_ubx_data poll wrote clock timeout (record { event = quiet; clock = now } ∷ ts)
      ≡ some (pending, [])
unfolding poll_ubx_data turns feed
deadline_wraps poll wrote clock timeout now ts sent small wraps later = ground arith
