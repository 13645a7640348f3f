-- ===== src/Gps/Poll/Sound.antt =====
-- What `poll_ubx_data` (script/gps/main.c) writes to the file, for any input at all.
use config_env.Prelude.{
  append_assoc, append-nil, sym, subst, ltb, ◌||◌, length-append, [], ℕ, zero, suc, ◌+◌, ◌-◌, ◌≤◌,
  ◌<◌, List, ◌∷◌, ◌++◌, ◌≡◌, refl, true, ◌&&◌, ◌==◌, leb, Bool-cases, inl, inr, ap, ◌∙◌, length,
  length-take, arith, take, drop, get_or, String,
}
use config_env.Gps.Types.{CfgPoll, msg_at, frame_length}
use config_env.Gps.Checksum.{do_checksum}
use config_env.Gps.Poll.{
  State, hunt_sync1, hunt_sync2, header, payload, Done, pending, ok, nak, cksum_err, Parser, store,
  step, feed, dispatch, on_sync1, on_sync2, on_header, end_header, on_payload, end_frame, start,
  is_pending, sync_char1, sync_char2, frame_max,
}
use config_env.Gps.Poll.Bounds.{IsBounded, step-IsBounded}

-- A line for the poll: its name, and bytes with the poll's class and id in front that were received
-- as a frame, behind the two sync characters and followed by their two bytes of checksum.
pub record IsLine (poll : CfgPoll) (got : List ℕ) (line : String × List ℕ) : Type 0 where
  pub named : line.0 ≡ poll.desc
  pub cls : get_or line.1 0 0 ≡ msg_at poll.msg 2
  pub id : get_or line.1 1 0 ≡ msg_at poll.msg 3
  pub before : List ℕ
  pub frame : List ℕ
  pub after : List ℕ
  pub received : got ≡ before ++ (sync_char1 ∷ sync_char2 ∷ (frame ++ after))
  pub prefix : take (length line.1) frame ≡ line.1
  pub size : length frame ≡ length line.1 + 2
  pub checked : do_checksum frame (length frame) ≡ true

-- One line if the poll succeeded, which came in the bytes received, and none otherwise.
abbrev pub Written : CfgPoll → (got : List ℕ) → Done → List (String × List ℕ) → Type 0
Written poll got ok w = (line : String × List ℕ) × (w ≡ line ∷ []) × IsLine poll got line
Written poll got pending w = w ≡ []
Written poll got nak w = w ≡ []
Written poll got cksum_err w = w ≡ []

-- What is in the array are the last bytes received.
abbrev pub Follows : (seen : List ℕ) → State → (frame : List ℕ) → Type 0
Follows seen hunt_sync1 frame = Unit {0}
Follows seen hunt_sync2 frame =
    (before : List ℕ) × (seen ≡ before ++ frame) × (frame ≡ sync_char1 ∷ [])
Follows seen header frame =
    (before : List ℕ) × (seen ≡ before ++ frame)
    × (rest : List ℕ) × (frame ≡ sync_char1 ∷ sync_char2 ∷ rest)
Follows seen payload frame =
    (before : List ℕ) × (seen ≡ before ++ frame)
    × (rest : List ℕ) × (frame ≡ sync_char1 ∷ sync_char2 ∷ rest)

pub Written-more :
    (poll : CfgPoll) (got more : List ℕ) (d : Done) (w : List (String × List ℕ))
    → Written poll got d w
    → Written poll (got ++ more) d w
Written-more poll got more ok w (line, e, l) = (
  line,
  e,
  record {
    named = l.named;
    cls = l.cls;
    id = l.id;
    before = l.before;
    frame = l.frame;
    after = l.after ++ more;
    received =
        ap (λ xs. xs ++ more) l.received
        ∙ append_assoc l.before (sync_char1 ∷ sync_char2 ∷ (l.frame ++ l.after)) more
        ∙ ap (λ xs. l.before ++ (sync_char1 ∷ sync_char2 ∷ xs)) (append_assoc l.frame l.after more);
    prefix = l.prefix;
    size = l.size;
    checked = l.checked;
  },
)
Written-more poll got more pending w h = h
Written-more poll got more nak w h = h
Written-more poll got more cksum_err w h = h

pending_of : (d : Done) → is_pending d ≡ true → d ≡ pending
pending_of pending h = refl
pending_of ok h = cc
pending_of nak h = cc
pending_of cksum_err h = cc

pending-Written :
    (poll : CfgPoll) (got : List ℕ) (d : Done) (w : List (String × List ℕ))
    → is_pending d ≡ true
    → Written poll got d w
    → w ≡ []
pending-Written poll got pending w h k = k
pending-Written poll got ok w h k = cc
pending-Written poll got nak w h k = k
pending-Written poll got cksum_err w h k = k

stored-Follows :
    (seen before frame rest : List ℕ) (b : ℕ)
    → seen ≡ before ++ frame
    → frame ≡ sync_char1 ∷ sync_char2 ∷ rest
    → Follows (seen ++ b ∷ []) header (frame ++ b ∷ [])
stored-Follows seen before frame rest b e f = (
  before,
  ap (λ xs. xs ++ b ∷ []) e ∙ append_assoc before frame (b ∷ []),
  rest ++ b ∷ [],
  ap (λ xs. xs ++ b ∷ []) f,
)

get_or-take : (xs : List ℕ) (n i : ℕ) → i < n → get_or (take n xs) i 0 ≡ get_or xs i 0
get_or-take xs zero i h = absurd (omega arith)
get_or-take [] (suc n) i h = refl
get_or-take (x ∷ xs) (suc n) zero h = refl
get_or-take (x ∷ xs) (suc n) (suc i) h = get_or-take xs n i (omega arith)

module _ (poll : CfgPoll) where
  -- The line that a whole frame with a matching header and checksum gives.
  frame-IsLine :
      (got before rest : List ℕ) (n : ℕ)
      → got ≡ before ++ (sync_char1 ∷ sync_char2 ∷ rest)
      → 8 ≤ n
      → n ≡ length rest + 2
      → (get_or rest 0 0 == msg_at poll.msg 2 && get_or rest 1 0 == msg_at poll.msg 3) ≡ true
      → do_checksum rest (n - 2) ≡ true
      → IsLine poll got (poll.desc, take (n - 4) rest)
  frame-IsLine got before rest n e l k ours good =
      let size : length (take (n - 4) rest) ≡ n - 4 = omega (arith, length-take (n - 4) rest) in
      record {
        named = refl;
        cls = ground (arith, get_or-take rest (n - 4) 0);
        id = ground (arith, get_or-take rest (n - 4) 1);
        before = before;
        frame = rest;
        after = [];
        received = e ∙ ap (λ xs. before ++ (sync_char1 ∷ sync_char2 ∷ xs)) (sym (append-nil rest));
        prefix = ap (λ (t : ℕ). take t rest) size;
        size = omega (arith, size);
        checked = ap (λ (t : ℕ). do_checksum rest t) (omega arith) ∙ good;
      }

  end_frame-Written :
      (got before rest : List ℕ) (p : Parser)
      → got ≡ before ++ p.frame
      → p.frame ≡ sync_char1 ∷ sync_char2 ∷ rest
      → p.done ≡ pending
      → p.written ≡ []
      → 8 ≤ p.expected_len
      → p.expected_len ≡ length p.frame
      → Written poll got (end_frame poll p).done (end_frame poll p).written
  unfolding end_frame
  end_frame-Written got before rest p seen sync e w l k =
      elim (Bool-cases (msg_at p.frame 2 == 5 && msg_at p.frame 3 == 0)) [
        | inl n ↦
            rw n
              (elim (Bool-cases (
                leb 10 p.expected_len
                && (msg_at p.frame 6 == msg_at poll.msg 2
                    && msg_at p.frame 7 == msg_at poll.msg 3))) [
                      | inl y ↦ rw y w
                      | inr y ↦ rw (y, e) w
                    ])
        | inr n ↦
            rw n
              (elim (Bool-cases
                (msg_at p.frame 2 == msg_at poll.msg 2 && msg_at p.frame 3 == msg_at poll.msg 3)) [
                  | inl o ↦
                      rw o (elim (Bool-cases (do_checksum (drop 2 p.frame) (p.expected_len - 2))) [
                        | inl g ↦
                            rw (g, w)
                              (
                                _,
                                refl,
                                subst
                                    (λ (f : List ℕ).
                                      IsLine poll got
                                        (poll.desc, take (p.expected_len - 4) (drop 2 f)))
                                    (sym sync)
                                    (frame-IsLine got before rest p.expected_len
                                      (seen ∙ ap (λ f. before ++ f) sync) l
                                      (k ∙ ap length sync ∙ omega arith)
                                      (subst
                                        (λ f.
                                          (msg_at f 2 == msg_at poll.msg 2
                                            && msg_at f 3 == msg_at poll.msg 3)
                                          ≡ true)
                                        sync o)
                                      (subst
                                        (λ f. do_checksum (drop 2 f) (p.expected_len - 2) ≡ true)
                                        sync g)),
                              )
                        | inr g ↦ rw (g, e) w
                      ])
                  | inr o ↦ rw (o, e) w
                ])
      ]

  on_payload-Written :
      (seen : List ℕ) (p : Parser) (b : ℕ)
      → Follows seen payload p.frame
      → p.done ≡ pending
      → p.written ≡ []
      → (length p.frame < p.expected_len) × (8 ≤ p.expected_len)
      → Written poll (seen ++ b ∷ []) (on_payload poll p b).done (on_payload poll p b).written
  unfolding on_payload
  on_payload-Written seen p b (before, s, rest, f) e w l =
      let (before', s', rest', f') = stored-Follows seen before p.frame rest b s f in
      elim (Bool-cases (leb p.expected_len (length (p.frame ++ b ∷ [])))) [
        | inl full ↦ rw full (
            end_frame-Written (seen ++ b ∷ []) before' rest' (store p b) s' f' e w l.1
              (ground (arith, length-append p.frame (b ∷ []))))
        | inr more ↦ rw (more, e) w
      ]

  Written-pending :
      (got : List ℕ) (q : Parser)
      → q.done ≡ pending
      → q.written ≡ []
      → Written poll got q.done q.written
  Written-pending got q e w = rw e w

  dispatch-Written :
      (seen : List ℕ) (s : State) (p : Parser) (b : ℕ)
      → p.state ≡ s
      → Follows seen s p.frame
      → IsBounded p
      → p.done ≡ pending
      → p.written ≡ []
      → Written poll (seen ++ b ∷ []) (dispatch poll s p b).done (dispatch poll s p b).written
  unfolding dispatch on_sync1 on_sync2 on_header end_header
  dispatch-Written seen hunt_sync1 p b h v bound e w =
      Written-pending _ (on_sync1 p b) (ground arith) (ground arith)
  dispatch-Written seen hunt_sync2 p b h v bound e w =
      Written-pending _ (on_sync2 p b) (ground arith) (ground arith)
  dispatch-Written seen header p b h v bound e w =
      Written-pending _ (on_header p b) (ground arith) (ground arith)
  dispatch-Written seen payload p b h v bound e w = on_payload-Written seen p b v e w (ground arith)

  dispatch-Follows :
      (seen : List ℕ) (s : State) (p : Parser) (b : ℕ)
      → p.state ≡ s
      → Follows seen s p.frame
      → Follows (seen ++ b ∷ []) (dispatch poll s p b).state (dispatch poll s p b).frame
  unfolding dispatch on_sync1 on_sync2 on_header end_header on_payload
  dispatch-Follows seen hunt_sync1 p b h v = elim (Bool-cases (b == sync_char1)) [
    | inl y ↦ rw y (seen, refl, ground arith)
    | inr n ↦ rw (n, h) tt
  ]
  dispatch-Follows seen hunt_sync2 p b h (before, s, f) = elim (Bool-cases (b == sync_char2)) [
    | inl y ↦
        let same : b ≡ sync_char2 = ground arith in
        rw y (
          before,
          ap (λ xs. xs ++ b ∷ []) s ∙ append_assoc before p.frame (b ∷ []),
          [],
          ap (λ xs. xs ++ b ∷ []) f ∙ ap (λ x. sync_char1 ∷ x ∷ []) same,
        )
    | inr n ↦ rw n tt
  ]
  dispatch-Follows seen header p b h (before, s, rest, f) =
      let v = stored-Follows seen before p.frame rest b s f in
      let n = frame_length (p.frame ++ b ∷ []) in
      elim (Bool-cases (leb 6 (length (p.frame ++ b ∷ [])))) [
        | inl whole ↦ elim (Bool-cases (ltb frame_max n || ltb n 8)) [
          | inl bad ↦ rw (whole, bad) tt
          | inr good ↦ rw (whole, good) v
        ]
        | inr more ↦ rw (more, h) v
      ]
  dispatch-Follows seen payload p b h (before, s, rest, f) =
      elim (Bool-cases (leb p.expected_len (length (p.frame ++ b ∷ [])))) [
        | inl whole ↦ rw whole tt
        | inr more ↦ rw (more, h) (stored-Follows seen before p.frame rest b s f)
      ]

  step-Written :
      (seen : List ℕ) (p : Parser) (b : ℕ)
      → Follows seen p.state p.frame
      → IsBounded p
      → p.done ≡ pending
      → p.written ≡ []
      → Written poll (seen ++ b ∷ []) (step poll p b).done (step poll p b).written
  unfolding step
  step-Written seen p b = dispatch-Written seen p.state p b refl

  step-Follows :
      (seen : List ℕ) (p : Parser) (b : ℕ)
      → Follows seen p.state p.frame
      → Follows (seen ++ b ∷ []) (step poll p b).state (step poll p b).frame
  unfolding step
  step-Follows seen p b = dispatch-Follows seen p.state p b refl

  feed-Written :
      (seen : List ℕ) (p : Parser) (bs : List ℕ)
      → Follows seen p.state p.frame
      → IsBounded p
      → Written poll seen p.done p.written
      → Written poll (seen ++ bs) (feed poll p bs).done (feed poll p bs).written
  unfolding feed
  feed-Written seen p [] v bound w = Written-more poll seen [] p.done p.written w
  feed-Written seen p (b ∷ bs) v bound w = elim (Bool-cases (is_pending p.done)) [
    | inl e ↦
        let one =
          step-Written seen p b v bound (pending_of p.done e)
            (pending-Written poll seen p.done p.written e w) in
        let all =
          feed-Written (seen ++ b ∷ []) (step poll p b) bs (step-Follows seen p b v)
            (step-IsBounded poll p b bound) one in
        rw e (
          subst
            (λ got.
              Written poll got (feed poll (step poll p b) bs).done
                (feed poll (step poll p b) bs).written)
            (append_assoc seen (b ∷ []) bs) all)
    | inr h ↦ rw h (Written-more poll seen (b ∷ bs) p.done p.written w)
  ]

  -- For any bytes from the receiver: if the poll succeeds, exactly one line was written, it has the
  -- message's name, and its bytes came in a frame with the message's class and id in front and their
  -- checksum behind. In every other case nothing was written.
  pub feed_writes :
      (bs : List ℕ) → Written poll bs (feed poll start bs).done (feed poll start bs).written
  feed_writes bs = feed-Written [] start bs tt (omega arith) refl
