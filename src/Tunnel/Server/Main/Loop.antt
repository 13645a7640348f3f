-- ===== src/Tunnel/Server/Main/Loop.antt =====
-- How long the loop of `main` (script/tun-vpn/ustun.c) keeps a connection that is not used.
use config_env.Prelude.{
  [], ℕ, ◌-◌, ◌*◌, ◌≤◌, List, ◌∷◌, ◌++◌, ◌≡◌, refl, subst, Bool, ◌==◌, ltb, if◌then◌else◌,
  Bool-cases, inl, inr, arith, Option,
}
use config_env.Tunnel.Wire.{conn_timeout, Header}
use config_env.Tunnel.Codec.{Codec}
use config_env.Tunnel.Server.{
  Server, Socks, Datagram, Handled, Sent, fault, next, sent, receive, send_to_gateway,
}
use config_env.Tunnel.Server.Main.{
  MainEvent, read_failed, was_read, message, Ran, crashed, ran, clean_up, main_turn, main_loop,
}
use config_env.Tunnel.Server.Main.Recent.{
  AllRecent, AllRecent-later, cleanup-AllRecent, receive-AllRecent, send-AllRecent,
}

-- An event comes no earlier than `start`, and its own times are in order.
abbrev pub InOrder : (start : ℕ) → MainEvent → Type 0
InOrder start read_failed = Unit {0}
InOrder start (was_read old payload len ts now) = (start ≤ ts) × (ts ≤ now)
InOrder start (message a b ts addr m) = start ≤ ts

abbrev pub time_after : ℕ → MainEvent → ℕ
time_after start read_failed = start
time_after start (was_read old payload len ts now) = now
time_after start (message a b ts addr m) = ts

-- The times never go back.
abbrev pub AllInOrder : (start : ℕ) → List MainEvent → Type 0
AllInOrder start [] = Unit {0}
AllInOrder start (e ∷ es) = InOrder start e × AllInOrder (time_after start e) es

abbrev pub time_after_all : ℕ → List MainEvent → ℕ
time_after_all start [] = start
time_after_all start (e ∷ es) = time_after_all (time_after start e) es

-- The last cleanup was no later than `time`, and left only connections that were used recently.
abbrev pub IsSwept : (time last : ℕ) → Server → Type 0
IsSwept time last s = (last ≤ time) × AllRecent conn_timeout last s.conns

clean_up-IsSwept :
    (time now last : ℕ) (s : Server)
    → time ≤ now
    → IsSwept time last s
    → IsSwept now (clean_up now last s).1 (clean_up now last s).0
unfolding clean_up
clean_up-IsSwept time now last s h (le, r) = elim (Bool-cases (ltb conn_timeout (now - last))) [
  | inl late ↦ rw late (omega arith, cleanup-AllRecent now s.conns)
  | inr early ↦ rw early (omega arith, r)
]

-- The invariant of a result, if there is one.
abbrev pub SweptAt : (time : ℕ) → Ran → Type 0
SweptAt time crashed = Unit {0}
SweptAt time (ran out t last) = IsSwept time last t

sent_nothing :
    (s t : Server) (out : List Datagram) (last : ℕ)
    → AllRecent conn_timeout last s.conns
    → sent [] s ≡ sent out t
    → AllRecent conn_timeout last t.conns
sent_nothing s t out last r e =
    let same : s ≡ t = ground arith in
    subst (λ (u : Server). AllRecent conn_timeout last u.conns) same r

swept_after :
    (time ts now last : ℕ) (result : Sent)
    → time ≤ ts
    → ts ≤ now
    → last ≤ time
    → ((out : List Datagram) (t : Server)
        → result ≡ sent out t
        → AllRecent conn_timeout last t.conns)
    → SweptAt now (elim result [
      | fault ↦ crashed
      | sent out t ↦ let (t', last') = clean_up now last t in ran out t' last'
    ])
swept_after time ts now last fault o1 o2 le recent = tt
swept_after time ts now last (sent out t) o1 o2 le recent =
    clean_up-IsSwept time now last t (omega arith) (le, recent out t refl)

handled_after :
    (time ts last : ℕ) (result : Handled)
    → time ≤ ts
    → last ≤ time
    → ((out : Option (List ℕ)) (t : Server)
        → result ≡ next out t
        → AllRecent conn_timeout last t.conns)
    → SweptAt ts (elim result [ fault ↦ crashed | next out t ↦ ran [] t last ])
handled_after time ts last fault o le recent = tt
handled_after time ts last (next out t) o le recent = (omega arith, recent out t refl)

sent_more :
    (time : ℕ) (out : List Datagram) (r : Ran)
    → SweptAt time r
    → SweptAt time (elim r [ crashed ↦ crashed | ran outs u last ↦ ran (out ++ outs) u last ])
sent_more time out crashed v = tt
sent_more time out (ran outs u last) v = v

loop_after :
    (mid time : ℕ) (r : Ran) (rest : Server → ℕ → Ran)
    → SweptAt mid r
    → ((t : Server) (last : ℕ) → IsSwept mid last t → SweptAt time (rest t last))
    → SweptAt time (elim r [
      | crashed ↦ crashed
      | ran out t last ↦ elim (rest t last) [
        | crashed ↦ crashed
        | ran outs u last' ↦ ran (out ++ outs) u last'
      ]
    ])
loop_after mid time crashed rest v next_swept = tt
loop_after mid time (ran out t last) rest v next_swept =
    sent_more time out (rest t last) (next_swept t last v)

waits :
    (now last : ℕ) (t : Server) (last' : ℕ) (out : List Datagram) (result : Sent)
    → elim result [
      | fault ↦ crashed
      | sent out t ↦ let (t', last') = clean_up now last t in ran out t' last'
    ]
      ≡ ran out t last'
    → now - last' ≤ conn_timeout
unfolding clean_up
waits now last t last' out fault e = cc
waits now last t last' out (sent out2 u) e = ground arith

module _ (rs : Codec) (gl_fec : Bool) (socks : Socks) where
  turn-SweptAt :
      (time : ℕ) (e : MainEvent) (s : Server) (last : ℕ)
      → InOrder time e
      → IsSwept time last s
      → SweptAt (time_after time e) (main_turn rs gl_fec socks e s last)
  unfolding main_turn
  turn-SweptAt time read_failed s last o v = v
  turn-SweptAt time (was_read old payload len ts now) s last (o1, o2) (le, r) =
      let result =
        if len == 0 then sent [] s else send_to_gateway rs gl_fec socks ts old payload len s in
      let recent : (out : List Datagram) (t : Server)
          → result ≡ sent out t
          → AllRecent conn_timeout last t.conns =
        λ out t e. elim (Bool-cases (len == 0)) [
          | inl nothing ↦ sent_nothing s t out last r (rw nothing at e)
          | inr some_bytes ↦
              send-AllRecent rs gl_fec socks ts conn_timeout last old payload len out s t
                (omega arith) r (rw some_bytes at e)
        ] in
      swept_after time ts now last result o1 o2 le recent
  turn-SweptAt time (message a b ts addr m) s last o (le, r) =
      handled_after time ts last (receive rs a b ts addr m s) o le
        (λ out t e. receive-AllRecent rs a b ts addr conn_timeout last m s t out (omega arith) r e)

  loop-SweptAt :
      (time : ℕ) (es : List MainEvent) (s : Server) (last : ℕ)
      → AllInOrder time es
      → IsSwept time last s
      → SweptAt (time_after_all time es) (main_loop rs gl_fec socks es s last)
  unfolding main_loop
  loop-SweptAt time [] s last o v = v
  loop-SweptAt time (e ∷ es) s last (o, os) v =
      loop_after (time_after time e) (time_after_all time (e ∷ es))
        (main_turn rs gl_fec socks e s last) (main_loop rs gl_fec socks es)
        (turn-SweptAt time e s last o v) (λ t last'. loop-SweptAt (time_after time e) es t last' os)

  -- A turn that reads a packet, or nothing, does a cleanup that is due.
  read_waits :
      (old : Header) (payload : List ℕ) (len ts now : ℕ) (s t : Server) (last last' : ℕ)
      (out : List Datagram)
      → main_turn rs gl_fec socks (was_read old payload len ts now) s last ≡ ran out t last'
      → now - last' ≤ conn_timeout
  unfolding main_turn clean_up
  read_waits old payload len ts now s t last last' out e =
      waits now last t last' out
        (if len == 0 then sent [] s else send_to_gateway rs gl_fec socks ts old payload len s) e

  -- However the packets, the messages and the failed reads follow each other from the start of the
  -- program on, after a turn of the loop that reads a packet the server has no connection that was last
  -- used more than six minutes before. (The table is empty at the start, and the times never go back.)
  pub idle_connections_go :
      (es : List MainEvent) (s0 s t : Server) (start last last' : ℕ) (out out' : List Datagram)
      (old : Header) (payload : List ℕ) (len ts now : ℕ)
      → s0.conns ≡ []
      → AllInOrder start es
      → main_loop rs gl_fec socks es s0 start ≡ ran out s last
      → time_after_all start es ≤ ts
      → ts ≤ now
      → main_turn rs gl_fec socks (was_read old payload len ts now) s last ≡ ran out' t last'
      → AllRecent (2 * conn_timeout) now t.conns
  idle_connections_go es s0 s t start last last' out out' old payload len ts now empty order looped
        o1 o2 turned =
      let e = was_read old payload len ts now in
      let time = time_after_all start es in
      let none_yet : AllRecent conn_timeout start s0.conns = rw empty tt in
      let swept : IsSwept time last s =
        subst (SweptAt time) looped
          (loop-SweptAt start es s0 start order (omega arith, none_yet)) in
      let after : IsSwept now last' t =
        subst (SweptAt now) turned (turn-SweptAt time e s last (o1, o2) swept) in
      AllRecent-later conn_timeout last' now conn_timeout t.conns
        (read_waits old payload len ts now s t last last' out' turned) after.1
