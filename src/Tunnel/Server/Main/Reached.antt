-- ===== src/Tunnel/Server/Main/Reached.antt =====
-- The loop of `main` (script/tun-vpn/ustun.c) takes only the steps of the server's tables.
use config_env.Prelude.{
  [], ℕ, ◌-◌, ◌<◌, List, ◌∷◌, ◌++◌, ◌≡◌, refl, subst, Bool, false, ◌==◌, ltb, if◌then◌else◌,
  Bool-cases, inl, inr, arith, Option,
}
use config_env.Tunnel.Wire.{conn_timeout}
use config_env.Tunnel.Codec.{Codec}
use config_env.Tunnel.Gateways.{cleanup_expired_gateways}
use config_env.Tunnel.Server.{
  Server, Socks, Datagram, Handled, Sent, fault, next, sent, receive, send_to_gateway,
}
use config_env.Tunnel.Server.Invariant.{
  IsInitial, IsServer, Reach, start, step, received, replied, swept_gateways, swept_connections,
  Reach-IsServer,
}
use config_env.Tunnel.Server.Main.{
  MainEvent, read_failed, was_read, message, Ran, crashed, ran, clean_up, main_turn, main_loop,
}

-- Messages come at positive times.
abbrev pub AllPositive : List MainEvent → Type 0
AllPositive [] = Unit {0}
AllPositive (read_failed ∷ es) = AllPositive es
AllPositive (was_read old payload len ts now ∷ es) = AllPositive es
AllPositive (message a b ts addr m ∷ es) = (0 < ts) × AllPositive es

abbrev ReachAt : Ran → Type 0
ReachAt crashed = Unit {0}
ReachAt (ran out t last) = Reach t

clean_up-Reach : (now last : ℕ) (s : Server) → Reach s → Reach (clean_up now last s).0
unfolding clean_up
clean_up-Reach now last s r =
    let t : Server = record s { gateways = cleanup_expired_gateways false now s.gateways } in
    elim (Bool-cases (ltb conn_timeout (now - last))) [
      | inl late ↦ rw late (step (step r (swept_gateways now s)) (swept_connections now t))
      | inr early ↦ rw early r
    ]

sent_same : (s t : Server) (out : List Datagram) → Reach s → sent [] s ≡ sent out t → Reach t
sent_same s t out r e = let same : s ≡ t = ground arith in subst Reach same r

sent-ReachAt :
    (now last : ℕ) (result : Sent)
    → ((out : List Datagram) (t : Server) → result ≡ sent out t → Reach t)
    → ReachAt (elim result [
      | fault ↦ crashed
      | sent out t ↦ let (t', last') = clean_up now last t in ran out t' last'
    ])
sent-ReachAt now last fault reached = tt
sent-ReachAt now last (sent out t) reached = clean_up-Reach now last t (reached out t refl)

handled-ReachAt :
    (last : ℕ) (result : Handled)
    → ((out : Option (List ℕ)) (t : Server) → result ≡ next out t → Reach t)
    → ReachAt (elim result [ fault ↦ crashed | next out t ↦ ran [] t last ])
handled-ReachAt last fault reached = tt
handled-ReachAt last (next out t) reached = reached out t refl

more-ReachAt :
    (out : List Datagram) (r : Ran)
    → ReachAt r
    → ReachAt (elim r [ crashed ↦ crashed | ran outs u last ↦ ran (out ++ outs) u last ])
more-ReachAt out crashed v = tt
more-ReachAt out (ran outs u last) v = v

loop_after-ReachAt :
    (r : Ran) (rest : Server → ℕ → Ran)
    → ReachAt r
    → ((t : Server) (last : ℕ) → Reach t → ReachAt (rest t last))
    → ReachAt (elim r [
      | crashed ↦ crashed
      | ran out t last ↦ elim (rest t last) [
        | crashed ↦ crashed
        | ran outs u last' ↦ ran (out ++ outs) u last'
      ]
    ])
loop_after-ReachAt crashed rest v reached = tt
loop_after-ReachAt (ran out t last) rest v reached =
    more-ReachAt out (rest t last) (reached t last v)

module _ (rs : Codec) (gl_fec : Bool) (socks : Socks) where
  turn-ReachAt :
      (e : MainEvent) (es : List MainEvent) (s : Server) (last : ℕ)
      → AllPositive (e ∷ es)
      → Reach s
      → ReachAt (main_turn rs gl_fec socks e s last) × AllPositive es
  unfolding main_turn
  turn-ReachAt read_failed es s last p r = (r, p)
  turn-ReachAt (was_read old payload len ts now) es s last p r =
      let result =
        if len == 0 then sent [] s else send_to_gateway rs gl_fec socks ts old payload len s in
      let reached : (out : List Datagram) (t : Server) → result ≡ sent out t → Reach t = λ out t e.
        elim (Bool-cases (len == 0)) [
          | inl nothing ↦ sent_same s t out r (rw nothing at e)
          | inr some_bytes ↦
              step r (replied rs gl_fec socks ts old payload len out (rw some_bytes at e))
        ] in
      (sent-ReachAt now last result reached, p)
  turn-ReachAt (message a b ts addr m) es s last (pos, p) r = (
    handled-ReachAt last (receive rs a b ts addr m s)
        (λ out t e. step r (received rs a b ts addr m out pos e)),
    p,
  )

  loop-ReachAt :
      (es : List MainEvent) (s : Server) (last : ℕ)
      → AllPositive es
      → Reach s
      → ReachAt (main_loop rs gl_fec socks es s last)
  unfolding main_loop
  loop-ReachAt [] s last p r = r
  loop-ReachAt (e ∷ es) s last p r =
      let (turned, rest) = turn-ReachAt e es s last p r in
      loop_after-ReachAt (main_turn rs gl_fec socks e s last) (main_loop rs gl_fec socks es) turned
        (λ t last'. loop-ReachAt es t last' rest)

  -- Whatever the loop reads and the receiver threads handle in between, the server's state stays
  -- well-formed: ids and hashes are unique, gateways are in use and have two paths. (Message times are
  -- positive.)
  loop-IsServer :
      (es : List MainEvent) (s t : Server) (first last : ℕ) (out : List Datagram)
      → IsInitial s
      → AllPositive es
      → main_loop rs gl_fec socks es s first ≡ ran out t last
      → IsServer t
  loop-IsServer es s t first last out i p e =
      let reached : Reach t = subst ReachAt e (loop-ReachAt es s first p (start i)) in
      Reach-IsServer reached
