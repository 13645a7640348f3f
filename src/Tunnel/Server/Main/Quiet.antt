-- ===== src/Tunnel/Server/Main/Quiet.antt =====
-- The loop of `main` (script/tun-vpn/ustun.c) while no answer comes.
use config_env.Prelude.{
  [], ℕ, ◌%◌, List, ◌∷◌, ◌++◌, ◌≡◌, refl, ◌∙◌, ap, sym, subst, Bool, true, inl, inr, Option,
}
use config_env.Tunnel.Codec.{Codec}
use config_env.Tunnel.Connections.Routing.{lookup}
use config_env.Tunnel.Connections.Routing.Kept.{is_known, update_keeps}
use config_env.Tunnel.Server.{Server, Socks, Datagram, Handled, fault, next, receive, packet_of}
use config_env.Tunnel.Server.Main.{
  MainEvent, read_failed, was_read, message, Ran, crashed, ran, main_turn, main_loop,
}
use config_env.Tunnel.Server.Main.Recent.{receive-conns}

-- Messages come, but no packet for the server's tun device.
abbrev pub IsQuiet : List MainEvent → Type 0
IsQuiet [] = Unit {0}
IsQuiet (read_failed ∷ es) = IsQuiet es
IsQuiet (was_read old payload len ts now ∷ es) = ⊥
IsQuiet (message a b ts addr m ∷ es) = IsQuiet es

-- Nothing is sent, no cleanup is noted, and connection `j` is in the table.
abbrev pub Kept : (j last : ℕ) → Ran → Type 0
Kept j last crashed = Unit {0}
Kept j last (ran out t last') = (out ≡ []) × (last' ≡ last) × (is_known (lookup j t.conns) ≡ true)

handled-Kept :
    (j last : ℕ) (result : Handled)
    → ((out : Option (List ℕ)) (t : Server)
        → result ≡ next out t
        → is_known (lookup j t.conns) ≡ true)
    → Kept j last (elim result [ fault ↦ crashed | next out t ↦ ran [] t last ])
handled-Kept j last fault known = tt
handled-Kept j last (next out t) known = (refl, refl, known out t refl)

more-Kept :
    (j last : ℕ) (out : List Datagram) (r : Ran)
    → out ≡ []
    → Kept j last r
    → Kept j last (elim r [ crashed ↦ crashed | ran outs u last' ↦ ran (out ++ outs) u last' ])
more-Kept j last out crashed e v = tt
more-Kept j last out (ran outs u last') e (nothing, same, known) =
    (ap (λ ds. ds ++ outs) e ∙ nothing, same, known)

loop_after-Kept :
    (j last : ℕ) (r : Ran) (rest : Server → ℕ → Ran)
    → Kept j last r
    → ((t : Server) → is_known (lookup j t.conns) ≡ true → Kept j last (rest t last))
    → Kept j last (elim r [
      | crashed ↦ crashed
      | ran out t last' ↦ elim (rest t last') [
        | crashed ↦ crashed
        | ran outs u last'' ↦ ran (out ++ outs) u last''
      ]
    ])
loop_after-Kept j last crashed rest v kept = tt
loop_after-Kept j last (ran out t last') rest (nothing, same, known) kept =
    more-Kept j last out (rest t last') nothing
      (subst (λ l. Kept j last (rest t l)) (sym same) (kept t known))

module _ (rs : Codec) (gl_fec : Bool) (socks : Socks) where
  loop-Kept :
      (j : ℕ) (es : List MainEvent) (s : Server) (last : ℕ)
      → IsQuiet es
      → is_known (lookup j s.conns) ≡ true
      → Kept j last (main_loop rs gl_fec socks es s last)
  unfolding main_loop main_turn
  loop-Kept j [] s last q known = (refl, refl, known)
  loop-Kept j (read_failed ∷ es) s last q known =
      loop_after-Kept j last (ran [] s last) (main_loop rs gl_fec socks es) (refl, refl, known)
        (λ t k. loop-Kept j es t last q k)
  loop-Kept j (was_read old payload len ts now ∷ es) s last q known = absurd q
  loop-Kept j (message a b ts addr m ∷ es) s last q known =
      let received : (out : Option (List ℕ)) (t : Server)
          → receive rs a b ts addr m s ≡ next out t
          → is_known (lookup j t.conns) ≡ true =
        λ out t e. elim (receive-conns rs a b ts addr m s t out e) [
          | inl same ↦ rw same known
          | inr taught ↦
              rw taught (update_keeps b ts (m.header.gw % 128) j (packet_of m.buf) s.conns known)
        ] in
      loop_after-Kept j last (main_turn rs gl_fec socks (message a b ts addr m) s last)
        (main_loop rs gl_fec socks es) (handled-Kept j last (receive rs a b ts addr m s) received)
        (λ t k. loop-Kept j es t last q k)

  -- As long as no packet comes to the server's tun device, whose reads then fail, the loop never cleans
  -- up: however long that is and whatever messages the clients send, nothing is sent, the time of the
  -- last cleanup stays, and each connection stays in the table, however old it is.
  pub quiet_loop_keeps_all :
      (j : ℕ) (es : List MainEvent) (s t : Server) (last last' : ℕ) (out : List Datagram)
      → IsQuiet es
      → is_known (lookup j s.conns) ≡ true
      → main_loop rs gl_fec socks es s last ≡ ran out t last'
      → (out ≡ []) × (last' ≡ last) × (is_known (lookup j t.conns) ≡ true)
  quiet_loop_keeps_all j es s t last last' out q known e =
      subst (Kept j last) e (loop-Kept j es s last q known)
