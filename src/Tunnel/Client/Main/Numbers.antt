-- ===== src/Tunnel/Client/Main/Numbers.antt =====
-- The numbers of the packets that script/tun-vpn/uctun.c sends.
use config_env.Prelude.{
  [], ℕ, zero, suc, ◌+◌, ◌%◌, ◌^◌, List, ◌∷◌, ◌≡◌, refl, ap₂, subst, Bool, false, ◌==◌,
  if◌then◌else◌, Bool-cases, inl, inr, Option, arith,
}
use config_env.Tunnel.Wire.{Message}
use config_env.Tunnel.Codec.{Codec}
use config_env.Tunnel.Fec.{Collected, out_of_bounds, waiting, complete}
use config_env.Tunnel.Server.{opened, Socks, Datagram}
use config_env.Tunnel.Client.{
  Client, Handled, fault, next, fec_recv_done, receive, on_plain, on_collected,
}
use config_env.Tunnel.Client.Sending.{send_plain}
use config_env.Tunnel.Client.Main.{
  ClientEvent, read_nothing, read_broken, was_read, message, ClientRan, crashed, ran, then_more,
  client_loop,
}

-- The packets that are read before the loop ends.
abbrev pub packet_count : List ClientEvent → ℕ
packet_count [] = 0
packet_count (read_nothing ∷ es) = packet_count es
packet_count (read_broken ∷ es) = 0
packet_count (was_read old payload len packets ∷ es) =
    if len == 0 then packet_count es else suc (packet_count es)
packet_count (message ts m ∷ es) = packet_count es

-- Each number twice, from `n` on: after 65535 comes 0.
abbrev pub pairs : (n count : ℕ) → List ℕ
pairs n zero = []
pairs n (suc k) = n ∷ n ∷ pairs ((n + 1) % 2 ^ 16) k

abbrev pub numbers : List Datagram → List ℕ
numbers [] = []
numbers (d ∷ ds) = d.header.seq ∷ numbers ds

abbrev Numbered : (n count : ℕ) → ClientRan → Type 0
Numbered n k crashed = Unit {0}
Numbered n k (ran out ended c) = numbers out ≡ pairs n k

then_more-Numbered :
    (n k : ℕ) (d1 d2 : Datagram) (r : ClientRan)
    → d1.header.seq ≡ n
    → d2.header.seq ≡ n
    → Numbered ((n + 1) % 2 ^ 16) k r
    → Numbered n (suc k) (then_more (d1 ∷ d2 ∷ []) r)
then_more-Numbered n k d1 d2 crashed e1 e2 v = tt
then_more-Numbered n k d1 d2 (ran out ended c) e1 e2 v =
    ap₂ (λ x xs. x ∷ xs) e1 (ap₂ (λ x xs. x ∷ xs) e2 v)

on_collected-same :
    (r : Collected) (c c' : Client) (out : Option (List ℕ))
    → on_collected r c ≡ next out c'
    → (c'.sequence ≡ c.sequence) × (c'.first ≡ c.first)
unfolding on_collected
on_collected-same out_of_bounds c c' out e = ground arith
on_collected-same (waiting slots) c c' out e = ground arith
on_collected-same (complete fec slots) c c' out e = ground arith

handled-Numbered :
    (n k : ℕ) (result : Handled) (rest : Client → ClientRan)
    → ((out : Option (List ℕ)) (c : Client) → result ≡ next out c → Numbered n k (rest c))
    → Numbered n k (elim result [ fault ↦ crashed | next out c ↦ rest c ])
handled-Numbered n k fault rest v = tt
handled-Numbered n k (next out c) rest v = v out c refl

-- Messages from the server leave the numbering alone.
pub receive-same :
    (rs : Codec) (ts : ℕ) (m : Message) (c c' : Client) (out : Option (List ℕ))
    → receive rs ts m c ≡ next out c'
    → (c'.sequence ≡ c.sequence) × (c'.first ≡ c.first)
unfolding receive on_plain
receive-same rs ts m c c' out e =
    ground (arith, on_collected-same (fec_recv_done rs ts m c.slots) c c' out)

module _ (rs : Codec) (socks : Socks) (server : ℕ) (open0 : socks 0 ≡ opened)
    (open1 : socks 1 ≡ opened) where
  loop-Numbered :
      (es : List ClientEvent) (c : Client)
      → Numbered c.sequence (packet_count es) (client_loop rs false socks server es c)
  unfolding client_loop
  loop-Numbered [] c = refl
  loop-Numbered (read_nothing ∷ es) c = loop-Numbered es c
  loop-Numbered (read_broken ∷ es) c = refl
  loop-Numbered (was_read old payload len packets ∷ es) c = elim (Bool-cases (len == 0)) [
    | inl nothing ↦ simp nothing (loop-Numbered es c)
    | inr some_bytes ↦
        let read = send_plain rs false socks server old payload len packets c refl open0 open1 in
        let c' : Client = record c { sequence = (c.sequence + 1) % 2 ^ 16; first = false } in
        simp (some_bytes, read)
          (then_more-Numbered c.sequence (packet_count es) _ _
            (client_loop rs false socks server es c') refl refl (loop-Numbered es c'))
  ]
  loop-Numbered (message ts m ∷ es) c =
      handled-Numbered c.sequence (packet_count es) (receive rs ts m c)
        (client_loop rs false socks server es)
        (λ out c' e.
          subst (λ n. Numbered n (packet_count es) (client_loop rs false socks server es c'))
            (receive-same rs ts m c c' out e).0 (loop-Numbered es c'))

  -- With both sockets open and without error correction, each packet that the client's loop reads,
  -- until a read fails for good, leaves in two datagrams with one number, and the numbers of the packets
  -- follow each other from the client's next number on, 0 after 65535, whatever messages come between.
  pub numbers_in_order :
      (es : List ClientEvent) (c c' : Client) (out : List Datagram) (ended : Bool)
      → client_loop rs false socks server es c ≡ ran out ended c'
      → numbers out ≡ pairs c.sequence (packet_count es)
  numbers_in_order es c c' out ended e =
      subst (Numbered c.sequence (packet_count es)) e (loop-Numbered es c)
