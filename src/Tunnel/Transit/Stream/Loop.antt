-- ===== src/Tunnel/Transit/Stream/Loop.antt =====
-- The loop of script/tun-vpn/uctun.c against the batches of ustun.c.
use config_env.Prelude.{
  [], ℕ, suc, ◌+◌, ◌%◌, ◌^◌, ◌≤◌, ◌<◌, List, ◌∷◌, ◌≡◌, refl, ◌∙◌, ap, sym, subst, Bool, false, ◌==◌,
  if◌then◌else◌, Bool-cases, inl, inr, Option, arith,
}
use config_env.Tunnel.Wire.{seq_map_size, gateway_start}
use config_env.Tunnel.Codec.{Codec}
use config_env.Tunnel.Dedup.{Dedup}
use config_env.Tunnel.Server.{opened, Socks, Datagram, Server}
use config_env.Tunnel.Server.Thread.{Received, receiver_loop}
use config_env.Tunnel.Server.Thread.Batches.{messages, receiver_loop-receive_batch}
use config_env.Tunnel.Server.Batch.{wrote, Arrival, AllPlain, passed, receive_batch-passed}
use config_env.Tunnel.Server.Batch.Once.{mark}
use config_env.Tunnel.Client.{Client, gateway_id, Handled, fault, next, receive}
use config_env.Tunnel.Client.Sending.{send_plain}
use config_env.Tunnel.Client.Main.{
  ClientEvent, read_nothing, read_broken, was_read, message, ClientRan, crashed, ran, client_loop,
}
use config_env.Tunnel.Client.Main.Numbers.{packet_count, receive-same}
use config_env.Tunnel.Transit.Stream.{packets_read, Readable, Carries, Ahead, Streams}
use config_env.Tunnel.Transit.Stream.Pairs.{Ahead-mark, pair-Streams}

nothing-Streams :
    (t : ℕ) (d : Dedup) (batch : List Arrival)
    → Carries t batch []
    → AllPlain batch × (passed batch d ≡ [])
unfolding passed
nothing-Streams t d [] carried = (tt, refl)
nothing-Streams t d (a ∷ batch) carried = absurd carried

handled-Streams :
    (t : ℕ) (outs : List (List ℕ)) (d : Dedup) (result : Handled) (rest : Client → ClientRan)
    → ((out : Option (List ℕ)) (c : Client) → result ≡ next out c → Streams t outs d (rest c))
    → Streams t outs d (elim result [ fault ↦ crashed | next out c ↦ rest c ])
handled-Streams t outs d fault rest v = tt
handled-Streams t outs d (next out c) rest v = v out c refl

-- The server's thread writes this, whatever state it leaves.
pub record Delivers (rs : Codec) (calls : List Received) (s : Server) (outs : List (List ℕ))
    : Type 0 where
  pub state : Server
  pub runs : receiver_loop rs calls s ≡ wrote outs state

module _ (rs : Codec) (socks : Socks) (server t : ℕ) (open0 : socks 0 ≡ opened)
    (open1 : socks 1 ≡ opened) where
  loop-Streams :
      (es : List ClientEvent) (c : Client) (d : Dedup)
      → Readable es
      → c.first ≡ false
      → c.sequence < 2 ^ 16
      → packet_count es ≤ seq_map_size
      → t ≤ d.last_update
      → Ahead c.sequence (packet_count es) d
      → Streams t (packets_read es) d (client_loop rs false socks server es c)
  unfolding client_loop
  loop-Streams [] c d readable started small most recent ahead = nothing-Streams t d
  loop-Streams (read_nothing ∷ es) c d readable started small most recent ahead =
      loop-Streams es c d readable started small most recent ahead
  loop-Streams (read_broken ∷ es) c d readable started small most recent ahead = nothing-Streams t d
  loop-Streams (was_read old payload len packets ∷ es) c d (magic, fits, there, readable) started
        small most recent ahead =
      elim (Bool-cases (len == 0)) [
        | inl nothing ↦ simp nothing (
            loop-Streams es c d readable started small (rw nothing at most) recent
              (rw nothing at ahead))
        | inr some_bytes ↦
            let c' : Client = record c { sequence = (c.sequence + 1) % 2 ^ 16; first = false } in
            let gw = ap (λ f. if f then gateway_id + gateway_start else gateway_id) started in
            let most' : suc (packet_count es) ≤ seq_map_size = rw some_bytes at most in
            let ahead' : Ahead c.sequence (suc (packet_count es)) d = rw some_bytes at ahead in
            simp
              (
                some_bytes,
                send_plain rs false socks server old payload len packets c refl open0 open1,
              )
              (pair-Streams t c.sequence (packet_count es) len payload small most' fits there _ _
                (packets_read es) d (client_loop rs false socks server es c')
                (record { magic = magic; gw = gw; seq = refl; whole = refl; bytes = refl })
                (record { magic = magic; gw = gw; seq = refl; whole = refl; bytes = refl }) recent
                ahead'
                (λ ts from.
                  loop-Streams es c' (mark c.sequence ts d) readable refl (omega arith)
                    (omega arith) from
                    (Ahead-mark c.sequence (packet_count es) ts d small most' ahead')))
      ]
  loop-Streams (message ts m ∷ es) c d readable started small most recent ahead =
      handled-Streams t (packets_read es) d (receive rs ts m c)
        (client_loop rs false socks server es)
        (λ out c' e.
          let same = receive-same rs ts m c c' out e in
          loop-Streams es c' d readable (same.1 ∙ started) (rw same.0 small) most recent
            (subst (λ n. Ahead n (packet_count es) d) (sym same.0) ahead))

  -- What the client reads from its tun device, up to 8192 packets past its first one, and with messages
  -- from the server in between, the server writes to its own tun device: the same packets in the same
  -- order, each once although it comes twice, cut to the 1492 bytes that fit behind the header. (Without
  -- error correction, both sockets open, the datagrams arriving in their order within three minutes, and
  -- the server's table younger than that and without the numbers that follow.)
  pub stream_crosses :
      (rs' : Codec) (es : List ClientEvent) (c c' : Client) (out : List Datagram) (ended : Bool)
      (calls : List Received) (s : Server)
      → Readable es
      → c.first ≡ false
      → c.sequence < 2 ^ 16
      → packet_count es ≤ seq_map_size
      → t ≤ s.dedup.last_update
      → Ahead c.sequence (packet_count es) s.dedup
      → client_loop rs false socks server es c ≡ ran out ended c'
      → Carries t (messages calls) out
      → Delivers rs' calls s (packets_read es)
  stream_crosses rs' es c c' out ended calls s readable started small most recent ahead e carried =
      let streams = loop-Streams es c s.dedup readable started small most recent ahead in
      let v : AllPlain (messages calls) × (passed (messages calls) s.dedup ≡ packets_read es) =
        subst (Streams t (packets_read es) s.dedup) e streams (messages calls) carried in
      let w = receive_batch-passed rs' (messages calls) s v.0 in
      record {
        state = w.state;
        runs =
            receiver_loop-receive_batch rs' calls s ∙ w.runs ∙ ap (λ outs. wrote outs w.state) v.1;
      }
