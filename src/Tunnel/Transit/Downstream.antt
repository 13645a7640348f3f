-- ===== src/Tunnel/Transit/Downstream.antt =====
-- An answer on its way from the server's tun device (script/tun-vpn/ustun.c) to the client's (uctun.c).
use config_env.Prelude.{
  [], ℕ, ◌-◌, ◌%◌, ◌^◌, ◌≤◌, ◌<◌, List, ◌∷◌, ◌≡◌, refl, ◌∙◌, ap, sym, subst, ◌≢◌, false, none, some,
  take, get_or, length, arith, min,
}
use config_env.Tunnel.Wire.{buffer_size, pkt_offset, seq_map_size, conn_timeout, magic_num, Header}
use config_env.Tunnel.Codec.{Codec}
use config_env.Tunnel.Gateways.{Gateway, entry, get_gateway_addr}
use config_env.Tunnel.Connections.{find_gateway_for_packet}
use config_env.Tunnel.Server.{
  opened, Socks, Datagram, Server, sent, packet_of, reply_header, send_to_gateway,
}
use config_env.Tunnel.Server.Replies.{plain-seen, send-known}
use config_env.Tunnel.Client.{Client, gateway_id, next, receive}
use config_env.Tunnel.Client.Delivery.{IsForClient, answer-Once}
use config_env.Tunnel.Transit.{arrive}
use config_env.Tunnel.Transit.Upstream.{arrive-header, arrive-len, arrived-bytes}

pub arrive-IsForClient :
    (d : Datagram) (stale : List ℕ)
    → d.header.magic ≡ magic_num
    → d.header.gw ≡ gateway_id
    → IsForClient (arrive d stale)
arrive-IsForClient d stale m g = record {
  len = arrive-len d stale;
  magic = ap (λ (h : Header). h.magic) (arrive-header d stale) ∙ m;
  gw = ap (λ (h : Header). h.gw) (arrive-header d stale) ∙ g;
}

-- The gateway's two paths are known, and the sockets are open.
pub record IsReachable (socks : Socks) (g : Gateway) : Type 0 where
  pub seen0 : 0 < get_or g.last_seen_apn 0 0
  pub seen1 : 0 < get_or g.last_seen_apn 1 0
  pub open0 : socks 0 ≡ opened
  pub open1 : socks 1 ≡ opened

-- An answer on its way: the two datagrams that the server sends for it, to the gateway's two addresses,
-- and what the client's receivers do with the first and with the second.
pub record Answered (rs : Codec) (socks : Socks) (later : ℕ) (old : Header) (payload : List ℕ)
    (len : ℕ) (s : Server) (g : Gateway) (ts1 ts2 : ℕ) (stale1 stale2 : List ℕ) (c : Client)
    : Type 0 where
  pub datagram1 : Datagram
  pub datagram2 : Datagram
  pub server : Server
  pub client : Client
  pub sends :
      send_to_gateway rs false socks later old payload len s
      ≡ sent (datagram1 ∷ datagram2 ∷ []) server
  pub to1 : datagram1.addr ≡ get_or g.addr_apn 0 0
  pub to2 : datagram2.addr ≡ get_or g.addr_apn 1 0
  pub first :
      receive rs ts1 (arrive datagram1 stale1) c
      ≡ next (some (take (min len (buffer_size - pkt_offset)) payload)) client
  pub second : receive rs ts2 (arrive datagram2 stale2) client ≡ next none client

-- A packet that the server takes from its tun device for a connection of the client's gateway, of which
-- both paths are known, leaves without error correction as one datagram for each path. The client
-- writes it to its tun device once, when the first of them arrives, cut to the 1492 bytes that its
-- receive buffer holds behind the header; the second one writes nothing. (Both sockets of the server are
-- open, the number is new to its place in the client's table, and the table has not gone stale.)
pub answer_crosses :
    (rs : Codec) (socks : Socks) (later : ℕ) (old : Header) (payload : List ℕ) (len : ℕ)
    (s : Server) (g : Gateway) (ts1 ts2 : ℕ) (stale1 stale2 : List ℕ) (c : Client)
    → (find_gateway_for_packet later (packet_of payload) s.conns).0 ≡ gateway_id
    → get_gateway_addr gateway_id s.gateways ≡ entry g
    → IsReachable socks g
    → len ≤ buffer_size
    → len ≤ length payload
    → c.dedup.seq_map (s.sequence % seq_map_size) ≢ s.sequence
    → ts1 - c.dedup.last_update ≤ conn_timeout
    → ts2 - ts1 ≤ conn_timeout
    → Answered rs socks later old payload len s g ts1 ts2 stale1 stale2 c
answer_crosses rs socks later old payload len s g ts1 ts2 stale1 stale2 c found known live small
      fits fresh recent late =
    let h = reply_header false old gateway_id s.sequence len in
    let bytes = take len payload in
    let d1 : Datagram = record {
      sock = 0;
      addr = get_or g.addr_apn 0 0;
      header = h;
      bytes = bytes;
    } in
    let d2 : Datagram = record {
      sock = 1;
      addr = get_or g.addr_apn 1 0;
      header = h;
      bytes = bytes;
    } in
    let (u, sends) =
      send-known rs socks later old payload len s g gateway_id found (omega arith) known in
    let path0 = plain-seen socks g h bytes 0 (omega arith) live.seen0 live.open0 in
    let path1 = plain-seen socks g h bytes 1 (omega arith) live.seen1 live.open1 in
    let uncut : bytes ≡ take (len % 2 ^ 16) payload = ap (λ k. take k payload) (omega arith) in
    let once =
      answer-Once rs ts1 ts2 (arrive d1 stale1) (arrive d2 stale2) c
        (arrive-IsForClient d1 stale1 refl refl) (arrive-IsForClient d2 stale2 refl refl)
        (ap (λ (k : Header). k.fec_rs) (arrive-header d1 stale1))
        (ap (λ (k : Header). k.fec_rs) (arrive-header d2 stale2))
        (number d2 stale2 refl ∙ sym (number d1 stale1 refl))
        (subst (λ k. c.dedup.seq_map (k % seq_map_size) ≢ k) (sym (number d1 stale1 refl)) fresh)
        recent late in
    record {
      datagram1 = d1;
      datagram2 = d2;
      server = u;
      client = once.state;
      sends = sends ∙ ap (λ ds. sent ds u) (rw (path0, path1));
      to1 = refl;
      to2 = refl;
      first =
          once.first
          ∙ ap (λ b. next (some b) once.state)
              (arrived-bytes d1 stale1 payload len small fits uncut);
      second = once.second;
    }
  where
    number :
        (d : Datagram) (stale : List ℕ) {n : ℕ} → d.header.seq ≡ n → (arrive d stale).header.seq ≡ n
    number d stale e = ap (λ (h : Header). h.seq) (arrive-header d stale) ∙ e
