-- ===== src/Tunnel/Server/Replies.antt =====
-- Where `send_to_gateway` (script/tun-vpn/ustun.c) sends the answers to a gateway's packets.
use config_env.Prelude.{
  [], ℕ, zero, suc, ◌+◌, ◌%◌, ◌^◌, ◌≤◌, ◌<◌, List, ◌∷◌, ◌++◌, ◌≡◌, ap, ◌∙◌, sym, ◌≢◌, Bool, true,
  false, Option, none, take, get_or, arith, subst,
}
use config_env.Tunnel.Wire.{max_gw_apn, Header, Message}
use config_env.Tunnel.Codec.{Codec}
use config_env.Tunnel.Gateways.{
  Gateway, entry, list_head, get_gateway_addr, update_gateway_map, path_of,
}
use config_env.Tunnel.Gateways.Lookup.{IsTable, touched, get-update, touched-path}
use config_env.Tunnel.Connections.{ip_version, update_conn_table, find_gateway_for_packet}
use config_env.Tunnel.Connections.Routing.{lookup, hash_of, owner, IsReply, reply_owner}
use config_env.Tunnel.Server.{
  Server, next, restart, learn, on_plain, receive, packet_of, opened, Socks, Datagram, fault, sent,
  plain_datagram, reply_header, send_to_gateway,
}
use config_env.Tunnel.Server.Delivery.{IsData, receive-plain}

learn-tables :
    (a b : Bool) (ts addr : ℕ) (m : Message) (s : Server)
    → m.header.gw < 128
    → ((learn a b ts addr m s).gateways
        ≡ update_gateway_map a ts m.header.gw addr m.header.apn s.gateways)
      × ((learn a b ts addr m s).conns
          ≡ update_conn_table b ts m.header.gw (packet_of m.buf) s.conns)
unfolding learn restart
learn-tables a b ts addr m s h = ground (arith)

on_plain-same :
    (ts : ℕ) (m : Message) (s t : Server) (out : Option (List ℕ))
    → on_plain ts m s ≡ next out t
    → (t.gateways ≡ s.gateways) × (t.conns ≡ s.conns)
unfolding on_plain
on_plain-same ts m s t out e = ground arith

-- What a message that is no shard leaves in the two tables.
pub receive-tables :
    (rs : Codec) (a b : Bool) (ts addr : ℕ) (m : Message) (s t : Server) (out : Option (List ℕ))
    → IsData m
    → m.header.fec_rs ≡ 0
    → receive rs a b ts addr m s ≡ next out t
    → (t.gateways ≡ update_gateway_map a ts m.header.gw addr m.header.apn s.gateways)
      × (t.conns ≡ update_conn_table b ts m.header.gw (packet_of m.buf) s.conns)
receive-tables rs a b ts addr m s t out d p e =
    let l = learn a b ts addr m s in
    let (gs, cs) = on_plain-same ts m l t out (sym (receive-plain rs a b ts addr m s d p) ∙ e) in
    let (gl, cl) = learn-tables a b ts addr m s d.no_start in (gs ∙ gl, cs ∙ cl)

module _ (rs : Codec) (gl_fec : Bool) (socks : Socks) (ts : ℕ) (old : Header) (payload : List ℕ)
    (len : ℕ) where
  send-unknown :
      (s : Server)
      → (find_gateway_for_packet ts (packet_of payload) s.conns).0 ≢ 0
      → get_gateway_addr (find_gateway_for_packet ts (packet_of payload) s.conns).0 s.gateways
        ≡ list_head
      → send_to_gateway rs gl_fec socks ts old payload len s ≡ fault
  unfolding send_to_gateway
  send-unknown s n h = ground arith

-- A message of a gateway that is not in the list, whose path number is neither 1 nor 2, opens a
-- connection and no gateway. The answer to its packet then makes the server use the head of the list as
-- if it were a gateway, since a search that fails does not return NULL.
pub reply_to_unknown_gateway :
    (rs : Codec) (a : Bool) (ts addr : ℕ) (m : Message) (s t : Server) (out : Option (List ℕ))
    (gl_fec : Bool) (socks : Socks) (later : ℕ) (old : Header) (payload : List ℕ) (len : ℕ)
    → IsData m
    → m.header.fec_rs ≡ 0
    → receive rs a true ts addr m s ≡ next out t
    → m.header.gw ≢ 0
    → get_gateway_addr m.header.gw s.gateways ≡ list_head
    → max_gw_apn ≤ path_of m.header.apn
    → ip_version (packet_of m.buf) ≡ 4
    → lookup (hash_of (packet_of m.buf)) s.conns ≡ none
    → IsReply (packet_of m.buf) (packet_of payload)
    → send_to_gateway rs gl_fec socks later old payload len t ≡ fault
unfolding update_gateway_map
reply_to_unknown_gateway rs a ts addr m s t out gl_fec socks later old payload len d p e n unknown
      path v new r =
    let (gs, cs) = receive-tables rs a true ts addr m s t out d p e in
    let found : (find_gateway_for_packet later (packet_of payload) t.conns).0 ≡ m.header.gw =
      rw cs (
        reply_owner ts later m.header.gw (packet_of m.buf) (packet_of payload) s.conns v r
        ∙ ap (owner m.header.gw) new) in
    let same : t.gateways ≡ s.gateways = ground arith in
    send-unknown rs gl_fec socks later old payload len t (rw found n) (rw (found, same) unknown)

-- The datagram is among those that are sent.
abbrev pub Has : Datagram → List Datagram → Type 0
Has d ds = (front : List Datagram) × (back : List Datagram) × (ds ≡ front ++ d ∷ back)

pub plain-seen :
    (socks : Socks) (g : Gateway) (h : Header) (bytes : List ℕ) (k : ℕ)
    → k < 2
    → 0 < get_or g.last_seen_apn k 0
    → socks k ≡ opened
    → plain_datagram socks g h bytes k
      ≡ record { sock = k; addr = get_or g.addr_apn k 0; header = h; bytes = bytes } ∷ []
unfolding plain_datagram
plain-seen socks g h bytes zero lt seen live = ground arith
plain-seen socks g h bytes (suc zero) lt seen live = ground arith
plain-seen socks g h bytes (suc (suc k)) lt seen live = absurd (omega arith)

both-Has :
    (socks : Socks) (g : Gateway) (h : Header) (bytes : List ℕ) (k : ℕ)
    → k < 2
    → 0 < get_or g.last_seen_apn k 0
    → socks k ≡ opened
    → Has
        (record { sock = k; addr = get_or g.addr_apn k 0; header = h; bytes = bytes })
        (plain_datagram socks g h bytes 0 ++ plain_datagram socks g h bytes 1)
both-Has socks g h bytes zero lt seen live =
    ([], plain_datagram socks g h bytes 1, rw (plain-seen socks g h bytes 0 lt seen live))
both-Has socks g h bytes (suc zero) lt seen live =
    (plain_datagram socks g h bytes 0, [], rw (plain-seen socks g h bytes 1 lt seen live))
both-Has socks g h bytes (suc (suc k)) lt seen live = absurd (omega arith)

pub send-known :
    (rs : Codec) (socks : Socks) (ts : ℕ) (old : Header) (payload : List ℕ) (len : ℕ) (s : Server)
    (g : Gateway) (id : ℕ)
    → (find_gateway_for_packet ts (packet_of payload) s.conns).0 ≡ id
    → id ≢ 0
    → get_gateway_addr id s.gateways ≡ entry g
    → (u : Server) × (send_to_gateway rs false socks ts old payload len s
        ≡ sent
            (plain_datagram socks g (reply_header false old id s.sequence len) (take len payload) 0
              ++ plain_datagram socks g
                  (reply_header false old id s.sequence len)
                  (take len payload)
                  1)
            u)
unfolding send_to_gateway
send-known rs socks ts old payload len s g id e n h = (
  record s {
    conns = (find_gateway_for_packet ts (packet_of payload) s.conns).1;
    sequence = (s.sequence + 1) % 2 ^ 16;
  },
  ground arith,
)

-- How an answer goes out: the datagram to the given path and address, with the gateway's id, the next
-- packet number, the length and exactly the bytes of the packet, is among those that are sent.
record Returns (rs : Codec) (socks : Socks) (later : ℕ) (old : Header) (payload : List ℕ)
    (len id path addr : ℕ) (t : Server) : Type 0 where
  pub all : List Datagram
  pub state : Server
  pub sends : send_to_gateway rs false socks later old payload len t ≡ sent all state
  pub has :
      Has
        (record {
          sock = path;
          addr = addr;
          header = reply_header false old id t.sequence len;
          bytes = take len payload;
        })
        all

-- Without error correction, the answer to a packet returns to the address that the packet came from: if
-- the message named path 1 or 2, the gateway's id is not 0, and the connection was new or this
-- gateway's own, then the server sends the answer, among others, to that address over that path,
-- provided that the path's socket is open.
reply-Returns :
    (rs : Codec) (ts addr : ℕ) (m : Message) (s t : Server) (out : Option (List ℕ)) (socks : Socks)
    (later : ℕ) (old : Header) (payload : List ℕ) (len : ℕ)
    → IsData m
    → m.header.fec_rs ≡ 0
    → receive rs true true ts addr m s ≡ next out t
    → IsTable s.gateways
    → 0 < ts
    → m.header.gw ≢ 0
    → path_of m.header.apn < max_gw_apn
    → ip_version (packet_of m.buf) ≡ 4
    → owner m.header.gw (lookup (hash_of (packet_of m.buf)) s.conns) ≡ m.header.gw
    → IsReply (packet_of m.buf) (packet_of payload)
    → socks (path_of m.header.apn) ≡ opened
    → Returns rs socks later old payload len m.header.gw (path_of m.header.apn) addr t
reply-Returns rs ts addr m s t out socks later old payload len d p e table pos n path v own r live =
    let (gs, cs) = receive-tables rs true true ts addr m s t out d p e in
    let id = m.header.gw in
    let k = path_of m.header.apn in
    let g = touched ts id addr k (get_gateway_addr id s.gateways) in
    let found : (find_gateway_for_packet later (packet_of payload) t.conns).0 ≡ id =
      rw cs (reply_owner ts later id (packet_of m.buf) (packet_of payload) s.conns v r ∙ own) in
    let known : get_gateway_addr id t.gateways ≡ entry g =
      rw gs (ground (arith, get-update ts id addr m.header.apn s.gateways id table path)) in
    let (u, sends) = send-known rs socks later old payload len t g id found n known in
    let (at_path, at_time) = touched-path ts id addr k s.gateways table path in
    let h = reply_header false old id t.sequence len in
    record {
      all =
          plain_datagram socks g h (take len payload) 0
          ++ plain_datagram socks g h (take len payload) 1;
      state = u;
      sends = sends;
      has =
          subst
            (λ (a : ℕ).
              Has (record { sock = k; addr = a; header = h; bytes = take len payload })
                (plain_datagram socks g h (take len payload) 0
                  ++ plain_datagram socks g h (take len payload) 1))
            at_path (both-Has socks g h (take len payload) k path (omega (arith, at_time)) live);
    }
