-- ===== src/Tunnel/Transit/Exchange.antt =====
-- A packet from the client (script/tun-vpn/uctun.c) and the answer to it, through the server (ustun.c).
use config_env.Prelude.{
  [], ℕ, ◌-◌, ◌%◌, ◌≤◌, ◌<◌, List, ◌∷◌, ◌≡◌, refl, ◌∙◌, ap, ◌≢◌, true, Option, none, some, get_or,
  set, length, arith,
}
use config_env.Tunnel.Wire.{buffer_size, seq_map_size, conn_timeout, Header, Message}
use config_env.Tunnel.Codec.{Codec}
use config_env.Tunnel.Gateways.{Gateway, entry, get_gateway_addr, path_of, update_gateway_map}
use config_env.Tunnel.Gateways.Lookup.{IsTable, touched, get-update, touched-path, update-IsTable}
use config_env.Tunnel.Connections.{
  ConnEntry, Packet, ip_version, update_conn_table, find_gateway_for_packet,
}
use config_env.Tunnel.Connections.Routing.{
  lookup, hash_of, owner, opened, IsReply, reply_owner, lookup-update,
}
use config_env.Tunnel.Server
use config_env.Tunnel.Server.{Server, next, Socks, receive, packet_of}
use config_env.Tunnel.Server.Delivery.{IsData}
use config_env.Tunnel.Server.Replies.{receive-tables}
use config_env.Tunnel.Client.{Client, gateway_id}
use config_env.Tunnel.Transit.Downstream.{Answered, IsReachable, answer_crosses}

-- Setting the second of two elements leaves the first.
get_or-set_second : (xs : List ℕ) (v : ℕ) → get_or (set xs 1 v) 0 0 ≡ get_or xs 0 0
get_or-set_second [] v = refl
get_or-set_second (x ∷ xs) v = refl

owner-opened :
    (ts gw : ℕ) (p : Packet) (cs : List ConnEntry) (o : Option ConnEntry)
    → owner gw (some (opened ts gw p cs o)) ≡ owner gw o
owner-opened ts gw p cs none = refl
owner-opened ts gw p cs (some c) = refl

-- Two packets of one connection from one gateway: it owns the connection after the second, if it did,
-- or would have, after the first.
twice_owner :
    (ts1 ts2 later gw : ℕ) (p1 p2 r : Packet) (cs : List ConnEntry)
    → ip_version p1 ≡ 4
    → ip_version p2 ≡ 4
    → hash_of p2 ≡ hash_of p1
    → IsReply p2 r
    → (find_gateway_for_packet later r
        (update_conn_table true ts2 gw p2 (update_conn_table true ts1 gw p1 cs))).0
      ≡ owner gw (lookup (hash_of p1) cs)
twice_owner ts1 ts2 later gw p1 p2 r cs v1 v2 same reply =
    let o = lookup (hash_of p1) cs in
    let at_hash : lookup (hash_of p1) (update_conn_table true ts1 gw p1 cs)
        ≡ some (opened ts1 gw p1 cs o) =
      ground (arith, lookup-update ts1 gw p1 cs (hash_of p1) v1) in
    reply_owner ts2 later gw p2 r (update_conn_table true ts1 gw p1 cs) v2 reply
    ∙ ap (owner gw) (ap (λ k. lookup k (update_conn_table true ts1 gw p1 cs)) same ∙ at_hash)
    ∙ owner-opened ts1 gw p1 cs o

-- A gateway after a message over each of its two paths.
pub record BothSeen (ts1 ts2 addr1 addr2 : ℕ) (g : Gateway) : Type 0 where
  pub first_addr : get_or g.addr_apn 0 0 ≡ addr1
  pub second_addr : get_or g.addr_apn 1 0 ≡ addr2
  pub seen0 : get_or g.last_seen_apn 0 0 ≡ ts1
  pub seen1 : get_or g.last_seen_apn 1 0 ≡ ts2

-- The second message keeps what the first one taught.
both-BothSeen :
    (ts1 ts2 id addr1 addr2 apn1 : ℕ) (gs : List Gateway)
    → IsTable gs
    → 0 < ts1
    → path_of apn1 ≡ 0
    → let gs1 = update_gateway_map true ts1 id addr1 apn1 gs in
      BothSeen ts1 ts2 addr1 addr2 (touched ts2 id addr2 1 (get_gateway_addr id gs1))
both-BothSeen ts1 ts2 id addr1 addr2 apn1 gs table pos path =
    let gs1 = update_gateway_map true ts1 id addr1 apn1 gs in
    let first = touched ts1 id addr1 0 (get_gateway_addr id gs) in
    let (at_path, at_time) = touched-path ts1 id addr1 0 gs table (omega arith) in
    let found : get_gateway_addr id gs1 ≡ entry first =
      ground (arith, get-update ts1 id addr1 apn1 gs id table (omega arith)) in
    let (path2, time2) =
      touched-path ts2 id addr2 1 gs1 (update-IsTable ts1 id addr1 apn1 gs true pos table)
        (omega arith) in
    record {
      first_addr =
          ap (λ o. get_or (touched ts2 id addr2 1 o).addr_apn 0 0) found
          ∙ get_or-set_second first.addr_apn addr2
          ∙ at_path;
      second_addr = path2;
      seen0 =
          ap (λ o. get_or (touched ts2 id addr2 1 o).last_seen_apn 0 0) found
          ∙ get_or-set_second first.last_seen_apn ts2
          ∙ at_time;
      seen1 = time2;
    }

known_twice :
    (ts id addr apn : ℕ) (gs : List Gateway)
    → IsTable gs
    → path_of apn ≡ 1
    → get_gateway_addr id (update_gateway_map true ts id addr apn gs)
      ≡ entry (touched ts id addr 1 (get_gateway_addr id gs))
known_twice ts id addr apn gs table path =
    ground (arith, get-update ts id addr apn gs id table (omega arith))

-- A message of the client's gateway over one of its paths, which is no shard.
pub record IsFrom (path : ℕ) (m : Message) : Type 0 where
  pub is_data : IsData m
  pub whole : m.header.fec_rs ≡ 0
  pub gw : m.header.gw ≡ gateway_id
  pub over : path_of m.header.apn ≡ path

from_tables :
    (rs : Codec) (ts addr path : ℕ) (m : Message) (s t : Server) (out : Option (List ℕ))
    → IsFrom path m
    → receive rs true true ts addr m s ≡ next out t
    → (t.gateways ≡ update_gateway_map true ts gateway_id addr m.header.apn s.gateways)
      × (t.conns ≡ update_conn_table true ts gateway_id (packet_of m.buf) s.conns)
from_tables rs ts addr path m s t out f e =
    let (gs, cs) = receive-tables rs true true ts addr m s t out f.is_data f.whole e in
    (
      gs ∙ ap (λ id. update_gateway_map true ts id addr m.header.apn s.gateways) f.gw,
      cs ∙ ap (λ id. update_conn_table true ts id (packet_of m.buf) s.conns) f.gw,
    )

-- The answer to a packet that came from the client's gateway over both of its paths returns to it: the
-- server sends it to the two addresses that the two messages came from, and the client writes it once,
-- when the first of the datagrams arrives. (The connection is new or this gateway's own, the answer has
-- the packet's addresses swapped, its number is new to its place in the client's table, and that table
-- has not gone stale. Both messages carry IPv4 and start no client, the server's sockets are open, there
-- is no error correction, and the server's memory does not run out.)
pub answer_returns :
    (rs : Codec) (ts1 ts2 addr1 addr2 : ℕ) (m1 m2 : Message) (s t1 t2 : Server)
    (out1 out2 : Option (List ℕ)) (socks : Socks) (later : ℕ) (old : Header) (payload : List ℕ)
    (len tc1 tc2 : ℕ) (stale1 stale2 : List ℕ) (c : Client)
    → IsFrom 0 m1
    → IsFrom 1 m2
    → receive rs true true ts1 addr1 m1 s ≡ next out1 t1
    → receive rs true true ts2 addr2 m2 t1 ≡ next out2 t2
    → IsTable s.gateways
    → 0 < ts1
    → 0 < ts2
    → ip_version (packet_of m1.buf) ≡ 4
    → ip_version (packet_of m2.buf) ≡ 4
    → hash_of (packet_of m2.buf) ≡ hash_of (packet_of m1.buf)
    → owner gateway_id (lookup (hash_of (packet_of m1.buf)) s.conns) ≡ gateway_id
    → IsReply (packet_of m2.buf) (packet_of payload)
    → socks 0 ≡ Server.opened
    → socks 1 ≡ Server.opened
    → len ≤ buffer_size
    → len ≤ length payload
    → c.dedup.seq_map (t2.sequence % seq_map_size) ≢ t2.sequence
    → tc1 - c.dedup.last_update ≤ conn_timeout
    → tc2 - tc1 ≤ conn_timeout
    → (g : Gateway) × BothSeen ts1 ts2 addr1 addr2 g
      × Answered rs socks later old payload len t2 g tc1 tc2 stale1 stale2 c
answer_returns rs ts1 ts2 addr1 addr2 m1 m2 s t1 t2 out1 out2 socks later old payload len tc1 tc2
      stale1 stale2 c f1 f2 e1 e2 table pos1 pos2 v1 v2 same own reply s0 s1 small fits fresh recent
      late =
    let (gs1, cs1) = from_tables rs ts1 addr1 0 m1 s t1 out1 f1 e1 in
    let (gs2, cs2) = from_tables rs ts2 addr2 1 m2 t1 t2 out2 f2 e2 in
    let g = touched ts2 gateway_id addr2 1 (
      get_gateway_addr gateway_id
        (update_gateway_map true ts1 gateway_id addr1 m1.header.apn s.gateways)) in
    let seen =
      both-BothSeen ts1 ts2 gateway_id addr1 addr2 m1.header.apn s.gateways table pos1 f1.over in
    let table1 = update-IsTable ts1 gateway_id addr1 m1.header.apn s.gateways true pos1 table in
    let known : get_gateway_addr gateway_id t2.gateways ≡ entry g =
      rw (gs2, gs1)
        (known_twice ts2 gateway_id addr2 m2.header.apn
          (update_gateway_map true ts1 gateway_id addr1 m1.header.apn s.gateways) table1 f2.over) in
    let found : (find_gateway_for_packet later (packet_of payload) t2.conns).0 ≡ gateway_id =
      rw (cs2, cs1)
        (twice_owner ts1 ts2 later gateway_id (packet_of m1.buf) (packet_of m2.buf)
            (packet_of payload) s.conns v1 v2 same reply
          ∙ own) in
    let live : IsReachable socks g = record {
      seen0 = omega (arith, seen.seen0);
      seen1 = omega (arith, seen.seen1);
      open0 = s0;
      open1 = s1;
    } in
    (
      g,
      seen,
      answer_crosses rs socks later old payload len t2 g tc1 tc2 stale1 stale2 c found known live
          small fits fresh recent late,
    )
