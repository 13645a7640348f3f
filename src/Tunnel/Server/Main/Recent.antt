-- ===== src/Tunnel/Server/Main/Recent.antt =====
-- When the connections of script/tun-vpn/ustun.c were used last, after each operation on their table.
use config_env.Prelude.{
  [], ℕ, ◌-◌, ◌+◌, ◌≤◌, List, ◌∷◌, ◌≡◌, ◌∙◌, Bool, false, none, some, arith, ◌⊎◌, ◌%◌, not, ◌||◌,
  ltb, Option, Bool-cases, inl, inr, ◌==◌,
}
use config_env.Tunnel.Wire.{conn_timeout, pkt_offset, magic_num, Header, Message}
use config_env.Tunnel.Codec.{Codec}
use config_env.Tunnel.Fec.{Collected, out_of_bounds, waiting, complete, fec_recv_done}
use config_env.Tunnel.Connections.{
  ConnEntry, Packet, use_entry, update_conn_table, find_gateway_for_packet,
  cleanup_expired_connections, conn_hash_cal,
}
use config_env.Tunnel.Server.{
  Server, Socks, Datagram, next, sent, receive, learn, restart, on_plain, on_collected,
  send_to_gateway, packet_of,
}

-- Every connection was used at most `age` seconds before `now`, or later.
abbrev pub AllRecent : (age now : ℕ) → List ConnEntry → Type 0
AllRecent age now [] = Unit {0}
AllRecent age now (c ∷ cs) = (now - c.last_used ≤ age) × AllRecent age now cs

-- The same of what the search for an entry gives.
abbrev FoundRecent : (age now : ℕ) → Option (ℕ × List ConnEntry) → Type 0
FoundRecent age now none = Unit {0}
FoundRecent age now (some r) = AllRecent age now r.1

FoundRecent-later :
    (age now : ℕ) (c : ConnEntry) (o : Option (ℕ × List ConnEntry))
    → now - c.last_used ≤ age
    → FoundRecent age now o
    → FoundRecent age now (elim o [ none ↦ none | some (gw, cs) ↦ some (gw, c ∷ cs) ])
FoundRecent-later age now c none h r = tt
FoundRecent-later age now c (some (gw, cs)) h r = (h, r)

use_entry-FoundRecent :
    (age now ts hash : ℕ) (cs : List ConnEntry)
    → now ≤ ts
    → AllRecent age now cs
    → FoundRecent age now (use_entry ts hash cs)
unfolding use_entry
use_entry-FoundRecent age now ts hash [] h r = tt
use_entry-FoundRecent age now ts hash (c ∷ cs) h (rc, rs) =
    elim (Bool-cases (c.key.hash_val == hash)) [
      | inl e ↦ rw e (omega arith, rs)
      | inr e ↦ rw e (
          FoundRecent-later age now c (use_entry ts hash cs) rc
            (use_entry-FoundRecent age now ts hash cs h rs))
    ]

module _ (age now ts : ℕ) (p : Packet) (cs : List ConnEntry) (h : now ≤ ts)
    (r : AllRecent age now cs) where
  update-AllRecent :
      (alloc : Bool) (gw : ℕ) → AllRecent age now (update_conn_table alloc ts gw p cs)
  unfolding update_conn_table
  update-AllRecent alloc gw =
      let found = use_entry-FoundRecent age now ts (conn_hash_cal p).hash_val cs h r in ground arith

  find-AllRecent : AllRecent age now (find_gateway_for_packet ts p cs).1
  unfolding find_gateway_for_packet
  find-AllRecent =
      let found = use_entry-FoundRecent age now ts (conn_hash_cal p).hash_val cs h r in ground arith

pub cleanup-AllRecent :
    (now : ℕ) (cs : List ConnEntry)
    → AllRecent conn_timeout now (cleanup_expired_connections false now cs)
unfolding cleanup_expired_connections
cleanup-AllRecent now [] = tt
cleanup-AllRecent now (c ∷ cs) = ground (arith, cleanup-AllRecent now cs)

pub AllRecent-later :
    (age now later wait : ℕ) (cs : List ConnEntry)
    → later - now ≤ wait
    → AllRecent age now cs
    → AllRecent (age + wait) later cs
AllRecent-later age now later wait [] h r = tt
AllRecent-later age now later wait (c ∷ cs) h (rc, rs) =
    (omega arith, AllRecent-later age now later wait cs h rs)

learn-conns :
    (a b : Bool) (ts addr : ℕ) (m : Message) (s : Server)
    → (learn a b ts addr m s).conns
      ≡ update_conn_table b ts (m.header.gw % 128) (packet_of m.buf) s.conns
unfolding learn restart
learn-conns a b ts addr m s = ground arith

on_plain-conns :
    (ts : ℕ) (m : Message) (s t : Server) (out : Option (List ℕ))
    → on_plain ts m s ≡ next out t
    → t.conns ≡ s.conns
unfolding on_plain
on_plain-conns ts m s t out e = ground arith

on_collected-conns :
    (c : Collected) (s t : Server) (out : Option (List ℕ))
    → on_collected c s ≡ next out t
    → t.conns ≡ s.conns
unfolding on_collected
on_collected-conns out_of_bounds s t out e = cc
on_collected-conns (waiting slots) s t out e = ground arith
on_collected-conns (complete fec slots) s t out e = ground arith

send-conns :
    (rs : Codec) (gl_fec : Bool) (socks : Socks) (ts : ℕ) (old : Header) (payload : List ℕ)
    (len : ℕ) (out : List Datagram) (s t : Server)
    → send_to_gateway rs gl_fec socks ts old payload len s ≡ sent out t
    → t.conns ≡ (find_gateway_for_packet ts (packet_of payload) s.conns).1
unfolding send_to_gateway
send-conns rs gl_fec socks ts old payload len out s t e = ground arith

pub receive-conns :
    (rs : Codec) (a b : Bool) (ts addr : ℕ) (m : Message) (s t : Server) (out : Option (List ℕ))
    → receive rs a b ts addr m s ≡ next out t
    → (t.conns ≡ s.conns)
      ⊎ (t.conns ≡ update_conn_table b ts (m.header.gw % 128) (packet_of m.buf) s.conns)
unfolding receive
receive-conns rs a b ts addr m s t out e =
    let s' = learn a b ts addr m s in
    let taught = learn-conns a b ts addr m s in
    elim (Bool-cases (ltb m.len pkt_offset || not (m.header.magic == magic_num))) [
      | inl bad ↦ inl (ground arith)
      | inr good ↦ elim (Bool-cases (m.header.fec_rs == 0)) [
        | inl plain ↦ inr (on_plain-conns ts m s' t out (rw (good, plain) at e) ∙ taught)
        | inr shard ↦ inr (
            on_collected-conns (fec_recv_done rs ts m s'.slots) s' t out (rw (good, shard) at e)
            ∙ taught)
      ]
    ]

pub receive-AllRecent :
    (rs : Codec) (a b : Bool) (ts addr age now : ℕ) (m : Message) (s t : Server)
    (out : Option (List ℕ))
    → now ≤ ts
    → AllRecent age now s.conns
    → receive rs a b ts addr m s ≡ next out t
    → AllRecent age now t.conns
receive-AllRecent rs a b ts addr age now m s t out h r e =
    elim (receive-conns rs a b ts addr m s t out e) [
      | inl same ↦ rw same r
      | inr taught ↦
          rw taught
            (update-AllRecent age now ts (packet_of m.buf) s.conns h r b (m.header.gw % 128))
    ]

pub send-AllRecent :
    (rs : Codec) (gl_fec : Bool) (socks : Socks) (ts age now : ℕ) (old : Header) (payload : List ℕ)
    (len : ℕ) (out : List Datagram) (s t : Server)
    → now ≤ ts
    → AllRecent age now s.conns
    → send_to_gateway rs gl_fec socks ts old payload len s ≡ sent out t
    → AllRecent age now t.conns
send-AllRecent rs gl_fec socks ts age now old payload len out s t h r e =
    rw (send-conns rs gl_fec socks ts old payload len out s t e)
      (find-AllRecent age now ts (packet_of payload) s.conns h r)
