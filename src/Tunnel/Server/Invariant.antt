-- ===== src/Tunnel/Server/Invariant.antt =====
-- The tables of script/tun-vpn/ustun.c under any interleaving of its threads. Each step is one message,
-- one reply or one cleanup: the code takes a table's lock for each operation on it, and the steps of
-- different threads on different tables commute.
use config_env.Prelude.{
  [], ℕ, ◌%◌, ◌^◌, ◌<◌, List, ◌≡◌, subst, Bool, false, not, ◌||◌, ◌==◌, ltb, arith, Option,
  Bool-cases, inl, inr,
}
use config_env.Tunnel.Wire.{pkt_offset, magic_num, Header, Message}
use config_env.Tunnel.Codec.{Codec}
use config_env.Tunnel.Fec.{Collected, out_of_bounds, waiting, complete, fec_recv_done}
use config_env.Tunnel.Gateways.{cleanup_expired_gateways}
use config_env.Tunnel.Gateways.Lookup.{IsTable, update-IsTable}
use config_env.Tunnel.Gateways.Expiry.{cleanup-IsTable}
use config_env.Tunnel.Connections.{cleanup_expired_connections}
use config_env.Tunnel.Connections.Routing.{
  IsConnTable, update-IsConnTable, find-IsConnTable, cleanup-IsConnTable,
}
use config_env.Tunnel.Server.{
  Server, next, restart, learn, on_collected, on_plain, receive, packet_of, Socks, Datagram, sent,
  send_to_gateway,
}

-- Gateway ids and connection hashes are unique, gateways are in use and have their two paths.
pub record IsServer (s : Server) : Type 0 where
  pub gateways : IsTable s.gateways
  pub conns : IsConnTable s.conns
  pub sequence : s.sequence < 2 ^ 16

-- The state with which the program starts.
pub record IsInitial (s : Server) : Type 0 where
  pub gateways : s.gateways ≡ []
  pub conns : s.conns ≡ []
  pub sequence : s.sequence ≡ 0

pub data Step : Server → Server → Type 0 where
  received :
      (rs : Codec) (alloc_gw alloc_conn : Bool) (ts addr : ℕ) (m : Message) (out : Option (List ℕ))
      {s t : Server}
      → 0 < ts
      → receive rs alloc_gw alloc_conn ts addr m s ≡ next out t
      → Step s t
  replied :
      (rs : Codec) (gl_fec : Bool) (socks : Socks) (ts : ℕ) (old : Header) (payload : List ℕ)
      (len : ℕ) (out : List Datagram) {s t : Server}
      → send_to_gateway rs gl_fec socks ts old payload len s ≡ sent out t
      → Step s t
  swept_gateways :
      (now : ℕ) (s : Server)
      → Step s (record s { gateways = cleanup_expired_gateways false now s.gateways })
  swept_connections :
      (now : ℕ) (s : Server)
      → Step s (record s { conns = cleanup_expired_connections false now s.conns })

pub data Reach : Server → Type 0 where
  start : {s : Server} → IsInitial s → Reach s
  step : {s t : Server} → Reach s → Step s t → Reach t

restart-IsServer : (ts : ℕ) (m : Message) (s : Server) → IsServer s → IsServer (restart ts m s)
unfolding restart
restart-IsServer ts m s v = ground arith

learn-IsServer :
    (a b : Bool) (ts addr : ℕ) (m : Message) (s : Server)
    → 0 < ts
    → IsServer s
    → IsServer (learn a b ts addr m s)
unfolding learn
learn-IsServer a b ts addr m s pos v =
    let r = restart ts m s in
    let w = restart-IsServer ts m s v in
    record {
      gateways =
          update-IsTable ts (m.header.gw % 128) addr m.header.apn r.gateways a pos w.gateways;
      conns = update-IsConnTable ts (m.header.gw % 128) (packet_of m.buf) r.conns b w.conns;
      sequence = w.sequence;
    }

on_collected-IsServer :
    (c : Collected) (s t : Server) (out : Option (List ℕ))
    → IsServer s
    → on_collected c s ≡ next out t
    → IsServer t
unfolding on_collected
on_collected-IsServer out_of_bounds s t out v e = cc
on_collected-IsServer (waiting slots) s t out v e = ground arith
on_collected-IsServer (complete fec slots) s t out v e = ground arith

on_plain-IsServer :
    (ts : ℕ) (m : Message) (s t : Server) (out : Option (List ℕ))
    → IsServer s
    → on_plain ts m s ≡ next out t
    → IsServer t
unfolding on_plain
on_plain-IsServer ts m s t out v e = ground arith

receive-IsServer :
    (rs : Codec) (a b : Bool) (ts addr : ℕ) (m : Message) (out : Option (List ℕ)) (s t : Server)
    → 0 < ts
    → IsServer s
    → receive rs a b ts addr m s ≡ next out t
    → IsServer t
unfolding receive
receive-IsServer rs a b ts addr m out s t pos v e =
    let s' = learn a b ts addr m s in
    let v' = learn-IsServer a b ts addr m s pos v in
    elim (Bool-cases (ltb m.len pkt_offset || not (m.header.magic == magic_num))) [
      | inl bad ↦ let same : s ≡ t = ground arith in subst IsServer same v
      | inr good ↦ elim (Bool-cases (m.header.fec_rs == 0)) [
        | inl plain ↦ on_plain-IsServer ts m s' t out v' (rw (good, plain) at e)
        | inr shard ↦
            on_collected-IsServer (fec_recv_done rs ts m s'.slots) s' t out v'
              (rw (good, shard) at e)
      ]
    ]

send-IsServer :
    (rs : Codec) (gl_fec : Bool) (socks : Socks) (ts : ℕ) (old : Header) (payload : List ℕ)
    (len : ℕ) (out : List Datagram) (s t : Server)
    → IsServer s
    → send_to_gateway rs gl_fec socks ts old payload len s ≡ sent out t
    → IsServer t
unfolding send_to_gateway
send-IsServer rs gl_fec socks ts old payload len out s t v e =
    ground (arith, find-IsConnTable ts (packet_of payload) s.conns)

Step-IsServer : {s t : Server} → IsServer s → Step s t → IsServer t
Step-IsServer v (received rs a b ts addr m out {s = s} {t = t} pos e) =
    receive-IsServer rs a b ts addr m out s t pos v e
Step-IsServer v (replied rs gl_fec socks ts old payload len out {s = s} {t = t} e) =
    send-IsServer rs gl_fec socks ts old payload len out s t v e
Step-IsServer v (swept_gateways now s) = record {
  gateways = cleanup-IsTable now s.gateways v.gateways;
  conns = v.conns;
  sequence = v.sequence;
}
Step-IsServer v (swept_connections now s) = record {
  gateways = v.gateways;
  conns = cleanup-IsConnTable now s.conns v.conns;
  sequence = v.sequence;
}

-- In every state that the server reaches from its start, by messages, replies and timed cleanups in any
-- order, no two gateways have one id and no two connections one hash, each gateway is in use and has
-- two paths, and the packet number is a 16-bit one. (Message times are positive.)
pub Reach-IsServer : {s : Server} → Reach s → IsServer s
Reach-IsServer (start i) = ground (arith, i)
Reach-IsServer (step r st) = Step-IsServer (Reach-IsServer r) st
