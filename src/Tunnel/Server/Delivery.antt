-- ===== src/Tunnel/Server/Delivery.antt =====
-- What the receiver thread of script/tun-vpn/ustun.c writes to the tun device.
use config_env.Prelude.{ℕ, ◌-◌, ◌%◌, ◌≤◌, ◌<◌, ◌≡◌, ◌∙◌, ◌≢◌, Bool, none, some, take, arith}
use config_env.Tunnel.Wire.{seq_map_size, conn_timeout, magic_num, pkt_offset, Message}
use config_env.Tunnel.Codec.{Codec}
use config_env.Tunnel.Dedup.{update, is_duplicate}
use config_env.Tunnel.Fec.{fec_recv_done}
use config_env.Tunnel.Server.{Server, next, restart, learn, on_plain, on_collected, receive}

-- A message of the tunnel that is not the first one of a client.
pub record IsData (m : Message) : Type 0 where
  pub len : pkt_offset ≤ m.len
  pub magic : m.header.magic ≡ magic_num
  pub no_start : m.header.gw < 128

pub learn-same :
    (a b : Bool) (ts addr : ℕ) (m : Message) (s : Server)
    → m.header.gw < 128
    → ((learn a b ts addr m s).dedup ≡ s.dedup) × ((learn a b ts addr m s).slots ≡ s.slots)
unfolding learn restart
learn-same a b ts addr m s h = ground arith

pub receive-plain :
    (rs : Codec) (a b : Bool) (ts addr : ℕ) (m : Message) (s : Server)
    → IsData m
    → m.header.fec_rs ≡ 0
    → receive rs a b ts addr m s ≡ on_plain ts m (learn a b ts addr m s)
unfolding receive
receive-plain rs a b ts addr m s d p = ground arith

pub receive-shard :
    (rs : Codec) (a b : Bool) (ts addr : ℕ) (m : Message) (s : Server)
    → IsData m
    → m.header.fec_rs ≢ 0
    → receive rs a b ts addr m s
      ≡ on_collected (fec_recv_done rs ts m (learn a b ts addr m s).slots) (learn a b ts addr m s)
unfolding receive
receive-shard rs a b ts addr m s d p = ground arith

plain-new :
    (ts : ℕ) (m : Message) (s : Server)
    → s.dedup.seq_map (m.header.seq % seq_map_size) ≢ m.header.seq
    → ts - s.dedup.last_update ≤ conn_timeout
    → on_plain ts m s
      ≡ next (some (take (m.len - pkt_offset) m.buf)) (record s {
        dedup = record {
          seq_map = update s.dedup.seq_map (m.header.seq % seq_map_size) m.header.seq;
          last_update = ts;
        };
      })
unfolding on_plain is_duplicate
plain-new ts m s fresh recent = ground arith

plain-copy :
    (ts : ℕ) (m : Message) (s : Server)
    → s.dedup.seq_map (m.header.seq % seq_map_size) ≡ m.header.seq
    → ts - s.dedup.last_update ≤ conn_timeout
    → on_plain ts m s ≡ next none s
unfolding on_plain is_duplicate
plain-copy ts m s seen recent = ground arith

-- Two messages that one packet came in: what the first one writes, and that the second one writes
-- nothing.
pub record Once (rs : Codec) (a1 b1 a2 b2 : Bool) (ts1 ts2 addr1 addr2 : ℕ) (m1 m2 : Message)
    (s : Server) : Type 0 where
  pub state1 : Server
  pub state2 : Server
  pub first :
      receive rs a1 b1 ts1 addr1 m1 s ≡ next (some (take (m1.len - pkt_offset) m1.buf)) state1
  pub second : receive rs a2 b2 ts2 addr2 m2 state1 ≡ next none state2

-- A packet that the client sends over both of its modems is written to the tun device once: the first
-- message with its number writes exactly the bytes behind the header, the second one writes nothing.
-- (The number is new to its place in the table, and the table has not gone stale in between.)
pub copies_written-Once :
    (rs : Codec) (a1 b1 a2 b2 : Bool) (ts1 ts2 addr1 addr2 : ℕ) (m1 m2 : Message) (s : Server)
    → IsData m1
    → IsData m2
    → m1.header.fec_rs ≡ 0
    → m2.header.fec_rs ≡ 0
    → m2.header.seq ≡ m1.header.seq
    → s.dedup.seq_map (m1.header.seq % seq_map_size) ≢ m1.header.seq
    → ts1 - s.dedup.last_update ≤ conn_timeout
    → ts2 - ts1 ≤ conn_timeout
    → Once rs a1 b1 a2 b2 ts1 ts2 addr1 addr2 m1 m2 s
copies_written-Once rs a1 b1 a2 b2 ts1 ts2 addr1 addr2 m1 m2 s d1 d2 p1 p2 same fresh recent later =
    let l1 = learn a1 b1 ts1 addr1 m1 s in
    let keep1 = (learn-same a1 b1 ts1 addr1 m1 s d1.no_start).0 in
    let t1 : Server = record l1 {
      dedup = record {
        seq_map = update l1.dedup.seq_map (m1.header.seq % seq_map_size) m1.header.seq;
        last_update = ts1;
      };
    } in
    let l2 = learn a2 b2 ts2 addr2 m2 t1 in
    let keep2 = (learn-same a2 b2 ts2 addr2 m2 t1 d2.no_start).0 in
    record {
      state1 = t1;
      state2 = l2;
      first =
          receive-plain rs a1 b1 ts1 addr1 m1 s d1 p1
          ∙ plain-new ts1 m1 l1 (rw keep1 fresh) (rw keep1 recent);
      second =
          receive-plain rs a2 b2 ts2 addr2 m2 t1 d2 p2
          ∙ plain-copy ts2 m2 l2 (rw (keep2, same) (seen l1 m1.header.seq)) (rw keep2 later);
    }
  where
    seen : (l : Server) (n : ℕ) → update l.dedup.seq_map (n % seq_map_size) n (n % seq_map_size) ≡ n
    seen l n = ground arith
