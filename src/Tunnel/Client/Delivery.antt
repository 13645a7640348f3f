-- ===== src/Tunnel/Client/Delivery.antt =====
-- What the receiver threads of script/tun-vpn/uctun.c write to the tun device.
use config_env.Prelude.{
  [], ℕ, ◌-◌, ◌*◌, ◌%◌, ◌≤◌, ◌<◌, ◌≡◌, ◌∙◌, ap, ◌≢◌, List, ◌∷◌, ◌++◌, none, some, take, length,
  length-append, arith,
}
use config_env.Tunnel.Wire.{seq_map_size, conn_timeout, magic_num, pkt_offset, fec_rs_t, Message}
use config_env.Tunnel.Codec.{Shard, Codec, IsCodec, IsShard}
use config_env.Tunnel.Dedup.{update}
use config_env.Tunnel.Fec.{FecSlot, Slots, complete}
use config_env.Tunnel.Fec.Frames.{Carries, IsFree, shard_of, any_two_shards}
use config_env.Tunnel.Server.{rows_size}
use config_env.Tunnel.Server.Shards.{take-append_le, flatten-take}
use config_env.Tunnel.Client.{
  Client, gateway_id, next, is_duplicate, fec_recv_done, on_plain, on_collected, receive,
}
use config_env.Tunnel.Client.Same.{fec_recv_done-server}

-- A message of the tunnel for this gateway.
pub record IsForClient (m : Message) : Type 0 where
  pub len : pkt_offset ≤ m.len
  pub magic : m.header.magic ≡ magic_num
  pub gw : m.header.gw ≡ gateway_id

pub receive-plain :
    (rs : Codec) (ts : ℕ) (m : Message) (c : Client)
    → IsForClient m
    → m.header.fec_rs ≡ 0
    → receive rs ts m c ≡ on_plain ts m c
unfolding receive
receive-plain rs ts m c d p = ground arith

receive-shard :
    (rs : Codec) (ts : ℕ) (m : Message) (c : Client)
    → IsForClient m
    → m.header.fec_rs ≢ 0
    → receive rs ts m c ≡ on_collected (fec_recv_done rs ts m c.slots) c
unfolding receive
receive-shard rs ts m c d p = ground arith

plain-new :
    (ts : ℕ) (m : Message) (c : Client)
    → c.dedup.seq_map (m.header.seq % seq_map_size) ≢ m.header.seq
    → ts - c.dedup.last_update ≤ conn_timeout
    → on_plain ts m c
      ≡ next (some (take (m.len - pkt_offset) m.buf)) (record c {
        dedup = record {
          seq_map = update c.dedup.seq_map (m.header.seq % seq_map_size) m.header.seq;
          last_update = ts;
        };
      })
unfolding on_plain is_duplicate
plain-new ts m c fresh recent = ground arith

plain-copy :
    (ts : ℕ) (m : Message) (c : Client)
    → c.dedup.seq_map (m.header.seq % seq_map_size) ≡ m.header.seq
    → ts - c.dedup.last_update ≤ conn_timeout
    → on_plain ts m c ≡ next none c
unfolding on_plain is_duplicate
plain-copy ts m c seen recent = ground arith

-- Two messages that one packet came in: what the first one writes, and that the second one writes
-- nothing and changes nothing.
pub record Once (rs : Codec) (ts1 ts2 : ℕ) (m1 m2 : Message) (c : Client) : Type 0 where
  pub state : Client
  pub first : receive rs ts1 m1 c ≡ next (some (take (m1.len - pkt_offset) m1.buf)) state
  pub second : receive rs ts2 m2 state ≡ next none state

-- A packet that the server sends over both paths is written to the client's tun device once.
pub answer-Once :
    (rs : Codec) (ts1 ts2 : ℕ) (m1 m2 : Message) (c : Client)
    → IsForClient m1
    → IsForClient m2
    → m1.header.fec_rs ≡ 0
    → m2.header.fec_rs ≡ 0
    → m2.header.seq ≡ m1.header.seq
    → c.dedup.seq_map (m1.header.seq % seq_map_size) ≢ m1.header.seq
    → ts1 - c.dedup.last_update ≤ conn_timeout
    → ts2 - ts1 ≤ conn_timeout
    → Once rs ts1 ts2 m1 m2 c
answer-Once rs ts1 ts2 m1 m2 c d1 d2 p1 p2 same fresh recent later =
    let t : Client = record c {
      dedup = record {
        seq_map = update c.dedup.seq_map (m1.header.seq % seq_map_size) m1.header.seq;
        last_update = ts1;
      };
    } in
    record {
      state = t;
      first = receive-plain rs ts1 m1 c d1 p1 ∙ plain-new ts1 m1 c fresh recent;
      second =
          receive-plain rs ts2 m2 t d2 p2
          ∙ plain-copy ts2 m2 t (rw same (seen m1.header.seq)) later;
    }
  where
    seen : (n : ℕ) → update c.dedup.seq_map (n % seq_map_size) n (n % seq_map_size) ≡ n
    seen n = ground arith

-- The client's part in a packet of two data shards that comes in two messages.
pub record Joined (rs : Codec) (ts1 ts2 : ℕ) (m1 m2 : Message) (bytes : List ℕ) (c : Client)
    : Type 0 where
  pub state1 : Client
  pub state2 : Client
  pub first : receive rs ts1 m1 c ≡ next none state1
  pub second : receive rs ts2 m2 state1 ≡ next (some bytes) state2

collected_two :
    (fec : FecSlot) (slots : Slots) (c : Client) (a b : Shard) (len : ℕ)
    → take 2 fec.buf ≡ a ∷ b ∷ []
    → fec.plen ≡ len
    → len ≤ length (a ++ b)
    → len ≤ rows_size
    → on_collected (complete fec slots) c
      ≡ next (some (take len (a ++ b))) (record c { slots = slots })
unfolding on_collected
collected_two fec slots c a b len rows e fits small =
    let (rest, flat) = flatten-take fec.buf a b rows in
    ground (arith, flat, take-append_le len (a ++ b) rest)

-- Two messages with different shards of one packet make the client write the packet, as they make the
-- server do.
pub answer-Joined :
    (rs : Codec) (laws : IsCodec rs) (a b : Shard)
    → IsShard a
    → IsShard b
    → (n len ts1 ts2 i j : ℕ) (m1 m2 : Message) (c : Client) → IsForClient m1
    → IsForClient m2
    → m1.header.fec_rs ≢ 0
    → m2.header.fec_rs ≢ 0
    → i < 3
    → j < 3
    → i ≢ j
    → len ≤ 2 * fec_rs_t
    → IsFree (c.slots (n % seq_map_size)) n
    → Carries m1 n len i (shard_of a b (laws.parity a b) i)
    → Carries m2 n len j (shard_of a b (laws.parity a b) j)
    → Joined rs ts1 ts2 m1 m2 (take len (a ++ b)) c
unfolding on_collected
answer-Joined rs laws a b va vb n len ts1 ts2 i j m1 m2 c d1 d2 p1 p2 li lj ne fits free c1 c2 =
    let d = any_two_shards rs laws a b va vb n len ts1 ts2 i j m1 m2 c.slots li lj ne free c1 c2 in
    let t1 : Client = record c { slots = d.slots1 } in
    let got1 = fec_recv_done-server rs ts1 m1 c.slots ∙ d.first in
    let got2 = fec_recv_done-server rs ts2 m2 d.slots1 ∙ d.second in
    record {
      state1 = t1;
      state2 = record t1 { slots = d.slots2 };
      first = receive-shard rs ts1 m1 c d1 p1 ∙ ap (λ r. on_collected r c) got1;
      second =
          receive-shard rs ts2 m2 t1 d2 p2
          ∙ ap (λ r. on_collected r t1) got2
          ∙ collected_two d.fec d.slots2 t1 a b len d.rows d.plen
              (omega (arith, length-append a b, va.size, vb.size)) (omega arith);
    }
