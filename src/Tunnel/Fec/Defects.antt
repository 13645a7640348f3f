-- ===== src/Tunnel/Fec/Defects.antt =====
-- Messages that `fec_recv_done` (script/tun-vpn/ustun.c) does not cope with.
use config_env.Prelude.{
  [], ℕ, zero, suc, ◌%◌, ◌<◌, ◌≤◌, List, ◌∷◌, ◌≡◌, ap, ◌↔◌, false, set, length, length-set, arith,
}
use config_env.Tunnel.Wire.{seq_map_size, Message}
use config_env.Tunnel.Codec.{Shard, Codec, IsCodec}
use config_env.Tunnel.Fec.{FecSlot, Slots, put, out_of_bounds, waiting, fec_recv_done}
use config_env.Tunnel.Fec.Frames.{Carries, IsFree, put_same, first_shard, closed, slot}

-- For a packet that is new to its slot the write goes wrong exactly for the shard numbers 3 to 7,
-- which the 3-bit field of the header can hold and which nothing checks: there are three rows.
overflow_iff :
    (rs : Codec) (ts : ℕ) (m : Message) (slots : Slots)
    → IsFree (slots (m.header.seq % seq_map_size)) m.header.seq
    → (fec_recv_done rs ts m slots ≡ out_of_bounds) ↔ (3 ≤ m.header.fec_idx)
unfolding fec_recv_done
overflow_iff rs ts m slots free = ground arith

module _ (rs : Codec) (laws : IsCodec rs) (n len : ℕ) where
  -- With one row marked as received and the count at two, decoding fails.
  decode_one :
      (i : ℕ) (l : List Shard)
      → i < 3
      → (rs.decode l (set (set (1 ∷ 1 ∷ 1 ∷ []) i 0) i 0)).0 ≡ false
  decode_one zero l h = laws.refuses_first l
  decode_one (suc zero) l h = laws.refuses_second l
  decode_one (suc (suc zero)) l h = laws.refuses_parity l
  decode_one (suc (suc (suc i))) l h = absurd (omega arith)

  abbrev place : ℕ
  place = n % seq_map_size

  same_shard :
      (ts0 ts i : ℕ) (m : Message) (slots : Slots) (buf : List Shard) (s : Shard)
      → i < length buf
      → slots place ≡ slot n len buf (set (1 ∷ 1 ∷ 1 ∷ []) i 0) 1 ts0
      → Carries m n len i s
      → (rs.decode (set buf i s) (set (set (1 ∷ 1 ∷ 1 ∷ []) i 0) i 0)).0 ≡ false
      → fec_recv_done rs ts m slots
        ≡ waiting (
            put slots place (
              slot n len
                (rs.decode (set buf i s) (set (set (1 ∷ 1 ∷ 1 ∷ []) i 0) i 0)).1
                (set (set (1 ∷ 1 ∷ 1 ∷ []) i 0) i 0)
                2
                ts))
  unfolding fec_recv_done
  same_shard ts0 ts i m slots buf s lt e c d = rw (c.seq, c.idx, c.bytes, e) (ground arith)

  -- How a packet is lost: after the two calls no shard of it completes it.
  pub record Lost (ts1 ts2 : ℕ) (m1 m2 : Message) (slots : Slots) : Type 0 where
    pub slots1 : Slots
    pub slots2 : Slots
    pub first : fec_recv_done rs ts1 m1 slots ≡ waiting slots1
    pub second : fec_recv_done rs ts2 m2 slots1 ≡ waiting slots2
    pub dropped :
        (ts : ℕ) (m : Message)
        → m.header.seq ≡ n
        → fec_recv_done rs ts m slots2 ≡ waiting (put slots2 place (slots2 place))

  -- A shard that arrives twice is counted twice: if the network repeats the first shard of a packet
  -- before another one arrives, decoding fails, and the packet is never completed although all of
  -- its shards may still come.
  pub repeated_shard-Lost :
      (ts1 ts2 i : ℕ) (m1 m2 : Message) (slots : Slots) (s : Shard)
      → i < 3
      → IsFree (slots place) n
      → Carries m1 n len i s
      → Carries m2 n len i s
      → Lost ts1 ts2 m1 m2 slots
  repeated_shard-Lost ts1 ts2 i m1 m2 slots s lt free c1 c2 =
      let buf : List Shard = set (slots place).buf i s in
      let one : FecSlot = slot n len buf (set (1 ∷ 1 ∷ 1 ∷ []) i 0) 1 ts1 in
      let slots1 : Slots = put slots place one in
      let marks : List ℕ = set (set (1 ∷ 1 ∷ 1 ∷ []) i 0) i 0 in
      let two : FecSlot = slot n len (rs.decode (set buf i s) marks).1 marks 2 ts2 in
      record {
        slots1 = slots1;
        slots2 = put slots1 place two;
        first = first_shard rs n len ts1 i m1 slots s lt free c1;
        second =
            same_shard ts1 ts2 i m2 slots1 buf s
              (omega (arith, length-set (slots place).buf i s, free.rows))
              (put_same slots place one) c2 (decode_one i (set buf i s) lt);
        dropped = λ ts m e.
            closed rs n len ts m (put slots1 place two) e
              (ap (λ (f : FecSlot). f.seq) (put_same slots1 place two))
              (rw (put_same slots1 place two) (omega arith));
      }
