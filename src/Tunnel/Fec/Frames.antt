-- ===== src/Tunnel/Fec/Frames.antt =====
-- The packets that `fec_recv_done` (script/tun-vpn/ustun.c) puts together.
use config_env.Prelude.{
  [], ℕ, zero, suc, ◌%◌, ◌<◌, ◌≤◌, List, ◌∷◌, ◌≡◌, refl, ap, ◌∙◌, ◌≢◌, true, take, set, length,
  length-set, arith,
}
use config_env.Tunnel.Wire.{seq_map_size, fec_rs_t, Message}
use config_env.Tunnel.Codec.{Shard, Codec, IsCodec, IsShard}
use config_env.Tunnel.Fec.{FecSlot, Slots, put, waiting, complete, fec_recv_done}

-- The three shards of a packet, by number.
abbrev pub shard_of : Shard → Shard → Shard → ℕ → Shard
shard_of a b p zero = a
shard_of a b p (suc zero) = b
shard_of a b p (suc (suc n)) = p

-- Message `m` carries shard `i` of packet `n` with length `len`.
pub record Carries (m : Message) (n len i : ℕ) (shard : Shard) : Type 0 where
  pub seq : m.header.seq ≡ n
  pub plen : m.header.plen ≡ len
  pub idx : m.header.fec_idx ≡ i
  pub bytes : take fec_rs_t m.buf ≡ shard

-- A slot that holds another packet than `n`, and its three rows.
pub record IsFree (fec : FecSlot) (n : ℕ) : Type 0 where
  pub other : fec.seq ≢ n
  pub rows : length fec.buf ≡ 3

rows-cases :
    (l : List Shard) → length l ≡ 3 → (x : Shard) × (y : Shard) × (z : Shard) × (l ≡ x ∷ y ∷ z ∷ [])
rows-cases [] h = absurd (omega arith)
rows-cases (x ∷ []) h = absurd (omega arith)
rows-cases (x ∷ y ∷ []) h = absurd (omega arith)
rows-cases (x ∷ y ∷ z ∷ []) h = (x, y, z, refl)
rows-cases (x ∷ y ∷ z ∷ w ∷ l) h = absurd (omega arith)

pub put_same : (slots : Slots) (k : ℕ) (v : FecSlot) → put slots k v k ≡ v
put_same slots k v = ground arith

pub put_other : (slots : Slots) (k j : ℕ) (v : FecSlot) → j ≢ k → put slots k v j ≡ slots j
put_other slots k j v h = ground arith

-- The slot of a packet with `cnt` shards.
abbrev pub slot : ℕ → ℕ → List Shard → List ℕ → ℕ → ℕ → FecSlot
slot n len buf marks cnt ts = record {
  seq = n;
  plen = len;
  buf = buf;
  marks = marks;
  cnt = cnt;
  last_update = ts;
}

module _ (rs : Codec) (n len : ℕ) where
  abbrev pub place : ℕ
  place = n % seq_map_size

  pub first_shard :
      (ts i : ℕ) (m : Message) (slots : Slots) (s : Shard)
      → i < 3
      → IsFree (slots place) n
      → Carries m n len i s
      → fec_recv_done rs ts m slots
        ≡ waiting (
            put slots place
              (slot n len (set (slots place).buf i s) (set (1 ∷ 1 ∷ 1 ∷ []) i 0) 1 ts))
  unfolding fec_recv_done
  first_shard ts i m slots s lt free c = rw (c.seq, c.idx) (ground arith)

  second_shard :
      (ts0 ts i : ℕ) (m : Message) (slots : Slots) (buf shards : List Shard) (marks : List ℕ)
      (s : Shard)
      → i < length buf
      → slots place ≡ slot n len buf marks 1 ts0
      → Carries m n len i s
      → rs.decode (set buf i s) (set marks i 0) ≡ (true, shards)
      → fec_recv_done rs ts m slots
        ≡ complete
            (slot n len shards (set marks i 0) 2 ts)
            (put slots place (slot n len shards (set marks i 0) 2 ts))
  unfolding fec_recv_done
  second_shard ts0 ts i m slots buf shards marks s lt e c d =
      rw (c.seq, c.idx, c.bytes, e) (ground arith)

  -- A packet that is complete takes no more shards.
  pub closed :
      (ts : ℕ) (m : Message) (slots : Slots)
      → m.header.seq ≡ n
      → (slots place).seq ≡ n
      → 2 ≤ (slots place).cnt
      → fec_recv_done rs ts m slots ≡ waiting (put slots place (slots place))
  unfolding fec_recv_done
  closed ts m slots e f g = rw e (ground arith)

module _ (rs : Codec) (laws : IsCodec rs) (a b : Shard) (va : IsShard a) (vb : IsShard b) where
  abbrev pub parity_shard : Shard
  parity_shard = laws.parity a b

  -- Any two of the three shards restore the data.
  decode_rows :
      (x y z : Shard) (i j : ℕ)
      → i < 3
      → j < 3
      → i ≢ j
      → (q : Shard) × (rs.decode
            (set
              (set (x ∷ y ∷ z ∷ []) i (shard_of a b parity_shard i))
              j
              (shard_of a b parity_shard j))
            (set (set (1 ∷ 1 ∷ 1 ∷ []) i 0) j 0)
          ≡ (true, a ∷ b ∷ q ∷ []))
  decode_rows x y z zero zero li lj ne = absurd (omega arith)
  decode_rows x y z zero (suc zero) li lj ne = (z, laws.keeps a b z va vb)
  decode_rows x y z zero (suc (suc zero)) li lj ne = (_, laws.restores_second a b y va vb)
  decode_rows x y z zero (suc (suc (suc j))) li lj ne = absurd (omega arith)
  decode_rows x y z (suc zero) zero li lj ne = (z, laws.keeps a b z va vb)
  decode_rows x y z (suc zero) (suc zero) li lj ne = absurd (omega arith)
  decode_rows x y z (suc zero) (suc (suc zero)) li lj ne = (_, laws.restores_first a b x va vb)
  decode_rows x y z (suc zero) (suc (suc (suc j))) li lj ne = absurd (omega arith)
  decode_rows x y z (suc (suc zero)) zero li lj ne = (_, laws.restores_second a b y va vb)
  decode_rows x y z (suc (suc zero)) (suc zero) li lj ne = (_, laws.restores_first a b x va vb)
  decode_rows x y z (suc (suc zero)) (suc (suc zero)) li lj ne = absurd (omega arith)
  decode_rows x y z (suc (suc zero)) (suc (suc (suc j))) li lj ne = absurd (omega arith)
  decode_rows x y z (suc (suc (suc i))) j li lj ne = absurd (omega arith)

  decode_two :
      (l : List Shard) (i j : ℕ)
      → length l ≡ 3
      → i < 3
      → j < 3
      → i ≢ j
      → (q : Shard) × (rs.decode
            (set (set l i (shard_of a b parity_shard i)) j (shard_of a b parity_shard j))
            (set (set (1 ∷ 1 ∷ 1 ∷ []) i 0) j 0)
          ≡ (true, a ∷ b ∷ q ∷ []))
  decode_two l i j h li lj ne =
      let (x, y, z, e) = rows-cases l h in rw e (decode_rows x y z i j li lj ne)

  -- What the two calls give: the first one waits, the second one hands over the data with the length
  -- of the packet; the slot is closed, and the other slots are as before.
  pub record Delivered (n len ts1 ts2 : ℕ) (m1 m2 : Message) (slots : Slots) : Type 0 where
    pub slots1 : Slots
    pub slots2 : Slots
    pub fec : FecSlot
    pub first : fec_recv_done rs ts1 m1 slots ≡ waiting slots1
    pub second : fec_recv_done rs ts2 m2 slots1 ≡ complete fec slots2
    pub rows : take 2 fec.buf ≡ a ∷ b ∷ []
    pub plen : fec.plen ≡ len
    pub once :
        (ts : ℕ) (m : Message)
        → m.header.seq ≡ n
        → fec_recv_done rs ts m slots2
          ≡ waiting (put slots2 (n % seq_map_size) (slots2 (n % seq_map_size)))
    pub others : (k : ℕ) → k ≢ n % seq_map_size → slots2 k ≡ slots k

  -- Whichever two different shards of a packet arrive first, in whichever order, the second one
  -- completes the packet: both data shards are there, also the one that was lost, with the length that
  -- the packet's header gave. Later shards of the packet complete nothing, and no other slot changes.
  pub any_two_shards :
      (n len ts1 ts2 i j : ℕ) (m1 m2 : Message) (slots : Slots)
      → i < 3
      → j < 3
      → i ≢ j
      → IsFree (slots (n % seq_map_size)) n
      → Carries m1 n len i (shard_of a b parity_shard i)
      → Carries m2 n len j (shard_of a b parity_shard j)
      → Delivered n len ts1 ts2 m1 m2 slots
  any_two_shards n len ts1 ts2 i j m1 m2 slots li lj ne free c1 c2 =
      let k = n % seq_map_size in
      let s1 = shard_of a b parity_shard i in
      let (q, d) = decode_two (slots k).buf i j free.rows li lj ne in
      let slots1 : Slots =
        put slots k (slot n len (set (slots k).buf i s1) (set (1 ∷ 1 ∷ 1 ∷ []) i 0) 1 ts1) in
      let done : FecSlot = slot n len (a ∷ b ∷ q ∷ []) (set (set (1 ∷ 1 ∷ 1 ∷ []) i 0) j 0) 2 ts2 in
      record {
        slots1 = slots1;
        slots2 = put slots1 k done;
        fec = done;
        first = first_shard rs n len ts1 i m1 slots s1 li free c1;
        second =
            second_shard rs n len ts1 ts2 j m2 slots1 _ _ _ _
              (omega (arith, length-set (slots k).buf i s1, free.rows)) (put_same slots k _) c2 d;
        rows = refl;
        plen = refl;
        once = λ ts m e.
            closed rs n len ts m (put slots1 k done) e
              (ap (λ (f : FecSlot). f.seq) (put_same slots1 k done))
              (rw (put_same slots1 k done) (omega arith));
        others = λ t h. put_other slots1 k t done h ∙ put_other slots k t _ h;
      }
