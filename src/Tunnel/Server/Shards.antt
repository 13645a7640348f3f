-- ===== src/Tunnel/Server/Shards.antt =====
-- What the receiver thread of script/tun-vpn/ustun.c writes when a packet comes in shards.
use config_env.Prelude.{
  [], ℕ, zero, suc, ◌*◌, ◌%◌, ◌≤◌, ◌<◌, List, ◌∷◌, ◌++◌, ◌≡◌, refl, ap, ◌∙◌, sym, ◌≢◌, Bool, none,
  some, take, length, arith, append_assoc, length-append,
}
use config_env.Tunnel.Wire.{seq_map_size, fec_rs_t, Message}
use config_env.Tunnel.Codec.{Shard, Codec, IsCodec, IsShard}
use config_env.Tunnel.Fec.{FecSlot}
use config_env.Tunnel.Fec.Frames.{Carries, IsFree, shard_of, any_two_shards}
use config_env.Tunnel.Server.{
  Server, next, learn, on_collected, write_rows, receive, flatten_rows, rows_size,
}
use config_env.Tunnel.Server.Delivery.{IsData, learn-same, receive-shard}

pub take-append_le : (n : ℕ) (xs ys : List ℕ) → n ≤ length xs → take n (xs ++ ys) ≡ take n xs
take-append_le zero xs ys h = refl
take-append_le (suc n) [] ys h = absurd (omega arith)
take-append_le (suc n) (x ∷ xs) ys h = ap (λ t. x ∷ t) (take-append_le n xs ys (omega arith))

-- Rows that start with `a` and `b`.
pub flatten-take :
    (rows : List Shard) (a b : Shard)
    → take 2 rows ≡ a ∷ b ∷ []
    → (rest : List ℕ) × (flatten_rows rows ≡ (a ++ b) ++ rest)
flatten-take [] a b h = cc
flatten-take (x ∷ []) a b h = cc
flatten-take (x ∷ y ∷ zs) a b h =
    let ex : x ≡ a = ground arith in
    let ey : y ≡ b = ground arith in
    (flatten_rows zs, rw (ex, ey) (sym (append_assoc a b (flatten_rows zs))))

write_two :
    (fec : FecSlot) (s : Server) (a b : Shard) (len : ℕ)
    → take 2 fec.buf ≡ a ∷ b ∷ []
    → fec.plen ≡ len
    → len ≤ length (a ++ b)
    → len ≤ rows_size
    → write_rows fec s ≡ next (some (take len (a ++ b))) s
unfolding write_rows
write_two fec s a b len rows e fits small =
    let (rest, flat) = flatten-take fec.buf a b rows in
    ground (arith, flat, take-append_le len (a ++ b) rest)

-- The server's part in a packet of two data shards that comes in two messages.
pub record Joined (rs : Codec) (a1 b1 a2 b2 : Bool) (ts1 ts2 addr1 addr2 : ℕ) (m1 m2 : Message)
    (bytes : List ℕ) (s : Server) : Type 0 where
  pub state1 : Server
  pub state2 : Server
  pub first : receive rs a1 b1 ts1 addr1 m1 s ≡ next none state1
  pub second : receive rs a2 b2 ts2 addr2 m2 state1 ≡ next (some bytes) state2

-- Two messages with different shards of one packet, whichever two of the three and in whichever order,
-- make the server write the packet: nothing at the first message, and at the second one as many bytes
-- of the data as the header says, if that is no more than the two data shards hold. (When the first of
-- the two comes, the packet's place in the table has its three rows and must not hold the packet's number
-- already, as it does after an earlier message with one of its shards. Neither message starts a client,
-- and the codec restores any two of three shards.)
pub shards_written :
    (rs : Codec) (laws : IsCodec rs) (a b : Shard)
    → IsShard a
    → IsShard b
    → (a1 b1 a2 b2 : Bool) (n len ts1 ts2 addr1 addr2 i j : ℕ) (m1 m2 : Message) (s : Server)
    → IsData m1
    → IsData m2
    → m1.header.fec_rs ≢ 0
    → m2.header.fec_rs ≢ 0
    → i < 3
    → j < 3
    → i ≢ j
    → len ≤ 2 * fec_rs_t
    → IsFree (s.slots (n % seq_map_size)) n
    → Carries m1 n len i (shard_of a b (laws.parity a b) i)
    → Carries m2 n len j (shard_of a b (laws.parity a b) j)
    → Joined rs a1 b1 a2 b2 ts1 ts2 addr1 addr2 m1 m2 (take len (a ++ b)) s
unfolding on_collected learn
shards_written rs laws a b va vb a1 b1 a2 b2 n len ts1 ts2 addr1 addr2 i j m1 m2 s d1 d2 p1 p2 li lj
      ne fits free c1 c2 =
    let d = any_two_shards rs laws a b va vb n len ts1 ts2 i j m1 m2 s.slots li lj ne free c1 c2 in
    let l1 = learn a1 b1 ts1 addr1 m1 s in
    let keep1 = (learn-same a1 b1 ts1 addr1 m1 s d1.no_start).1 in
    let t1 : Server = record l1 { slots = d.slots1 } in
    let l2 = learn a2 b2 ts2 addr2 m2 t1 in
    let keep2 = (learn-same a2 b2 ts2 addr2 m2 t1 d2.no_start).1 in
    let t2 : Server = record l2 { slots = d.slots2 } in
    record {
      state1 = t1;
      state2 = t2;
      first = receive-shard rs a1 b1 ts1 addr1 m1 s d1 p1 ∙ rw (keep1, d.first, on_collected);
      second =
          receive-shard rs a2 b2 ts2 addr2 m2 t1 d2 p2
          ∙ rw (keep2, d.second, on_collected)
              (write_two d.fec t2 a b len d.rows d.plen
                (omega (arith, length-append a b, va.size, vb.size)) (omega arith));
    }
