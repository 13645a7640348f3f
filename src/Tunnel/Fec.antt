-- ===== src/Tunnel/Fec.antt =====
-- script/tun-vpn/ustun.c: `fec_recv_done`, the collection of the shards of a packet.
pub mod Frames
pub mod Defects
use config_env.Prelude.{
  [], ℕ, ◌+◌, ◌%◌, List, ◌∷◌, ◌==◌, if◌then◌else◌, ltb, leb, take, set, length,
}
use config_env.Tunnel.Wire.{seq_map_size, fec_rs_k, fec_rs_t, Header, Message}
use config_env.Tunnel.Codec.{Shard, Codec}

-- `fec_dedup_state_t`, less `pfec_buf`, which points to the rows of `buf`.
pub record FecSlot : Type 0 where
  pub seq : ℕ
  pub plen : ℕ
  pub buf : List Shard
  pub marks : List ℕ
  pub cnt : ℕ
  pub last_update : ℕ

-- The array `fec_dedup_state`; its indices are kept in range by `%`.
abbrev pub Slots : Type 0
Slots = ℕ → FecSlot

abbrev pub put : Slots → ℕ → FecSlot → Slots
put slots k v i = if i == k then v else slots i

-- `out_of_bounds`: the write of a shard and of its mark misses the arrays.
pub data Collected : Type 0 where
  out_of_bounds : Collected
  waiting : Slots → Collected
  complete : FecSlot → Slots → Collected

-- A new packet takes the slot over.
unfoldable pub open_slot : Header → FecSlot → FecSlot
open_slot h fec =
    if fec.seq == h.seq
    then fec
    else record fec { seq = h.seq; plen = h.plen; cnt = 0; marks = 1 ∷ 1 ∷ 1 ∷ [] }

-- `memcpy(fec->buf[pkg->fec_idx], …)`, the mark, and the count (a `uint8_t`, below `FEC_RS_K` here)
unfoldable pub store_shard : ℕ → Message → FecSlot → FecSlot
store_shard ts m fec = record fec {
  buf = set fec.buf m.header.fec_idx (take fec_rs_t m.buf);
  marks = set fec.marks m.header.fec_idx 0;
  cnt = fec.cnt + 1;
  last_update = ts;
}

-- Enough shards: decode. (A failure leaves the slot as the codec left the shards.)
unfoldable pub finish : Codec → ℕ → FecSlot → Slots → Collected
finish rs idx fec slots =
    let (ok, shards) = rs.decode fec.buf fec.marks in
    let fec' = record fec { buf = shards } in
    if leb fec_rs_k fec.cnt
    then (if ok then complete fec' (put slots idx fec') else waiting (put slots idx fec'))
    else waiting (put slots idx fec)

-- Under `dedup_mutex`. `header.seq` and `header.plen` are in host order.
unfoldable pub fec_recv_done : Codec → ℕ → Message → Slots → Collected
unfolding open_slot store_shard finish
fec_recv_done rs ts m slots =
    let idx = m.header.seq % seq_map_size in
    let fec = open_slot m.header (slots idx) in
    if ltb fec.cnt fec_rs_k
    then (if ltb m.header.fec_idx (length fec.buf)
        then finish rs idx (store_shard ts m fec) slots
        else out_of_bounds)
    else waiting (put slots idx fec)
