-- ===== src/Tunnel/Client.antt =====
-- script/tun-vpn/uctun.c: the client gateway, its receiver threads and `send_packet`.
pub mod Same
pub mod Sending
pub mod Delivery
pub mod Batch
pub mod Thread
pub mod Main
use config_env.Prelude.{
  [], ℕ, ◌+◌, ◌-◌, ◌%◌, ◌^◌, List, ◌∷◌, ◌++◌, Bool, true, false, not, ◌&&◌, ◌||◌, ◌==◌,
  if◌then◌else◌, ltb, leb, Option, none, some, take, set, length,
}
use config_env.Tunnel.Wire.{
  magic_num, pkt_offset, seq_map_size, conn_timeout, gateway_start, fec_encode_min_len, fec_rs_k,
  fec_rs_n, fec_rs_t, udp_worker, Header, Message,
}
use config_env.Tunnel.Codec.{Shard, Codec}
use config_env.Tunnel.Dedup.{Dedup, cleared, update}
use config_env.Tunnel.Fec.{Slots, put, Collected, out_of_bounds, waiting, complete}
use config_env.Tunnel.Server.{
  is_closed, is_opened, Socks, Datagram, rows_of, rows_size, flatten_rows,
}

-- `GATEWAY_ID`
abbrev pub gateway_id : ℕ
gateway_id = 0x01

-- The receivers' tables, and the statics of `send_packet`.
pub record Client : Type 0 where
  pub dedup : Dedup
  pub slots : Slots
  pub sequence : ℕ
  pub first : Bool

unfoldable pub init_dedup_state : ℕ → Client → Client
init_dedup_state ts c = record c {
  dedup = cleared ts;
  slots = λ i. record (c.slots i) { seq = 0xAA55 };
}

-- The client's own copy of the server's function.
unfoldable pub is_duplicate : ℕ → ℕ → Dedup → Bool × Dedup
is_duplicate seq ts d =
    let idx = seq % seq_map_size in
    let d' = if ltb conn_timeout (ts - d.last_update) then cleared ts else d in
    if not (seq == d'.seq_map idx)
    then (false, record { seq_map = update d'.seq_map idx seq; last_update = ts })
    else (true, d')

-- The client's own copy, too.
unfoldable pub fec_recv_done : Codec → ℕ → Message → Slots → Collected
fec_recv_done rs ts m slots =
    let h = m.header in
    let idx = h.seq % seq_map_size in
    let old = slots idx in
    let fec =
      if not (old.seq == h.seq)
      then record old { seq = h.seq; plen = h.plen; cnt = 0; marks = 1 ∷ 1 ∷ 1 ∷ [] }
      else old in
    let fec' = record fec {
      buf = set fec.buf h.fec_idx (take fec_rs_t m.buf);
      marks = set fec.marks h.fec_idx 0;
      cnt = fec.cnt + 1;
      last_update = ts;
    } in
    let (ok, shards) = rs.decode fec'.buf fec'.marks in
    let done = record fec' { buf = shards } in
    if ltb fec.cnt fec_rs_k
    then (if leb (length fec.buf) h.fec_idx
        then out_of_bounds
        else if ltb fec'.cnt fec_rs_k
        then waiting (put slots idx fec')
        else if ok
        then complete done (put slots idx done)
        else waiting (put slots idx done))
    else waiting (put slots idx fec)

-- As on the server: what is written to the tun device, and the state.
pub data Handled : Type 0 where
  fault : Handled
  next : Option (List ℕ) → Client → Handled

unfoldable pub on_collected : Collected → Client → Handled
on_collected out_of_bounds c = fault
on_collected (waiting slots) c = next none (record c { slots = slots })
on_collected (complete fec slots) c =
    if leb fec.plen rows_size
    then next (some (take fec.plen (flatten_rows fec.buf))) (record c { slots = slots })
    else fault

unfoldable pub on_plain : ℕ → Message → Client → Handled
on_plain ts m c =
    let (dup, d) = is_duplicate m.header.seq ts c.dedup in
    next (if dup then none else some (take (m.len - pkt_offset) m.buf)) (record c { dedup = d })

-- The body of the loop over the messages of a batch in `receiver_thread`.
unfoldable pub receive : Codec → ℕ → Message → Client → Handled
receive rs ts m c =
    if ltb m.len pkt_offset || not (m.header.magic == magic_num) || not (m.header.gw == gateway_id)
    then next none c
    else if m.header.fec_rs == 0
    then on_plain ts m c
    else on_collected (fec_recv_done rs ts m c.slots) c

-- `fault`: a packet is copied outside of the array of three.
pub data Sent : Type 0 where
  fault : Sent
  sent : List Datagram → Client → Sent

-- The header that is set; `old` is what the buffer held (its magic number is set once).
abbrev pub packet_header : (fec first : Bool) (old : Header) (seq len : ℕ) → Header
packet_header fec first old seq len = record old {
  fec_rs = if fec then 1 else 0;
  fec_num = if fec then fec_rs_k + fec_rs_n else old.fec_num;
  gw = if first then gateway_id + gateway_start else gateway_id;
  seq = seq;
  plen = len % 2 ^ 16;
}

-- The index at which shard `i` is copied: `msg` is `&packet[i]`, and the copy goes to `msg[i]`.
abbrev pub copy_index : ℕ → ℕ
copy_index i = i + i

-- The loop over the shards fills the packets that `sendmmsg` sends (`none` past their end).
unfoldable pub fill :
    Header → ℕ → List Shard → List (Header × Shard) → Option (List (Header × Shard))
fill h i [] packets = some packets
fill h i (r ∷ rows) packets =
    let rest = fill h (i + 1) rows (set packets (copy_index i) (record h { fec_idx = i }, r)) in
    if ltb (copy_index i) (length packets) then rest else none

unfoldable pub datagrams : ℕ → ℕ → List (Header × Shard) → List Datagram
datagrams worker server [] = []
datagrams worker server ((h, r) ∷ ps) =
    record { sock = worker; addr = server; header = h; bytes = r } ∷ datagrams worker server ps

unfoldable pub pick_worker : ℕ → Socks → ℕ
pick_worker seq sock_apn =
    let worker = seq % udp_worker in
    if is_closed (sock_apn worker)
    then (if is_opened (sock_apn 0) then 0 else if is_opened (sock_apn 1) then 1 else worker)
    else worker

-- `packets` is what the worker's batch buffer held.
unfoldable pub send_shards :
    Codec → Socks → (server : ℕ) → Header → List ℕ → List (Header × Shard) → Client → Sent
send_shards rs sock_apn server h payload packets c =
    let (ok, rows) = rs.encode (rows_of payload) in
    let worker = pick_worker c.sequence sock_apn in
    if ok
    then elim (fill (record h { apn = worker + 1 }) 0 rows packets) [
      | none ↦ fault
      | some ps ↦ sent (if is_opened (sock_apn worker) then datagrams worker server ps else []) c
    ]
    else sent [] c

unfoldable pub plain_datagram : Socks → (server : ℕ) → Header → List ℕ → ℕ → List Datagram
plain_datagram sock_apn server h bytes i =
    if is_opened (sock_apn i)
    then record { sock = i; addr = server; header = record h { apn = i + 1 }; bytes = bytes } ∷ []
    else []

unfoldable pub send_packet :
    Codec
    → (gl_fec : Bool) → Socks
    → (server : ℕ) → Header
    → List ℕ
    → (len : ℕ) → List (Header × Shard)
    → Client
    → Sent
send_packet rs gl_fec sock_apn server old payload len packets c =
    let fec = gl_fec && ltb fec_encode_min_len len in
    let h = packet_header fec c.first old c.sequence len in
    let c' = record c { sequence = (c.sequence + 1) % 2 ^ 16; first = false } in
    if fec
    then send_shards rs sock_apn server h payload packets c'
    else sent
        (plain_datagram sock_apn server h (take (len % 2 ^ 16) payload) 0
          ++ plain_datagram sock_apn server h (take (len % 2 ^ 16) payload) 1)
        c'
