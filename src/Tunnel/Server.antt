-- ===== src/Tunnel/Server.antt =====
-- script/tun-vpn/ustun.c: the receiver thread's handling of a message and `send_to_gateway`.
pub mod Invariant
pub mod Delivery
pub mod Batch
pub mod Thread
pub mod Shards
pub mod Replies
pub mod Main
use config_env.Prelude.{
  [], ℕ, ◌+◌, ◌-◌, ◌*◌, ◌%◌, ◌^◌, List, ◌∷◌, ◌++◌, Bool, true, false, not, ◌&&◌, ◌||◌, ◌==◌,
  if◌then◌else◌, ltb, leb, Option, none, some, take, drop, get_or,
}
use config_env.Tunnel.Wire.{
  magic_num, pkt_offset, gateway_start, fec_encode_min_len, fec_rs_k, fec_rs_n, fec_rs_t,
  udp_worker, Header, Message,
}
use config_env.Tunnel.Codec.{Shard, Codec}
use config_env.Tunnel.Dedup.{Dedup, cleared, is_duplicate}
use config_env.Tunnel.Fec.{
  FecSlot, Slots, Collected, out_of_bounds, waiting, complete, fec_recv_done,
}
use config_env.Tunnel.Gateways.{Gateway, update_gateway_map, entry, list_head, get_gateway_addr}
use config_env.Tunnel.Connections.{Packet, ConnEntry, update_conn_table, find_gateway_for_packet}

-- The tables that the threads share, and the statics of `init_dedup_state` and `send_to_gateway`.
pub record Server : Type 0 where
  pub dedup : Dedup
  pub slots : Slots
  pub gateways : List Gateway
  pub conns : List ConnEntry
  pub last_ts : ℕ
  pub sequence : ℕ

-- `fault` is an access outside of the arrays or through the list's head; else there is what was
-- written to the tun device, if anything, and the state.
pub data Handled : Type 0 where
  fault : Handled
  next : Option (List ℕ) → Server → Handled

-- A repeated start within three seconds is ignored. (The pointers set the first time are constants.)
unfoldable pub init_dedup_state : ℕ → Server → Server
init_dedup_state ts s =
    if ltb 3 (ts - s.last_ts)
    then record s {
      last_ts = ts;
      dedup = cleared ts;
      slots = λ i. record (s.slots i) { seq = 0xAA55 };
    }
    else s

abbrev pub packet_of : List ℕ → Packet
packet_of buf i = get_or buf i 0

abbrev pub flatten_rows : List Shard → List ℕ
flatten_rows [] = []
flatten_rows (r ∷ rs) = r ++ flatten_rows rs

-- The bytes of `fec->buf`
abbrev pub rows_size : ℕ
rows_size = 2250

-- `write(tun_fd, fec->buf, fec->plen)`
unfoldable pub write_rows : FecSlot → Server → Handled
write_rows fec s =
    if leb fec.plen rows_size then next (some (take fec.plen (flatten_rows fec.buf))) s else fault

unfoldable pub on_collected : Collected → Server → Handled
unfolding write_rows
on_collected out_of_bounds s = fault
on_collected (waiting slots) s = next none (record s { slots = slots })
on_collected (complete fec slots) s = write_rows fec (record s { slots = slots })

unfoldable pub on_plain : ℕ → Message → Server → Handled
on_plain ts m s =
    let (dup, d) = is_duplicate m.header.seq ts s.dedup in
    next (if dup then none else some (take (m.len - pkt_offset) m.buf)) (record s { dedup = d })

-- `if(msg->gw & GATEWAY_START) init_dedup_state();`
unfoldable pub restart : ℕ → Message → Server → Server
unfolding init_dedup_state
restart ts m s = if leb gateway_start m.header.gw then init_dedup_state ts s else s

-- What the sender's address and packet teach the server.
unfoldable pub learn : (alloc_gw alloc_conn : Bool) (ts addr : ℕ) → Message → Server → Server
learn alloc_gw alloc_conn ts addr m s =
    let s' = restart ts m s in
    let gw = m.header.gw % 128 in
    record s' {
      gateways = update_gateway_map alloc_gw ts gw addr m.header.apn s'.gateways;
      conns = update_conn_table alloc_conn ts gw (packet_of m.buf) s'.conns;
    }

-- The body of the loop over the messages of a batch. `ts` stands for each `time(NULL)`.
unfoldable pub receive :
    Codec → (alloc_gw alloc_conn : Bool) (ts addr : ℕ) → Message → Server → Handled
receive rs alloc_gw alloc_conn ts addr m s =
    if ltb m.len pkt_offset || not (m.header.magic == magic_num)
    then next none s
    else (let s' = learn alloc_gw alloc_conn ts addr m s in
        if m.header.fec_rs == 0
        then on_plain ts m s'
        else on_collected (fec_recv_done rs ts m s'.slots) s')

-- A socket's descriptor: -1, 0 before the thread has set it, or positive.
pub data Sock : Type 0 where
  closed unset opened : Sock

pub record Datagram : Type 0 where
  pub sock : ℕ
  pub addr : ℕ
  pub header : Header
  pub bytes : List ℕ

pub data Sent : Type 0 where
  fault : Sent
  sent : List Datagram → Server → Sent

abbrev pub is_closed : Sock → Bool
is_closed closed = true
is_closed unset = false
is_closed opened = false

abbrev pub is_opened : Sock → Bool
is_opened closed = false
is_opened unset = false
is_opened opened = true

abbrev pub Socks : Type 0
Socks = ℕ → Sock

-- The worker in turn, or if its socket is closed the first one with an open socket.
unfoldable pub pick_worker : ℕ → Socks → ℕ
pick_worker seq socks =
    let worker = seq % udp_worker in
    if is_closed (socks worker)
    then (if is_opened (socks 0) then 0 else if is_opened (socks 1) then 1 else worker)
    else worker

abbrev pub rows_of : List ℕ → List Shard
rows_of p =
    take fec_rs_t p ∷ take fec_rs_t (drop fec_rs_t p) ∷ take fec_rs_t (drop (2 * fec_rs_t) p) ∷ []

unfoldable pub shard_datagrams : ℕ → ℕ → Header → ℕ → List Shard → List Datagram
shard_datagrams worker addr h i [] = []
shard_datagrams worker addr h i (r ∷ rows) =
    record { sock = worker; addr = addr; header = record h { fec_idx = i }; bytes = r }
    ∷ shard_datagrams worker addr h (i + 1) rows

-- `sendmmsg` sends nothing over a socket that is not open, and nothing to an address that is still
-- zeroed, as that of a path never seen is.
abbrev pub sendmmsg : Sock → (addr : ℕ) → List Datagram → List Datagram
sendmmsg sock addr ds = if is_opened sock && ltb 0 addr then ds else []

unfoldable pub send_shards : Codec → Socks → Gateway → Header → List ℕ → ℕ → List Datagram
unfolding shard_datagrams pick_worker
send_shards rs socks g h payload seq =
    let (ok, rows) = rs.encode (rows_of payload) in
    let worker = pick_worker seq socks in
    let addr = get_or g.addr_apn worker 0 in
    if ok then sendmmsg (socks worker) addr (shard_datagrams worker addr h 0 rows) else []

unfoldable pub plain_datagram : Socks → Gateway → Header → List ℕ → ℕ → List Datagram
plain_datagram socks g h bytes i =
    if ltb 0 (get_or g.last_seen_apn i 0) && is_opened (socks (i % udp_worker))
    then record { sock = i % udp_worker; addr = get_or g.addr_apn i 0; header = h; bytes = bytes }
      ∷ []
    else []

-- The header that is set; `old` is what the buffer held.
abbrev pub reply_header : (fec : Bool) (old : Header) (gw seq len : ℕ) → Header
reply_header fec old gw seq len = record {
  magic = magic_num;
  fec_rs = if fec then 1 else 0;
  fec_idx = old.fec_idx;
  fec_num = if fec then fec_rs_k + fec_rs_n else old.fec_num;
  gw = gw;
  apn = old.apn;
  seq = seq;
  plen = len % 2 ^ 16;
}

-- `send_to_gateway`: `payload` is the buffer, `len` the number of bytes read into it.
unfoldable pub send_to_gateway :
    Codec → (gl_fec : Bool) → Socks → (ts : ℕ) → Header → List ℕ → (len : ℕ) → Server → Sent
send_to_gateway rs gl_fec socks ts old payload len s =
    let (id, conns) = find_gateway_for_packet ts (packet_of payload) s.conns in
    let s1 = record s { conns = conns } in
    let s2 = record s { conns = conns; sequence = (s.sequence + 1) % 2 ^ 16 } in
    let fec = gl_fec && ltb fec_encode_min_len len in
    let h = reply_header fec old id s.sequence len in
    if id == 0 then sent [] s1 else elim (get_gateway_addr id s.gateways) [
      | list_head ↦ fault
      | entry g ↦
          sent
            (if fec
              then send_shards rs socks g h payload s2.sequence
              else plain_datagram socks g h (take len payload) 0
                ++ plain_datagram socks g h (take len payload) 1)
            s2
    ]
