-- ===== src/Tunnel/Transit/Upstream.antt =====
-- A packet on its way from the client's tun device (script/tun-vpn/uctun.c) to the server's (ustun.c).
use config_env.Prelude.{
  [], ℕ, zero, suc, ◌+◌, ◌-◌, ◌%◌, ◌^◌, ◌≤◌, List, ◌∷◌, ◌++◌, ◌≡◌, refl, ◌∙◌, ap, sym, subst, ◌≢◌,
  Bool, false, if◌then◌else◌, none, some, take, length, length-take, arith, min,
}
use config_env.Tunnel.Wire.{
  buffer_size, pkt_offset, seq_map_size, conn_timeout, magic_num, gateway_start, Header,
}
use config_env.Tunnel.Codec.{Shard, Codec}
use config_env.Tunnel.Server.{opened, Socks, Datagram, Server, receive, next}
use config_env.Tunnel.Server.Delivery.{IsData, copies_written-Once}
use config_env.Tunnel.Client.{Client, gateway_id, sent, packet_header, send_packet}
use config_env.Tunnel.Client.Sending.{send_plain}
use config_env.Tunnel.Transit.{arrive}

suc-min : (n m : ℕ) → suc (min n m) ≡ min (suc n) (suc m)
suc-min n m = omega arith

pub take-take : (n m : ℕ) (xs : List ℕ) → take n (take m xs) ≡ take (min n m) xs
take-take zero m xs = ground arith
take-take (suc n) zero xs = ground arith
take-take (suc n) (suc m) [] = ap (λ k. take k []) (suc-min n m)
take-take (suc n) (suc m) (x ∷ xs) =
    ap (λ t. x ∷ t) (take-take n m xs) ∙ ap (λ k. take k (x ∷ xs)) (suc-min n m)

pub take-append_take : (n : ℕ) (xs ys : List ℕ) → n ≤ length xs → take n (xs ++ ys) ≡ take n xs
take-append_take zero xs ys h = refl
take-append_take (suc n) [] ys h = absurd (omega arith)
take-append_take (suc n) (x ∷ xs) ys h = ap (λ t. x ∷ t) (take-append_take n xs ys (omega arith))

-- The bytes that the server finds behind the header of a datagram with the first `len` bytes of a
-- payload.
pub arrived-bytes :
    (d : Datagram) (stale payload : List ℕ) (len : ℕ)
    → len ≤ buffer_size
    → len ≤ length payload
    → d.bytes ≡ take (len % 2 ^ 16) payload
    → take ((arrive d stale).len - pkt_offset) (arrive d stale).buf
      ≡ take (min len (buffer_size - pkt_offset)) payload
unfolding arrive
arrived-bytes d stale payload len small fits e =
    let whole : len % 2 ^ 16 ≡ len = omega arith in
    let bytes : d.bytes ≡ take len payload = e ∙ ap (λ k. take k payload) whole in
    let many : length d.bytes ≡ len = ap length bytes ∙ length-take len payload ∙ omega arith in
    let room : length (take (buffer_size - pkt_offset) d.bytes)
        ≡ min (buffer_size - pkt_offset) len =
      length-take (buffer_size - pkt_offset) d.bytes
      ∙ ap (λ k. min (buffer_size - pkt_offset) k) many in
    let k : min buffer_size (pkt_offset + length d.bytes) - pkt_offset
        ≡ min (buffer_size - pkt_offset) len =
      omega arith in
    ap (λ n. take n (take (buffer_size - pkt_offset) d.bytes ++ stale)) k
    ∙ take-append_take (min (buffer_size - pkt_offset) len)
        (take (buffer_size - pkt_offset) d.bytes) stale (omega arith)
    ∙ take-take (min (buffer_size - pkt_offset) len) (buffer_size - pkt_offset) d.bytes
    ∙ ap (λ n. take n d.bytes) (the_min len)
    ∙ ap (take (min len (buffer_size - pkt_offset))) bytes
    ∙ take-take (min len (buffer_size - pkt_offset)) len payload
    ∙ ap (λ n. take n payload) (omega arith)
  where
    the_min :
        (len : ℕ)
        → min (min (buffer_size - pkt_offset) len) (buffer_size - pkt_offset)
          ≡ min len (buffer_size - pkt_offset)
    the_min len = omega arith

-- A packet on its way: the two datagrams that the client sends for it, and what the server's receiver
-- does with the first and with the second.
record Crossing (rs : Codec) (socks : Socks) (server : ℕ) (old : Header) (payload : List ℕ)
    (len : ℕ) (packets : List (Header × Shard)) (c : Client) (a1 b1 a2 b2 : Bool)
    (ts1 ts2 addr1 addr2 : ℕ) (stale1 stale2 : List ℕ) (s : Server) : Type 0 where
  pub datagram1 : Datagram
  pub datagram2 : Datagram
  pub client : Client
  pub state1 : Server
  pub state2 : Server
  pub sends :
      send_packet rs false socks server old payload len packets c
      ≡ sent (datagram1 ∷ datagram2 ∷ []) client
  pub first :
      receive rs a1 b1 ts1 addr1 (arrive datagram1 stale1) s
      ≡ next (some (take (min len (buffer_size - pkt_offset)) payload)) state1
  pub second : receive rs a2 b2 ts2 addr2 (arrive datagram2 stale2) state1 ≡ next none state2

pub arrive-header : (d : Datagram) (stale : List ℕ) → (arrive d stale).header ≡ d.header
unfolding arrive
arrive-header d stale = refl

pub arrive-len : (d : Datagram) (stale : List ℕ) → pkt_offset ≤ (arrive d stale).len
unfolding arrive
arrive-len d stale = omega arith

pub arrive-IsData :
    (d : Datagram) (stale : List ℕ)
    → d.header.magic ≡ magic_num
    → d.header.gw ≡ 1
    → IsData (arrive d stale)
arrive-IsData d stale m g = record {
  len = arrive-len d stale;
  magic = ap (λ h. h.magic) (arrive-header d stale) ∙ m;
  no_start = omega (arith, ap (λ h. h.gw) (arrive-header d stale) ∙ g);
}

-- A packet that the client takes from its tun device, past its first one, without error correction and
-- with both sockets open, leaves as two datagrams; the server writes it to its own tun device once, when the first of them
-- arrives, cut to the 1492 bytes that its receive buffer holds behind the header; the second one writes
-- nothing. (The number is new to its place in the server's table, and the table has not gone stale.)
packet_crosses :
    (rs : Codec) (socks : Socks) (server : ℕ) (old : Header) (payload : List ℕ) (len : ℕ)
    (packets : List (Header × Shard)) (c : Client) (a1 b1 a2 b2 : Bool) (ts1 ts2 addr1 addr2 : ℕ)
    (stale1 stale2 : List ℕ) (s : Server)
    → socks 0 ≡ opened
    → socks 1 ≡ opened
    → len ≤ buffer_size
    → len ≤ length payload
    → c.first ≡ false
    → old.magic ≡ magic_num
    → s.dedup.seq_map (c.sequence % seq_map_size) ≢ c.sequence
    → ts1 - s.dedup.last_update ≤ conn_timeout
    → ts2 - ts1 ≤ conn_timeout
    → Crossing rs socks server old payload len packets c a1 b1 a2 b2 ts1 ts2 addr1 addr2 stale1
        stale2 s
packet_crosses rs socks server old payload len packets c a1 b1 a2 b2 ts1 ts2 addr1 addr2 stale1
      stale2 s s0 s1 small fits started magic fresh recent later =
    let h = packet_header false c.first old c.sequence len in
    let bytes = take (len % 2 ^ 16) payload in
    let d1 : Datagram = record {
      sock = 0;
      addr = server;
      header = record h { apn = 1 };
      bytes = bytes;
    } in
    let d2 : Datagram = record {
      sock = 1;
      addr = server;
      header = record h { apn = 2 };
      bytes = bytes;
    } in
    let gw : h.gw ≡ 1 = ap (λ f. if f then gateway_id + gateway_start else gateway_id) started in
    let once =
      copies_written-Once rs a1 b1 a2 b2 ts1 ts2 addr1 addr2 (arrive d1 stale1) (arrive d2 stale2) s
        (arrive-IsData d1 stale1 magic gw) (arrive-IsData d2 stale2 magic gw) (plain d1 stale1 refl)
        (plain d2 stale2 refl) (number d2 stale2 refl ∙ sym (number d1 stale1 refl))
        (subst (λ k. s.dedup.seq_map (k % seq_map_size) ≢ k) (sym (number d1 stale1 refl)) fresh)
        recent later in
    record {
      datagram1 = d1;
      datagram2 = d2;
      client = record c { sequence = (c.sequence + 1) % 2 ^ 16; first = false };
      state1 = once.state1;
      state2 = once.state2;
      sends = send_plain rs false socks server old payload len packets c refl s0 s1;
      first =
          once.first
          ∙ ap (λ b. next (some b) once.state1)
              (arrived-bytes d1 stale1 payload len small fits refl);
      second = once.second;
    }
  where
    plain :
        (d : Datagram) (stale : List ℕ) → d.header.fec_rs ≡ 0 → (arrive d stale).header.fec_rs ≡ 0
    plain d stale e = ap (λ h. h.fec_rs) (arrive-header d stale) ∙ e

    number :
        (d : Datagram) (stale : List ℕ) {n : ℕ} → d.header.seq ≡ n → (arrive d stale).header.seq ≡ n
    number d stale e = ap (λ h. h.seq) (arrive-header d stale) ∙ e
