-- ===== src/Tunnel/Client/Sending.antt =====
-- What `send_packet` (script/tun-vpn/uctun.c) sends.
use config_env.Prelude.{
  [], ℕ, ◌+◌, ◌%◌, ◌^◌, ◌<◌, List, ◌∷◌, ◌≡◌, refl, Bool, true, false, ◌&&◌, ltb, none, take, length,
  arith, lt→ltb,
}
use config_env.Tunnel.Wire.{fec_encode_min_len, Header}
use config_env.Tunnel.Codec.{Shard, Codec}
use config_env.Tunnel.Server.{opened, Socks, rows_of}
use config_env.Tunnel.Client.{
  Client, fault, sent, packet_header, fill, send_shards, plain_datagram, send_packet,
}

fill-none :
    (h : Header) (a b p : Shard) (packets : List (Header × Shard))
    → length packets ≡ 3
    → fill h 0 (a ∷ b ∷ p ∷ []) packets ≡ none
unfolding fill
fill-none h a b p [] l = absurd (omega arith)
fill-none h a b p (x ∷ []) l = absurd (omega arith)
fill-none h a b p (x ∷ y ∷ []) l = absurd (omega arith)
fill-none h a b p (x ∷ y ∷ z ∷ []) l = refl
fill-none h a b p (x ∷ y ∷ z ∷ w ∷ ps) l = absurd (omega arith)

send_shards-fault :
    (rs : Codec) (socks : Socks) (server : ℕ) (h : Header) (payload : List ℕ)
    (packets : List (Header × Shard)) (c : Client) (a b p : Shard)
    → rs.encode (rows_of payload) ≡ (true, a ∷ b ∷ p ∷ [])
    → length packets ≡ 3
    → send_shards rs socks server h payload packets c ≡ fault
unfolding send_shards
send_shards-fault rs socks server h payload packets c a b p e three =
    rw (e, fill-none _ a b p packets three)

-- With error correction switched on, every packet of more than 1200 bytes makes the client write
-- outside of its array of three packets, whenever the encoder succeeds with its three shards: shard `i`
-- is copied to packet `2 * i`, so the last one goes to packet 4.
pub shards_overrun :
    (rs : Codec) (socks : Socks) (server : ℕ) (old : Header) (payload : List ℕ) (len : ℕ)
    (packets : List (Header × Shard)) (c : Client) (a b p : Shard)
    → fec_encode_min_len < len
    → rs.encode (rows_of payload) ≡ (true, a ∷ b ∷ p ∷ [])
    → length packets ≡ 3
    → send_packet rs true socks server old payload len packets c ≡ fault
unfolding send_packet
shards_overrun rs socks server old payload len packets c a b p long e three =
    rw (lt→ltb fec_encode_min_len len long)
      (send_shards-fault rs socks server _ payload packets _ a b p e three)

-- A packet that is sent without error correction, with both sockets open: two datagrams to the server,
-- one on each path.
pub send_plain :
    (rs : Codec) (gl_fec : Bool) (socks : Socks) (server : ℕ) (old : Header) (payload : List ℕ)
    (len : ℕ) (packets : List (Header × Shard)) (c : Client)
    → (gl_fec && ltb fec_encode_min_len len) ≡ false
    → socks 0 ≡ opened
    → socks 1 ≡ opened
    → let h = packet_header false c.first old c.sequence len in
      let bytes = take (len % 2 ^ 16) payload in
      send_packet rs gl_fec socks server old payload len packets c
      ≡ sent
          (record { sock = 0; addr = server; header = record h { apn = 1 }; bytes = bytes }
            ∷ record { sock = 1; addr = server; header = record h { apn = 2 }; bytes = bytes }
            ∷ [])
          (record c { sequence = (c.sequence + 1) % 2 ^ 16; first = false })
unfolding send_packet plain_datagram
send_plain rs gl_fec socks server old payload len packets c off s0 s1 = ground arith
