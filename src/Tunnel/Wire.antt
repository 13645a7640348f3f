-- ===== src/Tunnel/Wire.antt =====
-- script/tun-vpn/ustun.c: the constants, `tun_pkg_t` and what `recvmmsg` hands over.
pub mod Layout
use config_env.Prelude.{ℕ, ◌<◌, List}

abbrev pub magic_num : ℕ
magic_num = 0x5A

abbrev pub buffer_size : ℕ
buffer_size = 1500

abbrev pub seq_map_size : ℕ
seq_map_size = 8192

abbrev pub conn_timeout : ℕ
conn_timeout = 180

-- Bytes before the payload.
abbrev pub pkt_offset : ℕ
pkt_offset = 8

abbrev pub udp_worker : ℕ
udp_worker = 2

abbrev pub fec_encode_min_len : ℕ
fec_encode_min_len = 1200

abbrev pub gateway_start : ℕ
gateway_start = 0x80

abbrev pub max_gw_apn : ℕ
max_gw_apn = 2

-- FEC_RS_K, FEC_RS_N and FEC_RS_T: data shards, parity shards, bytes of a shard.
abbrev pub fec_rs_k : ℕ
fec_rs_k = 2

abbrev pub fec_rs_n : ℕ
fec_rs_n = 1

abbrev pub fec_rs_t : ℕ
fec_rs_t = 750

-- The fields of `tun_pkg_t` before its payload. `seq` and `plen` are in host order.
pub record Header : Type 0 where
  pub magic : ℕ
  pub fec_rs : ℕ
  pub fec_idx : ℕ
  pub fec_num : ℕ
  pub gw : ℕ
  pub apn : ℕ
  pub seq : ℕ
  pub plen : ℕ

-- The ranges of the fields' types: bytes, bit fields of 2, 3 and 3 bits, and 16-bit words.
pub record IsHeader (h : Header) : Type 0 where
  pub magic : h.magic < 256
  pub fec_rs : h.fec_rs < 4
  pub fec_idx : h.fec_idx < 8
  pub fec_num : h.fec_num < 8
  pub gw : h.gw < 256
  pub apn : h.apn < 256
  pub seq : h.seq < 65536
  pub plen : h.plen < 65536

-- A message in a receive buffer: its length with the header, and the bytes of the buffer behind the
-- header, those of earlier messages included.
pub record Message : Type 0 where
  pub len : ℕ
  pub header : Header
  pub buf : List ℕ
