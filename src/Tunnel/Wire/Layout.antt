-- ===== src/Tunnel/Wire/Layout.antt =====
-- script/tun-vpn/ustun.c: the packed layout of `tun_pkg_t` before its payload, on a little-endian
-- machine, where bit fields are filled from the low bit up and `htons` swaps the bytes.
use config_env.Prelude.{[], ℕ, ◌+◌, ◌*◌, ◌/◌, ◌%◌, List, ◌∷◌, ◌≡◌, get_or, length, arith}
use config_env.Tunnel.Wire.{Header, IsHeader, pkt_offset}

pub encode_header : Header → List ℕ
encode_header h =
    h.magic
    ∷ (h.fec_rs + 4 * h.fec_idx + 32 * h.fec_num)
    ∷ h.gw
    ∷ h.apn
    ∷ h.seq / 256
    ∷ h.seq % 256
    ∷ h.plen / 256
    ∷ h.plen % 256
    ∷ []

pub decode_header : List ℕ → Header
decode_header bs = record {
  magic = get_or bs 0 0;
  fec_rs = get_or bs 1 0 % 4;
  fec_idx = get_or bs 1 0 / 4 % 8;
  fec_num = get_or bs 1 0 / 32;
  gw = get_or bs 2 0;
  apn = get_or bs 3 0;
  seq = get_or bs 4 0 * 256 + get_or bs 5 0;
  plen = get_or bs 6 0 * 256 + get_or bs 7 0;
}

-- The header takes up the 8 bytes that the code counts with, and every header in range is read back
-- as it was written.
decode-encode :
    (h : Header)
    → IsHeader h
    → (length (encode_header h) ≡ pkt_offset) × (decode_header (encode_header h) ≡ h)
unfolding encode_header decode_header
decode-encode h v = ground arith
