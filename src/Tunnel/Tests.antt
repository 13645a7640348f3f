-- ===== src/Tunnel/Tests.antt =====
-- Sample data for the examples on script/tun-vpn.
mod Tables
mod Messages
mod Setup
mod Answers
mod Loop
mod Clients
mod Streams
mod Rings
use config_env.Prelude.{[], ℕ, List, ◌∷◌}
use config_env.Tunnel.Wire.{Header, Message}
use config_env.Tunnel.Fec.{FecSlot}
use config_env.Tunnel.Dedup.{cleared}
use config_env.Tunnel.Gateways.{Gateway}
use config_env.Tunnel.Server.{Server}

abbrev pub sample_gateway : Gateway
sample_gateway = record {
  addr_apn = 70 ∷ 0 ∷ [];
  last_seen_apn = 500 ∷ 0 ∷ [];
  last_used = 500;
  gateway_id = 5;
}

abbrev pub empty_slot : FecSlot
empty_slot = record {
  seq = 0xAA55;
  plen = 0;
  buf = [] ∷ [] ∷ [] ∷ [];
  marks = [];
  cnt = 0;
  last_update = 0;
}

abbrev pub new_server : Server
new_server = record {
  dedup = cleared 0;
  slots = λ i. empty_slot;
  gateways = [];
  conns = [];
  last_ts = 0;
  sequence = 0;
}

-- An IPv4 packet from 10.0.0.1 to 10.0.0.2, and its answer.
abbrev pub request : List ℕ
request = 0x45 ∷ 0 ∷ 0 ∷ 20 ∷ 0 ∷ 0 ∷ 0 ∷ 0 ∷ 64 ∷ 17 ∷ 0 ∷ 0 ∷ 10 ∷ 0 ∷ 0 ∷ 1 ∷ 10 ∷ 0 ∷ 0 ∷ 2 ∷ []

abbrev pub response : List ℕ
response =
    0x45 ∷ 0 ∷ 0 ∷ 20 ∷ 0 ∷ 0 ∷ 0 ∷ 0 ∷ 64 ∷ 17 ∷ 0 ∷ 0 ∷ 10 ∷ 0 ∷ 0 ∷ 2 ∷ 10 ∷ 0 ∷ 0 ∷ 1 ∷ []

abbrev pub header : (rs idx gw apn : ℕ) → Header
header rs idx gw apn = record {
  magic = 0x5A;
  fec_rs = rs;
  fec_idx = idx;
  fec_num = 3;
  gw = gw;
  apn = apn;
  seq = 7;
  plen = 1300;
}

abbrev pub message : (rs idx gw apn : ℕ) → List ℕ → ℕ → Message
message rs idx gw apn buf len = record { len = len; header = header rs idx gw apn; buf = buf }
