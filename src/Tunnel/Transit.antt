-- ===== src/Tunnel/Transit.antt =====
-- The network between the two ends of script/tun-vpn, as `recvmmsg` shows it.
pub mod Upstream
pub mod Stream
pub mod Downstream
pub mod Exchange
pub mod DownstreamShards
use config_env.Prelude.{ℕ, ◌+◌, ◌-◌, List, ◌++◌, length, take, min}
use config_env.Tunnel.Wire.{buffer_size, pkt_offset, Message}
use config_env.Tunnel.Server.{Datagram}

-- A datagram in a receive buffer of `BUFFER_SIZE` bytes: what does not fit is cut off, and `stale` is
-- what the buffer held behind.
unfoldable pub arrive : Datagram → List ℕ → Message
arrive d stale = record {
  len = min buffer_size (pkt_offset + length d.bytes);
  header = d.header;
  buf = take (buffer_size - pkt_offset) d.bytes ++ stale;
}
