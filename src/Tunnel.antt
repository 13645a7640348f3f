-- ===== src/Tunnel.antt =====
-- script/tun-vpn: the two ends of the UDP tunnel, ustun.c (server) and uctun.c (client gateway).
pub mod Wire
pub mod Dedup
pub mod Codec
pub mod Fec
pub mod Gateways
pub mod Connections
pub mod Server
pub mod Client
pub mod Transit
pub mod Lan
pub mod TunDevice
pub mod IoUring
pub mod AddCodec
mod Tests
