-- ===== src/Gps.antt =====
-- script/gps: the recorder for a u-blox receiver (main.c) and its serial line (ih_serial.c).
pub mod Types
pub mod Tables
pub mod Checksum
pub mod Poll
pub mod Dump
pub mod Serial
pub mod Logs
pub mod Antenna
pub mod Zone
mod Tests
