-- ===== src/Tunnel/Client/Same.antt =====
-- The two functions that script/tun-vpn/uctun.c has in a copy of its own.
use config_env.Prelude.{ℕ, ◌≡◌, arith}
use config_env.Tunnel.Wire.{Message}
use config_env.Tunnel.Codec.{Codec}
use config_env.Tunnel.Dedup
use config_env.Tunnel.Dedup.{Dedup}
use config_env.Tunnel.Fec
use config_env.Tunnel.Fec.{Slots}
use config_env.Tunnel.Client.{is_duplicate, fec_recv_done}

-- The client drops the same duplicates as the server, and keeps the same table.
pub is_duplicate-server :
    (seq ts : ℕ) (d : Dedup) → is_duplicate seq ts d ≡ Dedup.is_duplicate seq ts d
unfolding is_duplicate Dedup.is_duplicate
is_duplicate-server seq ts d = ground arith

-- The client puts shards together as the server does, on every branch, the faulty ones included.
pub fec_recv_done-server :
    (rs : Codec) (ts : ℕ) (m : Message) (slots : Slots)
    → fec_recv_done rs ts m slots ≡ Fec.fec_recv_done rs ts m slots
unfolding fec_recv_done Fec.fec_recv_done
fec_recv_done-server rs ts m slots = ground arith
