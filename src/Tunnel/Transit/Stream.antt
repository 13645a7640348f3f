-- ===== src/Tunnel/Transit/Stream.antt =====
-- A run of packets from the client's tun device (script/tun-vpn/uctun.c) to the server's (ustun.c).
pub mod Pairs
pub mod Loop
use config_env.Prelude.{
  [], ℕ, ◌+◌, ◌-◌, ◌%◌, ◌≤◌, List, ◌∷◌, ◌≡◌, ◌≢◌, ◌==◌, if◌then◌else◌, take, length, min,
}
use config_env.Tunnel.Wire.{buffer_size, pkt_offset, seq_map_size, conn_timeout, magic_num}
use config_env.Tunnel.Dedup.{Dedup}
use config_env.Tunnel.Server.{Datagram}
use config_env.Tunnel.Server.Batch.{Arrival, AllPlain, passed}
use config_env.Tunnel.Server.Batch.Once.{InWindow}
use config_env.Tunnel.Client.Main.{
  ClientEvent, read_nothing, read_broken, was_read, message, ClientRan, crashed, ran,
}
use config_env.Tunnel.Transit.{arrive}

-- What the client reads from its tun device until a read fails for good, each packet cut to the 1492
-- bytes that the server's receive buffer holds behind the header.
abbrev pub packets_read : List ClientEvent → List (List ℕ)
packets_read [] = []
packets_read (read_nothing ∷ es) = packets_read es
packets_read (read_broken ∷ es) = []
packets_read (was_read old payload len packets ∷ es) =
    if len == 0
    then packets_read es
    else take (min len (buffer_size - pkt_offset)) payload ∷ packets_read es
packets_read (message ts m ∷ es) = packets_read es

-- `read` gives at most as many bytes as the buffer has, in a packet whose magic number is set.
abbrev pub Readable : List ClientEvent → Type 0
Readable [] = Unit {0}
Readable (read_nothing ∷ es) = Readable es
Readable (read_broken ∷ es) = Readable es
Readable (was_read old payload len packets ∷ es) =
    (old.magic ≡ magic_num) × (len ≤ buffer_size) × (len ≤ length payload) × Readable es
Readable (message ts m ∷ es) = Readable es

-- The batch consists of the datagrams, in their order, each within three minutes of `t`.
abbrev pub Carries : (t : ℕ) → List Arrival → List Datagram → Type 0
Carries t [] [] = Unit {0}
Carries t [] (d ∷ ds) = ⊥
Carries t (a ∷ batch) [] = ⊥
Carries t (a ∷ batch) (d ∷ ds) =
    (stale : List ℕ) × (a.message ≡ arrive d stale)
    × (t ≤ a.ts)
    × (a.ts ≤ t + conn_timeout)
    × Carries t batch ds

-- The table holds none of the `k` numbers from `n` on.
abbrev pub Ahead : (n k : ℕ) → Dedup → Type 0
Ahead n k d = (x : ℕ) → InWindow n k x → d.seq_map (x % seq_map_size) ≢ x

-- What the datagrams of a run write, whenever they arrive in their order and in time.
abbrev pub Passes : (t : ℕ) → List (List ℕ) → Dedup → List Datagram → Type 0
Passes t outs d out =
    (batch : List Arrival) → Carries t batch out → AllPlain batch × (passed batch d ≡ outs)

abbrev pub Streams : (t : ℕ) → List (List ℕ) → Dedup → ClientRan → Type 0
Streams t outs d crashed = Unit {0}
Streams t outs d (ran out ended c) = Passes t outs d out
