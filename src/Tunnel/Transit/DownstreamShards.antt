-- ===== src/Tunnel/Transit/DownstreamShards.antt =====
-- An answer on its way from the server (script/tun-vpn/ustun.c) to the client (uctun.c) in shards.
use config_env.Prelude.{[], ℕ, List, ◌∷◌, ◌≡◌, true, none, some, take, drop, get_or}
use config_env.Tunnel.Wire.{fec_rs_t, Header}
use config_env.Tunnel.Codec.{Shard, Codec, IsCodec}
use config_env.Tunnel.Gateways.{Gateway}
use config_env.Tunnel.Server.{opened, Socks, Datagram, Server, sent, send_to_gateway}
use config_env.Tunnel.Client.{Client, next, receive}
use config_env.Tunnel.Transit.{arrive}

abbrev pub first_shard : List ℕ → Shard
first_shard payload = take fec_rs_t payload

abbrev pub second_shard : List ℕ → Shard
second_shard payload = take fec_rs_t (drop fec_rs_t payload)

-- The datagram of shard `k`, in place of `shard`.
abbrev pub shard_datagram : (worker addr : ℕ) → Header → (k : ℕ) → Shard → Datagram
shard_datagram worker addr h k shard = record {
  sock = worker;
  addr = addr;
  header = record h { fec_idx = k };
  bytes = shard;
}

-- The three datagrams of a payload of two full shards.
abbrev pub datagrams_of :
    (rs : Codec) → IsCodec rs → (worker addr : ℕ) → Header → List ℕ → List Datagram
datagrams_of rs laws worker addr h payload =
    let a = first_shard payload in
    let b = second_shard payload in
    shard_datagram worker addr h 0 a
    ∷ shard_datagram worker addr h 1 b
    ∷ shard_datagram worker addr h 2 (laws.parity a b)
    ∷ []

-- An answer on its way in shards: the three datagrams that the server sends for it, all over one open
-- socket and to the gateway's address for it, and what the client's receivers do with two of them.
pub record AnsweredInShards (rs : Codec) (socks : Socks) (later : ℕ) (old : Header)
    (payload : List ℕ) (len : ℕ) (s : Server) (g : Gateway) (i j ts1 ts2 : ℕ)
    (stale1 stale2 : List ℕ) (c : Client) : Type 0 where
  pub datagram : ℕ → Datagram
  pub worker : ℕ
  pub server : Server
  pub client1 : Client
  pub client2 : Client
  pub sends :
      send_to_gateway rs true socks later old payload len s
      ≡ sent (datagram 0 ∷ datagram 1 ∷ datagram 2 ∷ []) server
  pub over : (k : ℕ) → (datagram k).sock ≡ worker
  pub opens : socks worker ≡ opened
  pub to : (k : ℕ) → (datagram k).addr ≡ get_or g.addr_apn worker 0
  pub first : receive rs ts1 (arrive (datagram i) stale1) c ≡ next none client1
  pub second :
      receive rs ts2 (arrive (datagram j) stale2) client1 ≡ next (some (take len payload)) client2
