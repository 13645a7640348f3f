-- ===== src/Tunnel/Connections.antt =====
-- script/tun-vpn/ustun.c: `conn_table`, which gateway the packets of a connection came from.
pub mod Routing
use config_env.Prelude.{
  [], ℕ, ◌+◌, ◌-◌, ◌*◌, ◌/◌, ◌%◌, ◌^◌, List, ◌∷◌, Bool, ◌||◌, ◌==◌, if◌then◌else◌, ltb, Option,
  none, some,
}
use config_env.Tunnel.Wire.{conn_timeout}

-- A packet's bytes, at their index in a buffer that is larger than any index read here.
abbrev pub Packet : Type 0
Packet = ℕ → ℕ

-- `conn_key_t`; its ports and protocol stay 0.
pub record ConnKey : Type 0 where
  pub src_ip : ℕ
  pub dst_ip : ℕ
  pub hash_val : ℕ

-- `conn_entry_t`
pub record ConnEntry : Type 0 where
  pub key : ConnKey
  pub gateway_id : ℕ
  pub last_used : ℕ

-- `*(uint32_t *)(ip_packet + i)` on a little-endian machine
unfoldable pub load32 : Packet → ℕ → ℕ
load32 p i = p i + 2 ^ 8 * p (i + 1) + 2 ^ 16 * p (i + 2) + 2 ^ 24 * p (i + 3)

unfoldable pub conn_hash_cal : Packet → ConnKey
conn_hash_cal p = record {
  src_ip = load32 p 12;
  dst_ip = load32 p 16;
  hash_val = (load32 p 12 + load32 p 16) % 2 ^ 32;
}

-- `(ip_packet[0] >> 4) & 0x0F`
abbrev pub ip_version : Packet → ℕ
ip_version p = p 0 / 2 ^ 4 % 2 ^ 4

-- The loop of both functions: the first entry with the hash is used at `ts`, and its gateway found.
unfoldable pub use_entry : (ts hash : ℕ) → List ConnEntry → Option (ℕ × List ConnEntry)
use_entry ts hash [] = none
use_entry ts hash (c ∷ cs) =
    let rest = use_entry ts hash cs in
    if c.key.hash_val == hash
    then some (c.gateway_id, record c { last_used = ts } ∷ cs)
    else elim rest [ none ↦ none | some (gw, cs') ↦ some (gw, c ∷ cs') ]

unfoldable pub update_conn_table :
    (alloc : Bool) (ts gw : ℕ) → Packet → List ConnEntry → List ConnEntry
unfolding use_entry conn_hash_cal
update_conn_table alloc ts gw p cs =
    let key = conn_hash_cal p in
    if ip_version p == 4
    then elim (use_entry ts key.hash_val cs) [
      | some (gw', cs') ↦ cs'
      | none ↦ if alloc then record { key = key; gateway_id = gw; last_used = ts } ∷ cs else cs
    ]
    else cs

-- 0 for no gateway.
unfoldable pub find_gateway_for_packet : ℕ → Packet → List ConnEntry → ℕ × List ConnEntry
unfolding use_entry conn_hash_cal
find_gateway_for_packet ts p cs =
    if ip_version p == 4
    then elim (use_entry ts (conn_hash_cal p).hash_val cs) [
      | some (gw, cs') ↦ (gw, cs')
      | none ↦ (0, cs)
    ]
    else (0, cs)

-- `all` is the parameter `expire`.
unfoldable pub cleanup_expired_connections : (all : Bool) → ℕ → List ConnEntry → List ConnEntry
cleanup_expired_connections all now [] = []
cleanup_expired_connections all now (c ∷ cs) =
    let rest = cleanup_expired_connections all now cs in
    if all || ltb conn_timeout (now - c.last_used) then rest else c ∷ rest
