-- ===== src/Tunnel/Gateways.antt =====
-- script/tun-vpn/ustun.c: `gateway_addrs`, the list of the known gateways and their addresses.
pub mod Lookup
pub mod Expiry
use config_env.Prelude.{
  [], ℕ, ◌+◌, ◌-◌, ◌%◌, List, ◌∷◌, Bool, ◌&&◌, ◌||◌, ◌==◌, if◌then◌else◌, ltb, leb, set, Option,
  none, some, not,
}
use config_env.Tunnel.Wire.{max_gw_apn, conn_timeout}

-- `gateway_addr_t`. An address is a number. The lists are the arrays of `MAX_GW_APN` elements.
pub record Gateway : Type 0 where
  pub addr_apn : List ℕ
  pub last_seen_apn : List ℕ
  pub last_used : ℕ
  pub gateway_id : ℕ

-- The entry that the loop finds gets the address, and the loop ends.
unfoldable pub refresh : (ts id addr path : ℕ) → List Gateway → Option (List Gateway)
refresh ts id addr path [] = none
refresh ts id addr path (g ∷ gs) =
    let rest = refresh ts id addr path gs in
    if id == g.gateway_id && ltb 0 g.last_used
    then some (
        record g {
          addr_apn = set g.addr_apn path addr;
          last_seen_apn = set g.last_seen_apn path ts;
          last_used = ts;
        }
        ∷ gs)
    else elim rest [ none ↦ none | some gs' ↦ some (g ∷ gs') ]

abbrev pub new_gateway : (ts id addr path : ℕ) → Gateway
new_gateway ts id addr path = record {
  addr_apn = set (0 ∷ 0 ∷ []) path addr;
  last_seen_apn = set (0 ∷ 0 ∷ []) path ts;
  last_used = ts;
  gateway_id = id;
}

-- `path_id--` on a `uint8_t`
abbrev pub path_of : ℕ → ℕ
path_of path_id = (path_id + 255) % 256

-- `alloc` is whether `malloc` succeeds. A new entry goes in front.
unfoldable pub update_gateway_map :
    (alloc : Bool) (ts id addr path_id : ℕ) → List Gateway → List Gateway
unfolding refresh
update_gateway_map alloc ts id addr path_id gs =
    let path = path_of path_id in
    if leb max_gw_apn path then gs else elim (refresh ts id addr path gs) [
      | some gs' ↦ gs'
      | none ↦ if alloc then new_gateway ts id addr path ∷ gs else gs
    ]

-- What `get_gateway_addr` returns: an entry, or the cursor as a loop over the whole list leaves it,
-- which points to the list's head as if that were inside a gateway. Neither is NULL.
pub data GatewayPtr : Type 0 where
  entry : Gateway → GatewayPtr
  list_head : GatewayPtr

unfoldable pub get_gateway_addr : ℕ → List Gateway → GatewayPtr
get_gateway_addr id [] = list_head
get_gateway_addr id (g ∷ gs) =
    let rest = get_gateway_addr id gs in if g.gateway_id == id then entry g else rest

-- `last_seen_apn[i] && (now - last_seen_apn[i] > CONN_TIMEOUT)`
abbrev pub is_stale : ℕ → ℕ → Bool
is_stale now seen = not (seen == 0) && ltb conn_timeout (now - seen)

unfoldable pub drop_stale : ℕ → List ℕ → List ℕ × ℕ
drop_stale now [] = ([], 0)
drop_stale now (t ∷ ts) =
    let (ts', cnt) = drop_stale now ts in
    if is_stale now t then (0 ∷ ts', cnt + 1) else (t ∷ ts', cnt)

-- `all` is the parameter `expire`.
unfoldable pub cleanup_expired_gateways : (all : Bool) → ℕ → List Gateway → List Gateway
unfolding drop_stale
cleanup_expired_gateways all now [] = []
cleanup_expired_gateways all now (g ∷ gs) =
    let rest = cleanup_expired_gateways all now gs in
    let (seen, cnt) = drop_stale now g.last_seen_apn in
    if all || leb max_gw_apn cnt then rest else record g { last_seen_apn = seen } ∷ rest
