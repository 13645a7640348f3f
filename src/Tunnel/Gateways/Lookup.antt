-- ===== src/Tunnel/Gateways/Lookup.antt =====
-- What `get_gateway_addr` finds after `update_gateway_map` (script/tun-vpn/ustun.c).
use config_env.Prelude.{
  [], ℕ, ◌<◌, List, ◌∷◌, ◌≡◌, refl, ◌≢◌, Bool, true, false, ◌==◌, if◌then◌else◌, set, length,
  length-set, get_or, get_or-set_self, none, some, arith, Bool-cases, inl, inr,
}
use config_env.Tunnel.Wire.{max_gw_apn}
use config_env.Tunnel.Gateways.{
  Gateway, refresh, new_gateway, path_of, update_gateway_map, GatewayPtr, entry, list_head,
  get_gateway_addr,
}

-- Each gateway is in use, has its two addresses, and is the only one with its id.
abbrev pub IsTable : List Gateway → Type 0
IsTable [] = Unit {0}
IsTable (g ∷ gs) =
    (0 < g.last_used)
    × (length g.addr_apn ≡ max_gw_apn)
    × (length g.last_seen_apn ≡ max_gw_apn)
    × (get_gateway_addr g.gateway_id gs ≡ list_head)
    × IsTable gs

-- What an update makes of the gateway that was found before it.
abbrev pub touched : (ts id addr path : ℕ) → GatewayPtr → Gateway
touched ts id addr path list_head = new_gateway ts id addr path
touched ts id addr path (entry g) = record g {
  addr_apn = set g.addr_apn path addr;
  last_seen_apn = set g.last_seen_apn path ts;
  last_used = ts;
}

abbrev pub is_entry : GatewayPtr → Bool
is_entry list_head = false
is_entry (entry g) = true

module _ (ts id addr path : ℕ) where
  -- The list after a refresh that found its entry.
  refreshed : List Gateway → List Gateway
  refreshed [] = []
  refreshed (g ∷ gs) =
      if g.gateway_id == id then touched ts id addr path (entry g) ∷ gs else g ∷ refreshed gs

  refresh-absent :
      (gs : List Gateway)
      → is_entry (get_gateway_addr id gs) ≡ false
      → refresh ts id addr path gs ≡ none
  unfolding refresh get_gateway_addr
  refresh-absent [] h = refl
  refresh-absent (g ∷ gs) h = ground (arith, refresh-absent gs)

  refresh-found :
      (gs : List Gateway)
      → IsTable gs
      → is_entry (get_gateway_addr id gs) ≡ true
      → refresh ts id addr path gs ≡ some (refreshed gs)
  unfolding refresh refreshed get_gateway_addr
  refresh-found [] t h = cc
  refresh-found (g ∷ gs) t h = ground (arith, refresh-found gs)

  get-refreshed_self :
      (gs : List Gateway)
      → is_entry (get_gateway_addr id gs) ≡ true
      → get_gateway_addr id (refreshed gs)
        ≡ entry (touched ts id addr path (get_gateway_addr id gs))
  unfolding refreshed get_gateway_addr
  get-refreshed_self [] h = cc
  get-refreshed_self (g ∷ gs) h = ground (arith, get-refreshed_self gs)

  get-refreshed_other :
      (j : ℕ) (gs : List Gateway)
      → j ≢ id
      → get_gateway_addr j (refreshed gs) ≡ get_gateway_addr j gs
  unfolding refreshed get_gateway_addr
  get-refreshed_other j [] h = refl
  get-refreshed_other j (g ∷ gs) h = ground (arith, get-refreshed_other j gs)

  refreshed-IsTable : (gs : List Gateway) → 0 < ts → IsTable gs → IsTable (refreshed gs)
  unfolding refreshed
  refreshed-IsTable [] h t = tt
  refreshed-IsTable (g ∷ gs) h t = ground (
    arith,
    refreshed-IsTable gs,
    get-refreshed_other g.gateway_id gs,
    length-set g.addr_apn path addr,
    length-set g.last_seen_apn path ts,
  )

module _ (ts id addr path_id : ℕ) (gs : List Gateway) where
  -- An update with a valid path makes the gateway's entry the touched old one, or a new one if there
  -- was none; the addresses found for other gateways stay.
  pub get-update :
      (j : ℕ)
      → IsTable gs
      → path_of path_id < max_gw_apn
      → get_gateway_addr j (update_gateway_map true ts id addr path_id gs) ≡ (
          if j == id
          then entry (touched ts id addr (path_of path_id) (get_gateway_addr id gs))
          else get_gateway_addr j gs)
  unfolding update_gateway_map get_gateway_addr
  get-update j t h = elim (Bool-cases (is_entry (get_gateway_addr id gs))) [
    | inl found ↦ ground (
      arith,
      refresh-found ts id addr (path_of path_id) gs t found,
      get-refreshed_self ts id addr (path_of path_id) gs found,
      get-refreshed_other ts id addr (path_of path_id) j gs,
    )
    | inr absent ↦ ground (arith, refresh-absent ts id addr (path_of path_id) gs absent)
  ]

  -- Updates keep the table: ids stay unique, whether memory runs out or not.
  pub update-IsTable :
      (alloc : Bool)
      → 0 < ts
      → IsTable gs
      → IsTable (update_gateway_map alloc ts id addr path_id gs)
  unfolding update_gateway_map
  update-IsTable alloc h t = elim (Bool-cases (is_entry (get_gateway_addr id gs))) [
    | inl found ↦ ground (
      arith,
      refresh-found ts id addr (path_of path_id) gs t found,
      refreshed-IsTable ts id addr (path_of path_id) gs h t,
    )
    | inr absent ↦ ground (
      arith,
      refresh-absent ts id addr (path_of path_id) gs absent,
      length-set (0 ∷ 0 ∷ []) (path_of path_id) addr,
      length-set (0 ∷ 0 ∷ []) (path_of path_id) ts,
    )
  ]

entry_paths :
    (id : ℕ) (gs : List Gateway) (g : Gateway)
    → IsTable gs
    → get_gateway_addr id gs ≡ entry g
    → (length g.addr_apn ≡ max_gw_apn) × (length g.last_seen_apn ≡ max_gw_apn)
unfolding get_gateway_addr
entry_paths id [] g t h = cc
entry_paths id (x ∷ gs) g t h = ground (arith, entry_paths id gs g)

-- The path that an update touched has the new address and time.
pub touched-path :
    (ts id addr path : ℕ) (gs : List Gateway)
    → IsTable gs
    → path < max_gw_apn
    → (get_or (touched ts id addr path (get_gateway_addr id gs)).addr_apn path 0 ≡ addr)
      × (get_or (touched ts id addr path (get_gateway_addr id gs)).last_seen_apn path 0 ≡ ts)
touched-path ts id addr path gs t lt = go (get_gateway_addr id gs) refl
  where
    go :
        (p : GatewayPtr)
        → get_gateway_addr id gs ≡ p
        → (get_or (touched ts id addr path p).addr_apn path 0 ≡ addr)
          × (get_or (touched ts id addr path p).last_seen_apn path 0 ≡ ts)
    go list_head e =
        (get_or-set_self (0 ∷ 0 ∷ []) path addr 0 lt, get_or-set_self (0 ∷ 0 ∷ []) path ts 0 lt)
    go (entry g) e =
        let (la, ls) = entry_paths id gs g t e in
        (
          get_or-set_self g.addr_apn path addr 0 (omega arith),
          get_or-set_self g.last_seen_apn path ts 0 (omega arith),
        )
