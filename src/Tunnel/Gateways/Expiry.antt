-- ===== src/Tunnel/Gateways/Expiry.antt =====
-- What `cleanup_expired_gateways` (script/tun-vpn/ustun.c) removes.
use config_env.Prelude.{
  [], ℕ, List, ◌∷◌, ◌≡◌, refl, ◌⊎◌, true, false, if◌then◌else◌, length, get_or, arith, leb,
}
use config_env.Tunnel.Wire.{max_gw_apn}
use config_env.Tunnel.Gateways.{
  Gateway, GatewayPtr, entry, list_head, get_gateway_addr, drop_stale, cleanup_expired_gateways,
}
use config_env.Tunnel.Gateways.Lookup.{IsTable}

length-drop_stale : (now : ℕ) (ts : List ℕ) → length (drop_stale now ts).0 ≡ length ts
unfolding drop_stale
length-drop_stale now [] = refl
length-drop_stale now (t ∷ ts) = ground (arith, length-drop_stale now ts)

-- What a timed cleanup makes of one gateway: it goes if both paths went stale since the last cleanup.
abbrev pub swept : ℕ → GatewayPtr → GatewayPtr
swept now list_head = list_head
swept now (entry g) =
    if leb max_gw_apn (drop_stale now g.last_seen_apn).1
    then list_head
    else entry (record g { last_seen_apn = (drop_stale now g.last_seen_apn).0 })

module _ (now : ℕ) where
  get-cleanup_absent :
      (id : ℕ) (gs : List Gateway)
      → get_gateway_addr id gs ≡ list_head
      → get_gateway_addr id (cleanup_expired_gateways false now gs) ≡ list_head
  unfolding cleanup_expired_gateways get_gateway_addr
  get-cleanup_absent id [] h = refl
  get-cleanup_absent id (g ∷ gs) h = ground (arith, get-cleanup_absent id gs)

  -- A timed cleanup acts on each gateway by itself.
  get-cleanup :
      (id : ℕ) (gs : List Gateway)
      → IsTable gs
      → get_gateway_addr id (cleanup_expired_gateways false now gs)
        ≡ swept now (get_gateway_addr id gs)
  unfolding cleanup_expired_gateways get_gateway_addr
  get-cleanup id [] t = refl
  get-cleanup id (g ∷ gs) t = ground (arith, get-cleanup id gs, get-cleanup_absent id gs)

  pub cleanup-IsTable :
      (gs : List Gateway) → IsTable gs → IsTable (cleanup_expired_gateways false now gs)
  unfolding cleanup_expired_gateways
  cleanup-IsTable [] t = tt
  cleanup-IsTable (g ∷ gs) t = ground (
    arith,
    cleanup-IsTable gs,
    get-cleanup_absent g.gateway_id gs,
    length-drop_stale now g.last_seen_apn,
  )

-- The cleanup at the end of the program leaves no gateway.
pub cleanup_all : (now : ℕ) (gs : List Gateway) → cleanup_expired_gateways true now gs ≡ []
unfolding cleanup_expired_gateways
cleanup_all now [] = refl
cleanup_all now (g ∷ gs) = ground (arith, cleanup_all now gs)

-- The timed cleanups of a run.
sweeps : List ℕ → List Gateway → List Gateway
sweeps [] gs = gs
sweeps (now ∷ times) gs = sweeps times (cleanup_expired_gateways false now gs)

-- One of the two times is 0: the path was never seen, or an earlier cleanup cleared it.
abbrev pub IsIdle : List ℕ → Type 0
IsIdle l = (length l ≡ max_gw_apn) × ((get_or l 0 0 ≡ 0) ⊎ (get_or l 1 0 ≡ 0))

drop_stale-IsIdle :
    (now : ℕ) (l : List ℕ)
    → IsIdle l
    → (leb max_gw_apn (drop_stale now l).1 ≡ false) × IsIdle (drop_stale now l).0
unfolding drop_stale
drop_stale-IsIdle now [] h = absurd (omega arith)
drop_stale-IsIdle now (a ∷ []) h = absurd (omega arith)
drop_stale-IsIdle now (a ∷ b ∷ []) h = ground arith
drop_stale-IsIdle now (a ∷ b ∷ c ∷ l) h = absurd (omega arith)

-- A gateway that is in the list and has an idle path.
abbrev pub HasIdlePath : GatewayPtr → Type 0
HasIdlePath list_head = ⊥
HasIdlePath (entry g) = IsIdle g.last_seen_apn

swept-HasIdlePath : (now : ℕ) (p : GatewayPtr) → HasIdlePath p → HasIdlePath (swept now p)
swept-HasIdlePath now list_head h = h
swept-HasIdlePath now (entry g) h =
    let (few, idle) = drop_stale-IsIdle now g.last_seen_apn h in rw few idle

-- A gateway that was seen on one of its two paths only stays in the list for ever: no sequence of
-- timed cleanups removes it, at whatever times they run. (A cleanup counts the paths that it clears
-- itself, and wants both.)
idle_path_stays :
    (id : ℕ) (times : List ℕ) (gs : List Gateway)
    → IsTable gs
    → HasIdlePath (get_gateway_addr id gs)
    → HasIdlePath (get_gateway_addr id (sweeps times gs))
unfolding sweeps
idle_path_stays id [] gs t h = h
idle_path_stays id (now ∷ times) gs t h =
    idle_path_stays id times (cleanup_expired_gateways false now gs) (cleanup-IsTable now gs t)
      (rw (get-cleanup now id gs t) (swept-HasIdlePath now (get_gateway_addr id gs) h))
