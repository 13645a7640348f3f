-- ===== src/Tunnel/Connections/Routing.antt =====
-- How replies find their gateway through `conn_table` (script/tun-vpn/ustun.c).
pub mod Kept
use config_env.Prelude.{
  [], ℕ, ◌-◌, List, ◌∷◌, ◌≡◌, refl, ◌∙◌, ap, Bool, true, false, ◌==◌, if◌then◌else◌, ltb, Option,
  none, some, arith, inl, inr, Option-cases,
}
use mathlib.Core.Option
use config_env.Tunnel.Wire.{conn_timeout}
use config_env.Tunnel.Connections.{
  Packet, ConnEntry, load32, conn_hash_cal, ip_version, use_entry, update_conn_table,
  find_gateway_for_packet, cleanup_expired_connections,
}

-- The table as a map: the entry of a hash.
unfoldable pub lookup : ℕ → List ConnEntry → Option ConnEntry
lookup hash [] = none
lookup hash (c ∷ cs) = if c.key.hash_val == hash then some c else lookup hash cs

abbrev pub hash_of : Packet → ℕ
hash_of p = (conn_hash_cal p).hash_val

-- Each hash has one entry.
abbrev pub IsConnTable : List ConnEntry → Type 0
IsConnTable [] = Unit {0}
IsConnTable (c ∷ cs) = (lookup c.key.hash_val cs ≡ none) × IsConnTable cs

abbrev pub used : ℕ → ConnEntry → ConnEntry
used ts c = record c { last_used = ts }

-- The answer to a packet, with its two addresses swapped.
pub record IsReply (p r : Packet) : Type 0 where
  pub version : ip_version r ≡ ip_version p
  pub src : load32 r 12 ≡ load32 p 16
  pub dst : load32 r 16 ≡ load32 p 12

pub hash-reply : (p r : Packet) → IsReply p r → hash_of r ≡ hash_of p
unfolding conn_hash_cal
hash-reply p r h = rw (h.src, h.dst) (omega arith)

module _ (ts hash : ℕ) where
  use_entry-lookup :
      (cs : List ConnEntry)
      → Option.map (λ (r : ℕ × List ConnEntry). r.0) (use_entry ts hash cs)
        ≡ Option.map (λ (c : ConnEntry). c.gateway_id) (lookup hash cs)
  unfolding use_entry lookup
  use_entry-lookup [] = refl
  use_entry-lookup (c ∷ cs) = ground (arith, use_entry-lookup cs)

  -- The list that a use leaves.
  pub marked : List ConnEntry → List ConnEntry
  marked [] = []
  marked (c ∷ cs) = if c.key.hash_val == hash then used ts c ∷ cs else c ∷ marked cs

  use_entry-none : (cs : List ConnEntry) → lookup hash cs ≡ none → use_entry ts hash cs ≡ none
  unfolding use_entry lookup
  use_entry-none [] h = refl
  use_entry-none (c ∷ cs) h = ground (arith, use_entry-none cs)

  use_entry-some :
      (cs : List ConnEntry) (c : ConnEntry)
      → lookup hash cs ≡ some c
      → use_entry ts hash cs ≡ some (c.gateway_id, marked cs)
  unfolding use_entry lookup marked
  use_entry-some [] c h = cc
  use_entry-some (x ∷ cs) c h = ground (arith, use_entry-some cs c)

  lookup-marked :
      (j : ℕ) (cs : List ConnEntry)
      → lookup j (marked cs)
        ≡ (if j == hash then Option.map (used ts) (lookup j cs) else lookup j cs)
  unfolding marked lookup
  lookup-marked j [] = ground arith
  lookup-marked j (c ∷ cs) = ground (arith, lookup-marked j cs)

  marked-IsConnTable : (cs : List ConnEntry) → IsConnTable cs → IsConnTable (marked cs)
  unfolding marked
  marked-IsConnTable [] t = tt
  marked-IsConnTable (c ∷ cs) t =
      ground (arith, marked-IsConnTable cs, lookup-marked c.key.hash_val cs)

-- The gateway that a connection has after a packet of gateway `gw`: the one it had, if it had any.
abbrev pub owner : ℕ → Option ConnEntry → ℕ
owner gw none = gw
owner gw (some c) = c.gateway_id

module _ (ts gw : ℕ) (p : Packet) (cs : List ConnEntry) where
  -- The entry that an update leaves for the packet's hash.
  abbrev pub opened : Option ConnEntry → ConnEntry
  opened none = record { key = conn_hash_cal p; gateway_id = gw; last_used = ts }
  opened (some c) = used ts c

  -- An update by an IPv4 packet opens an entry for the packet's hash, or marks the one that is there as
  -- used, and keeps that one's gateway; no other hash is touched.
  pub lookup-update :
      (j : ℕ)
      → ip_version p ≡ 4
      → lookup j (update_conn_table true ts gw p cs)
        ≡ (if j == hash_of p then some (opened (lookup (hash_of p) cs)) else lookup j cs)
  unfolding update_conn_table lookup
  lookup-update j v = elim (Option-cases (lookup (hash_of p) cs)) [
    | inl e ↦ ground (arith, use_entry-none ts (hash_of p) cs e)
    | inr (c, e) ↦
        ground (arith, use_entry-some ts (hash_of p) cs c e, lookup-marked ts (hash_of p) j cs)
  ]

  pub update-IsConnTable :
      (alloc : Bool) → IsConnTable cs → IsConnTable (update_conn_table alloc ts gw p cs)
  unfolding update_conn_table
  update-IsConnTable alloc t = elim (Option-cases (lookup (hash_of p) cs)) [
    | inl e ↦ ground (arith, use_entry-none ts (hash_of p) cs e)
    | inr (c, e) ↦
        ground (arith, use_entry-some ts (hash_of p) cs c e, marked-IsConnTable ts (hash_of p) cs t)
  ]

find-owner :
    (ts : ℕ) (r : Packet) (cs : List ConnEntry) (c : ConnEntry)
    → ip_version r ≡ 4
    → lookup (hash_of r) cs ≡ some c
    → find_gateway_for_packet ts r cs ≡ (c.gateway_id, marked ts (hash_of r) cs)
unfolding find_gateway_for_packet
find-owner ts r cs c v e = ground (arith, use_entry-some ts (hash_of r) cs c e)

pub find-IsConnTable :
    (ts : ℕ) (r : Packet) (cs : List ConnEntry)
    → IsConnTable cs
    → IsConnTable (find_gateway_for_packet ts r cs).1
unfolding find_gateway_for_packet
find-IsConnTable ts r cs t = elim (Option-cases (lookup (hash_of r) cs)) [
  | inl e ↦ ground (arith, use_entry-none ts (hash_of r) cs e)
  | inr (c, e) ↦
      ground (arith, use_entry-some ts (hash_of r) cs c e, marked-IsConnTable ts (hash_of r) cs t)
]

-- After an IPv4 packet from gateway `gw`, the answer to it, which has the two addresses swapped, is sent
-- to `gw` if the connection is new. If its hash was in the table before, the answer goes to the gateway
-- of that entry, also when the connection has moved to `gw` since.
pub reply_owner :
    (ts later gw : ℕ) (p r : Packet) (cs : List ConnEntry)
    → ip_version p ≡ 4
    → IsReply p r
    → (find_gateway_for_packet later r (update_conn_table true ts gw p cs)).0
      ≡ owner gw (lookup (hash_of p) cs)
reply_owner ts later gw p r cs v h =
    let c = opened ts gw p cs (lookup (hash_of p) cs) in
    let same = hash-reply p r h in
    let at_hash : lookup (hash_of p) (update_conn_table true ts gw p cs) ≡ some c =
      ground (arith, lookup-update ts gw p cs (hash_of p) v) in
    ap (λ (t : ℕ × List ConnEntry). t.0)
      (find-owner later r (update_conn_table true ts gw p cs) c (h.version ∙ v) (rw same at_hash))
    ∙ owner_of (lookup (hash_of p) cs)
  where
    owner_of : (o : Option ConnEntry) → (opened ts gw p cs o).gateway_id ≡ owner gw o
    owner_of none = refl
    owner_of (some c) = refl

module _ (now : ℕ) where
  lookup-cleanup_none :
      (j : ℕ) (cs : List ConnEntry)
      → lookup j cs ≡ none
      → lookup j (cleanup_expired_connections false now cs) ≡ none
  unfolding lookup cleanup_expired_connections
  lookup-cleanup_none j [] h = refl
  lookup-cleanup_none j (c ∷ cs) h = ground (arith, lookup-cleanup_none j cs)

  -- What the cleanup keeps of an entry.
  abbrev pub kept : Option ConnEntry → Option ConnEntry
  kept none = none
  kept (some c) = if ltb conn_timeout (now - c.last_used) then none else some c

  -- The timed cleanup removes exactly the connections that were not used for more than three minutes.
  pub lookup-cleanup :
      (j : ℕ) (cs : List ConnEntry)
      → IsConnTable cs
      → lookup j (cleanup_expired_connections false now cs) ≡ kept (lookup j cs)
  unfolding lookup cleanup_expired_connections
  lookup-cleanup j [] t = refl
  lookup-cleanup j (c ∷ cs) t = ground (arith, lookup-cleanup j cs, lookup-cleanup_none j cs)

  pub cleanup-IsConnTable :
      (cs : List ConnEntry)
      → IsConnTable cs
      → IsConnTable (cleanup_expired_connections false now cs)
  unfolding lookup cleanup_expired_connections
  cleanup-IsConnTable [] t = tt
  cleanup-IsConnTable (c ∷ cs) t =
      ground (arith, cleanup-IsConnTable cs, lookup-cleanup_none c.key.hash_val cs)
