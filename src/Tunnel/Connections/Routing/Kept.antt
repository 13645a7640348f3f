-- ===== src/Tunnel/Connections/Routing/Kept.antt =====
-- What packets leave of `conn_table` (script/tun-vpn/ustun.c).
use config_env.Prelude.{
  ℕ, List, ◌≡◌, Bool, true, false, Option, none, some, arith, inl, inr, Option-cases,
}
use config_env.Tunnel.Connections.{ConnEntry, Packet, update_conn_table}
use config_env.Tunnel.Connections.Routing.{
  lookup, hash_of, use_entry-none, use_entry-some, lookup-marked,
}

abbrev pub is_known : Option ConnEntry → Bool
is_known none = false
is_known (some c) = true

-- A packet of a gateway removes no connection, whether memory runs out or not.
pub update_keeps :
    (alloc : Bool) (ts gw j : ℕ) (p : Packet) (cs : List ConnEntry)
    → is_known (lookup j cs) ≡ true
    → is_known (lookup j (update_conn_table alloc ts gw p cs)) ≡ true
unfolding update_conn_table lookup
update_keeps alloc ts gw j p cs h = elim (Option-cases (lookup (hash_of p) cs)) [
  | inl e ↦ ground (arith, use_entry-none ts (hash_of p) cs e)
  | inr (c, e) ↦
      ground (arith, use_entry-some ts (hash_of p) cs c e, lookup-marked ts (hash_of p) j cs)
]
