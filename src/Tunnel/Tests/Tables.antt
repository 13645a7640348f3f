-- ===== src/Tunnel/Tests/Tables.antt =====
-- Examples for the theorems on the tables of script/tun-vpn/ustun.c.
use config_env.Prelude.{[], ◌%◌, ◌∷◌, ◌≡◌, refl, ◌==◌, arith, inr}
use config_env.Tunnel.Wire.{seq_map_size}
use config_env.Tunnel.Dedup.{cleared, is_duplicate}
use config_env.Tunnel.Dedup.Window.{after, last_in_slot, is_duplicate-last}
use config_env.Tunnel.Gateways.{get_gateway_addr}
use config_env.Tunnel.Gateways.Lookup.{IsTable}
use config_env.Tunnel.Gateways.Expiry.{HasIdlePath}
use config_env.Tunnel.Tests.{sample_gateway}

is_duplicate-last_example :
    (is_duplicate 8199 120 (after (cleared 100) ((7, 110) ∷ []))).0
    ≡ (last_in_slot (8199 % seq_map_size) ((7, 110) ∷ []) == 8199)
is_duplicate-last_example =
    is_duplicate-last 100 ((7, 110) ∷ []) 8199 120
      (omega arith, omega arith, (omega arith, omega arith, tt))

sample-IsTable : IsTable (sample_gateway ∷ [])
unfolding get_gateway_addr
sample-IsTable = (omega arith, refl, refl, refl, tt)

sample-HasIdlePath : HasIdlePath (get_gateway_addr 5 (sample_gateway ∷ []))
unfolding get_gateway_addr
sample-HasIdlePath = (refl, inr refl)
