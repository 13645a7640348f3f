-- ===== src/Tunnel/Tests/Setup.antt =====
-- Examples for the theorems on the set-up of script/tun-vpn.
use config_env.Prelude.{ℕ, ◌+◌, ◌*◌, ◌^◌, ◌≡◌, refl}
use config_env.Tunnel.Lan.Prefix.{mask_of, cleared_below}

-- 192.168.2.1 with the mask 255.255.255.0
abbrev lan_ip : ℕ
lan_ip = 192 * 2 ^ 24 + 168 * 2 ^ 16 + 2 * 2 ^ 8 + 1

-- 255.255.255.0 and 192.168.2.0
mask_is : mask_of 8 24 ≡ 255 * 2 ^ 24 + 255 * 2 ^ 16 + 255 * 2 ^ 8
mask_is = refl

lan_is : cleared_below 8 lan_ip ≡ 192 * 2 ^ 24 + 168 * 2 ^ 16 + 2 * 2 ^ 8
lan_is = refl
