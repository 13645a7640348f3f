-- ===== src/Tunnel/Lan.antt =====
-- script/tun-vpn/uctun.c: `get_br1_lan_addr`, the network behind the client.
pub mod Prefix
use config_env.Prelude.{
  ℕ, zero, suc, ◌+◌, ◌*◌, ◌/◌, ◌%◌, ◌^◌, Bool, not, ◌==◌, if◌then◌else◌, Option, none, some,
}

-- `a & b` on the lowest bits.
unfoldable pub band : (bits a b : ℕ) → ℕ
band zero a b = 0
band (suc n) a b = a % 2 * (b % 2) + 2 * band n (a / 2) (b / 2)

-- `while (mask1 & 0x80000000)` on a 32-bit word; `none` if the fuel runs out.
unfoldable pub count_ones : (fuel mask1 cidr : ℕ) → Option ℕ
count_ones zero mask1 cidr = none
count_ones (suc fuel) mask1 cidr =
    let rest = count_ones fuel (mask1 * 2 % 2 ^ 32) (cidr + 1) in
    if mask1 / 2 ^ 31 % 2 == 1 then rest else some cidr

-- What `socket` and the three calls of `ioctl` on br1 give; the address and the mask in host order.
pub record Bridge : Type 0 where
  pub socket_ok : Bool
  pub flags_ok : Bool
  pub ip_net : Option ℕ
  pub mask_net : Option ℕ

-- The network's address and prefix length, which are printed as `%s/%d`. Each shift drops a bit of the
-- mask, so 33 tests of the loop are enough.
unfoldable pub get_br1_lan_addr : Bridge → Option (ℕ × ℕ)
unfolding band count_ones
get_br1_lan_addr b =
    if not b.socket_ok then none else if not b.flags_ok then none else elim b.ip_net [
      | none ↦ none
      | some ip ↦ elim b.mask_net [
        | none ↦ none
        | some mask ↦ elim (count_ones 33 mask 0) [
          | none ↦ none
          | some cidr ↦ some (band 32 ip mask, cidr)
        ]
      ]
    ]
