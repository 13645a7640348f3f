-- ===== src/Tunnel/Lan/Prefix.antt =====
-- The network that `get_br1_lan_addr` (script/tun-vpn/uctun.c) computes.
use config_env.Prelude.{
  ℕ, zero, suc, ◌+◌, ◌*◌, ◌/◌, ◌%◌, ◌^◌, ◌<◌, ◌≡◌, refl, ◌∙◌, ap, ap₂, true, some, arith,
}
use config_env.Tunnel.Lan.{band, count_ones, Bridge, get_br1_lan_addr}

abbrev pub pow2 : ℕ → ℕ
pow2 zero = 1
pow2 (suc n) = 2 * pow2 n

-- The mask of `ones` set bits with `zeros` cleared ones below them.
abbrev pub mask_of : (zeros ones : ℕ) → ℕ
mask_of zero zero = 0
mask_of zero (suc n) = 1 + 2 * mask_of zero n
mask_of (suc z) n = 2 * mask_of z n

-- A number with its lowest bits cleared.
abbrev pub cleared_below : (zeros a : ℕ) → ℕ
cleared_below zero a = a
cleared_below (suc z) a = 2 * cleared_below z (a / 2)

pow2-step : (k n : ℕ) → k ≡ suc n → pow2 k ≡ 2 * pow2 n
pow2-step k n e = ap pow2 e

pow2_pos : (n : ℕ) → 0 < pow2 n
pow2_pos zero = omega arith
pow2_pos (suc n) = omega (arith, pow2_pos n)

mask_of-pow2 : (z n : ℕ) → mask_of z n + pow2 z ≡ pow2 (z + n)
mask_of-pow2 zero zero = refl
mask_of-pow2 zero (suc n) =
    omega (arith, mask_of-pow2 zero n, pow2-step (0 + suc n) (0 + n) (omega arith))
mask_of-pow2 (suc z) n =
    omega (arith, mask_of-pow2 z n, pow2-step (suc z + n) (z + n) (omega arith))

band-mask_of : (w z n a : ℕ) → w ≡ z + n → a < pow2 w → band w a (mask_of z n) ≡ cleared_below z a
unfolding band
band-mask_of zero zero zero a e h = omega arith
band-mask_of (suc w) zero zero a e h = absurd (omega arith)
band-mask_of zero zero (suc n) a e h = absurd (omega arith)
band-mask_of (suc w) zero (suc n) a e h =
    let rest = band-mask_of w zero n (a / 2) (omega arith) (omega arith) in
    let half : (1 + 2 * mask_of zero n) / 2 ≡ mask_of zero n = omega arith in
    let low : (1 + 2 * mask_of zero n) % 2 ≡ 1 = omega arith in rw (half, low, rest) (omega arith)
band-mask_of zero (suc z) n a e h = absurd (omega arith)
band-mask_of (suc w) (suc z) n a e h =
    let rest = band-mask_of w z n (a / 2) (omega arith) (omega arith) in
    let half : 2 * mask_of z n / 2 ≡ mask_of z n = omega arith in
    let low : 2 * mask_of z n % 2 ≡ 0 = omega arith in rw (half, low, rest) (omega arith)

pow2_at : (z n : ℕ) → z + n ≡ 32 → mask_of z n + pow2 z ≡ 2 ^ 32
pow2_at z n e = mask_of-pow2 z n ∙ ap pow2 e

count_ones-mask_of :
    (fuel z n cidr : ℕ)
    → n < fuel
    → z + n ≡ 32
    → count_ones fuel (mask_of z n) cidr ≡ some (cidr + n)
unfolding count_ones
count_ones-mask_of zero z n cidr lt h = absurd (omega arith)
count_ones-mask_of (suc fuel) z zero cidr lt h =
    let full : pow2 z ≡ 2 ^ 32 = ap pow2 (z_32 z h) in
    let none_set : mask_of z 0 ≡ 0 = omega (arith, pow2_at z 0 h) in
    rw (none_set) (ap some (omega arith))
  where
    z_32 : (z : ℕ) → z + 0 ≡ 32 → z ≡ 32
    z_32 z h = omega arith
count_ones-mask_of (suc fuel) z (suc n) cidr lt h =
    let top = pow2_at z (suc n) h in
    let pos = pow2_pos z in
    let next = pow2_at (suc z) n (omega arith) in
    let bit : mask_of z (suc n) / 2 ^ 31 % 2 ≡ 1 = omega arith in
    let shifted : mask_of z (suc n) * 2 % 2 ^ 32 ≡ mask_of (suc z) n = omega arith in
    rw (bit, shifted)
      (count_ones-mask_of fuel (suc z) n (cidr + 1) (omega arith) (omega arith)
        ∙ ap some (omega arith))

-- Where br1 has an address and a mask of `ones` leading bits, the result is the address with the other
-- bits cleared and the prefix length `ones`; the loop over the mask ends.
lan_of_prefix :
    (ip zeros ones : ℕ) (b : Bridge)
    → b.socket_ok ≡ true
    → b.flags_ok ≡ true
    → b.ip_net ≡ some ip
    → b.mask_net ≡ some (mask_of zeros ones)
    → ip < 2 ^ 32
    → zeros + ones ≡ 32
    → get_br1_lan_addr b ≡ some (cleared_below zeros ip, ones)
unfolding get_br1_lan_addr
lan_of_prefix ip zeros ones b s f i m small h =
    let width : 32 ≡ zeros + ones = omega arith in
    rw (s, f, i, m)
      (rw (count_ones-mask_of 33 zeros ones 0 (omega arith) h) (
        ap₂ (λ net cidr. some (net, cidr)) (band-mask_of 32 zeros ones ip width (omega arith))
          (omega arith)))
