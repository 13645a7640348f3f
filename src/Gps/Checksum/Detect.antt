-- ===== src/Gps/Checksum/Detect.antt =====
-- What the checksum of script/gps/main.c detects.
use config_env.Prelude.{
  [], ℕ, zero, suc, ◌+◌, ◌-◌, ◌*◌, ◌/◌, ◌%◌, ◌<◌, List, ◌∷◌, ◌++◌, ◌≡◌, refl, ap, ap₂, ◌∙◌, ◌≢◌,
  true, false, ◌&&◌, ◌==◌, get_or, take-append, length, length-append, arith,
}
use config_env.Gps.Checksum.{fletcher, do_checksum}

-- The sums that the two bytes stand for: of the bytes, and of the bytes with their weights.
pub sum : List ℕ → ℕ
sum [] = 0
sum (x ∷ xs) = x + sum xs

pub weighted : List ℕ → ℕ
weighted [] = 0
weighted (x ∷ xs) = suc (length xs) * x + weighted xs

get_or-append : (xs : List ℕ) (i k a b : ℕ) → i ≡ length xs → get_or (xs ++ (a ∷ b ∷ [])) i k ≡ a
get_or-append [] zero k a b h = refl
get_or-append [] (suc i) k a b h = absurd (omega arith)
get_or-append (x ∷ xs) zero k a b h = absurd (omega arith)
get_or-append (x ∷ xs) (suc i) k a b h = get_or-append xs i k a b (omega arith)

get_or-append_next :
    (xs : List ℕ) (i k a b : ℕ) → i ≡ suc (length xs) → get_or (xs ++ (a ∷ b ∷ [])) i k ≡ b
get_or-append_next [] zero k a b h = absurd (omega arith)
get_or-append_next [] (suc zero) k a b h = refl
get_or-append_next [] (suc (suc i)) k a b h = absurd (omega arith)
get_or-append_next (x ∷ xs) zero k a b h = absurd (omega arith)
get_or-append_next (x ∷ xs) (suc i) k a b h = get_or-append_next xs i k a b (omega arith)

-- `do_checksum` on a body with two bytes behind it compares those with the checksum of the body.
pub do_checksum-append :
    (body : List ℕ) (a b n : ℕ)
    → n ≡ length body + 2
    → do_checksum (body ++ (a ∷ b ∷ [])) n
      ≡ ((fletcher body 0 0).0 == a && (fletcher body 0 0).1 == b)
unfolding do_checksum
do_checksum-append body a b n h = rw (
  take-append body (a ∷ b ∷ []) (n - 2) (omega arith),
  get_or-append body (n - 2) 0 a b (omega arith),
  get_or-append_next body (n - 1) 0 a b (omega arith),
)

fletcher-sum : (xs : List ℕ) (a b : ℕ) → (fletcher xs a b).0 % 256 ≡ (a + sum xs) % 256
unfolding fletcher sum
fletcher-sum [] a b = omega arith
fletcher-sum (x ∷ xs) a b =
    omega (arith, fletcher-sum xs ((a + x) % 256) ((b + (a + x) % 256) % 256))

-- The second byte is the weighted sum: a swap of two bytes shows there.
fletcher-weighted :
    (xs : List ℕ) (a b : ℕ) → (fletcher xs a b).1 % 256 ≡ (b + length xs * a + weighted xs) % 256
unfolding fletcher weighted
fletcher-weighted [] a b = omega arith
fletcher-weighted (x ∷ xs) a b =
    let e : a + x ≡ (a + x) / 256 * 256 + (a + x) % 256 = omega arith in
    omega (
      arith,
      ap (λ (t : ℕ). length xs * t) e,
      fletcher-weighted xs ((a + x) % 256) ((b + (a + x) % 256) % 256),
    )

fletcher-lt :
    (xs : List ℕ) (a b : ℕ)
    → a < 256
    → b < 256
    → ((fletcher xs a b).0 < 256) × ((fletcher xs a b).1 < 256)
unfolding fletcher
fletcher-lt [] a b h k = (h, k)
fletcher-lt (x ∷ xs) a b h k =
    fletcher-lt xs ((a + x) % 256) ((b + (a + x) % 256) % 256) (omega arith) (omega arith)

-- The checksum in closed form: the sum of the bytes, and their sum weighted by the number of bytes
-- from each one to the end, both modulo 256.
pub fletcher_closed : (xs : List ℕ) → fletcher xs 0 0 ≡ (sum xs % 256, weighted xs % 256)
fletcher_closed xs =
    ap₂ (λ (a b : ℕ). (a, b)) (omega (arith, fletcher-sum xs 0 0, fletcher-lt xs 0 0))
      (omega (arith, fletcher-weighted xs 0 0, fletcher-lt xs 0 0))

sum-append : (xs ys : List ℕ) → sum (xs ++ ys) ≡ sum xs + sum ys
unfolding sum
sum-append [] ys = omega arith
sum-append (x ∷ xs) ys = omega (arith, sum-append xs ys)

weighted-append :
    (xs ys : List ℕ) → weighted (xs ++ ys) ≡ weighted xs + length ys * sum xs + weighted ys
unfolding weighted sum
weighted-append [] ys = omega arith
weighted-append (x ∷ xs) ys =
    omega (
      arith,
      weighted-append xs ys,
      length-append xs ys,
      ap (λ (t : ℕ). t * x) (length-append xs ys),
    )

-- What `do_checksum` says of a body with a checksum behind it, in closed form.
pub do_checksum_closed :
    (body : List ℕ) (a b : ℕ)
    → do_checksum (body ++ (a ∷ b ∷ [])) (length body + 2)
      ≡ (sum body % 256 == a && weighted body % 256 == b)
do_checksum_closed body a b = do_checksum-append body a b _ refl ∙ rw (fletcher_closed body)

-- A single byte that is received as another one is detected: if the frame with `x` passes, the same
-- frame with any other byte `y` in its place does not.
pub corrupted_byte :
    (front back : List ℕ) (x y a b : ℕ)
    → x < 256
    → y < 256
    → x ≢ y
    → do_checksum ((front ++ x ∷ back) ++ (a ∷ b ∷ [])) (length (front ++ x ∷ back) + 2) ≡ true
    → do_checksum ((front ++ y ∷ back) ++ (a ∷ b ∷ [])) (length (front ++ y ∷ back) + 2) ≡ false
unfolding sum
corrupted_byte front back x y a b hx hy ne ok = rw (do_checksum_closed (front ++ y ∷ back) a b) (
    ground (
      arith,
      rw (do_checksum_closed (front ++ x ∷ back) a b) at ok,
      sum-append front (x ∷ back),
      sum-append front (y ∷ back),
    ))

-- Two neighbouring bytes that differ and are received in the wrong order are detected, although
-- their sum is the same: the second checksum byte weighs each byte by its place.
swapped_bytes :
    (front back : List ℕ) (x y a b : ℕ)
    → x < 256
    → y < 256
    → x ≢ y
    → do_checksum ((front ++ x ∷ y ∷ back) ++ (a ∷ b ∷ [])) (length (front ++ x ∷ y ∷ back) + 2)
      ≡ true
    → do_checksum ((front ++ y ∷ x ∷ back) ++ (a ∷ b ∷ [])) (length (front ++ y ∷ x ∷ back) + 2)
      ≡ false
unfolding sum weighted
swapped_bytes front back x y a b hx hy ne ok = rw (do_checksum_closed (front ++ y ∷ x ∷ back) a b) (
    ground (
      arith,
      rw (do_checksum_closed (front ++ x ∷ y ∷ back) a b) at ok,
      weighted-append front (x ∷ y ∷ back),
      weighted-append front (y ∷ x ∷ back),
    ))
