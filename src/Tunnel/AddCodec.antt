-- ===== src/Tunnel/AddCodec.antt =====
-- A codec that meets what the tunnel relies on: its parity shard is the sum of the data shards, byte by
-- byte. The tests run the tunnel with it.
use config_env.Prelude.{
  [], ℕ, zero, suc, ◌+◌, ◌-◌, ◌%◌, ◌<◌, List, ◌∷◌, ◌≡◌, refl, ◌∙◌, sym, ap, ap₂, Bool, true, false,
  length, replicate, all_of, ltb, arith,
}
use config_env.Tunnel.Codec.{Shard, AllBytes, IsShard, Codec, IsCodec}

abbrev pub add : Shard → Shard → Shard
add [] ys = []
add (x ∷ xs) [] = []
add (x ∷ xs) (y ∷ ys) = (x + y) % 256 ∷ add xs ys

-- The summand of `ps` beside `xs`.
abbrev pub rest_of : Shard → Shard → Shard
rest_of [] xs = []
rest_of (p ∷ ps) [] = []
rest_of (p ∷ ps) (x ∷ xs) = (p + 256 - x) % 256 ∷ rest_of ps xs

abbrev pub encode_rows : List Shard → Bool × List Shard
encode_rows (a ∷ b ∷ x ∷ []) = (true, a ∷ b ∷ add a b ∷ [])
encode_rows rows = (false, rows)

abbrev pub restore_second : List Shard → Bool × List Shard
restore_second (a ∷ x ∷ p ∷ []) = (true, a ∷ rest_of p a ∷ p ∷ [])
restore_second rows = (false, rows)

abbrev pub restore_first : List Shard → Bool × List Shard
restore_first (x ∷ b ∷ p ∷ []) = (true, rest_of p b ∷ b ∷ p ∷ [])
restore_first rows = (false, rows)

abbrev pub decode_rows : List Shard → List ℕ → Bool × List Shard
decode_rows rows (zero ∷ zero ∷ m ∷ []) = (true, rows)
decode_rows rows (zero ∷ suc m ∷ zero ∷ []) = restore_second rows
decode_rows rows (suc m ∷ zero ∷ zero ∷ []) = restore_first rows
decode_rows rows marks = (false, rows)

abbrev pub add_codec : Codec
add_codec = record { encode = encode_rows; decode = decode_rows }

pub length-add : (xs ys : Shard) → length xs ≡ length ys → length (add xs ys) ≡ length xs
length-add [] ys h = refl
length-add (x ∷ xs) [] h = absurd (omega arith)
length-add (x ∷ xs) (y ∷ ys) h = ap suc (length-add xs ys (omega arith))

pub add-AllBytes : (xs ys : Shard) → AllBytes (add xs ys)
add-AllBytes [] ys = tt
add-AllBytes (x ∷ xs) [] = tt
add-AllBytes (x ∷ xs) (y ∷ ys) = (omega arith, add-AllBytes xs ys)

pub rest_of-add_left :
    (xs ys : Shard)
    → length xs ≡ length ys
    → AllBytes xs
    → AllBytes ys
    → rest_of (add xs ys) xs ≡ ys
rest_of-add_left [] [] h vx vy = refl
rest_of-add_left [] (y ∷ ys) h vx vy = absurd (omega arith)
rest_of-add_left (x ∷ xs) [] h vx vy = absurd (omega arith)
rest_of-add_left (x ∷ xs) (y ∷ ys) h (bx, vx) (by, vy) =
    ap₂ (λ b bs. b ∷ bs) (omega arith) (rest_of-add_left xs ys (omega arith) vx vy)

pub add_comm : (xs ys : Shard) → add xs ys ≡ add ys xs
add_comm [] [] = refl
add_comm [] (y ∷ ys) = refl
add_comm (x ∷ xs) [] = refl
add_comm (x ∷ xs) (y ∷ ys) = ap₂ (λ b bs. b ∷ bs) (omega arith) (add_comm xs ys)

unfoldable pub add_codec_laws : IsCodec add_codec
add_codec_laws = record {
  parity = add;
  encodes = λ a b x va vb. refl;
  parity-IsShard = λ a b va vb. record {
    size = length-add a b (va.size ∙ sym vb.size) ∙ va.size;
    bytes = add-AllBytes a b;
  };
  keeps = λ a b x va vb. refl;
  restores_second = λ a b x va vb.
      ap (λ s. (true, a ∷ s ∷ add a b ∷ []))
        (rest_of-add_left a b (va.size ∙ sym vb.size) va.bytes vb.bytes);
  restores_first = λ a b x va vb.
      ap (λ s. (true, s ∷ b ∷ add a b ∷ []))
        (ap (λ p. rest_of p b) (add_comm a b)
          ∙ rest_of-add_left b a (vb.size ∙ sym va.size) vb.bytes va.bytes);
  refuses_first = λ shards. refl;
  refuses_second = λ shards. refl;
  refuses_parity = λ shards. refl;
}

AllBytes-replicate : (n x : ℕ) → x < 256 → AllBytes (replicate n x)
AllBytes-replicate zero x h = tt
AllBytes-replicate (suc n) x h = (h, AllBytes-replicate n x h)

-- A shard that repeats one byte.
abbrev pub shard : ℕ → Shard
shard x = replicate 750 x

pub shard-IsShard : (x : ℕ) → x < 256 → IsShard (shard x)
shard-IsShard x h = record { size = refl; bytes = AllBytes-replicate 750 x h }

-- A shard whose bytes a test finds in range.
pub tested-IsShard : (s : Shard) → length s ≡ 750 → all_of (λ x. ltb x 256) s ≡ true → IsShard s
tested-IsShard s e h = record { size = e; bytes = tested s h }
  where
    tested : (s : Shard) → all_of (λ x. ltb x 256) s ≡ true → AllBytes s
    tested [] h = tt
    tested (x ∷ xs) h = (ground arith, tested xs (ground arith))
