-- ===== src/Tunnel/Codec.antt =====
-- The Reed-Solomon codec that script/tun-vpn links in (rs.c over obl/, code of another project), as
-- the tunnel uses it: two data shards and one parity shard of 750 bytes each.
use config_env.Prelude.{[], ℕ, ◌<◌, List, ◌∷◌, ◌≡◌, Bool, true, false, length}
use config_env.Tunnel.Wire.{fec_rs_t}

abbrev pub Shard : Type 0
Shard = List ℕ

abbrev pub AllBytes : Shard → Type 0
AllBytes [] = Unit {0}
AllBytes (x ∷ xs) = (x < 256) × AllBytes xs

-- A full shard of bytes.
pub record IsShard (s : Shard) : Type 0 where
  pub size : length s ≡ fec_rs_t
  pub bytes : AllBytes s

-- Both calls return whether they succeed and the shards as they leave them. `marks` is 1 for a shard
-- that is missing.
pub record Codec : Type 0 where
  pub encode : List Shard → Bool × List Shard
  pub decode : List Shard → List ℕ → Bool × List Shard

-- What the callers rely on: encoding fills in the parity shard and leaves the data; decoding restores
-- the data from any two of the three shards, and refuses when two are missing.
pub record IsCodec (c : Codec) : Type 0 where
  pub parity : Shard → Shard → Shard
  pub encodes :
      (a b x : Shard)
      → IsShard a
      → IsShard b
      → c.encode (a ∷ b ∷ x ∷ []) ≡ (true, a ∷ b ∷ parity a b ∷ [])
  pub parity-IsShard : (a b : Shard) → IsShard a → IsShard b → IsShard (parity a b)
  pub keeps :
      (a b x : Shard)
      → IsShard a
      → IsShard b
      → c.decode (a ∷ b ∷ x ∷ []) (0 ∷ 0 ∷ 1 ∷ []) ≡ (true, a ∷ b ∷ x ∷ [])
  pub restores_second :
      (a b x : Shard)
      → IsShard a
      → IsShard b
      → c.decode (a ∷ x ∷ parity a b ∷ []) (0 ∷ 1 ∷ 0 ∷ []) ≡ (true, a ∷ b ∷ parity a b ∷ [])
  pub restores_first :
      (a b x : Shard)
      → IsShard a
      → IsShard b
      → c.decode (x ∷ b ∷ parity a b ∷ []) (1 ∷ 0 ∷ 0 ∷ []) ≡ (true, a ∷ b ∷ parity a b ∷ [])
  pub refuses_first : (shards : List Shard) → (c.decode shards (0 ∷ 1 ∷ 1 ∷ [])).0 ≡ false
  pub refuses_second : (shards : List Shard) → (c.decode shards (1 ∷ 0 ∷ 1 ∷ [])).0 ≡ false
  pub refuses_parity : (shards : List Shard) → (c.decode shards (1 ∷ 1 ∷ 0 ∷ [])).0 ≡ false
