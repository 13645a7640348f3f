-- ===== src/Tunnel/Server/Batch.antt =====
-- script/tun-vpn/ustun.c: the loop over a batch of messages in `receiver_thread`.
pub mod Once
use config_env.Prelude.{
  [], ℕ, ◌-◌, List, ◌∷◌, ◌≡◌, refl, ◌∙◌, ap, Bool, true, false, if◌then◌else◌, Option, none, some,
  take, subst,
}
use config_env.Tunnel.Wire.{pkt_offset, Message}
use config_env.Tunnel.Codec.{Codec}
use config_env.Tunnel.Dedup.{Dedup, is_duplicate}
use config_env.Tunnel.Server.{Server, fault, next, learn, on_plain, receive}
use config_env.Tunnel.Server.Delivery.{IsData, learn-same, receive-plain}

-- A message of the batch, with its sender's address, the time at which it is handled, and whether the
-- two allocations that it may need succeed.
pub record Arrival : Type 0 where
  pub alloc_gw : Bool
  pub alloc_conn : Bool
  pub ts : ℕ
  pub addr : ℕ
  pub message : Message

-- What a run writes to the tun device, in order, and the state after it; `crashed` is a fault.
pub data Wrote (S : Type 0) : Type 0 where
  crashed : Wrote S
  wrote : List (List ℕ) → S → Wrote S

abbrev pub then_wrote : {S : Type 0} → Option (List ℕ) → Wrote S → Wrote S
then_wrote out crashed = crashed
then_wrote none (wrote outs s) = wrote outs s
then_wrote (some bytes) (wrote outs s) = wrote (bytes ∷ outs) s

unfoldable pub receive_batch : Codec → List Arrival → Server → Wrote Server
receive_batch rs [] s = wrote [] s
receive_batch rs (a ∷ batch) s = elim (receive rs a.alloc_gw a.alloc_conn a.ts a.addr a.message s) [
  | fault ↦ crashed
  | next out t ↦ then_wrote out (receive_batch rs batch t)
]

-- A whole packet of the tunnel, not one of its shards, that does not start a client.
pub record IsPlain (m : Message) : Type 0 where
  pub is_data : IsData m
  pub no_shard : m.header.fec_rs ≡ 0

abbrev pub AllPlain : List Arrival → Type 0
AllPlain [] = Unit {0}
AllPlain (a ∷ batch) = IsPlain a.message × AllPlain batch

abbrev pub content : Message → List ℕ
content m = take (m.len - pkt_offset) m.buf

abbrev pub keep_new : Bool → List ℕ → List (List ℕ) → List (List ℕ)
keep_new dup bytes outs = if dup then outs else bytes ∷ outs

-- The packets that the table of numbers lets through.
unfoldable pub passed : List Arrival → Dedup → List (List ℕ)
passed [] d = []
passed (a ∷ batch) d =
    let (dup, d') = is_duplicate a.message.header.seq a.ts d in
    keep_new dup (content a.message) (passed batch d')

-- A batch that writes this, whatever state it leaves.
pub record Writes (rs : Codec) (batch : List Arrival) (s : Server) (outs : List (List ℕ))
    : Type 0 where
  pub state : Server
  pub runs : receive_batch rs batch s ≡ wrote outs state

pub one_more :
    {S : Type 0} (dup : Bool) (bytes : List ℕ) (outs : List (List ℕ)) (w : Wrote S) (t : S)
    → w ≡ wrote outs t
    → then_wrote (if dup then none else some bytes) w ≡ wrote (keep_new dup bytes outs) t
one_more true bytes outs w t e = rw e
one_more false bytes outs w t e = rw e

step :
    (rs : Codec) (a : Arrival) (batch : List Arrival) (s l : Server)
    → receive rs a.alloc_gw a.alloc_conn a.ts a.addr a.message s ≡ on_plain a.ts a.message l
    → receive_batch rs (a ∷ batch) s
      ≡ then_wrote
          (if (is_duplicate a.message.header.seq a.ts l.dedup).0
            then none
            else some (content a.message))
          (receive_batch rs batch
            (record l { dedup = (is_duplicate a.message.header.seq a.ts l.dedup).1 }))
unfolding receive_batch on_plain
step rs a batch s l e =
    ap (λ h. elim h [ fault ↦ crashed | next out t ↦ then_wrote out (receive_batch rs batch t) ]) e

-- What a batch of whole packets writes depends on the table of numbers alone.
pub receive_batch-passed :
    (rs : Codec) (batch : List Arrival) (s : Server)
    → AllPlain batch
    → Writes rs batch s (passed batch s.dedup)
unfolding passed
receive_batch-passed rs [] s plain = record { state = s; runs = empty }
  where
    empty : receive_batch rs [] s ≡ wrote [] s
    empty = unfold receive_batch in refl
receive_batch-passed rs (a ∷ batch) s plain =
    let l = learn a.alloc_gw a.alloc_conn a.ts a.addr a.message s in
    let d = is_duplicate a.message.header.seq a.ts l.dedup in
    let rest = receive_batch-passed rs batch (record l { dedup = d.1 }) plain.1 in
    let same =
      (learn-same a.alloc_gw a.alloc_conn a.ts a.addr a.message s plain.0.is_data.no_start).0 in
    subst (λ d. Writes rs (a ∷ batch) s (passed (a ∷ batch) d)) same
      (record {
        state = rest.state;
        runs =
            step rs a batch s l (
              receive-plain rs a.alloc_gw a.alloc_conn a.ts a.addr a.message s plain.0.is_data
                plain.0.no_shard)
            ∙ one_more d.0 (content a.message) (passed batch d.1) _ rest.state rest.runs;
      })
