-- ===== src/Tunnel/Client/Batch.antt =====
-- script/tun-vpn/uctun.c: the loop over a batch of messages in `receiver_thread`.
use config_env.Prelude.{
  [], ℕ, ◌%◌, ◌^◌, ◌≤◌, ◌<◌, List, ◌∷◌, ◌≡◌, ◌≢◌, refl, ◌∙◌, ap, subst, if◌then◌else◌, none, some,
  arith,
}
use config_env.Tunnel.Wire.{seq_map_size}
use config_env.Tunnel.Codec.{Codec}
use config_env.Tunnel.Dedup
use config_env.Tunnel.Server.Batch.{
  Arrival, Wrote, crashed, wrote, then_wrote, content, passed, one_more,
}
use config_env.Tunnel.Server.Batch.Once.{InWindow, first_copies, Timely, passed-first_copies}
use config_env.Tunnel.Client.{Client, fault, next, on_plain, receive}
use config_env.Tunnel.Client.Same.{is_duplicate-server}
use config_env.Tunnel.Client.Delivery.{IsForClient, receive-plain}

-- The sender's address and the allocations of an arrival play no part here.
unfoldable pub receive_batch : Codec → List Arrival → Client → Wrote Client
receive_batch rs [] c = wrote [] c
receive_batch rs (a ∷ batch) c = elim (receive rs a.ts a.message c) [
  | fault ↦ crashed
  | next out c' ↦ then_wrote out (receive_batch rs batch c')
]

-- Whole packets of the server for this client.
abbrev pub AllForClient : List Arrival → Type 0
AllForClient [] = Unit {0}
AllForClient (a ∷ batch) =
    IsForClient a.message × (a.message.header.fec_rs ≡ 0) × AllForClient batch

-- A batch that writes this, whatever state it leaves.
pub record Writes (rs : Codec) (batch : List Arrival) (c : Client) (outs : List (List ℕ))
    : Type 0 where
  pub state : Client
  pub runs : receive_batch rs batch c ≡ wrote outs state

step :
    (rs : Codec) (a : Arrival) (batch : List Arrival) (c : Client)
    → receive rs a.ts a.message c ≡ on_plain a.ts a.message c
    → let d = Dedup.is_duplicate a.message.header.seq a.ts c.dedup in
      receive_batch rs (a ∷ batch) c
      ≡ then_wrote
          (if d.0 then none else some (content a.message))
          (receive_batch rs batch (record c { dedup = d.1 }))
unfolding receive_batch on_plain
step rs a batch c e =
    ap (λ h. elim h [ fault ↦ crashed | next out c' ↦ then_wrote out (receive_batch rs batch c') ])
      e
    ∙ ap
        (λ d.
          then_wrote (if d.0 then none else some (content a.message))
            (receive_batch rs batch (record c { dedup = d.1 })))
        (is_duplicate-server a.message.header.seq a.ts c.dedup)

receive_batch-passed :
    (rs : Codec) (batch : List Arrival) (c : Client)
    → AllForClient batch
    → Writes rs batch c (passed batch c.dedup)
unfolding passed
receive_batch-passed rs [] c plain = record { state = c; runs = empty }
  where
    empty : receive_batch rs [] c ≡ wrote [] c
    empty = unfold receive_batch in refl
receive_batch-passed rs (a ∷ batch) c (for_client, whole, plain) =
    let d = Dedup.is_duplicate a.message.header.seq a.ts c.dedup in
    let rest = receive_batch-passed rs batch (record c { dedup = d.1 }) plain in
    record {
      state = rest.state;
      runs =
          step rs a batch c (receive-plain rs a.ts a.message c for_client whole)
          ∙ one_more d.0 (content a.message) (passed batch d.1) _ rest.state rest.runs;
    }

-- As on the server: whatever the network does to answers whose numbers are among 8192 in a row, the
-- client writes each one that arrives exactly once, at its first arrival over either modem: if they
-- arrive whole and within three minutes, and the table of numbers is younger than that and holds none of
-- the numbers at the start.
pub answers_written-first_copies :
    (rs : Codec) (n t : ℕ) (batch : List Arrival) (c : Client)
    → n < 2 ^ 16
    → AllForClient batch
    → Timely n t batch
    → t ≤ c.dedup.last_update
    → ((x : ℕ) → InWindow n seq_map_size x → c.dedup.seq_map (x % seq_map_size) ≢ x)
    → Writes rs batch c (first_copies [] batch)
answers_written-first_copies rs n t batch c small plain timely recent fresh =
    subst (Writes rs batch c)
      (passed-first_copies n t small batch [] c.dedup timely recent
        (λ x w. ground (arith, fresh x w)))
      (receive_batch-passed rs batch c plain)
