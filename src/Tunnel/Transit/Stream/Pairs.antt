-- ===== src/Tunnel/Transit/Stream/Pairs.antt =====
-- The two copies of one packet of a run (script/tun-vpn/uctun.c, ustun.c).
use config_env.Prelude.{
  [], ℕ, suc, ◌+◌, ◌-◌, ◌%◌, ◌^◌, ◌≤◌, ◌<◌, List, ◌∷◌, ◌≡◌, ◌∙◌, ap, sym, subst, ◌≢◌, take, length,
  min, arith,
}
use config_env.Tunnel.Wire.{buffer_size, pkt_offset, seq_map_size, conn_timeout, magic_num}
use config_env.Tunnel.Dedup.{Dedup}
use config_env.Tunnel.Server.{Datagram}
use config_env.Tunnel.Server.Batch.{Arrival, IsPlain, content, passed}
use config_env.Tunnel.Server.Batch.Once.{InWindow, mark, duplicate-seen, duplicate-new}
use config_env.Tunnel.Client.Main.{ClientRan, crashed, ran, then_more}
use config_env.Tunnel.Transit.{arrive}
use config_env.Tunnel.Transit.Upstream.{arrived-bytes, arrive-header, arrive-IsData}
use config_env.Tunnel.Transit.Stream.{Ahead, Passes, Streams}

pub Ahead-mark :
    (n k ts : ℕ) (d : Dedup)
    → n < 2 ^ 16
    → suc k ≤ seq_map_size
    → Ahead n (suc k) d
    → Ahead ((n + 1) % 2 ^ 16) k (mark n ts d)
Ahead-mark n k ts d small most ahead x w =
    ground (arith, ahead x (wider n k x small most w), other n k x small most w)
  where
    wider :
        (n k x : ℕ)
        → n < 2 ^ 16
        → suc k ≤ seq_map_size
        → InWindow ((n + 1) % 2 ^ 16) k x
        → InWindow n (suc k) x
    wider n k x small most w = omega arith

    other :
        (n k x : ℕ)
        → n < 2 ^ 16
        → suc k ≤ seq_map_size
        → InWindow ((n + 1) % 2 ^ 16) k x
        → x % seq_map_size ≢ n % seq_map_size
    other n k x small most w e = omega arith

-- Two copies of a packet: the first one passes, the second one does not.
two_copies :
    (t n : ℕ) (a b : Arrival) (batch : List Arrival) (d : Dedup)
    → t ≤ d.last_update
    → t ≤ a.ts
    → a.ts ≤ t + conn_timeout
    → b.ts ≤ t + conn_timeout
    → a.message.header.seq ≡ n
    → b.message.header.seq ≡ n
    → d.seq_map (n % seq_map_size) ≢ n
    → passed (a ∷ b ∷ batch) d ≡ content a.message ∷ passed batch (mark n a.ts d)
unfolding passed
two_copies t n a b batch d recent from to to' na nb fresh =
    let new = duplicate-new t d n a.ts recent to (ground arith) in
    let seen = duplicate-seen t (mark n a.ts d) n b.ts from to' (ground arith) in
    rw (na, nb, new) (rw seen)

-- A datagram with the first `len` bytes of a payload.
pub record Holds (n len : ℕ) (payload : List ℕ) (d : Datagram) : Type 0 where
  pub magic : d.header.magic ≡ magic_num
  pub gw : d.header.gw ≡ 1
  pub seq : d.header.seq ≡ n
  pub whole : d.header.fec_rs ≡ 0
  pub bytes : d.bytes ≡ take (len % 2 ^ 16) payload

Holds-IsPlain :
    (n len : ℕ) (payload stale : List ℕ) (d : Datagram)
    → Holds n len payload d
    → IsPlain (arrive d stale)
Holds-IsPlain n len payload stale d h = record {
  is_data = arrive-IsData d stale h.magic h.gw;
  no_shard = ap (λ g. g.fec_rs) (arrive-header d stale) ∙ h.whole;
}

module _ (t n k len : ℕ) (payload : List ℕ) (small : n < 2 ^ 16) (most : suc k ≤ seq_map_size)
    (fits : len ≤ buffer_size) (there : len ≤ length payload) where
  carried_pair :
      (d1 d2 : Datagram) (outs : List (List ℕ)) (d : Dedup) (out : List Datagram)
      → Holds n len payload d1
      → Holds n len payload d2
      → t ≤ d.last_update
      → Ahead n (suc k) d
      → ((ts : ℕ) → t ≤ ts → Passes t outs (mark n ts d) out)
      → Passes t (take (min len (buffer_size - pkt_offset)) payload ∷ outs) d (d1 ∷ d2 ∷ out)
  carried_pair d1 d2 outs d out h1 h2 recent ahead rest [] carried = absurd carried
  carried_pair d1 d2 outs d out h1 h2 recent ahead rest (a ∷ []) carried = absurd carried.4
  carried_pair d1 d2 outs d out h1 h2 recent ahead rest (a ∷ b ∷ batch)
        (s1, e1, from1, to1, (s2, e2, from2, to2, carried)) =
      let later = rest a.ts from1 batch carried in
      let seq1 = ap (λ m. m.header.seq) e1 ∙ ap (λ g. g.seq) (arrive-header d1 s1) ∙ h1.seq in
      let seq2 = ap (λ m. m.header.seq) e2 ∙ ap (λ g. g.seq) (arrive-header d2 s2) ∙ h2.seq in
      let plain1 = subst IsPlain (sym e1) (Holds-IsPlain n len payload s1 d1 h1) in
      let plain2 = subst IsPlain (sym e2) (Holds-IsPlain n len payload s2 d2 h2) in
      (
        (plain1, (plain2, later.0)),
        two_copies t n a b batch d recent from1 to1 to2 seq1 seq2 (ahead n (omega arith))
            ∙ ap (λ bytes. bytes ∷ passed batch (mark n a.ts d))
                (ap content e1 ∙ arrived-bytes d1 s1 payload len fits there h1.bytes)
            ∙ ap (λ rest. take (min len (buffer_size - pkt_offset)) payload ∷ rest) later.1,
      )

  pub pair-Streams :
      (d1 d2 : Datagram) (outs : List (List ℕ)) (d : Dedup) (r : ClientRan)
      → Holds n len payload d1
      → Holds n len payload d2
      → t ≤ d.last_update
      → Ahead n (suc k) d
      → ((ts : ℕ) → t ≤ ts → Streams t outs (mark n ts d) r)
      → Streams t
          (take (min len (buffer_size - pkt_offset)) payload ∷ outs)
          d
          (then_more (d1 ∷ d2 ∷ []) r)
  pair-Streams d1 d2 outs d crashed h1 h2 recent ahead rest = tt
  pair-Streams d1 d2 outs d (ran out ended c) h1 h2 recent ahead rest =
      carried_pair d1 d2 outs d out h1 h2 recent ahead rest
