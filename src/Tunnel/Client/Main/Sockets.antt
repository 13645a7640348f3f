-- ===== src/Tunnel/Client/Main/Sockets.antt =====
-- Which sockets script/tun-vpn/uctun.c opens, and that it closes the others.
use config_env.Prelude.{
  [], ℕ, ◌<◌, List, ◌∷◌, ◌≡◌, refl, map, ◌&&◌, ◌==◌, if◌then◌else◌, Option, none, some, arith, ap,
  inl, inr, Bool-cases, Option-cases, not, ltb,
}
use config_env.Tunnel.Client.Main.{
  Modem, Opened, failed, ready, with_modem, open_modems, open_sockets,
}

-- The modem's socket, if it is bound to the modem.
abbrev pub bound : Modem → Option ℕ
bound m = if m.rcvbuf && m.sndbuf && m.bind then m.socket else none

-- The descriptors of some sockets before others, the last one first.
abbrev added : List (Option ℕ) → List ℕ → List ℕ
added [] fds = fds
added (none ∷ socks) fds = added socks fds
added (some fd ∷ socks) fds = added socks (fd ∷ fds)

-- What a result of the loop says, if it is not the end of the program.
abbrev Correct : List Modem → List ℕ → Opened → Type 0
Correct ms fds (failed fds') = Unit {0}
Correct ms fds (ready socks cnt fds') = (socks ≡ map bound ms) × (fds' ≡ added (map bound ms) fds)

skipped-Correct :
    (m : Modem) (ms : List Modem) (fds : List ℕ) (r : Opened)
    → bound m ≡ none
    → Correct ms fds r
    → Correct (m ∷ ms) fds (with_modem none 0 r)
skipped-Correct m ms fds (failed fds') e v = tt
skipped-Correct m ms fds (ready socks cnt fds') e (s, f) = rw e (ap (λ l. none ∷ l) s, f)

added-Correct :
    (m : Modem) (ms : List Modem) (fds : List ℕ) (fd n : ℕ) (r : Opened)
    → bound m ≡ some fd
    → Correct ms (fd ∷ fds) r
    → Correct (m ∷ ms) fds (with_modem (some fd) n r)
added-Correct m ms fds fd n (failed fds') e v = tt
added-Correct m ms fds fd n (ready socks cnt fds') e (s, f) = rw e (ap (λ l. some fd ∷ l) s, f)

by_calls :
    (m : Modem) (ms : List Modem) (fds : List ℕ) (fd : ℕ)
    → m.socket ≡ some fd
    → Correct ms fds (open_modems ms fds)
    → Correct ms (fd ∷ fds) (open_modems ms (fd ∷ fds))
    → Correct (m ∷ ms) fds (
        let left_out = open_modems ms fds in
        let bound = open_modems ms (fd ∷ fds) in
        if not m.rcvbuf
        then with_modem none 0 left_out
        else if not m.sndbuf
        then with_modem none 0 left_out
        else if not m.bind
        then with_modem none 0 left_out
        else with_modem (some fd) (if ltb 0 fd then 1 else 0) bound)
by_calls m ms fds fd e skip add = elim (Bool-cases m.rcvbuf) [
  | inr r ↦ simp r (skipped-Correct m ms fds (open_modems ms fds) (rw r refl) skip)
  | inl r ↦ elim (Bool-cases m.sndbuf) [
    | inr w ↦ simp (r, w) (skipped-Correct m ms fds (open_modems ms fds) (rw (r, w) refl) skip)
    | inl w ↦ elim (Bool-cases m.bind) [
      | inr b ↦
          simp (r, w, b) (skipped-Correct m ms fds (open_modems ms fds) (rw (r, w, b) refl) skip)
      | inl b ↦
          simp (r, w, b)
            (added-Correct m ms fds fd (if ltb 0 fd then 1 else 0) (open_modems ms (fd ∷ fds))
              (rw (r, w, b) e) add)
    ]
  ]
]

open_modems-Correct : (ms : List Modem) (fds : List ℕ) → Correct ms fds (open_modems ms fds)
unfolding open_modems
open_modems-Correct [] fds = (refl, refl)
open_modems-Correct (m ∷ ms) fds = elim (Option-cases m.socket) [
  | inl no_socket ↦ simp no_socket tt
  | inr (fd, e) ↦
      simp e
        (by_calls m ms fds fd e (open_modems-Correct ms fds) (open_modems-Correct ms (fd ∷ fds)))
]

from_modems :
    (ms : List Modem) (fds fds' : List ℕ) (socks : List (Option ℕ)) (cnt : ℕ) (r : Opened)
    → Correct ms fds r
    → elim r [
      | failed open_fds ↦ failed open_fds
      | ready socks' cnt' open_fds ↦
          if cnt' == 0 then failed open_fds else ready socks' cnt' open_fds
    ]
      ≡ ready socks cnt fds'
    → (socks ≡ map bound ms) × (fds' ≡ added (map bound ms) fds) × (0 < cnt)
from_modems ms fds fds' socks cnt (failed open_fds) v e = cc
from_modems ms fds fds' socks cnt (ready socks' cnt' open_fds) (s, f) e = ground arith

-- When a client starts, `sock_apn` holds the sockets that are bound to their modems, and no other, and
-- there is at least one. The descriptors that it leaves open are those: each that could not be set up
-- was closed.
pub only_bound_sockets :
    (ms : List Modem) (fds fds' : List ℕ) (socks : List (Option ℕ)) (cnt : ℕ)
    → open_sockets ms fds ≡ ready socks cnt fds'
    → (socks ≡ map bound ms) × (fds' ≡ added (map bound ms) fds) × (0 < cnt)
unfolding open_sockets
only_bound_sockets ms fds fds' socks cnt e =
    from_modems ms fds fds' socks cnt (open_modems ms fds) (open_modems-Correct ms fds) e
