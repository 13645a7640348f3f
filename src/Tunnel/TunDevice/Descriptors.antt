-- ===== src/Tunnel/TunDevice/Descriptors.antt =====
-- Which descriptors `create_tun_device` (script/tun-vpn/ustun.c) leaves open.
use config_env.Prelude.{
  [], ℕ, ◌+◌, List, ◌∷◌, ◌≡◌, refl, ◌∙◌, ap, ◌⊎◌, inl, inr, Option, none, some, length, arith,
  Option-cases,
}
use config_env.Tunnel.TunDevice.{Queue, close, close_all, open_queues, create_tun_device}

close-head : (n : ℕ) (ns : List ℕ) → close n (n ∷ ns) ≡ ns
close-head n ns = ground arith

close_all_self : (ns : List ℕ) → close_all ns ns ≡ []
unfolding close_all
close_all_self [] = refl
close_all_self (n ∷ ns) = ap (close_all ns) (close-head n ns) ∙ close_all_self ns

open_queues-all :
    (qs : List Queue) (err : Option ℕ) (fds : List ℕ)
    → (((open_queues qs err fds fds).result ≡ some 0)
        × (length (open_queues qs err fds fds).tun_fds ≡ length fds + length qs))
      ⊎ ((open_queues qs err fds fds).tun_fds ≡ [])
unfolding open_queues
open_queues-all [] err fds = inl (refl, omega arith)
open_queues-all (q ∷ qs) err fds = elim (Option-cases q.opened) [
  | inl e ↦ ground (arith, close_all_self fds)
  | inr (n, e) ↦
      ground
        (arith, close_all_self fds, close-head n fds, open_queues-all qs (some q.ioctl) (n ∷ fds))
]

-- The function opens all the queues and returns 0, or it leaves none of them open: whichever `open` or
-- `ioctl` fails, every descriptor that was opened before is closed again.
all_or_none :
    (qs : List Queue)
    → (((create_tun_device qs).result ≡ some 0)
        × (length (create_tun_device qs).tun_fds ≡ length qs))
      ⊎ ((create_tun_device qs).tun_fds ≡ [])
unfolding create_tun_device
all_or_none qs = ground (arith, open_queues-all qs none [])

-- Where the very first `open` fails, the value returned was never set.
pub first_open_fails :
    (q : Queue) (qs : List Queue) → q.opened ≡ none → (create_tun_device (q ∷ qs)).result ≡ none
unfolding create_tun_device open_queues
first_open_fails q qs e = ground arith
