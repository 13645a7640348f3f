-- ===== src/Tunnel/TunDevice.antt =====
-- script/tun-vpn/ustun.c: `create_tun_device`, up to the commands for the shell.
pub mod Descriptors
use config_env.Prelude.{[], ℕ, List, ◌∷◌, ◌==◌, if◌then◌else◌, Option, none, some}

-- One queue: what `open` gives, `none` for a negative number, and what `ioctl` returns.
pub record Queue : Type 0 where
  pub opened : Option ℕ
  pub ioctl : ℕ

-- The value returned, `none` where `err` was never set, and the descriptors that are open then. A
-- non-zero `err` is an error.
pub record Created : Type 0 where
  pub result : Option ℕ
  pub tun_fds : List ℕ

abbrev pub close : ℕ → List ℕ → List ℕ
close n [] = []
close n (m ∷ ms) = if m == n then ms else m ∷ close n ms

-- The loop at `err`: all the queues' descriptors, the last one first. `open_fds` are all that are open.
unfoldable pub close_all : List ℕ → List ℕ → List ℕ
close_all [] open_fds = open_fds
close_all (n ∷ ns) open_fds = close_all ns (close n open_fds)

-- The loop over the queues: `err`, the queues' descriptors, the last one first, and all that are open.
unfoldable pub open_queues : List Queue → Option ℕ → List ℕ → List ℕ → Created
unfolding close_all
open_queues [] err fds open_fds = record { result = some 0; tun_fds = open_fds }
open_queues (q ∷ qs) err fds open_fds = elim q.opened [
  | none ↦ record { result = err; tun_fds = close_all fds open_fds }
  | some n ↦
      let rest = open_queues qs (some q.ioctl) (n ∷ fds) (n ∷ open_fds) in
      if q.ioctl == 0
      then rest
      else record { result = some q.ioctl; tun_fds = close_all fds (close n (n ∷ open_fds)) }
]

unfoldable pub create_tun_device : List Queue → Created
unfolding open_queues
create_tun_device queues = open_queues queues none [] []
