-- ===== src/Tunnel/Tests/Rings.antt =====
-- Examples for the theorems on script/tun-vpn/ustun.c with `USE_IO_URING`.
use config_env.Prelude.{[], ℕ, ◌∷◌, ◌≡◌, refl, pos, negsuc, arith}
use config_env.Tunnel.IoUring.{Completion, polls}
use config_env.Tunnel.IoUring.Polls.{polls-all_packets}
use config_env.Tunnel.IoUring.Failures.{Twice, failure-Twice}

abbrev read : (idx len : ℕ) → Completion
read idx len = record { user_data = idx; res = pos len }

polls-all_packets_example :
    polls ((read 3 60 ∷ read 4 52 ∷ []) ∷ [] ∷ (read 3 40 ∷ []) ∷ []) []
    ≡ ((3, 60) ∷ (4, 52) ∷ (3, 40) ∷ [], [])
polls-all_packets_example =
    polls-all_packets ((read 3 60 ∷ read 4 52 ∷ []) ∷ [] ∷ (read 3 40 ∷ []) ∷ []) refl

-- The read of buffer 2 fails with -EAGAIN.
abbrev again : Completion
again = record { user_data = 2; res = negsuc 10 }

failure-Twice_example : Twice 3 60 (polls ((again ∷ read 3 60 ∷ []) ∷ [] ∷ []) []).0
failure-Twice_example = failure-Twice (again ∷ []) [] 3 59 (omega arith)
