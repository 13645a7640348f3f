-- ===== src/Tunnel/IoUring.antt =====
-- script/tun-vpn/ustun.c with `USE_IO_URING`: the reads of the tun device by way of liburing's two
-- queues. What the completion queue shows is a parameter.
pub mod Polls
pub mod Failures
use config_env.Prelude.{[], ℕ, zero, suc, ◌+◌, List, ◌∷◌, ◌++◌, ℤ, pos, negsuc, drop}

abbrev pub tun_batch_size : ℕ
tun_batch_size = 32

-- `struct io_uring_cqe`: the index of the packet's buffer, and the bytes that were read or an error.
pub record Completion : Type 0 where
  pub user_data : ℕ
  pub res : ℤ

-- What `io_uring_poll` does: the calls of `send_to_gateway`, each with the buffer's index and the
-- length, the buffers for which a read is put into the submission queue again, and the entries of the
-- completion queue that `io_uring_cq_advance` gives free.
pub record Polled : Type 0 where
  pub handled : List (ℕ × ℕ)
  pub armed : List ℕ
  pub count : ℕ

-- The buffers that `tun_buf_init` arms.
unfoldable pub tun_buf_init : (buffers i : ℕ) → List ℕ
tun_buf_init zero i = []
tun_buf_init (suc buffers) i = i ∷ tun_buf_init buffers (i + 1)

abbrev pub with_packet : ℕ → ℕ → Polled → Polled
with_packet idx len p = record {
  handled = (idx, len) ∷ p.handled;
  armed = idx ∷ p.armed;
  count = p.count + 1;
}

-- One entry, before the later ones: `-EAGAIN` and the other errors, and a read of nothing, are passed
-- over.
abbrev pub poll_entry : ℕ → ℤ → Polled → Polled
poll_entry idx (pos zero) p = p
poll_entry idx (pos (suc n)) p = with_packet idx (suc n) p
poll_entry idx (negsuc n) p = p

-- The loop over the entries of the queue.
unfoldable pub io_uring_poll : List Completion → Polled
io_uring_poll [] = record { handled = []; armed = []; count = 0 }
io_uring_poll (c ∷ cs) = poll_entry c.user_data c.res (io_uring_poll cs)

-- Polls in a row, each after new entries were put behind those that are in the queue: the packets that
-- are handled, and what is left in the queue.
unfoldable pub polls : List (List Completion) → List Completion → List (ℕ × ℕ) × List Completion
unfolding io_uring_poll
polls [] queue = ([], queue)
polls (new ∷ rounds) queue =
    let p = io_uring_poll (queue ++ new) in
    let rest = polls rounds (drop p.count (queue ++ new)) in (p.handled ++ rest.0, rest.1)
