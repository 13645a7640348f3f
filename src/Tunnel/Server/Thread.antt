-- ===== src/Tunnel/Server/Thread.antt =====
-- script/tun-vpn/ustun.c: `udp_receiver_thread`, its socket and its loop over the batches.
pub mod Batches
use config_env.Prelude.{
  [], ℕ, ◌+◌, List, ◌∷◌, ◌++◌, Bool, true, false, not, if◌then◌else◌, Option, none, some,
}
use config_env.Tunnel.Codec.{Codec}
use config_env.Tunnel.Server.{Server}
use config_env.Tunnel.Server.Batch.{Arrival, Wrote, crashed, wrote, receive_batch}

-- Whether `reed_solomon_new` gives a codec, the descriptor that `socket` gives, if any, and whether the
-- four options are set and `bind` succeeds.
pub record Calls : Type 0 where
  pub reed_solomon_new : Bool
  pub socket : Option ℕ
  pub so_reuseaddr : Bool
  pub so_reuseport : Bool
  pub so_rcvbuf : Bool
  pub so_sndbuf : Bool
  pub bind : Bool

-- `udp_sock[id]`, 0 at the start; the descriptors that are open; and the codecs that are not released.
pub record Worker : Type 0 where
  pub udp_sock : ℕ
  pub open_fds : List ℕ
  pub codecs : ℕ

abbrev pub close_last : Worker → Worker
close_last w = elim w.open_fds [ [] ↦ w | fd ∷ fds ↦ record w { open_fds = fds } ]

-- What the thread has before its loop, and whether it comes to it.
unfoldable pub set_up : Calls → Worker → Worker × Bool
set_up k w =
    let with_codec = record w { codecs = w.codecs + 1 } in
    if not k.reed_solomon_new then (w, false) else elim k.socket [
      | none ↦ (with_codec, false)
      | some sock ↦
          let with_sock = record with_codec { open_fds = sock ∷ w.open_fds } in
          if not k.so_reuseaddr
          then (close_last with_sock, false)
          else if not k.so_reuseport
          then (close_last with_sock, false)
          else if not k.so_rcvbuf
          then (close_last with_sock, false)
          else if not k.so_sndbuf
          then (close_last with_sock, false)
          else if not k.bind
          then (close_last with_sock, false)
          else (record with_sock { udp_sock = sock }, true)
    ]

-- A call of `recvmmsg`: it fails because there is nothing, or otherwise; or it gives messages.
pub data Received : Type 0 where
  nothing_there : Received
  failed : Received
  batch : List Arrival → Received

abbrev pub prepend : {S : Type 0} → List (List ℕ) → Wrote S → Wrote S
prepend outs crashed = crashed
prepend outs (wrote outs' t) = wrote (outs ++ outs') t

abbrev pub after_wrote : {S T : Type 0} → Wrote S → (S → Wrote T) → Wrote T
after_wrote crashed more = crashed
after_wrote (wrote outs s) more = prepend outs (more s)

-- The loop, until `gl_exit_flag` is set.
unfoldable pub receiver_loop : Codec → List Received → Server → Wrote Server
receiver_loop rs [] s = wrote [] s
receiver_loop rs (nothing_there ∷ calls) s = receiver_loop rs calls s
receiver_loop rs (failed ∷ calls) s = receiver_loop rs calls s
receiver_loop rs (batch arrivals ∷ calls) s =
    after_wrote (receive_batch rs arrivals s) (receiver_loop rs calls)
