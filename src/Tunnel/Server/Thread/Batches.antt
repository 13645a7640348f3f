-- ===== src/Tunnel/Server/Thread/Batches.antt =====
-- The receiver thread of script/tun-vpn/ustun.c: its set-up, and its loop against one long batch.
use config_env.Prelude.{
  [], ℕ, ◌+◌, List, ◌∷◌, ◌++◌, ◌≡◌, refl, ◌∙◌, sym, ap, fun_ext, Bool, true, false, ◌&&◌,
  if◌then◌else◌, Option, none, some, arith,
}
use config_env.Tunnel.Codec.{Codec}
use config_env.Tunnel.Server.{Server, Handled, fault, next, receive}
use config_env.Tunnel.Server.Batch.{Arrival, Wrote, crashed, wrote, then_wrote, receive_batch}
use config_env.Tunnel.Server.Thread.{
  Calls, Worker, set_up, Received, nothing_there, failed, batch, prepend, after_wrote,
  receiver_loop,
}

-- All the messages, in order.
abbrev pub messages : List Received → List Arrival
messages [] = []
messages (nothing_there ∷ calls) = messages calls
messages (failed ∷ calls) = messages calls
messages (batch arrivals ∷ calls) = arrivals ++ messages calls

pub prepend-nil : {S : Type 0} (w : Wrote S) → prepend [] w ≡ w
prepend-nil crashed = refl
prepend-nil (wrote outs s) = refl

then_wrote-none : {S : Type 0} (w : Wrote S) → then_wrote none w ≡ w
then_wrote-none crashed = refl
then_wrote-none (wrote outs s) = refl

prepend-cons :
    {S : Type 0} (bytes : List ℕ) (outs : List (List ℕ)) (w : Wrote S)
    → prepend (bytes ∷ outs) w ≡ then_wrote (some bytes) (prepend outs w)
prepend-cons bytes outs crashed = refl
prepend-cons bytes outs (wrote outs' s) = refl

pub then_after :
    {S T : Type 0} (out : Option (List ℕ)) (w : Wrote S) (more : S → Wrote T)
    → after_wrote (then_wrote out w) more ≡ then_wrote out (after_wrote w more)
then_after out crashed more = refl
then_after none (wrote outs s) more = sym (then_wrote-none (prepend outs (more s)))
then_after (some bytes) (wrote outs s) more = prepend-cons bytes outs (more s)

receive_batch-append :
    (rs : Codec) (xs ys : List Arrival) (s : Server)
    → receive_batch rs (xs ++ ys) s ≡ after_wrote (receive_batch rs xs s) (receive_batch rs ys)
unfolding receive_batch
receive_batch-append rs [] ys s = sym (prepend-nil (receive_batch rs ys s))
receive_batch-append rs (a ∷ xs) ys s =
    handled (receive rs a.alloc_gw a.alloc_conn a.ts a.addr a.message s)
      (receive_batch-append rs xs ys)
  where
    handled :
        (h : Handled)
        → ((t : Server)
            → receive_batch rs (xs ++ ys) t
              ≡ after_wrote (receive_batch rs xs t) (receive_batch rs ys))
        → (elim h [ fault ↦ crashed | next out t ↦ then_wrote out (receive_batch rs (xs ++ ys) t) ])
          ≡ after_wrote
              (elim h [ fault ↦ crashed | next out t ↦ then_wrote out (receive_batch rs xs t) ])
              (receive_batch rs ys)
    handled fault later = refl
    handled (next out t) later =
        ap (then_wrote out) (later t)
        ∙ sym (then_after out (receive_batch rs xs t) (receive_batch rs ys))

-- However the messages are spread over the calls of `recvmmsg`, and whichever of these fail in between,
-- the thread writes and keeps what it would for all of the messages in one batch.
pub receiver_loop-receive_batch :
    (rs : Codec) (calls : List Received) (s : Server)
    → receiver_loop rs calls s ≡ receive_batch rs (messages calls) s
unfolding receiver_loop
receiver_loop-receive_batch rs [] s = sym (unfold receive_batch in refl)
receiver_loop-receive_batch rs (nothing_there ∷ calls) s = receiver_loop-receive_batch rs calls s
receiver_loop-receive_batch rs (failed ∷ calls) s = receiver_loop-receive_batch rs calls s
receiver_loop-receive_batch rs (batch arrivals ∷ calls) s =
    ap (after_wrote (receive_batch rs arrivals s)) (fun_ext (receiver_loop-receive_batch rs calls))
    ∙ sym (receive_batch-append rs arrivals (messages calls) s)

abbrev pub gives : Option ℕ → Bool
gives none = false
gives (some fd) = true

abbrev pub all_succeed : Calls → Bool
all_succeed k =
    k.reed_solomon_new
    && gives k.socket
    && k.so_reuseaddr
    && k.so_reuseport
    && k.so_rcvbuf
    && k.so_sndbuf
    && k.bind

-- What a set-up comes to.
record Prepared (k : Calls) (w : Worker) : Type 0 where
  pub succeeds : (set_up k w).1 ≡ all_succeed k
  pub socket_set : all_succeed k ≡ true → k.socket ≡ some (set_up k w).0.udp_sock
  pub one_open :
      all_succeed k ≡ true → (set_up k w).0.open_fds ≡ (set_up k w).0.udp_sock ∷ w.open_fds
  pub undone :
      all_succeed k ≡ false
      → (set_up k w).0 ≡ record w { codecs = if k.reed_solomon_new then w.codecs + 1 else w.codecs }

-- The thread comes to its loop exactly if all its calls succeed, with its socket open and known to the
-- sender; when one fails, the socket is closed again and the sender does not see it, but the codec that
-- was made is never released.
set_up-Prepared : (k : Calls) (w : Worker) → Prepared k w
unfolding set_up
set_up-Prepared k w = record {
  succeeds = ground arith;
  socket_set = ground arith;
  one_open = ground arith;
  undone = ground arith;
}
