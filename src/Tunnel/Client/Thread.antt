-- ===== src/Tunnel/Client/Thread.antt =====
-- script/tun-vpn/uctun.c: `receiver_thread`, from its start to its end.
use config_env.Prelude.{
  [], ℕ, ◌+◌, ◌-◌, ◌<◌, List, ◌∷◌, ◌++◌, ◌≡◌, refl, ◌∙◌, sym, ap, fun_ext, Bool, true, false, not,
  ltb, ◌==◌, lt→ltb, if◌then◌else◌, Option, none, some, map, append-nil, arith,
}
use config_env.Tunnel.Wire.{udp_worker}
use config_env.Tunnel.Codec.{Codec}
use config_env.Tunnel.Server.Batch.{Arrival, Wrote, crashed, wrote, then_wrote}
use config_env.Tunnel.Server.Thread.{Received, nothing_there, failed, batch, after_wrote}
use config_env.Tunnel.Server.Thread.Batches.{messages, prepend-nil, then_after}
use config_env.Tunnel.Client.{Client, Handled, fault, next, receive}
use config_env.Tunnel.Client.Batch.{receive_batch}

-- A turn of the loop: `gl_exit_flag` is set, or `recvmmsg` is called.
pub data Turn : Type 0 where
  exit_flag : Turn
  call : Received → Turn

-- Whether the thread has left its loop, and the client.
unfoldable pub receiver_loop : Codec → List Turn → Client → Wrote (Bool × Client)
receiver_loop rs [] c = wrote [] (false, c)
receiver_loop rs (exit_flag ∷ turns) c = wrote [] (true, c)
receiver_loop rs (call nothing_there ∷ turns) c = receiver_loop rs turns c
receiver_loop rs (call failed ∷ turns) c = receiver_loop rs turns c
receiver_loop rs (call (batch arrivals) ∷ turns) c =
    after_wrote (receive_batch rs arrivals c) (receiver_loop rs turns)

-- `sock_apn[id]`, where -1 is none; the descriptors that are open; the codecs that are not released.
pub record Worker : Type 0 where
  pub sock_apn : Option ℕ
  pub open_fds : List ℕ
  pub codecs : ℕ

unfoldable pub close : ℕ → List ℕ → List ℕ
close fd [] = []
close fd (x ∷ fds) = let rest = close fd fds in if x == fd then rest else x ∷ rest

abbrev pub close_sock : Option ℕ → List ℕ → List ℕ
close_sock none fds = fds
close_sock (some sock) fds = close sock fds

abbrev pub at_end : Worker → Worker
at_end w = record {
  sock_apn = none;
  open_fds = close_sock w.sock_apn w.open_fds;
  codecs = w.codecs - 1;
}

-- `reed_solomon_new` is whether a codec is given.
unfoldable pub receiver_thread :
    (id : ℕ) (reed_solomon_new : Bool)
    → Codec
    → List Turn
    → Worker
    → Client
    → Wrote (Worker × Client)
receiver_thread id reed_solomon_new rs turns w c =
    let with_codec = record w { codecs = w.codecs + 1 } in
    if not (ltb id udp_worker)
    then wrote [] (w, c)
    else if not reed_solomon_new
    then wrote [] (w, c)
    else after_wrote (receiver_loop rs turns c)
        (λ r. wrote [] (if r.0 then at_end with_codec else with_codec, r.1))

after_batch :
    {T : Type 0} (rs : Codec) (xs ys : List Arrival) (c : Client) (more : Client → Wrote T)
    → after_wrote (receive_batch rs (xs ++ ys) c) more
      ≡ after_wrote (receive_batch rs xs c) (λ c'. after_wrote (receive_batch rs ys c') more)
unfolding receive_batch
after_batch rs [] ys c more = sym (prepend-nil _)
after_batch rs (a ∷ xs) ys c more =
    handled (receive rs a.ts a.message c) (λ c'. after_batch rs xs ys c' more)
  where
    handled :
        (h : Handled)
        → ((c' : Client)
            → after_wrote (receive_batch rs (xs ++ ys) c') more
              ≡ after_wrote
                  (receive_batch rs xs c')
                  (λ c'. after_wrote (receive_batch rs ys c') more))
        → after_wrote
            (elim h [
              | fault ↦ crashed
              | next out c' ↦ then_wrote out (receive_batch rs (xs ++ ys) c')
            ])
            more
          ≡ after_wrote
              (elim h [ fault ↦ crashed | next out c' ↦ then_wrote out (receive_batch rs xs c') ])
              (λ c'. after_wrote (receive_batch rs ys c') more)
    handled fault later = refl
    handled (next out c') later =
        then_after out (receive_batch rs (xs ++ ys) c') more
        ∙ ap (then_wrote out) (later c')
        ∙ sym (
            then_after out (receive_batch rs xs c')
              (λ c'. after_wrote (receive_batch rs ys c') more))

receiver_loop-messages :
    (rs : Codec) (calls : List Received) (later : List Turn) (c : Client)
    → receiver_loop rs (map call calls ++ exit_flag ∷ later) c
      ≡ after_wrote (receive_batch rs (messages calls) c) (λ c'. wrote [] (true, c'))
unfolding receiver_loop
receiver_loop-messages rs [] later c = unfold receive_batch in refl
receiver_loop-messages rs (nothing_there ∷ calls) later c = receiver_loop-messages rs calls later c
receiver_loop-messages rs (failed ∷ calls) later c = receiver_loop-messages rs calls later c
receiver_loop-messages rs (batch arrivals ∷ calls) later c =
    ap (after_wrote (receive_batch rs arrivals c)) (fun_ext (receiver_loop-messages rs calls later))
    ∙ sym (after_batch rs arrivals (messages calls) c (λ c'. wrote [] (true, c')))

after_after :
    {S T U : Type 0} (w : Wrote S) (f : S → T) (g : T → U)
    → after_wrote (after_wrote w (λ s. wrote [] (f s))) (λ t. wrote [] (g t))
      ≡ after_wrote w (λ s. wrote [] (g (f s)))
after_after crashed f g = refl
after_after (wrote outs s) f g = ap (λ xs. wrote xs (g (f s))) (append-nil (outs ++ []))

-- The thread of either socket, if it gets its codec, writes what it would for one batch of all the
-- messages that its calls of `recvmmsg` give before the exit flag is set, whichever calls fail in
-- between, and nothing after that; then its socket is closed and unset, and its codec released.
pub receiver_thread-all_messages :
    (rs : Codec) (id : ℕ) (calls : List Received) (later : List Turn) (w : Worker) (c : Client)
    → id < udp_worker
    → receiver_thread id true rs (map call calls ++ exit_flag ∷ later) w c
      ≡ after_wrote (receive_batch rs (messages calls) c) (λ c'.
        wrote [] (record w { sock_apn = none; open_fds = close_sock w.sock_apn w.open_fds }, c'))
unfolding receiver_thread
receiver_thread-all_messages rs id calls later w c small = simp (lt→ltb id udp_worker small) (
    rw (receiver_loop-messages rs calls later c) (
      after_after (receive_batch rs (messages calls) c) _ _
      ∙ ap
          (λ n.
            after_wrote (receive_batch rs (messages calls) c)
              (λ c'. wrote [] (record (at_end w) { codecs = n }, c')))
          released))
  where
    released : w.codecs + 1 - 1 ≡ w.codecs
    released = omega arith
