-- ===== src/Gps/Poll/Loop.antt =====
-- script/gps/main.c: the loop of `poll_ubx_data` around `select` and `read`, and its result.
pub mod Result
use config_env.Prelude.{
  [], ℕ, ◌+◌, ◌%◌, ◌^◌, List, ◌∷◌, ◌++◌, Bool, true, false, ◌&&◌, ◌==◌, ltb, if◌then◌else◌, Option,
  none, some, String,
}
use config_env.Gps.Types.{CfgPoll, frame_length}
use config_env.Gps.Poll.{Done, pending, cksum_err, Parser, feed, start, is_pending}

-- What one turn of the loop meets: `select` fails with another error than EINTR and EAGAIN; it is
-- interrupted, times out, or reports no input, or `read` gives nothing; or `read` gives bytes.
pub data Event : Type 0 where
  failed : Event
  quiet : Event
  received : List ℕ → Event

-- An event and the clock after it, in milliseconds. `ts_ms` is an `unsigned int`.
pub record Turn : Type 0 where
  pub event : Event
  pub clock : ℕ

abbrev pub to_uint : ℕ → ℕ
to_uint n = n % 2 ^ 32

abbrev pub bytes_of : Event → List ℕ
bytes_of failed = []
bytes_of quiet = []
bytes_of (received bs) = bs

abbrev pub bytes_in : List Turn → List ℕ
bytes_in [] = []
bytes_in (t ∷ ts) = bytes_of t.event ++ bytes_in ts

abbrev pub has_failed : Event → Bool
has_failed failed = true
has_failed quiet = false
has_failed (received bs) = false

-- `do … while(ts_ms < ts_end_ms && !done)`; `none` if the turns given end before the loop does.
pub turns : CfgPoll → ℕ → Parser → List Turn → Option Parser
turns poll end p [] = none
turns poll end p (t ∷ ts) =
    let p' = feed poll p (bytes_of t.event) in
    let rest = turns poll end p' ts in
    if has_failed t.event
    then some p
    else if ltb (to_uint t.clock) end && is_pending p'.done
    then rest
    else some p'

-- `if(!done && cksum_err_seen) return POLL_MSG_CKSUM_ERR; return done;`
abbrev pub verdict : Parser → Done
verdict p = if is_pending p.done && p.cksum_err_seen then cksum_err else p.done

-- The result and the lines written. `wrote` is what `write` returned (-1 is any other number).
pub poll_ubx_data :
    CfgPoll → (wrote clock timeout : ℕ) → List Turn → Option (Done × List (String × List ℕ))
unfolding turns
poll_ubx_data poll wrote clock timeout ts =
    if wrote == frame_length poll.msg % 2 ^ 16
    then elim (turns poll (to_uint (to_uint clock + timeout)) start ts) [
      | none ↦ none
      | some p ↦ some (verdict p, p.written)
    ]
    else some (pending, [])
