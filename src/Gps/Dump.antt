-- ===== src/Gps/Dump.antt =====
-- script/gps/main.c: `dump_ubx_cfg` and `ubx_debug_message`, the two users of the tables.
pub mod Retries
use config_env.Prelude.{
  [], ℕ, zero, suc, ◌+◌, ◌%◌, ◌^◌, List, ◌∷◌, ◌++◌, Bool, true, false, ◌==◌, if◌then◌else◌, map,
  take, String,
}
use config_env.Gps.Types.{CfgPoll, frame_length}
use config_env.Gps.Tables.{ubx_m8_cfg_poll, ubx_m9_cfg_poll, ubx_debug_message}
use config_env.Gps.Poll.{Done, pending, ok, nak, cksum_err}

abbrev pub Line : Type 0
Line = String × List ℕ

-- What the calls of `poll_ubx_data` return and write: at each message of the table, at each attempt.
abbrev pub Outcome : Type 0
Outcome = Done × List Line

-- `done == POLL_MSG_NAK || done == POLL_MSG_OK`
abbrev pub settles : Done → Bool
settles pending = false
settles ok = true
settles nak = true
settles cksum_err = false

abbrev pub max_retry : ℕ
max_retry = 2

-- The inner loop with the attempts that are left: the lines written and the attempts made.
unfoldable pub retry : ℕ → (ℕ → Outcome) → ℕ → List Line × ℕ
retry zero poll n = ([], 0)
retry (suc left) poll n =
    let (done, lines) = poll n in
    let (more, made) = retry left poll (n + 1) in
    if settles done then (lines, 1) else (lines ++ more, made + 1)

-- The outer loop: `stop i` is `gl_exit` as read after message `i`.
unfoldable pub dump :
    List CfgPoll → (CfgPoll → ℕ → ℕ → Outcome) → (ℕ → Bool) → ℕ → List (List Line × ℕ)
unfolding retry
dump [] poll stop i = []
dump (m ∷ ms) poll stop i =
    let rest = dump ms poll stop (i + 1) in
    retry (max_retry + 1) (poll m i) 0 ∷ (if stop i then [] else rest)

-- The table and the time limit of a modem.
unfoldable pub cfg_polls : ℕ → List CfgPoll × ℕ
unfolding ubx_m8_cfg_poll ubx_m9_cfg_poll
cfg_polls modem = if modem == 9 then (ubx_m9_cfg_poll, 3000) else (ubx_m8_cfg_poll, 1000)

-- The whole function: `file` is whether there is a name, `opened` whether `fopen` gave a file.
unfoldable pub dump_ubx_cfg :
    (file opened : Bool) → ℕ → (ℕ → CfgPoll → ℕ → ℕ → Outcome) → (ℕ → Bool) → List (List Line × ℕ)
unfolding dump cfg_polls
dump_ubx_cfg file opened modem poll stop =
    let (table, timeout) = cfg_polls modem in
    if file then (if opened then dump table (poll timeout) stop 0 else []) else []

-- The writes of `ubx_debug_message`: from each message as many bytes as it declares; `msg_len` is an
-- `unsigned short`.
pub debug_writes : List (List ℕ)
unfolding ubx_debug_message
debug_writes = map (λ msg. take (frame_length msg % 2 ^ 16) msg) ubx_debug_message
