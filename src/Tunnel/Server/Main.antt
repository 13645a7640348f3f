-- ===== src/Tunnel/Server/Main.antt =====
-- script/tun-vpn/ustun.c: the loop of `main` (without io_uring), and what the receiver threads do
-- between its turns.
pub mod Recent
pub mod Loop
pub mod Reached
pub mod Quiet
use config_env.Prelude.{[], ℕ, ◌-◌, List, ◌∷◌, ◌++◌, Bool, true, false, ◌==◌, ltb, if◌then◌else◌}
use config_env.Tunnel.Wire.{conn_timeout, Header, Message}
use config_env.Tunnel.Codec.{Codec}
use config_env.Tunnel.Gateways.{cleanup_expired_gateways}
use config_env.Tunnel.Connections.{cleanup_expired_connections}
use config_env.Tunnel.Server.{Server, fault, next, receive, Socks, Datagram, sent, send_to_gateway}

-- What happens, in order: `read` fails, with any `errno`; `read` gives `len` bytes, which are looked up
-- at `ts`, and the cleanup is considered at `now`; or a receiver thread handles a message at `ts`.
pub data MainEvent : Type 0 where
  read_failed : MainEvent
  was_read : Header → List ℕ → (len ts now : ℕ) → MainEvent
  message : (alloc_gw alloc_conn : Bool) (ts addr : ℕ) → Message → MainEvent

-- `last_cleanup` is the time of the last cleanup.
pub data Ran : Type 0 where
  crashed : Ran
  ran : List Datagram → Server → (last_cleanup : ℕ) → Ran

unfoldable pub clean_up : (now last_cleanup : ℕ) → Server → Server × ℕ
clean_up now last_cleanup s =
    if ltb conn_timeout (now - last_cleanup)
    then (
      record s {
        gateways = cleanup_expired_gateways false now s.gateways;
        conns = cleanup_expired_connections false now s.conns;
      },
      now,
    )
    else (s, last_cleanup)

-- After the end of the loop.
unfoldable pub clean_up_all : (now : ℕ) → Server → Server
clean_up_all now s = record s {
  gateways = cleanup_expired_gateways true now s.gateways;
  conns = cleanup_expired_connections true now s.conns;
}

module _ (rs : Codec) (gl_fec : Bool) (socks : Socks) where
  -- A turn after whose `read` fails goes back to the start of the loop.
  unfoldable pub main_turn : MainEvent → Server → ℕ → Ran
  main_turn read_failed s last = ran [] s last
  main_turn (was_read old payload len ts now) s last =
      let result =
        if len == 0 then sent [] s else send_to_gateway rs gl_fec socks ts old payload len s in
      elim result [
        | fault ↦ crashed
        | sent out t ↦ let (t', last') = clean_up now last t in ran out t' last'
      ]
  main_turn (message alloc_gw alloc_conn ts addr m) s last =
      elim (receive rs alloc_gw alloc_conn ts addr m s) [
        | fault ↦ crashed
        | next out t ↦ ran [] t last
      ]

  unfoldable pub main_loop : List MainEvent → Server → ℕ → Ran
  main_loop [] s last = ran [] s last
  main_loop (e ∷ es) s last = elim (main_turn e s last) [
    | crashed ↦ crashed
    | ran out t last' ↦ elim (main_loop es t last') [
      | crashed ↦ crashed
      | ran outs u last'' ↦ ran (out ++ outs) u last''
    ]
  ]
