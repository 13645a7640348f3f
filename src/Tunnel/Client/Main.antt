-- ===== src/Tunnel/Client/Main.antt =====
-- script/tun-vpn/uctun.c: how `main` opens its two sockets, and its loop, with what the receiver
-- threads do between its turns.
pub mod Sockets
pub mod Over
pub mod Numbers
use config_env.Prelude.{
  [], ℕ, ◌+◌, List, ◌∷◌, ◌++◌, Bool, true, false, not, ◌==◌, ltb, if◌then◌else◌, Option, none, some,
}
use config_env.Tunnel.Wire.{Header, Message}
use config_env.Tunnel.Codec.{Shard, Codec}
use config_env.Tunnel.Server.{Socks, Datagram}
use config_env.Tunnel.Client.{Client, fault, next, receive, sent, send_packet}

-- The calls for one modem: the descriptor that `socket` gives, if any, and whether the two buffer sizes
-- are set and `SO_BINDTODEVICE` succeeds.
pub record Modem : Type 0 where
  pub socket : Option ℕ
  pub rcvbuf : Bool
  pub sndbuf : Bool
  pub bind : Bool

-- `failed`: `main` returns 1. Else there is `sock_apn`, where `none` is -1, and `bind_cnt`. Both have
-- the descriptors that are open.
pub data Opened : Type 0 where
  failed : List ℕ → Opened
  ready : List (Option ℕ) → (bind_cnt : ℕ) → List ℕ → Opened

-- The rest of the loop, after one modem.
abbrev pub with_modem : Option ℕ → (bound : ℕ) → Opened → Opened
with_modem sock bound (failed fds) = failed fds
with_modem sock bound (ready socks cnt fds) = ready (sock ∷ socks) (bound + cnt) fds

-- A socket that cannot be set up is closed, and its modem is left out; one that cannot be made ends the
-- program. (`bind_to_interface` closes the socket where it fails.)
unfoldable pub open_modems : List Modem → List ℕ → Opened
open_modems [] fds = ready [] 0 fds
open_modems (m ∷ ms) fds = elim m.socket [
  | none ↦ failed fds
  | some fd ↦
      let left_out = open_modems ms fds in
      let bound = open_modems ms (fd ∷ fds) in
      if not m.rcvbuf
      then with_modem none 0 left_out
      else if not m.sndbuf
      then with_modem none 0 left_out
      else if not m.bind
      then with_modem none 0 left_out
      else with_modem (some fd) (if ltb 0 fd then 1 else 0) bound
]

unfoldable pub open_sockets : List Modem → List ℕ → Opened
open_sockets ms fds = elim (open_modems ms fds) [
  | failed fds' ↦ failed fds'
  | ready socks cnt fds' ↦ if cnt == 0 then failed fds' else ready socks cnt fds'
]

-- What happens, in order: `read` fails because there is nothing; it fails otherwise; it gives `len`
-- bytes in the buffer; or a receiver thread handles a message at `ts`.
pub data ClientEvent : Type 0 where
  read_nothing : ClientEvent
  read_broken : ClientEvent
  was_read : Header → List ℕ → (len : ℕ) → List (Header × Shard) → ClientEvent
  message : (ts : ℕ) → Message → ClientEvent

-- The datagrams that were sent, and whether the loop has ended.
pub data ClientRan : Type 0 where
  crashed : ClientRan
  ran : List Datagram → (ended : Bool) → Client → ClientRan

abbrev pub then_more : List Datagram → ClientRan → ClientRan
then_more out crashed = crashed
then_more out (ran outs ended c) = ran (out ++ outs) ended c

module _ (rs : Codec) (gl_fec : Bool) (socks : Socks) (server : ℕ) where
  -- Packets of no bytes are not sent.
  unfoldable pub client_loop : List ClientEvent → Client → ClientRan
  client_loop [] c = ran [] false c
  client_loop (read_nothing ∷ es) c = client_loop es c
  client_loop (read_broken ∷ es) c = ran [] true c
  client_loop (was_read old payload len packets ∷ es) c =
      if len == 0
      then client_loop es c
      else elim (send_packet rs gl_fec socks server old payload len packets c) [
        | fault ↦ crashed
        | sent out c' ↦ then_more out (client_loop es c')
      ]
  client_loop (message ts m ∷ es) c = elim (receive rs ts m c) [
    | fault ↦ crashed
    | next out c' ↦ client_loop es c'
  ]
