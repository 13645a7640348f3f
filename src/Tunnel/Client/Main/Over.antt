-- ===== src/Tunnel/Client/Main/Over.antt =====
-- Over which sockets the loop of `main` of script/tun-vpn/uctun.c sends.
use config_env.Prelude.{
  [], ℕ, ◌&&◌, List, ◌∷◌, ◌≡◌, ltb, if◌then◌else◌, Option, none, some, get_elem?, true,
}
use config_env.Tunnel.Codec.{Codec}
use config_env.Tunnel.Server.{closed, unset, opened, Sock, Socks, Datagram}
use config_env.Tunnel.Client.{Client, fault, Sent, sent}
use config_env.Tunnel.Client.Main.{Modem, ClientRan, crashed, ran}

-- What the sender sees of an element of `sock_apn`, where `none` is -1.
abbrev pub sock_of : Option (Option ℕ) → Sock
sock_of none = unset
sock_of (some none) = closed
sock_of (some (some fd)) = if ltb 0 fd then opened else unset

abbrev pub socks_of : List (Option ℕ) → Socks
socks_of sock_apn i = sock_of (get_elem? sock_apn i)

-- The datagram's socket was bound to its modem.
pub record IsBound (ms : List Modem) (d : Datagram) : Type 0 where
  pub modem : Modem
  pub fd : ℕ
  pub has_modem : get_elem? ms d.sock ≡ some modem
  pub made : modem.socket ≡ some fd
  pub set : (modem.rcvbuf && modem.sndbuf && modem.bind) ≡ true

abbrev pub AllBound : List Modem → List Datagram → Type 0
AllBound ms [] = Unit {0}
AllBound ms (d ∷ ds) = IsBound ms d × AllBound ms ds

-- The datagrams of a run, if it does not crash.
abbrev pub RanBound : List Modem → ClientRan → Type 0
RanBound ms crashed = Unit {0}
RanBound ms (ran out ended c) = AllBound ms out

abbrev SentBound : List Modem → Sent → Type 0
SentBound ms fault = Unit {0}
SentBound ms (sent out c) = AllBound ms out
