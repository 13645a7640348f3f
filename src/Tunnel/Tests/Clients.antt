-- ===== src/Tunnel/Tests/Clients.antt =====
-- Examples for the theorems on `main` of script/tun-vpn/uctun.c.
use config_env.Prelude.{[], List, ◌∷◌, ◌≡◌, refl, false, true, none, some}
use config_env.Tunnel.AddCodec.{add_codec}
use config_env.Tunnel.Dedup.{cleared}
use config_env.Tunnel.Server.{Socks, Datagram, opened}
use config_env.Tunnel.Client.{Client, receive, on_plain, is_duplicate, send_packet, plain_datagram}
use config_env.Tunnel.Client.Main.{
  Modem, ClientEvent, read_nothing, read_broken, was_read, message, ClientRan, crashed, ran,
  client_loop,
}
use config_env.Tunnel.Client.Main.Over.{socks_of}
use config_env.Tunnel.Client.Main.Numbers.{numbers, numbers_in_order}
use config_env.Tunnel.Tests
use config_env.Tunnel.Tests.{empty_slot, request, response, header}

-- The first modem cannot be bound.
abbrev modems : List Modem
modems =
    record { socket = some 5; rcvbuf = true; sndbuf = true; bind = false }
    ∷ record { socket = some 6; rcvbuf = true; sndbuf = true; bind = true }
    ∷ []

abbrev client : Client
client = record { dedup = cleared 0; slots = λ i. empty_slot; sequence = 65535; first = true }

abbrev sockets : Socks
sockets i = opened

-- Two packets, with an answer in between, and a third that is not read.
abbrev events : List ClientEvent
events =
    read_nothing
    ∷ was_read (header 0 0 0 0) request 20 []
    ∷ message 100 (Tests.message 0 0 1 0 response 28)
    ∷ was_read (header 0 0 0 0) request 20 []
    ∷ read_broken
    ∷ was_read (header 0 0 0 0) request 20 []
    ∷ []

abbrev looped : ClientRan
looped = client_loop add_codec false sockets 99 events client

abbrev sent_of : ClientRan → List Datagram
sent_of crashed = []
sent_of (ran out ended c) = out

abbrev client_of : ClientRan → Client
client_of crashed = client
client_of (ran out ended c) = c

looped_lem : looped ≡ ran (sent_of looped) true (client_of looped)
unfolding client_loop receive on_plain is_duplicate send_packet plain_datagram
looped_lem = refl

numbers_in_order_example : numbers (sent_of looped) ≡ 65535 ∷ 65535 ∷ 0 ∷ 0 ∷ []
numbers_in_order_example =
    numbers_in_order add_codec sockets 99 refl refl events client (client_of looped)
      (sent_of looped) true looped_lem

-- The same with the sockets of these modems.
abbrev looped_over : ClientRan
looped_over = client_loop add_codec false (socks_of (none ∷ some 6 ∷ [])) 99 events client
