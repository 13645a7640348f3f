-- ===== src/Tunnel/Tests/Loop.antt =====
-- Examples for the theorems on the loop of `main` in script/tun-vpn/ustun.c.
use config_env.Prelude.{[], ℕ, ◌*◌, List, ◌∷◌, ◌≡◌, refl, false, true, arith}
use config_env.Tunnel.Wire.{conn_timeout}
use config_env.Tunnel.AddCodec.{add_codec}
use config_env.Tunnel.Dedup
use config_env.Tunnel.Gateways.{update_gateway_map, get_gateway_addr}
use config_env.Tunnel.Connections.{update_conn_table, find_gateway_for_packet, load32}
use config_env.Tunnel.Server.{
  Server, Socks, Datagram, opened, receive, send_to_gateway, on_plain, learn, restart,
}
use config_env.Tunnel.Server.Main.{
  MainEvent, read_failed, was_read, message, Ran, crashed, ran, main_turn, main_loop, clean_up,
}
use config_env.Tunnel.Server.Main.Recent.{AllRecent}
use config_env.Tunnel.Server.Main.Loop.{idle_connections_go}
use config_env.Tunnel.Server.Main.Quiet.{quiet_loop_keeps_all}
use config_env.Tunnel.Connections.Routing.{lookup}
use config_env.Tunnel.Connections.Routing.Kept.{is_known}
use config_env.Tunnel.Tests
use config_env.Tunnel.Tests.{new_server, request, response, header}

abbrev sockets : Socks
sockets i = opened

-- A message, a read that fails, and the answer after three minutes.
abbrev events : List MainEvent
events = message true true 100 70 (Tests.message 0 0 5 1 request 28) ∷ read_failed ∷ []

abbrev looped : Ran
looped = main_loop add_codec false sockets events new_server 50

abbrev server_of : Ran → Server
server_of crashed = new_server
server_of (ran out s last) = s

looped_lem : looped ≡ ran [] (server_of looped) 50
unfolding main_loop main_turn receive on_plain learn restart Dedup.is_duplicate
looped_lem = refl

abbrev turned : Ran
turned =
    main_turn add_codec false sockets (was_read (header 0 0 0 0) response 20 300 301)
      (server_of looped) 50

abbrev sent_of : Ran → List Datagram
sent_of crashed = []
sent_of (ran out s last) = out

turned_lem : turned ≡ ran (sent_of turned) (server_of turned) 301
unfolding main_loop main_turn receive on_plain learn restart Dedup.is_duplicate clean_up
    send_to_gateway find_gateway_for_packet update_conn_table load32 get_gateway_addr
    update_gateway_map
turned_lem = refl

idle_connections_go_example : AllRecent (2 * conn_timeout) 301 (server_of turned).conns
idle_connections_go_example =
    idle_connections_go add_codec false sockets events new_server (server_of looped)
      (server_of turned) 50 50 301 [] (sent_of turned) (header 0 0 0 0) response 20 300 301 refl
      (omega arith, (tt, tt)) looped_lem (omega arith) (omega arith) turned_lem

-- The connection of the request after an idle time, in which one message comes again.
abbrev quiet_events : List MainEvent
quiet_events =
    read_failed ∷ message true true 900 70 (Tests.message 0 0 5 1 request 28) ∷ read_failed ∷ []

abbrev quiet : Ran
quiet = main_loop add_codec false sockets quiet_events (server_of looped) 50

quiet_lem : quiet ≡ ran [] (server_of quiet) 50
unfolding main_loop main_turn receive on_plain learn restart Dedup.is_duplicate
quiet_lem = refl

connected : is_known (lookup 50331668 (server_of looped).conns) ≡ true
unfolding main_loop main_turn receive on_plain learn restart Dedup.is_duplicate lookup
    update_conn_table load32
connected = refl

quiet_loop_keeps_all_example :
    (◌≡◌ {A = List Datagram} [] [])
    × (◌≡◌ {A = ℕ} 50 50)
    × (is_known (lookup 50331668 (server_of quiet).conns) ≡ true)
quiet_loop_keeps_all_example =
    quiet_loop_keeps_all add_codec false sockets 50331668 quiet_events (server_of looped)
      (server_of quiet) 50 50 [] tt connected quiet_lem
