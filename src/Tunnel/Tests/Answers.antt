-- ===== src/Tunnel/Tests/Answers.antt =====
-- Examples for the theorems on answers from script/tun-vpn/ustun.c to uctun.c.
use config_env.Prelude.{
  [], ℕ, ◌+◌, ◌%◌, ◌<◌, List, ◌∷◌, ◌++◌, ◌≡◌, refl, ◌≢◌, false, true, replicate, arith, none, some,
  take,
}
use config_env.Tunnel.Wire.{Message}
use config_env.Tunnel.AddCodec.{add_codec}
use config_env.Tunnel.Dedup.{cleared}
use config_env.Tunnel.Fec.Frames.{IsFree}
use config_env.Tunnel.Gateways.{Gateway, entry, get_gateway_addr}
use config_env.Tunnel.Connections.{find_gateway_for_packet, load32, update_conn_table}
use config_env.Tunnel.Server.{
  Server, Handled, fault, next, Socks, opened, packet_of, receive, on_plain, learn, restart,
}
use config_env.Tunnel.Connections.Routing.{lookup, IsReply}
use config_env.Tunnel.Dedup
use config_env.Tunnel.Transit.Exchange.{BothSeen, IsFrom, answer_returns}
use config_env.Tunnel.Client.{Client}
use config_env.Tunnel.Transit.Downstream.{Answered, IsReachable, answer_crosses}
use config_env.Tunnel.Tests.{empty_slot, new_server, request, response, header, message}

abbrev gateway : Gateway
gateway = record {
  addr_apn = 70 ∷ 71 ∷ [];
  last_seen_apn = 100 ∷ 101 ∷ [];
  last_used = 101;
  gateway_id = 1;
}

abbrev server : Server
server = record new_server {
  gateways = gateway ∷ [];
  conns = update_conn_table true 101 1 (packet_of request) [];
  sequence = 7;
}

abbrev client : Client
client = record { dedup = cleared 0; slots = λ i. empty_slot; sequence = 0; first = false }

abbrev sockets : Socks
sockets i = opened

found : (find_gateway_for_packet 102 (packet_of response) server.conns).0 ≡ 1
unfolding find_gateway_for_packet update_conn_table load32
found = refl

known : get_gateway_addr 1 server.gateways ≡ entry gateway
unfolding get_gateway_addr
known = refl

reachable : IsReachable sockets gateway
reachable = record { seen0 = omega arith; seen1 = omega arith; open0 = refl; open1 = refl }

unseen : client.dedup.seq_map 7 ≢ 7
unseen = omega arith

answer_crosses_example :
    Answered add_codec sockets 102 (header 0 0 0 0) response 20 server gateway 103 104 [] [] client
answer_crosses_example =
    answer_crosses add_codec sockets 102 (header 0 0 0 0) response 20 server gateway 103 104 [] []
      client found known reachable (omega arith) (omega arith) unseen (omega arith) (omega arith)

-- An answer of 1300 bytes in the buffer.
abbrev long_response : List ℕ
long_response = response ++ replicate 2230 9

free : IsFree (client.slots 7) 7
free = record { other = omega arith; rows = refl }

-- The request comes over both paths.
abbrev copy : ℕ → Message
copy apn = message 0 0 1 apn request 28

copy-IsFrom : (path : ℕ) → path < 2 → IsFrom path (copy (path + 1))
copy-IsFrom path h = record {
  is_data = record { len = omega arith; magic = refl; no_start = omega arith };
  whole = refl;
  gw = refl;
  over = omega arith;
}

abbrev state_of : Handled → Server
state_of fault = new_server
state_of (next out t) = t

abbrev once : Server
once = state_of (receive add_codec true true 100 70 (copy 1) new_server)

abbrev twice : Server
twice = state_of (receive add_codec true true 101 71 (copy 2) once)

once_lem :
    receive add_codec true true 100 70 (copy 1) new_server ≡ next (some (take 20 request)) once
unfolding receive on_plain Dedup.is_duplicate learn restart
once_lem = refl

twice_lem : receive add_codec true true 101 71 (copy 2) once ≡ next none twice
unfolding receive on_plain Dedup.is_duplicate learn restart
twice_lem = refl

new_number : client.dedup.seq_map (twice.sequence % 8192) ≢ twice.sequence
unfolding receive on_plain Dedup.is_duplicate learn restart
new_number = omega arith

answers : IsReply (packet_of request) (packet_of response)
unfolding load32
answers = record { version = refl; src = refl; dst = refl }

answer_returns_example :
    (g : Gateway) × BothSeen 100 101 70 71 g
    × Answered add_codec sockets 102 (header 0 0 0 0) response 20 twice g 103 104 [] [] client
unfolding lookup
answer_returns_example =
    answer_returns add_codec 100 101 70 71 (copy 1) (copy 2) new_server once twice
      (some (take 20 request)) none sockets 102 (header 0 0 0 0) response 20 103 104 [] [] client
      (copy-IsFrom 0 (omega arith)) (copy-IsFrom 1 (omega arith)) once_lem twice_lem tt
      (omega arith) (omega arith) refl refl refl refl answers refl refl (omega arith) (omega arith)
      new_number (omega arith) (omega arith)
