-- ===== src/Tunnel/Tests/Messages.antt =====
-- Examples for the theorems on the messages between script/tun-vpn/ustun.c and uctun.c.
use config_env.Prelude.{
  [], ℕ, ◌≤◌, List, ◌++◌, ◌≡◌, refl, ◌≢◌, true, false, some, take, replicate, arith,
}
use config_env.Tunnel.Wire.{Header}
use config_env.Tunnel.Codec.{Shard}
use config_env.Tunnel.AddCodec.{add, add_codec, add_codec_laws, shard, shard-IsShard}
use config_env.Tunnel.Dedup.{Dedup, cleared}
use config_env.Tunnel.Dedup
use config_env.Tunnel.Fec.{Slots}
use config_env.Tunnel.Fec.Frames.{Carries, IsFree}
use config_env.Tunnel.Fec.Defects.{Lost, repeated_shard-Lost}
use config_env.Tunnel.Gateways.{get_gateway_addr}
use config_env.Tunnel.Connections.{load32}
use config_env.Tunnel.Connections.Routing.{lookup, IsReply}
use config_env.Tunnel.Server.{
  Server, Handled, fault, next, opened, Socks, receive, send_to_gateway, packet_of,
}
use config_env.Tunnel.Server
use config_env.Tunnel.Server.Invariant.{IsServer, received, start, step, Reach-IsServer}
use config_env.Tunnel.Server.Delivery.{IsData}
use config_env.Tunnel.Server.Shards.{Joined, shards_written}
use config_env.Tunnel.Server.Replies.{reply_to_unknown_gateway}
use config_env.Tunnel.Client.{Client, fault, send_packet}
use config_env.Tunnel.Client.Sending.{shards_overrun}
use config_env.Tunnel.Tests.{empty_slot, new_server, request, response, header, message}

abbrev slots : Slots
slots i = empty_slot

free : IsFree (slots 7) 7
free = record { other = omega arith; rows = refl }

carries : (i : ℕ) (s : Shard) → take 750 s ≡ s → Carries (message 1 i 5 1 s 758) 7 1300 i s
carries i s e = record { seq = refl; plen = refl; idx = refl; bytes = e }

-- The first data shard and the parity shard: the second data shard is lost.
abbrev parity : Shard
parity = add (shard 1) (shard 2)

repeated_shard-Lost_example :
    Lost add_codec add_codec_laws 7 1300 900 901
      (message 1 0 5 1 (shard 1) 758)
      (message 1 0 5 1 (shard 1) 758)
      slots
repeated_shard-Lost_example =
    repeated_shard-Lost add_codec add_codec_laws 7 1300 900 901 0 (message 1 0 5 1 (shard 1) 758)
      (message 1 0 5 1 (shard 1) 758) slots (shard 1) (omega arith) free (carries 0 (shard 1) refl)
      (carries 0 (shard 1) refl)

IsData-of :
    (rs idx apn : ℕ) (buf : List ℕ) (len : ℕ) → 8 ≤ len → IsData (message rs idx 5 apn buf len)
IsData-of rs idx apn buf len h = record { len = h; magic = refl; no_start = omega arith }

-- The table is empty at number 7.
unseen : new_server.dedup.seq_map 7 ≢ 7
unseen = omega arith

shards_written_example :
    Joined add_codec true true true true 900 901 70 71
      (message 1 2 5 1 parity 758)
      (message 1 1 5 1 (shard 2) 758)
      (take 1300 (shard 1 ++ shard 2))
      new_server
unfolding add_codec_laws
shards_written_example =
    shards_written add_codec add_codec_laws (shard 1) (shard 2) (shard-IsShard 1 (omega arith))
      (shard-IsShard 2 (omega arith)) true true true true 7 1300 900 901 70 71 2 1
      (message 1 2 5 1 parity 758) (message 1 1 5 1 (shard 2) 758) new_server
      (IsData-of 1 2 1 parity 758 (omega arith)) (IsData-of 1 1 1 (shard 2) 758 (omega arith))
      (omega arith) (omega arith) (omega arith) (omega arith) (omega arith) (omega arith) free
      (carries 2 parity refl) (carries 1 (shard 2) refl)

-- The state after a message that is handled.
abbrev state_of : Handled → Server
state_of fault = new_server
state_of (next out t) = t

abbrev after_request : ℕ → Server
after_request apn =
    state_of (receive add_codec true true 100 70 (message 0 0 5 apn request 28) new_server)

after_request_lem :
    (apn : ℕ)
    → receive add_codec true true 100 70 (message 0 0 5 apn request 28) new_server
      ≡ next (some (take 20 request)) (after_request apn)
unfolding receive Server.on_plain Dedup.is_duplicate Server.learn Server.restart
after_request_lem apn = refl

Reach-IsServer_example : IsServer (after_request 1)
Reach-IsServer_example = Reach-IsServer (
    step (start (record { gateways = refl; conns = refl; sequence = refl })) (
      received add_codec true true 100 70 (message 0 0 5 1 request 28) (some (take 20 request))
        (omega arith) (after_request_lem 1)))

answers : IsReply (packet_of request) (packet_of response)
unfolding load32
answers = record { version = refl; src = refl; dst = refl }

abbrev sockets : Socks
sockets i = opened

reply_to_unknown_gateway_example :
    send_to_gateway add_codec false sockets 102 (header 0 0 0 0) response 20 (after_request 0)
    ≡ Server.fault
unfolding get_gateway_addr lookup
reply_to_unknown_gateway_example =
    reply_to_unknown_gateway add_codec true 100 70 (message 0 0 5 0 request 28) new_server
      (after_request 0) (some (take 20 request)) false sockets 102 (header 0 0 0 0) response 20
      (IsData-of 0 0 0 request 28 (omega arith)) refl (after_request_lem 0) (omega arith) refl
      (omega arith) refl refl answers

abbrev new_client : Client
new_client = record { dedup = cleared 0; slots = slots; sequence = 7; first = false }

abbrev unsent : List (Header × Shard)
unsent = replicate 3 (header 0 0 1 0, [])

shards_overrun_example :
    send_packet add_codec true sockets 99
      (header 0 0 1 0)
      (shard 1 ++ shard 2)
      1300
      unsent
      new_client
    ≡ fault
shards_overrun_example =
    shards_overrun add_codec sockets 99 (header 0 0 1 0) (shard 1 ++ shard 2) 1300 unsent new_client
      (shard 1) (shard 2) parity (omega arith) refl refl
