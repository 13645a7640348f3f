-- ===== src/Tunnel/Tests/Streams.antt =====
-- Examples for the theorems on runs of packets between script/tun-vpn/uctun.c and ustun.c.
use config_env.Prelude.{none, ◌++◌, [], some, List, ◌∷◌, ◌≡◌, refl, map, false, true, ℕ, arith}
use config_env.Tunnel.AddCodec.{add_codec}
use config_env.Tunnel.Dedup.{cleared}
use config_env.Tunnel.Wire.{Message}
use config_env.Tunnel.Server.{Socks, Datagram, opened}
use config_env.Tunnel.Server.Batch.{Arrival, wrote, IsPlain, Writes}
use config_env.Tunnel.Server.Batch.Once.{batch_written-first_copies}
use config_env.Tunnel.Client.Batch
use config_env.Tunnel.Client.Batch.{answers_written-first_copies}
use config_env.Tunnel.Client.Delivery.{IsForClient}
use config_env.Tunnel.Client.Thread
use config_env.Tunnel.Client.Thread.{exit_flag, call, receiver_thread, receiver_thread-all_messages}
use config_env.Tunnel.Server.Thread.{after_wrote, Received, nothing_there, failed, batch}
use config_env.Tunnel.Server.Thread.Batches.{messages}
use config_env.Tunnel.Client.{Client, receive, on_plain, is_duplicate, send_packet, plain_datagram}
use config_env.Tunnel.Client.Main.{
  ClientEvent, read_nothing, was_read, message, ClientRan, crashed, ran, client_loop,
}
use config_env.Tunnel.Transit.{arrive}
use config_env.Tunnel.Transit.Stream.{Carries}
use config_env.Tunnel.Transit.Stream.Loop.{Delivers, stream_crosses}
use config_env.Tunnel.Tests
use config_env.Tunnel.Tests.{empty_slot, new_server, request, response, header}

abbrev numbered : ℕ → List ℕ → Message
numbered seq buf = record { len = 28; header = record (header 0 0 5 1) { seq = seq }; buf = buf }

abbrev at : ℕ → Message → Arrival
at ts m = record { alloc_gw = true; alloc_conn = true; ts = ts; addr = 70; message = m }

-- Number 8 comes before number 7, and both come twice.
abbrev mixed : List Arrival
mixed =
    at 100 (numbered 8 response)
    ∷ at 101 (numbered 7 request)
    ∷ at 101 (numbered 8 response)
    ∷ at 102 (numbered 7 request)
    ∷ []

plain : (seq : ℕ) (buf : List ℕ) → IsPlain (numbered seq buf)
plain seq buf = record {
  is_data = record { len = omega arith; magic = refl; no_start = omega arith };
  no_shard = refl;
}

batch_written-first_copies_example : Writes add_codec mixed new_server (response ∷ request ∷ [])
batch_written-first_copies_example =
    batch_written-first_copies add_codec 0 0 mixed new_server (omega arith)
      (plain 8 response, (plain 7 request, (plain 8 response, (plain 7 request, tt)))) (omega arith)
      (omega arith) (λ x w. omega arith)

-- A client past its first packet.
abbrev client : Client
client = record { dedup = cleared 0; slots = λ i. empty_slot; sequence = 5; first = false }

abbrev answer : ℕ → List ℕ → Arrival
answer seq buf =
    at 100 (record { len = 28; header = record (header 0 0 1 0) { seq = seq }; buf = buf })

abbrev answers : List Arrival
answers = answer 8 response ∷ answer 7 request ∷ answer 8 response ∷ []

for_client : (seq : ℕ) (buf : List ℕ) → IsForClient (answer seq buf).message
for_client seq buf = record { len = omega arith; magic = refl; gw = refl }

answers_written-first_copies_example :
    Batch.Writes add_codec answers client (response ∷ request ∷ [])
answers_written-first_copies_example =
    answers_written-first_copies add_codec 0 0 answers client (omega arith)
      (for_client 8 response, refl, (for_client 7 request, refl, (for_client 8 response, refl, tt)))
      (omega arith) (omega arith) (λ x w. omega arith)

abbrev client_calls : List Received
client_calls = batch (answer 8 response ∷ answer 7 request ∷ []) ∷ failed ∷ batch answers ∷ []

abbrev sock_open : Thread.Worker
sock_open = record { sock_apn = some 6; open_fds = 6 ∷ 5 ∷ 4 ∷ []; codecs = 1 }

abbrev sock_closed : Thread.Worker
sock_closed = record { sock_apn = none; open_fds = 5 ∷ 4 ∷ []; codecs = 1 }

receiver_thread-all_messages_example :
    receiver_thread 1 true add_codec (map call client_calls ++ exit_flag ∷ []) sock_open client
    ≡ after_wrote
        (Batch.receive_batch add_codec (messages client_calls) client)
        (λ c. wrote [] (sock_closed, c))
unfolding Thread.close
receiver_thread-all_messages_example =
    receiver_thread-all_messages add_codec 1 client_calls [] sock_open client (omega arith)

abbrev sockets : Socks
sockets i = opened

-- Two packets, with a message in between.
abbrev events : List ClientEvent
events =
    was_read (header 0 0 0 0) request 20 []
    ∷ read_nothing
    ∷ message 100 (Tests.message 0 0 1 0 response 28)
    ∷ was_read (header 0 0 0 0) response 20 []
    ∷ []

abbrev looped : ClientRan
looped = client_loop add_codec false sockets 99 events client

abbrev sent_of : ClientRan → List Datagram
sent_of crashed = []
sent_of (ran out ended c) = out

abbrev client_of : ClientRan → Client
client_of crashed = client
client_of (ran out ended c) = c

looped_lem : looped ≡ ran (sent_of looped) false (client_of looped)
unfolding client_loop receive on_plain is_duplicate send_packet plain_datagram
looped_lem = refl

abbrev on_time : Datagram → Arrival
on_time d = at 100 (arrive d [])

-- Nothing is there at first.
abbrev calls_of : List Datagram → List Received
calls_of out = nothing_there ∷ batch (map on_time out) ∷ []

calls_of-Carries : (out : List Datagram) → Carries 0 (messages (calls_of out)) out
calls_of-Carries [] = tt
calls_of-Carries (d ∷ out) = ([], refl, omega arith, omega arith, calls_of-Carries out)

abbrev calls : List Received
calls = calls_of (sent_of looped)

stream_crosses_example : Delivers add_codec calls new_server (request ∷ response ∷ [])
stream_crosses_example =
    stream_crosses add_codec sockets 99 0 refl refl add_codec events client (client_of looped)
      (sent_of looped) false calls new_server
      (refl, omega arith, omega arith, (refl, omega arith, omega arith, tt)) refl (omega arith)
      (omega arith) (omega arith) (λ x w. omega arith) looped_lem
      (calls_of-Carries (sent_of looped))
