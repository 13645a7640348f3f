-- ===== src/Mcast.antt =====
-- mcast: the programs that send texts by UDP and print those that arrive. The sockets are parameters.
pub mod Typed
mod Tests
use config_env.Prelude.{
  c_string, [], ℕ, zero, suc, ◌-◌, List, ◌∷◌, ◌++◌, ◌==◌, ltb, if◌then◌else◌, Option, none, some,
  take, length,
}

-- Bytes.
abbrev pub Text : Type 0
Text = List ℕ

-- `BUFLEN` of mcastclient.c, and that of mcastserver.c.
abbrev pub client_buflen : ℕ
client_buflen = 255

abbrev pub server_buflen : ℕ
server_buflen = 1500

-- `fgets` with `room` bytes for the line: up to and with a newline, and what stays to be read.
unfoldable pub fgets : (room : ℕ) → Text → Text × Text
fgets zero input = ([], input)
fgets (suc room) [] = ([], [])
fgets (suc room) (b ∷ input) =
    let rest = fgets room input in if b == 10 then (b ∷ [], input) else (b ∷ rest.0, rest.1)

abbrev pub then_sent : Text → Option (List Text) → Option (List Text)
then_sent line none = none
then_sent line (some sent) = some (c_string line ∷ sent)

-- The end of the input, or a line to send.
abbrev pub send_line : Text → Option (List Text) → Option (List Text)
send_line [] others = some []
send_line (b ∷ line) others = then_sent (b ∷ line) others

-- mcastclient.c, the loop over the lines that are typed: what `sendto` is called with. A line that is
-- not sent is not sent again, so its result makes no difference. `none`: the fuel has run out.
unfoldable pub send_lines : (fuel : ℕ) → Text → Option (List Text)
send_lines zero input = none
send_lines (suc fuel) input =
    let others = send_lines fuel (fgets (client_buflen - 1) input).1 in
    send_line (fgets (client_buflen - 1) input).0 others

-- mcastserver.c, the loop over the datagrams: what is printed. (A `recvfrom` that fails prints nothing.)
unfoldable pub print_datagrams : List Text → Text
print_datagrams [] = []
print_datagrams (d ∷ ds) = c_string (take server_buflen d) ++ print_datagrams ds

-- simple_udpserver.c: `recvfrom` with all of `buff`, and the NUL behind what came; `none` is a write
-- outside of the array.
abbrev pub buff_size : ℕ
buff_size = 128

unfoldable pub receive_text : (room : ℕ) → Text → Option Text
receive_text room datagram =
    let got = take room datagram in if ltb (length got) buff_size then some (c_string got) else none
