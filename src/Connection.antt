-- ===== src/Connection.antt =====
-- commons/ClientConnection.cpp and the messages of commons/Connection.cpp. A connection object is a
-- number; what the objects do to their sockets is the record `Net`.
pub mod Delivery
pub mod Pieces
pub mod Methods
use twitter_like_client_serv.Base.{
  ℕ, ◌+◌, ◌%◌, ◌^◌, ◌≡◌, leb, ◌||◌, ◌&&◌, arith, Bool, true, false, Option, none, some, List, [],
  ◌∷◌, ◌++◌, ◌==◌, ◌>>=◌, if◌then◌else◌, length, take, drop,
}
use twitter_like_client_serv.Exec.{Outcome, returns, throws, fault, Exec}
use twitter_like_client_serv.Bytes.{read, of_memory}
use twitter_like_client_serv.Packet.{Packet, packet_buffer_len, blank, to_bytes, from_bytes}

-- `sent` holds the buffers that were handed to `send`, oldest first, each with its connection.
pub record Net : Type 0 where
  pub closed : ℕ → Bool
  pub sent : List (ℕ × List ℕ)

-- `ClientConnection::ClientConnection`: the object of the number `conn` is made anew.
unfoldable pub client_connection : ℕ → Net → Net
client_connection conn net = record net { closed = λ c. if c == conn then false else net.closed c }

-- What `recv` returns: bytes of the stream, 0 when the peer has shut the connection, or -1.
pub data Recv : Type 0 where
  bytes : List ℕ → Recv
  shut failed : Recv

-- `ClientConnection::sendMessage`: 4096 bytes of the message are copied and sent; what `send` returns
-- is dropped. The SIGPIPE of a peer that is gone is left out.
unfoldable pub send_message : ℕ → List ℕ → Net → Option Net
send_message conn msg net = do
  buffer_out ← read 0 packet_buffer_len msg
  some (record net { sent = net.sent ++ (conn, buffer_out) ∷ [] })

-- `ClientConnection::sendPacket`. It does not look at `closed`, and the result of `send` is dropped.
unfoldable pub send_packet : ℕ → Packet → Net → Option Net
send_packet conn packet net = do buffer ← to_bytes packet; send_message conn buffer net

-- `recv` overwrites the front of a buffer of zeros, at most 4096 bytes of it.
unfoldable pub receive_buffer : List ℕ → List ℕ
receive_buffer bs = let got = take packet_buffer_len bs in got ++ drop (length got) blank

-- `ClientConnection::receiveMessage` drops the result of `recv`.
unfoldable pub receive_message : Recv → List ℕ
receive_message (bytes bs) = receive_buffer bs
receive_message shut = blank
receive_message failed = blank

-- `ClientConnection::receivePacket`
unfoldable pub receive_packet : Recv → Option Packet
receive_packet r = from_bytes (receive_message r)

-- `new char[size + 1]` in `Packet::fromBytes`: whether `new` throws for one of the two sizes, because
-- no array is so long. The sender's size is read if the payload was within the buffer.
unfoldable pub is_too_long : ℕ → Bool
is_too_long size = leb (2 ^ 63) ((size + 1) % 2 ^ 64)

unfoldable pub is_refused : List ℕ → Bool
is_refused buffer =
    let payload_len = of_memory (take 8 (drop 9 buffer)) in
    is_too_long payload_len
    || (leb (25 + payload_len) (length buffer)
        && is_too_long (of_memory (take 8 (drop (17 + payload_len) buffer))))

-- `receivePacket` as a part of a program: where there is no packet, `new` throws, or the reads leave
-- the buffer.
abbrev pub given : {S : Type 0} → Bool → Option Packet → Exec S Packet
given refused none s = if refused then throws s else fault
given refused (some p) s = returns p s

abbrev pub unpack : {S : Type 0} → Recv → Exec S Packet
unpack r = given (is_refused (receive_message r)) (receive_packet r)

-- `ClientConnection::isClosed` and `ClientConnection::close`, under the object's mutex.
unfoldable pub is_closed : ℕ → Net → Bool
is_closed conn net = net.closed conn

unfoldable pub close : ℕ → Net → Net
close conn net = record net { closed = λ c. if c == conn then true else net.closed c }

-- A new connection is open, until it is closed.
pub close-client_connection :
    (conn : ℕ) (net : Net)
    → (is_closed conn (client_connection conn net) ≡ false)
      × (is_closed conn (close conn (client_connection conn net)) ≡ true)
unfolding is_closed close client_connection
close-client_connection conn net = ground arith
