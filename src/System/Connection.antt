-- ===== src/System/Connection.antt =====
-- commons/Connection.h and commons/Connection.cpp: an outgoing connection and its socket.
pub mod Methods
use twitter_like_client_serv.Base.{
  ℕ, ◌≡◌, refl, Bool, true, false, Option, none, some, List, [], ◌∷◌, ◌++◌, Str, if◌then◌else◌,
  arith,
}
use twitter_like_client_serv.Exec.{Exec, Outcome, returns, throws, ◌>>=◌, ◌>>◌, pure, lift, bind}
use twitter_like_client_serv.Bytes.{read, read_all}
use twitter_like_client_serv.Packet.{Packet, packet_buffer_len, to_bytes}
use twitter_like_client_serv.Connection as ClientConnection
use twitter_like_client_serv.Connection.{Recv, bytes, shut, failed, unpack}
use twitter_like_client_serv.Connection.Delivery.{length-to_bytes}
use twitter_like_client_serv.System.{System, Call, ask, ask_or_exit, after}

pub record Connection : Type 0 where
  pub sockfd : ℕ
  pub closed : Bool

-- The rest of the constructor, from what `connect` returned.
unfoldable pub connected : ℕ → Option ℕ → Exec System Connection
connected sockfd none s = throws s
connected sockfd (some v) s = returns (record { sockfd = sockfd; closed = false }) s

-- `Connection::Connection`
unfoldable pub connect : ℕ → Str → Exec System Connection
connect port server_addr = do
  sockfd ← ask_or_exit Call.socket
  result ← ask (Call.connect sockfd server_addr port)
  connected sockfd result

unfoldable pub is_closed : Connection → Bool
is_closed con = con.closed

-- `Connection::sendMessage`: 4096 bytes of the message are copied and sent; the result is dropped.
-- The SIGPIPE of a peer that is gone is left out.
unfoldable pub send_message : Connection → List ℕ → Exec System (Unit {0})
send_message con msg = do
  buffer_out ← lift (read 0 packet_buffer_len msg)
  _ ← ask (Call.send con.sockfd buffer_out)
  pure tt

-- `Connection::sendPacket`. It does not look at `closed`.
unfoldable pub send_packet : Connection → Packet → Exec System (Unit {0})
send_packet con packet = do buffer_temp ← lift (to_bytes packet); send_message con buffer_temp

-- `Connection::receivePacket`, from what `recv` returns: 0 is an exception.
unfoldable pub receive_packet : Recv → Exec System Packet
receive_packet shut s = throws s
receive_packet failed s = unpack failed s
receive_packet (bytes bs) s = unpack (bytes bs) s

-- `Connection::close`
unfoldable pub close : Connection → Exec System Connection
close con s =
    if con.closed
    then returns con s
    else (do _ ← ask (Call.close con.sockfd); pure (record con { closed = true })) s

-- The second of two closings of a connection does nothing: the flag stays, and the socket, whose
-- number the system may have given to another by then, is not closed again.
pub close-close : (con : Connection) (s : System) → (close con >>= close) s ≡ close con s
unfolding close ask
close-close con s = ground arith

-- A packet goes out as its bytes, also over a connection that is closed: then on the number of a socket
-- that is no longer its own.
pub send_packet-sent :
    (con : Connection) (packet : Packet) (b : List ℕ) (s : System)
    → to_bytes packet ≡ some b
    → send_packet con packet s ≡ returns tt (after s (Call.send con.sockfd b))
unfolding send_packet send_message ask read
send_packet-sent con packet b s e = rw (e, bind, read_all 4096 b (length-to_bytes packet b e)) refl
