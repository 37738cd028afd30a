-- ===== src/Tests/Packets.antt =====
-- Packets and their messages.
use twitter_like_client_serv.Base.{
  ℕ, ◌+◌, leb, if◌then◌else◌, ◌≡◌, some, [], ◌>>=◌, codes, arith, take,
}
use twitter_like_client_serv.Packet.{to_bytes, from_bytes, blank}
use twitter_like_client_serv.Packet.Layout.{length-blank}
use twitter_like_client_serv.Packet.RoundTrip.{
  IsSendable, payload_size, sender_size, fields, from_bytes-to_bytes,
}
use twitter_like_client_serv.Connection.{bytes, receive_packet, unpack, is_refused}
use twitter_like_client_serv.Exec.{returns, throws, fault}
use twitter_like_client_serv.Connection.Delivery.{receive_bounds}
use twitter_like_client_serv.Connection.Pieces.{receive_packet_cut}
use twitter_like_client_serv.Tests.States.{message, message_lem, post}

pub post-IsSendable : IsSendable post
post-IsSendable = record {
  fits = record { time = omega arith; room = omega arith };
  command = tt;
  payload_text = omega arith;
  sender_text = omega arith;
}

from_bytes-to_bytes_example : (to_bytes post >>= from_bytes) ≡ some post
from_bytes-to_bytes_example = from_bytes-to_bytes post post-IsSendable

-- A buffer of zeros.
receive_bounds_example : unpack {S = ℕ} (bytes blank) 0 ≡ (
    if leb (25 + payload_size blank + sender_size blank) 4096
    then returns (fields blank) 0
    else if is_refused blank
    then throws 0
    else fault)
receive_bounds_example = receive_bounds blank 0 length-blank

receive_packet_cut_example :
    receive_packet (bytes (take 18 (message post)))
    ≡ some (record post { payload = codes "h"; sender = [] })
receive_packet_cut_example =
    receive_packet_cut post (message post) 1 post-IsSendable (message_lem post (omega arith))
      (omega arith)
