-- ===== src/Connection/Delivery.antt =====
-- From the sender's packet to the receiver's.
use twitter_like_client_serv.Base.{
  ◌>>=◌, ℕ, ◌+◌, leb, if◌then◌else◌, Bool-cases, inl, inr, ◌≡◌, refl, ap, sym, ◌∙◌, some, List, [],
  ◌∷◌, ◌++◌, arith, length, append-nil, replicate,
}
use twitter_like_client_serv.Exec.{returns, throws, fault}
use twitter_like_client_serv.Bytes.{read, of_memory, until_nul, read_all, take_all, drop_all}
use twitter_like_client_serv.Packet.{Packet, CmdType, of_byte, blank, to_bytes, from_bytes}
use twitter_like_client_serv.Packet.Layout.{
  filled, layout, length-blank, length-filled, length-layout, to_bytes-layout,
}
use twitter_like_client_serv.Packet.RoundTrip.{
  payload_size, sender_size, from_bytes-fields, fields, IsSendable, from_bytes-to_bytes,
  to_bytes-fits,
}
use twitter_like_client_serv.Connection.{
  Net, bytes, shut, send_message, send_packet, receive_buffer, receive_message, receive_packet,
  unpack, is_refused,
}

-- Every message has the length of the buffer.
pub length-to_bytes : (p : Packet) (b : List ℕ) → to_bytes p ≡ some b → length b ≡ 4096
length-to_bytes p b e =
    let room = (to_bytes-fits p).1 (b, e) in
    let whole : b ≡ filled (layout p) = cc (e, to_bytes-layout p room) in
    ap length whole ∙ length-filled (layout p) (omega (arith, length-layout p))

-- A message that `send_packet` takes is added to what was sent, whole.
pub send_packet-sent :
    (conn : ℕ) (p : Packet) (net : Net) (b : List ℕ)
    → to_bytes p ≡ some b
    → send_packet conn p net ≡ some (record net { sent = net.sent ++ (conn, b) ∷ [] })
unfolding send_packet send_message read
send_packet-sent conn p net b e = rw (e, ◌>>=◌, read_all 4096 b (length-to_bytes p b e))

receive_buffer_full : (b : List ℕ) → length b ≡ 4096 → receive_buffer b ≡ b
unfolding receive_buffer
receive_buffer_full b h = rw (
  take_all 4096 b (omega arith),
  drop_all (length b) blank (omega (arith, length-blank)),
  append-nil,
)

-- The message of a packet that can be sent unchanged, arriving whole, is received as that packet.
pub receive_packet-to_bytes :
    (p : Packet) (b : List ℕ)
    → IsSendable p
    → to_bytes p ≡ some b
    → receive_packet (bytes b) ≡ some p
unfolding receive_packet receive_message
receive_packet-to_bytes p b s e =
    rw (receive_buffer_full b (length-to_bytes p b e))
      (sym (ap (λ o. o >>= from_bytes) e) ∙ from_bytes-to_bytes p s)

-- The packet of 4096 zeros: what both ends make of a `recv` that failed, and the server and the
-- router also of a connection that the peer has shut.
abbrev pub zero_packet : Packet
zero_packet = record { cmd = CmdType.unknown 0; payload = []; timestamp = 0; sender = [] }

pub receive_packet_shut : receive_packet shut ≡ some zero_packet
unfolding receive_packet receive_message from_bytes read of_memory of_byte until_nul blank replicate
receive_packet_shut = refl

-- A whole received message of 4096 bytes, whatever they are. Where the sizes that it claims for its two
-- texts fit in the buffer, the packet has the fields that stand there. Where they do not, nothing in
-- the code stops it: `new` throws if a size that is reached is longer than any array, and otherwise the
-- reads leave the buffer.
pub receive_bounds :
    {S : Type 0} (b : List ℕ) (s : S)
    → length b ≡ 4096
    → unpack (bytes b) s ≡ (
        if leb (25 + payload_size b + sender_size b) 4096
        then returns (fields b) s
        else if is_refused b
        then throws s
        else fault)
unfolding receive_packet receive_message
receive_bounds b s h =
    rw (receive_buffer_full b h, from_bytes-fields b h)
      (elim (Bool-cases (leb (25 + payload_size b + sender_size b) 4096)) [
        | inl fits ↦ rw fits refl
        | inr outside ↦ rw outside refl
      ])
