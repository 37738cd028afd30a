-- ===== src/Client/Commands.antt =====
-- The lines that a user types, and the packets that the client makes of them.
use twitter_like_client_serv.Base.{
  ℕ, ◌+◌, ◌≤◌, ◌<◌, ◌≡◌, refl, true, false, none, some, List, ◌∷◌, ◌++◌, Str, if◌then◌else◌, ltb,
  length, codes, arith, le→leb,
}
use twitter_like_client_serv.Packet.{CmdType, to_bytes, of_cmd_payload_sender}
use twitter_like_client_serv.Packet.RoundTrip.{to_bytes-fits}
use twitter_like_client_serv.Packet.Layout.{to_bytes_overflow}
use twitter_like_client_serv.Command.{
  starts_with, rfind, begins, substr, packet, refused, follow_command, send_command, read_command,
}
use twitter_like_client_serv.Client.{accepts_profile}

-- No copy of the word begins in the text.
abbrev pub NoCopy : Str → Str → Type 0
NoCopy word s = rfind word s ≡ none

rfind_here :
    (word : Str) (c : ℕ) (s : Str)
    → NoCopy word s
    → starts_with word (c ∷ s) ≡ true
    → rfind word (c ∷ s) ≡ some 0
unfolding rfind
rfind_here word c s h e = rw (h, rfind) (rw e)

-- A line of "FOLLOW", a space and a name is a FOLLOW packet with that name, if no copy of "FOLLOW"
-- begins behind the first letter of the line.
pub read_command-follow :
    (name : Str)
    → NoCopy (codes "FOLLOW") (codes "OLLOW " ++ name)
    → read_command (codes "FOLLOW " ++ name) ≡ packet CmdType.follow name
unfolding read_command starts_with begins substr follow_command
read_command-follow name h =
    rw (rfind_here (codes "FOLLOW") b'F' (codes "OLLOW " ++ name) h refl)
      (rw (le→leb 7 (length (codes "FOLLOW " ++ name)) (omega arith)))

-- A line of "SEND", a space and a message is a SEND packet with that message, or is refused if the
-- message has more than 128 bytes. No copy of "SEND" may begin behind the first letter of the line,
-- and none of "FOLLOW" stand in it.
pub read_command-send :
    (message : Str)
    → NoCopy (codes "SEND") (codes "END " ++ message)
    → NoCopy (codes "FOLLOW") (codes "SEND " ++ message)
    → read_command (codes "SEND " ++ message)
      ≡ (if ltb 128 (length message) then refused else packet CmdType.send message)
unfolding read_command starts_with begins substr send_command
read_command-send message h k = rw k (
    rw (rfind_here (codes "SEND") b'S' (codes "END " ++ message) h refl)
      (rw (le→leb 5 (length (codes "SEND " ++ message)) (omega arith))))

rfind_later :
    (word : Str) (c : ℕ) (s : Str) (i : ℕ)
    → rfind word s ≡ some i
    → begins (rfind word (c ∷ s)) ≡ false
unfolding rfind begins
rfind_later word c s i h = ground (arith, h)

not_at_front :
    (word : Str) (c : ℕ) (s : Str)
    → starts_with word (c ∷ s) ≡ false
    → begins (rfind word (c ∷ s)) ≡ false
unfolding rfind begins
not_at_front word c s h = ground (arith, h)

-- A SEND line whose message has the word SEND in it again is refused: the code looks for the last
-- copy of the word, and that does not stand at the front.
pub read_command_repeated :
    (message : Str) (i : ℕ)
    → rfind (codes "SEND") (codes "END " ++ message) ≡ some i
    → read_command (codes "SEND " ++ message) ≡ refused
unfolding read_command starts_with
read_command_repeated message i h = rw (
  not_at_front (codes "FOLLOW") b'S' (codes "END " ++ message) refl,
  rfind_later (codes "SEND") b'S' (codes "END " ++ message) i h,
)

-- The message of a SEND packet has at most 128 bytes.
pub read_command_bounds :
    (line text : Str) → read_command line ≡ packet CmdType.send text → length text ≤ 128
unfolding read_command follow_command send_command substr
read_command_bounds line text e = ground arith

-- The SEND packet of a line, from a profile that `main` accepts, fits its buffer.
pub send_packet-fits :
    (line text profile : Str) (now : ℕ)
    → accepts_profile profile ≡ true
    → read_command line ≡ packet CmdType.send text
    → (b : List ℕ) × (to_bytes (of_cmd_payload_sender now CmdType.send text profile) ≡ some b)
unfolding accepts_profile of_cmd_payload_sender
send_packet-fits line text profile now ok e =
    let short : length profile ≤ 21 = ground arith in
    (to_bytes-fits
        (record { cmd = CmdType.send; payload = text; timestamp = now; sender = profile })).0
      (omega (arith, read_command_bounds line text e))

-- Nothing bounds the name of a FOLLOW line: from 4072 bytes on, together with the profile, the line
-- is still a FOLLOW packet, and its bytes are written past the end of the buffer.
pub follow_overflow :
    (name profile : Str) (now : ℕ)
    → NoCopy (codes "FOLLOW") (codes "OLLOW " ++ name)
    → 4071 < length name + length profile
    → (read_command (codes "FOLLOW " ++ name) ≡ packet CmdType.follow name)
      × (to_bytes (of_cmd_payload_sender now CmdType.follow name profile) ≡ none)
unfolding of_cmd_payload_sender
follow_overflow name profile now h long = (
  read_command-follow name h,
  to_bytes_overflow
      (record { cmd = CmdType.follow; payload = name; timestamp = now; sender = profile })
      (omega arith),
)
