-- ===== src/Packet.antt =====
-- commons/Packet.h and commons/Packet.cpp: the message of the protocol and its place in memory.
pub mod Layout
pub mod RoundTrip
pub mod Methods
use twitter_like_client_serv.Base.{
  ℕ, ◌+◌, ◌%◌, Option, none, some, List, [], ◌∷◌, Str, ◌==◌, ◌>>=◌, if◌then◌else◌, replicate,
  length,
}
use twitter_like_client_serv.Bytes.{read, write, to_memory, of_memory, until_nul}

-- `enum CmdType`. A cast from a byte can give any value: `unknown b` is one with no name.
pub data CmdType : Type 0 where
  profile close_conn follow send set_primary_if_not_exists set_primary get_primary : CmdType
  set_backup alive ok backup_propagation election elected : CmdType
  unknown : ℕ → CmdType

abbrev pub packet_buffer_len : ℕ
packet_buffer_len = 4096

pub record Packet : Type 0 where
  pub cmd : CmdType
  pub payload : Str
  pub timestamp : ℕ
  pub sender : Str

-- `Packet::Packet()`: the texts are empty, and the two other fields are what the memory held.
unfoldable pub of_memory_held : CmdType → ℕ → Packet
of_memory_held cmd timestamp = record {
  cmd = cmd;
  payload = [];
  timestamp = timestamp;
  sender = [];
}

-- The four constructors with a body; `now` is what `time(nullptr)` returns.
unfoldable pub of_payload : ℕ → Str → Packet
of_payload now payload = record {
  cmd = CmdType.send;
  payload = payload;
  timestamp = now;
  sender = [];
}

unfoldable pub of_cmd : ℕ → CmdType → Packet
of_cmd now cmd = record { cmd = cmd; payload = []; timestamp = now; sender = [] }

unfoldable pub of_cmd_payload : ℕ → CmdType → Str → Packet
of_cmd_payload now cmd payload = record {
  cmd = cmd;
  payload = payload;
  timestamp = now;
  sender = [];
}

unfoldable pub of_cmd_payload_sender : ℕ → CmdType → Str → Str → Packet
of_cmd_payload_sender now cmd payload sender = record {
  cmd = cmd;
  payload = payload;
  timestamp = now;
  sender = sender;
}

-- `(char)this->cmd`
unfoldable pub to_byte : CmdType → ℕ
to_byte CmdType.profile = 1
to_byte CmdType.close_conn = 2
to_byte CmdType.follow = 3
to_byte CmdType.send = 4
to_byte CmdType.set_primary_if_not_exists = 5
to_byte CmdType.set_primary = 6
to_byte CmdType.get_primary = 7
to_byte CmdType.set_backup = 8
to_byte CmdType.alive = 9
to_byte CmdType.ok = 10
to_byte CmdType.backup_propagation = 11
to_byte CmdType.election = 12
to_byte CmdType.elected = 13
to_byte (CmdType.unknown b) = b % 256

-- `(CmdType)buffer[pos]`
unfoldable pub of_byte : ℕ → CmdType
of_byte b =
    if b == 1
    then CmdType.profile
    else if b == 2
    then CmdType.close_conn
    else if b == 3
    then CmdType.follow
    else if b == 4
    then CmdType.send
    else if b == 5
    then CmdType.set_primary_if_not_exists
    else if b == 6
    then CmdType.set_primary
    else if b == 7
    then CmdType.get_primary
    else if b == 8
    then CmdType.set_backup
    else if b == 9
    then CmdType.alive
    else if b == 10
    then CmdType.ok
    else if b == 11
    then CmdType.backup_propagation
    else if b == 12
    then CmdType.election
    else if b == 13
    then CmdType.elected
    else CmdType.unknown b

-- `memset(buffer, 0, PACKET_BUFFER_LEN)`
unfoldable pub blank : List ℕ
blank = replicate packet_buffer_len 0

-- `Packet::toBytes`: `none` is a write past the end of the buffer.
unfoldable pub to_bytes : Packet → Option (List ℕ)
to_bytes p = do
  buffer ← write 0 (to_byte p.cmd ∷ []) blank
  buffer ← write 1 (to_memory 8 p.timestamp) buffer
  buffer ← write 9 (to_memory 8 (length p.payload)) buffer
  buffer ← write 17 p.payload buffer
  let pos = 17 + length p.payload
  buffer ← write pos (to_memory 8 (length p.sender)) buffer
  write (pos + 8) p.sender buffer

-- `Packet::fromBytes`: `none` is a read past the end of the buffer, unless `new` throws before it for
-- such a size (`is_refused` of Connection).
unfoldable pub from_bytes : List ℕ → Option Packet
from_bytes buffer = do
  cmd ← read 0 1 buffer
  timestamp ← read 1 8 buffer
  payload_size ← read 9 8 buffer
  let payload_len = of_memory payload_size
  payload_char ← read 17 payload_len buffer
  let pos = 17 + payload_len
  sender_size ← read pos 8 buffer
  let sender_len = of_memory sender_size
  sender_char ← read (pos + 8) sender_len buffer
  some (record {
    cmd = of_byte (of_memory cmd);
    payload = until_nul payload_char;
    timestamp = of_memory timestamp;
    sender = until_nul sender_char;
  })

abbrev pub get_cmd : Packet → CmdType
get_cmd p = p.cmd

abbrev pub get_payload : Packet → Str
get_payload p = p.payload

abbrev pub get_sender : Packet → Str
get_sender p = p.sender

abbrev pub get_timestamp : Packet → ℕ
get_timestamp p = p.timestamp
