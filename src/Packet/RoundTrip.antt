-- ===== src/Packet/RoundTrip.antt =====
-- What the receiver reads of a message that the sender wrote.
use twitter_like_client_serv.Base.{
  ◌>>=◌, ℕ, ◌+◌, ◌^◌, ◌≤◌, ◌<◌, ◌≡◌, ◌⊎◌, ◌↔◌, refl, sym, ◌∙◌, some, List, [], ◌∷◌, ◌++◌,
  append_assoc, arith, length, take, drop, if◌then◌else◌, leb, none,
}
use native.Mathlib.Decide.{dec_le}
use twitter_like_client_serv.Bytes.{
  read, to_memory, of_memory, until_nul, HasNoNul, until_nul_lem, length-to_memory,
  of_memory-to_memory, read-append,
}
use twitter_like_client_serv.Packet.{Packet, CmdType, to_byte, of_byte, blank, to_bytes, from_bytes}
use twitter_like_client_serv.Packet.Layout.{
  filled, cmd_part, timestamp_part, payload_size_part, payload_part, sender_size_part, layout,
  length-cmd_part, length-timestamp_part, length-payload_size_part, length-payload_part,
  length-sender_size_part, to_bytes-layout, to_bytes_overflow,
}

-- A command that has a name, or a byte that no name has.
abbrev pub IsCommand : CmdType → Type 0
IsCommand (CmdType.unknown b) = (b < 256) × ((b ≡ 0) ⊎ (13 < b))
IsCommand _ = Unit {0}

pub of_byte-to_byte : (c : CmdType) → IsCommand c → of_byte (to_byte c) ≡ c
unfolding of_byte to_byte
of_byte-to_byte (CmdType.unknown b) h = ground arith
of_byte-to_byte CmdType.profile h = refl
of_byte-to_byte _ h = refl

module _ (pos n : ℕ) (front mid back : List ℕ) (buffer : List ℕ) where
  read-at :
      pos ≡ length front
      → n ≡ length mid
      → buffer ≡ front ++ (mid ++ back)
      → read pos n buffer ≡ some mid
  read-at p q e = rw (p, q, e) (read-append front mid back)

-- What a packet becomes on the way: the texts end at their first zero byte.
unfoldable pub received : Packet → Packet
received p = record {
  cmd = of_byte (to_byte p.cmd);
  payload = until_nul p.payload;
  timestamp = p.timestamp;
  sender = until_nul p.sender;
}

-- The values that fit their places in memory: `time_t` and `size_t` are 64 bits wide.
pub record Fits (p : Packet) : Type 0 where
  pub time : p.timestamp < 2 ^ 64
  pub room : 25 + length p.payload + length p.sender ≤ 4096

one_byte : (b : ℕ) → of_memory (b ∷ []) ≡ b
unfolding of_memory
one_byte b = omega arith

module _ (p : Packet) (rest : List ℕ) where
  abbrev buffer : List ℕ
  buffer = layout p ++ rest

  -- What stands in the buffer behind each field.
  abbrev after_sender_size : List ℕ
  after_sender_size = p.sender ++ rest

  abbrev after_payload : List ℕ
  after_payload = to_memory 8 (length p.sender) ++ after_sender_size

  abbrev after_payload_size : List ℕ
  after_payload_size = p.payload ++ after_payload

  abbrev after_timestamp : List ℕ
  after_timestamp = to_memory 8 (length p.payload) ++ after_payload_size

  abbrev after_cmd : List ℕ
  after_cmd = to_memory 8 p.timestamp ++ after_timestamp

  read_cmd : read 0 1 buffer ≡ some (to_byte p.cmd ∷ [])
  unfolding layout sender_size_part payload_part payload_size_part timestamp_part cmd_part
  read_cmd =
      read-at 0 1 [] (to_byte p.cmd ∷ []) after_cmd buffer (omega arith) (omega arith)
        (simp append_assoc)

  read_timestamp : read 1 8 buffer ≡ some (to_memory 8 p.timestamp)
  unfolding layout sender_size_part payload_part payload_size_part timestamp_part
  read_timestamp =
      read-at 1 8 (cmd_part p) (to_memory 8 p.timestamp) after_timestamp buffer
        (sym (length-cmd_part p)) (sym (length-to_memory 8 p.timestamp)) (simp append_assoc)

  read_payload_size : read 9 8 buffer ≡ some (to_memory 8 (length p.payload))
  unfolding layout sender_size_part payload_part payload_size_part
  read_payload_size =
      read-at 9 8 (timestamp_part p) (to_memory 8 (length p.payload)) after_payload_size buffer
        (sym (length-timestamp_part p)) (sym (length-to_memory 8 (length p.payload)))
        (simp append_assoc)

  read_payload : read 17 (length p.payload) buffer ≡ some p.payload
  unfolding layout sender_size_part payload_part
  read_payload =
      read-at 17 (length p.payload) (payload_size_part p) p.payload after_payload buffer
        (sym (length-payload_size_part p)) refl (simp append_assoc)

  read_sender_size : read (17 + length p.payload) 8 buffer ≡ some (to_memory 8 (length p.sender))
  unfolding layout sender_size_part
  read_sender_size =
      read-at (17 + length p.payload) 8 (payload_part p) (to_memory 8 (length p.sender))
        after_sender_size buffer (sym (length-payload_part p))
        (sym (length-to_memory 8 (length p.sender))) (simp append_assoc)

  read_sender : read (17 + length p.payload + 8) (length p.sender) buffer ≡ some p.sender
  unfolding layout
  read_sender =
      read-at (17 + length p.payload + 8) (length p.sender) (sender_size_part p) p.sender rest
        buffer (sym (length-sender_size_part p)) refl
        (append_assoc (sender_size_part p) p.sender rest)

  pub from_bytes-layout : Fits p → from_bytes buffer ≡ some (received p)
  unfolding from_bytes received
  from_bytes-layout f = ground (
    arith,
    read_cmd,
    read_timestamp,
    read_payload_size,
    read_payload,
    read_sender_size,
    read_sender,
    of_memory-to_memory 8 p.timestamp f.time,
    of_memory-to_memory 8 (length p.payload) (omega (arith, f.room)),
    of_memory-to_memory 8 (length p.sender) (omega (arith, f.room)),
    one_byte (to_byte p.cmd),
  )

-- A packet that fits the buffer, at a time of 64 bits, is read back with the texts cut at their
-- first zero byte and the command that its byte stands for.
pub from_bytes-to_bytes_cut :
    (p : Packet) → Fits p → (to_bytes p >>= from_bytes) ≡ some (received p)
from_bytes-to_bytes_cut p f =
    rw (to_bytes-layout p f.room)
      (unfold filled in from_bytes-layout p (drop (length (layout p)) blank) f)

-- The sender writes within its buffer exactly when both texts and the 25 bytes around them come to
-- 4096 bytes at most.
pub to_bytes-fits :
    (p : Packet)
    → (25 + length p.payload + length p.sender ≤ 4096) ↔ ((b : List ℕ) × (to_bytes p ≡ some b))
to_bytes-fits p = (
  λ h. (filled (layout p), to_bytes-layout p h),
  λ (b, e). elim (dec_le (25 + length p.payload + length p.sender) 4096) [
    | yes fits ↦ fits
    | no long ↦ absurd (cc (to_bytes_overflow p (omega arith)))
  ],
)

-- The fields of a packet that `from_bytes` gives back unchanged.
pub record IsSendable (p : Packet) : Type 0 where
  pub fits : Fits p
  pub command : IsCommand p.cmd
  pub payload_text : HasNoNul p.payload
  pub sender_text : HasNoNul p.sender

-- A packet with a named command, or another byte, whose texts hold no zero byte, whose time fits in
-- 64 bits and that fits the buffer is read back as it was written.
pub from_bytes-to_bytes : (p : Packet) → IsSendable p → (to_bytes p >>= from_bytes) ≡ some p
unfolding received
from_bytes-to_bytes p s =
    from_bytes-to_bytes_cut p s.fits
    ∙ ground (
      arith,
      of_byte-to_byte p.cmd s.command,
      until_nul_lem p.payload s.payload_text,
      until_nul_lem p.sender s.sender_text,
    )

-- The sizes that a buffer claims for its texts.
abbrev pub payload_size : List ℕ → ℕ
payload_size b = of_memory (take 8 (drop 9 b))

abbrev pub sender_size : List ℕ → ℕ
sender_size b = of_memory (take 8 (drop (17 + payload_size b) b))

-- The fields at the places where they stand.
unfoldable pub fields : List ℕ → Packet
fields b = record {
  cmd = of_byte (of_memory (take 1 b));
  payload = until_nul (take (payload_size b) (drop 17 b));
  timestamp = of_memory (take 8 (drop 1 b));
  sender = until_nul (take (sender_size b) (drop (17 + payload_size b + 8) b));
}

-- A buffer of 4096 bytes gives a packet exactly when the sizes that it claims fit in it.
pub from_bytes-fields :
    (b : List ℕ)
    → length b ≡ 4096
    → from_bytes b
      ≡ (if leb (25 + payload_size b + sender_size b) 4096 then some (fields b) else none)
unfolding from_bytes read fields
from_bytes-fields b h = ground (arith, h)
