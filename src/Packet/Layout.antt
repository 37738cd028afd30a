-- ===== src/Packet/Layout.antt =====
-- What `to_bytes` writes, in one equation: the fields in order, then the zeros of the buffer.
use twitter_like_client_serv.Base.{
  ℕ, zero, suc, ◌+◌, ◌≤◌, ◌<◌, ◌≡◌, refl, sym, ap, ◌∙◌, none, some, List, [], ◌∷◌, ◌++◌, arith,
  length, drop, length-append, length-drop, length-replicate,
}
use native.Mathlib.Decide.{dec_le}
use twitter_like_client_serv.Bytes.{write, to_memory, length-to_memory, write-append, write_full}
use twitter_like_client_serv.Packet.{Packet, to_byte, blank, to_bytes}

pub length-blank : length blank ≡ 4096
unfolding blank
length-blank = length-replicate 4096 0

-- The buffer once `front` stands at its start.
unfoldable pub filled : List ℕ → List ℕ
filled front = front ++ drop (length front) blank

filled-nil : filled [] ≡ blank
unfolding filled
filled-nil = refl

drop-nil {ℓ} : {A : Type ℓ} (n : ℕ) → drop {A = A} n [] ≡ []
drop-nil zero = refl
drop-nil (suc n) = refl

drop-drop {ℓ} : {A : Type ℓ} (n m : ℕ) (xs : List A) → drop m (drop n xs) ≡ drop (n + m) xs
drop-drop zero m xs = ap (λ k. drop k xs) (omega arith)
drop-drop {A} (suc n) m [] = drop-nil {A = A} m ∙ sym (drop-nil {A = A} (suc n + m))
drop-drop (suc n) m (x ∷ xs) = drop-drop n m xs ∙ ap (λ k. drop k (x ∷ xs)) (shift n m)
  where
    shift : (n m : ℕ) → suc (n + m) ≡ suc n + m
    shift n m = omega arith

module _ (pos : ℕ) (front src : List ℕ) (here : pos ≡ length front) where
  write-filled :
      pos + length src ≤ 4096 → write pos src (filled front) ≡ some (filled (front ++ src))
  unfolding filled
  write-filled h = rw (
    here,
    write-append front src (drop (length front) blank)
        (omega (arith, length-drop (length front) blank, length-blank)),
    drop-drop (length front) (length src) blank,
    length-append front src,
  )

  write-filled_full :
      4096 < pos + length src → length front ≤ 4096 → write pos src (filled front) ≡ none
  unfolding filled
  write-filled_full h fits = rw here (
      write_full front src (drop (length front) blank)
        (omega (arith, length-drop (length front) blank, length-blank)))

pub length-filled : (front : List ℕ) → length front ≤ 4096 → length (filled front) ≡ 4096
unfolding filled
length-filled front h = omega (
  arith,
  length-append front (drop (length front) blank),
  length-drop (length front) blank,
  length-blank,
)

-- The prefixes of the message, a field longer each.
module _ (p : Packet) where
  unfoldable pub cmd_part : List ℕ
  cmd_part = to_byte p.cmd ∷ []

  unfoldable pub timestamp_part : List ℕ
  timestamp_part = cmd_part ++ to_memory 8 p.timestamp

  unfoldable pub payload_size_part : List ℕ
  payload_size_part = timestamp_part ++ to_memory 8 (length p.payload)

  unfoldable pub payload_part : List ℕ
  payload_part = payload_size_part ++ p.payload

  unfoldable pub sender_size_part : List ℕ
  sender_size_part = payload_part ++ to_memory 8 (length p.sender)

  unfoldable pub layout : List ℕ
  layout = sender_size_part ++ p.sender

  pub length-cmd_part : length cmd_part ≡ 1
  unfolding cmd_part
  length-cmd_part = omega arith

  pub length-timestamp_part : length timestamp_part ≡ 9
  unfolding timestamp_part
  length-timestamp_part = omega (
    arith,
    length-append cmd_part (to_memory 8 p.timestamp),
    length-cmd_part,
    length-to_memory 8 p.timestamp,
  )

  pub length-payload_size_part : length payload_size_part ≡ 17
  unfolding payload_size_part
  length-payload_size_part = omega (
    arith,
    length-append timestamp_part (to_memory 8 (length p.payload)),
    length-timestamp_part,
    length-to_memory 8 (length p.payload),
  )

  pub length-payload_part : length payload_part ≡ 17 + length p.payload
  unfolding payload_part
  length-payload_part =
      omega (arith, length-append payload_size_part p.payload, length-payload_size_part)

  pub length-sender_size_part : length sender_size_part ≡ 17 + length p.payload + 8
  unfolding sender_size_part
  length-sender_size_part = omega (
    arith,
    length-append payload_part (to_memory 8 (length p.sender)),
    length-payload_part,
    length-to_memory 8 (length p.sender),
  )

  pub length-layout : length layout ≡ 25 + length p.payload + length p.sender
  unfolding layout
  length-layout = omega (arith, length-append sender_size_part p.sender, length-sender_size_part)

  write_cmd : write 0 (to_byte p.cmd ∷ []) blank ≡ some (filled cmd_part)
  unfolding cmd_part
  write_cmd = rw (← filled-nil) (write-filled 0 [] (to_byte p.cmd ∷ []) (omega arith) (omega arith))

  write_timestamp :
      write 1 (to_memory 8 p.timestamp) (filled cmd_part) ≡ some (filled timestamp_part)
  unfolding timestamp_part
  write_timestamp =
      write-filled 1 cmd_part (to_memory 8 p.timestamp) (sym length-cmd_part)
        (omega (arith, length-to_memory 8 p.timestamp))

  write_payload_size :
      write 9 (to_memory 8 (length p.payload)) (filled timestamp_part)
      ≡ some (filled payload_size_part)
  unfolding payload_size_part
  write_payload_size =
      write-filled 9 timestamp_part (to_memory 8 (length p.payload)) (sym length-timestamp_part)
        (omega (arith, length-to_memory 8 (length p.payload)))

  write_payload :
      17 + length p.payload ≤ 4096
      → write 17 p.payload (filled payload_size_part) ≡ some (filled payload_part)
  unfolding payload_part
  write_payload h = write-filled 17 payload_size_part p.payload (sym length-payload_size_part) h

  write_sender_size :
      25 + length p.payload ≤ 4096
      → write (17 + length p.payload) (to_memory 8 (length p.sender)) (filled payload_part)
        ≡ some (filled sender_size_part)
  unfolding sender_size_part
  write_sender_size h =
      write-filled (17 + length p.payload) payload_part (to_memory 8 (length p.sender))
        (sym length-payload_part) (omega (arith, length-to_memory 8 (length p.sender)))

  -- The message fits: the fields stand in the buffer in order, with zeros behind them.
  pub to_bytes-layout :
      25 + length p.payload + length p.sender ≤ 4096 → to_bytes p ≡ some (filled layout)
  unfolding to_bytes layout
  to_bytes-layout h = ground (
    arith,
    write_cmd,
    write_timestamp,
    write_payload_size,
    write_payload (omega arith),
    write_sender_size (omega arith),
    write-filled (17 + length p.payload + 8) sender_size_part p.sender (sym length-sender_size_part)
        (omega arith),
  )

  -- It does not: some write leaves the buffer.
  pub to_bytes_overflow : 4096 < 25 + length p.payload + length p.sender → to_bytes p ≡ none
  unfolding to_bytes
  to_bytes_overflow h = elim (dec_le (17 + length p.payload) 4096) [
    | no long ↦ ground (
      arith,
      write_cmd,
      write_timestamp,
      write_payload_size,
      write-filled_full 17 payload_size_part p.payload (sym length-payload_size_part) (omega arith)
          (omega (arith, length-payload_size_part)),
    )
    | yes short ↦ elim (dec_le (25 + length p.payload) 4096) [
      | no long ↦ ground (
        arith,
        write_cmd,
        write_timestamp,
        write_payload_size,
        write_payload short,
        write-filled_full (17 + length p.payload) payload_part (to_memory 8 (length p.sender))
            (sym length-payload_part) (omega (arith, length-to_memory 8 (length p.sender)))
            (omega (arith, length-payload_part)),
      )
      | yes shorter ↦ ground (
        arith,
        write_cmd,
        write_timestamp,
        write_payload_size,
        write_payload short,
        write_sender_size shorter,
        write-filled_full (17 + length p.payload + 8) sender_size_part p.sender
            (sym length-sender_size_part) (omega arith) (omega (arith, length-sender_size_part)),
      )
    ]
  ]
