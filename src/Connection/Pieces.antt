-- ===== src/Connection/Pieces.antt =====
-- `receiveMessage` of commons/ClientConnection.cpp when one `recv` returns a part of the message.
use twitter_like_client_serv.Base.{
  ℕ, zero, suc, ◌+◌, ◌-◌, ◌≤◌, ◌≡◌, refl, sym, ap, ◌∙◌, some, List, [], ◌∷◌, ◌++◌, append_assoc,
  append-nil, arith, length, take, drop, replicate, length-append, length-replicate,
}
use twitter_like_client_serv.Bytes.{to_memory, until_nul, HasNoNul, take_all}
use twitter_like_client_serv.Packet.{Packet, blank, to_bytes, from_bytes}
use twitter_like_client_serv.Packet.Layout.{
  filled, layout, cmd_part, timestamp_part, payload_size_part, payload_part, sender_size_part,
  length-layout, length-payload_size_part, to_bytes-layout,
}
use twitter_like_client_serv.Packet.RoundTrip.{
  IsSendable, received, from_bytes-layout, of_byte-to_byte,
}
use twitter_like_client_serv.Connection.{bytes, receive_buffer, receive_message, receive_packet}

abbrev zeros : ℕ → List ℕ
zeros n = replicate n 0

drop-zeros : (n size : ℕ) → n ≤ size → drop n (zeros size) ≡ zeros (size - n)
unfolding replicate
drop-zeros zero size h = ap zeros (omega arith)
drop-zeros (suc n) zero h = absurd (omega arith)
drop-zeros (suc n) (suc size) h = drop-zeros n size (omega arith) ∙ ap zeros (omega arith)

zeros-add : (m n size : ℕ) → size ≡ m + n → zeros m ++ zeros n ≡ zeros size
unfolding replicate
zeros-add zero n size h = ap zeros (omega arith)
zeros-add (suc m) n zero h = absurd (omega arith)
zeros-add (suc m) n (suc size) h = ap (◌∷◌ 0) (zeros-add m n size (omega arith))

drop-blank : (n : ℕ) → n ≤ 4096 → drop n blank ≡ zeros (4096 - n)
unfolding blank
drop-blank n h = drop-zeros n 4096 h

-- A text with zeros behind it ends at the first of them.
until_nul-zeros : (s : List ℕ) (n : ℕ) → HasNoNul s → until_nul (s ++ zeros n) ≡ s
unfolding until_nul replicate
until_nul-zeros [] zero h = refl
until_nul-zeros [] (suc n) h = refl
until_nul-zeros (c ∷ s) n h = ground (arith, until_nul-zeros s n h.1)

take-HasNoNul : (m : ℕ) (s : List ℕ) → HasNoNul s → HasNoNul (take m s)
take-HasNoNul zero s h = tt
take-HasNoNul (suc m) [] h = tt
take-HasNoNul (suc m) (c ∷ s) h = (h.0, take-HasNoNul m s h.1)

length-take : (m : ℕ) (s : List ℕ) → m ≤ length s → length (take m s) ≡ m
length-take zero s h = refl
length-take (suc m) [] h = elim h [ ]
length-take (suc m) (c ∷ s) h = ap suc (length-take m s (omega arith))

take-front : (m : ℕ) (t u : List ℕ) → m ≤ length t → take m (t ++ u) ≡ take m t
take-front zero t u h = refl
take-front (suc m) [] u h = absurd (omega arith)
take-front (suc m) (c ∷ t) u h = ap (◌∷◌ c) (take-front m t u (omega arith))

take-append :
    (m size : ℕ) (s t u : List ℕ)
    → size ≡ length s + m
    → m ≤ length t
    → take size (s ++ (t ++ u)) ≡ s ++ take m t
take-append m size [] t u e h =
    let whole : size ≡ m = omega arith in ap (λ k. take k (t ++ u)) whole ∙ take-front m t u h
take-append m zero (c ∷ s) t u e h = absurd (omega arith)
take-append m (suc size) (c ∷ s) t u e h = ap (◌∷◌ c) (take-append m size s t u (omega arith) h)

regroup : (f t a b c : List ℕ) → a ++ b ≡ c → (f ++ (t ++ a)) ++ b ≡ (f ++ t) ++ c
regroup f t a b c e = rw (← e) (simp append_assoc)

module _ (p : Packet) (m : ℕ) (in_payload : m ≤ length p.payload)
    (room : 25 + length p.payload + length p.sender ≤ 4096) where
  abbrev arrived : List ℕ
  arrived = payload_size_part p ++ take m p.payload

  length-arrived : length arrived ≡ 17 + m
  length-arrived = omega (
    arith,
    length-append (payload_size_part p) (take m p.payload),
    length-payload_size_part p,
    length-take m p.payload in_payload,
  )

  -- The packet whose whole message is the part that arrived, with the zeros of the buffer.
  abbrev cut : Packet
  cut = record p { payload = take m p.payload ++ zeros (length p.payload - m); sender = [] }

  length-cut : length cut.payload ≡ length p.payload
  length-cut = omega (
    arith,
    length-append (take m p.payload) (zeros (length p.payload - m)),
    length-take m p.payload in_payload,
    length-replicate {A = ℕ} (length p.payload - m) 0,
  )

  same_front : payload_size_part cut ≡ payload_size_part p
  unfolding payload_size_part timestamp_part cmd_part
  same_front = rw length-cut

  no_sender : to_memory 8 0 ≡ zeros 8
  unfolding to_memory replicate
  no_sender = refl

  layout-cut : layout cut ≡ arrived ++ zeros (length p.payload - m + 8)
  unfolding layout sender_size_part payload_part
  layout-cut =
      rw (append-nil, same_front, no_sender)
        (regroup (payload_size_part p) (take m p.payload) (zeros (length p.payload - m)) (zeros 8)
          (zeros (length p.payload - m + 8))
          (zeros-add (length p.payload - m) 8 (length p.payload - m + 8) refl))

  buffer-cut : layout cut ++ drop (length (layout cut)) blank ≡ arrived ++ zeros (4079 - m)
  buffer-cut =
      ap (λ r. layout cut ++ r)
        (drop-blank (length (layout cut)) (omega (arith, length-layout cut, length-cut)))
      ∙ ap (λ l. l ++ zeros (4096 - length (layout cut))) layout-cut
      ∙ append_assoc arrived (zeros (length p.payload - m + 8)) (zeros (4096 - length (layout cut)))
      ∙ ap (λ z. arrived ++ z)
          (zeros-add (length p.payload - m + 8) (4096 - length (layout cut)) (4079 - m)
            (omega (arith, length-layout cut, length-cut)))

  take-message : take (17 + m) (filled (layout p)) ≡ arrived
  unfolding filled layout sender_size_part payload_part
  take-message =
      ap (take (17 + m)) (simp append_assoc)
      ∙ take-append m (17 + m) (payload_size_part p) p.payload
          (to_memory 8 (length p.sender) ++ (p.sender ++ drop (length (layout p)) blank))
          (omega (arith, length-payload_size_part p)) in_payload

  receive_buffer-cut :
      receive_buffer (take (17 + m) (filled (layout p))) ≡ arrived ++ zeros (4079 - m)
  unfolding receive_buffer
  receive_buffer-cut =
      ap receive_buffer take-message
      ∙ rw (take_all 4096 arrived (omega (arith, length-arrived))) (
          ap (λ z. arrived ++ z)
            (drop-blank (length arrived) (omega (arith, length-arrived))
              ∙ ap zeros (omega (arith, length-arrived))))

-- One `recv` need not return a whole message, and the code does not ask for the rest. Where the
-- connection delivers the 17 bytes in front of the text and then `m` bytes of the text, not more than it
-- has, the receiver takes a packet with the same command and time, the text cut after
-- `m` bytes, and no sender. The packet is one that a whole message would bring unchanged.
pub receive_packet_cut :
    (p : Packet) (b : List ℕ) (m : ℕ)
    → IsSendable p
    → to_bytes p ≡ some b
    → m ≤ length p.payload
    → receive_packet (bytes (take (17 + m) b))
      ≡ some (record p { payload = take m p.payload; sender = [] })
unfolding receive_packet receive_message
receive_packet_cut p b m s e h =
    let whole : b ≡ filled (layout p) = cc (e, to_bytes-layout p s.fits.room) in
    ap (λ c. from_bytes (receive_buffer (take (17 + m) c))) whole
    ∙ ap from_bytes (receive_buffer-cut p m h s.fits.room ∙ sym (buffer-cut p m h s.fits.room))
    ∙ from_bytes-layout (cut p m h s.fits.room)
        (drop (length (layout (cut p m h s.fits.room))) blank)
        (omega (arith, length-cut p m h s.fits.room, s.fits.time, s.fits.room))
    ∙ unfold received until_nul in
      rw
        (
          of_byte-to_byte p.cmd s.command,
          until_nul-zeros (take m p.payload) (length p.payload - m)
              (take-HasNoNul m p.payload s.payload_text),
        )
        refl
