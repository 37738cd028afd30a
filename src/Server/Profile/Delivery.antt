-- ===== src/Server/Profile/Delivery.antt =====
-- Which messages reach which sessions, and the count of the sessions.
use twitter_like_client_serv.Base.{
  ℕ, ◌≡◌, refl, ◌∙◌, Option, none, some, List, [], ◌∷◌, ◌++◌, ◌>>=◌, if◌then◌else◌, Str, length,
  arith, append_assoc, append-nil, Bool-cases, Option-cases, inl, inr, ◌≢◌, map,
}
use twitter_like_client_serv.Base.Int.{pos, is_positive}
use twitter_like_client_serv.Packet.{Packet, to_bytes}
use twitter_like_client_serv.Connection.{Net, send_packet}
use twitter_like_client_serv.Connection.Delivery.{send_packet-sent}
use twitter_like_client_serv.Server.Inbox.{Inbox, insert_packet, pop_packet, has_packet}
use twitter_like_client_serv.Server.Profile.{
  Session, Profile, send_to_sessions, send_or_insert_inbox, send_to_all, fetch_loop,
  fetch_inbox_content, new_profile, inc_sessions_on,
}

-- One copy of the message for each session that is no null pointer, in the order of the sessions.
abbrev pub copies : List ℕ → List Session → List (ℕ × List ℕ)
copies b [] = []
copies b (none ∷ ss) = copies b ss
copies b (some conn ∷ ss) = (conn, b) ∷ copies b ss

-- A packet with its message.
abbrev pub Encoded : Packet → List ℕ → Type 0
Encoded p b = to_bytes p ≡ some b

pub send_to_sessions-sent :
    (p : Packet) (b : List ℕ) (ss : List Session) (net : Net)
    → Encoded p b
    → send_to_sessions p ss net ≡ some (record net { sent = net.sent ++ copies b ss })
unfolding send_to_sessions
send_to_sessions-sent p b [] net e = rw append-nil
send_to_sessions-sent p b (none ∷ ss) net e = send_to_sessions-sent p b ss net e
send_to_sessions-sent p b (some conn ∷ ss) net e = rw (
  send_packet-sent conn p net b e,
  ◌>>=◌,
  send_to_sessions-sent p b ss (record net { sent = net.sent ++ (conn, b) ∷ [] }) e,
  append_assoc,
)

-- A packet that fits its buffer, to a profile: with a session counted it goes to every session that
-- is no null pointer, in their order, and leaves the profile as it was; otherwise it is put behind
-- the messages of the inbox, and nothing is sent.
pub send_or_insert_inbox_cases :
    (packet : Packet) (b : List ℕ) (p : Profile) (net : Net)
    → Encoded packet b
    → send_or_insert_inbox packet p net ≡ (
        if is_positive p.sessions_on
        then some (p, record net { sent = net.sent ++ copies b p.sessions })
        else some (record p { inbox = p.inbox ++ packet ∷ [] }, net))
unfolding send_or_insert_inbox insert_packet
send_or_insert_inbox_cases packet b p net e = elim (Bool-cases (is_positive p.sessions_on)) [
  | inl on ↦ rw (on, send_to_sessions-sent packet b p.sessions net e, ◌>>=◌)
  | inr off ↦ rw off
]

-- No pointer among the sessions is null.
abbrev pub NoNull : List Session → Type 0
NoNull [] = Unit {0}
NoNull (none ∷ ss) = ⊥
NoNull (some conn ∷ ss) = NoNull ss

-- The messages of a list of packets.
abbrev pub EncodedAll : List Packet → List (List ℕ) → Type 0
EncodedAll [] [] = Unit {0}
EncodedAll [] (b ∷ bs) = ⊥
EncodedAll (p ∷ ps) [] = ⊥
EncodedAll (p ∷ ps) (b ∷ bs) = Encoded p b × EncodedAll ps bs

-- Message after message, each to every session.
abbrev pub all_copies : List (List ℕ) → List Session → List (ℕ × List ℕ)
all_copies [] ss = []
all_copies (b ∷ bs) ss = copies b ss ++ all_copies bs ss

send_to_all-sent :
    (p : Packet) (b : List ℕ) (ss : List Session) (net : Net)
    → Encoded p b
    → NoNull ss
    → send_to_all p ss net ≡ some (record net { sent = net.sent ++ copies b ss })
unfolding send_to_all
send_to_all-sent p b [] net e h = rw append-nil
send_to_all-sent p b (none ∷ ss) net e h = absurd h
send_to_all-sent p b (some conn ∷ ss) net e h = rw (
  send_packet-sent conn p net b e,
  ◌>>=◌,
  send_to_all-sent p b ss (record net { sent = net.sent ++ (conn, b) ∷ [] }) e h,
  append_assoc,
)

fetch_loop-sent :
    (inbox : Inbox) (bs : List (List ℕ)) (ss : List Session) (net : Net)
    → EncodedAll inbox bs
    → NoNull ss
    → fetch_loop (length inbox) inbox ss net
      ≡ some ([], record net { sent = net.sent ++ all_copies bs ss })
unfolding fetch_loop has_packet pop_packet
fetch_loop-sent [] [] ss net e h = rw append-nil
fetch_loop-sent [] (b ∷ bs) ss net e h = absurd e
fetch_loop-sent (p ∷ ps) [] ss net e h = absurd e
fetch_loop-sent (p ∷ ps) (b ∷ bs) ss net e h = rw (
  send_to_all-sent p b ss net e.0 h,
  ◌>>=◌,
  fetch_loop-sent ps bs ss (record net { sent = net.sent ++ copies b ss }) e.1 h,
  append_assoc,
)

-- With no null session and packets that fit their buffers, `fetchInboxContent` empties the inbox
-- and sends its packets, oldest first, each to every session in their order; the rest of the
-- profile stays.
pub fetch_inbox_content-sent :
    (p : Profile) (bs : List (List ℕ)) (net : Net)
    → EncodedAll p.inbox bs
    → NoNull p.sessions
    → fetch_inbox_content p net
      ≡ some (record p { inbox = [] }, record net { sent = net.sent ++ all_copies bs p.sessions })
unfolding fetch_inbox_content
fetch_inbox_content-sent p bs net e h = rw (fetch_loop-sent p.inbox bs p.sessions net e h, ◌>>=◌)

-- A null pointer stands somewhere among the sessions.
abbrev pub HasNull : List Session → Type 0
HasNull [] = ⊥
HasNull (none ∷ ss) = Unit {0}
HasNull (some conn ∷ ss) = HasNull ss

send_to_all_null :
    (p : Packet) (ss : List Session) (net : Net) → HasNull ss → send_to_all p ss net ≡ none
unfolding send_to_all
send_to_all_null p [] net h = absurd h
send_to_all_null p (none ∷ ss) net h = refl
send_to_all_null p (some conn ∷ ss) net h = elim (Option-cases (send_packet conn p net)) [
  | inl e ↦ rw (e, ◌>>=◌)
  | inr (net', e) ↦ rw (e, ◌>>=◌) (send_to_all_null p ss net' h)
]

-- A message that waits for a profile with a null session is undefined behaviour when the inbox is
-- fetched: the inner loop calls a method of every session.
pub fetch_inbox_content_null :
    (p : Profile) (net : Net) → HasNull p.sessions → p.inbox ≢ [] → fetch_inbox_content p net ≡ none
unfolding fetch_inbox_content
fetch_inbox_content_null p net h more = rw (loop p.inbox more, ◌>>=◌)
  where
    loop : (inbox : Inbox) → inbox ≢ [] → fetch_loop (length inbox) inbox p.sessions net ≡ none
    loop [] ne = absurd (ne refl)
    loop (q ∷ qs) ne =
        unfold fetch_loop has_packet pop_packet in rw (send_to_all_null q p.sessions net h, ◌>>=◌)

-- The messages that reach a profile while nobody is logged in.
pub offline : List Packet → Profile → Net → Option (Profile × Net)
offline [] p net = some (p, net)
offline (packet ∷ packets) p net = do
  (p, net) ← send_or_insert_inbox packet p net
  offline packets p net

insert_offline :
    (q : Packet) (b : List ℕ) (p : Profile) (net : Net)
    → Encoded q b
    → p.sessions_on ≡ pos 0
    → send_or_insert_inbox q p net ≡ some (record p { inbox = p.inbox ++ q ∷ [] }, net)
insert_offline q b p net e h = ground (arith, send_or_insert_inbox_cases q b p net e)

offline-inbox :
    (ps : List Packet) (bs : List (List ℕ)) (p : Profile) (net : Net)
    → EncodedAll ps bs
    → p.sessions_on ≡ pos 0
    → offline ps p net ≡ some (record p { inbox = p.inbox ++ ps }, net)
unfolding offline
offline-inbox [] [] p net e h = rw append-nil
offline-inbox [] (b ∷ bs) p net e h = absurd e
offline-inbox (q ∷ qs) [] p net e h = absurd e
offline-inbox (q ∷ qs) (b ∷ bs) p net e h = rw (
  insert_offline q b p net e.0 h,
  ◌>>=◌,
  offline-inbox qs bs (record p { inbox = p.inbox ++ q ∷ [] }) net e.1 h,
  append_assoc,
)

one_session :
    (bs : List (List ℕ)) (conn : ℕ) → all_copies bs (some conn ∷ []) ≡ map (λ b. (conn, b)) bs
one_session [] conn = refl
one_session (b ∷ bs) conn = rw (one_session bs conn)

-- Store and forward: packets that fit their buffers and reach a new profile while nobody is logged
-- in are all sent to the first session that logs in, in the order of their arrival, and the inbox
-- is then empty.
pub fetch_inbox_content-offline :
    (id : Str) (ps : List Packet) (bs : List (List ℕ)) (conn : ℕ) (net : Net)
    → EncodedAll ps bs
    → (do
      (p, net) ← offline ps (new_profile id) net
      fetch_inbox_content (inc_sessions_on (some conn) p) net)
      ≡ some (
        inc_sessions_on (some conn) (new_profile id),
        record net { sent = net.sent ++ map (λ b. (conn, b)) bs },
      )
unfolding new_profile inc_sessions_on
fetch_inbox_content-offline id ps bs conn net e =
    rw (offline-inbox ps bs (new_profile id) net e refl, ◌>>=◌)
      (fetch_inbox_content-sent
          (inc_sessions_on (some conn) (record (new_profile id) { inbox = ps })) bs net e tt
        ∙ rw (one_session bs conn))
