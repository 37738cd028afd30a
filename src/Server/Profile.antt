-- ===== src/Server/Profile.antt =====
-- server/Profile.h and server/Profile.cpp: one profile. A pointer to a connection is `none` if it is
-- null. Each method takes the profile's mutex for its whole body and returns at its end only.
pub mod Delivery
pub mod Methods
pub mod Count
use twitter_like_client_serv.Base.{
  ℕ, zero, suc, Bool, true, false, Option, none, some, List, [], ◌∷◌, ◌++◌, ◌==◌, ◌>>=◌,
  if◌then◌else◌, Str, length,
}
use twitter_like_client_serv.Base.Int.{ℤ, pos, incr, decr, is_positive}
use twitter_like_client_serv.Packet.{Packet}
use twitter_like_client_serv.Connection.{Net, send_packet}
use twitter_like_client_serv.Server.Inbox.{
  Inbox, empty_inbox, insert_packet, pop_packet, has_packet,
}

abbrev pub Session : Type 0
Session = Option ℕ

-- `followers` are pointers to profiles.
pub record Profile : Type 0 where
  pub profile_id : Str
  pub sessions_on : ℤ
  pub followers : List ℕ
  pub inbox : Inbox
  pub sessions : List Session

unfoldable pub new_profile : Str → Profile
unfolding empty_inbox
new_profile profile_id = record {
  profile_id = profile_id;
  sessions_on = pos 0;
  followers = [];
  inbox = empty_inbox;
  sessions = [];
}

abbrev pub get_profile_id : Profile → Str
get_profile_id p = p.profile_id

abbrev pub get_sessions_on : Profile → ℤ
get_sessions_on p = p.sessions_on

abbrev pub get_sessions : Profile → List Session
get_sessions p = p.sessions

abbrev pub get_followers : Profile → List ℕ
get_followers p = p.followers

unfoldable pub inc_sessions_on : Session → Profile → Profile
inc_sessions_on conn p = record p {
  sessions_on = incr p.sessions_on;
  sessions = p.sessions ++ conn ∷ [];
}

unfoldable pub same_session : Session → Session → Bool
same_session none none = true
same_session none (some c) = false
same_session (some c) none = false
same_session (some c) (some d) = c == d

-- `std::find` over the sessions: whether it stops before the end, and `erase` there.
unfoldable pub has_session : Session → List Session → Bool
has_session conn [] = false
has_session conn (s ∷ ss) = if same_session s conn then true else has_session conn ss

unfoldable pub erase_session : Session → List Session → List Session
erase_session conn [] = []
erase_session conn (s ∷ ss) = if same_session s conn then ss else s ∷ erase_session conn ss

unfoldable pub dec_sessions_on : Session → Profile → Profile
dec_sessions_on conn p =
    if has_session conn p.sessions
    then record p { sessions = erase_session conn p.sessions; sessions_on = decr p.sessions_on }
    else p

unfoldable pub update_sessions_on : Session → Profile → Profile
update_sessions_on conn p = record p { sessions = p.sessions ++ conn ∷ [] }

-- The loop of `sendOrInsertInbox`: a null session is passed over.
unfoldable pub send_to_sessions : Packet → List Session → Net → Option Net
send_to_sessions packet [] net = some net
send_to_sessions packet (none ∷ ss) net = send_to_sessions packet ss net
send_to_sessions packet (some conn ∷ ss) net = do
  net ← send_packet conn packet net
  send_to_sessions packet ss net

unfoldable pub send_or_insert_inbox : Packet → Profile → Net → Option (Profile × Net)
send_or_insert_inbox packet p net =
    if is_positive (get_sessions_on p)
    then send_to_sessions packet p.sessions net >>= (λ net'. some (p, net'))
    else some (record p { inbox = insert_packet packet p.inbox }, net)

-- The inner loop of `fetchInboxContent`: it calls a method of every session, null or not.
unfoldable pub send_to_all : Packet → List Session → Net → Option Net
send_to_all packet [] net = some net
send_to_all packet (none ∷ ss) net = none
send_to_all packet (some conn ∷ ss) net = do
  net ← send_packet conn packet net
  send_to_all packet ss net

-- `while (this->inbox->hasPacket())`; the fuel is the number of packets, and each round pops one.
unfoldable pub fetch_loop : ℕ → Inbox → List Session → Net → Option (Inbox × Net)
fetch_loop zero inbox sessions net = some (inbox, net)
fetch_loop (suc fuel) inbox sessions net = elim (has_packet inbox) [
  | false ↦ some (inbox, net)
  | true ↦ (do
    (packet, rest) ← pop_packet inbox
    net ← send_to_all packet sessions net
    fetch_loop fuel rest sessions net)
]

unfoldable pub fetch_inbox_content : Profile → Net → Option (Profile × Net)
fetch_inbox_content p net = do
  (inbox, net) ← fetch_loop (length p.inbox) p.inbox p.sessions net
  some (record p { inbox = inbox }, net)
