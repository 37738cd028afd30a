-- ===== src/Server/Inbox.antt =====
-- server/Inbox.h and server/Inbox.cpp: the messages that wait for a profile with no session.
pub mod Queue
use twitter_like_client_serv.Base.{Bool, true, false, Option, none, some, List, [], ◌∷◌, ◌++◌}
use twitter_like_client_serv.Packet.{Packet}

-- The `queue<Packet *>`, its front first. A packet does not change after it is made.
abbrev pub Inbox : Type 0
Inbox = List Packet

unfoldable pub empty_inbox : Inbox
empty_inbox = []

unfoldable pub insert_packet : Packet → Inbox → Inbox
insert_packet packet inbox = inbox ++ packet ∷ []

-- `front()` and `pop()` of an empty queue are undefined: `none`.
unfoldable pub pop_packet : Inbox → Option (Packet × Inbox)
pop_packet [] = none
pop_packet (packet ∷ rest) = some (packet, rest)

unfoldable pub has_packet : Inbox → Bool
has_packet [] = false
has_packet (packet ∷ rest) = true
