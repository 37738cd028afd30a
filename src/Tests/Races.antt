-- ===== src/Tests/Races.antt =====
-- Carol logs in while bobby follows her.
use twitter_like_client_serv.Base.{ℕ, none, some, List, [], ◌∷◌, codes}
use twitter_like_client_serv.Base.Int.{pos}
use twitter_like_client_serv.Base.Map.{insert}
use twitter_like_client_serv.Packet.{Packet, CmdType}
use twitter_like_client_serv.Server.Profile.{Profile}
use twitter_like_client_serv.Server.World.{World}
use twitter_like_client_serv.Server.ProfilesManager
use twitter_like_client_serv.Tests.States.{message, alice, bobby, server, both}

abbrev carol_login : Packet
carol_login = record { cmd = CmdType.profile; payload = codes "carol"; timestamp = 7; sender = [] }

abbrev follow_carol : Packet
follow_carol = record {
  cmd = CmdType.follow;
  payload = codes "carol";
  timestamp = 7;
  sender = codes "bobby";
}

abbrev carol : List ℕ → Profile
carol followers = record {
  profile_id = codes "carol";
  sessions_on = pos 1;
  followers = followers;
  inbox = [];
  sessions = some 5 ∷ [];
}

abbrev primary : World
primary = record server { list_backups = 8 ∷ [] }

abbrev with_carol : List ℕ → World
with_carol followers = record primary {
  heap = alice ∷ bobby ∷ carol followers ∷ [];
  profiles = insert (codes "carol") 2 both;
  file = some [];
}

abbrev replicated : World
replicated = record server {
  heap = alice ∷ bobby ∷ record (carol []) { sessions = none ∷ [] } ∷ [];
  profiles = insert (codes "carol") 2 both;
  file = some [];
}

-- The FOLLOW of bobby's thread, with its message.
abbrev follow_sent : World
follow_sent = record (with_carol (1 ∷ [])) {
  net = record server.net { sent = (8, message follow_carol) ∷ [] };
}
