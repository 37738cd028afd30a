-- ===== src/Tests/States.antt =====
-- Packets, connections and a server with two profiles, for the tests.
use twitter_like_client_serv.Base.{
  ℕ, ◌+◌, ◌≤◌, ◌≡◌, refl, false, true, none, some, List, [], ◌∷◌, Str, codes, same, length,
}
use twitter_like_client_serv.Base.Int.{pos}
use twitter_like_client_serv.Base.Map.{find, insert}
use twitter_like_client_serv.Packet.{Packet, CmdType, to_bytes}
use twitter_like_client_serv.Packet.Layout.{layout, filled, to_bytes-layout}
use twitter_like_client_serv.Connection.{Net, shut}
use twitter_like_client_serv.Server.Profile.{Profile}
use twitter_like_client_serv.Server.Registry.{IsRegistry, no_profiles, insert-IsRegistry}
use twitter_like_client_serv.Server.World.{World, Outside, Json}

-- The message of a packet that fits.
abbrev pub message : Packet → List ℕ
message p = filled (layout p)

pub message_lem :
    (p : Packet) → 25 + length p.payload + length p.sender ≤ 4096 → to_bytes p ≡ some (message p)
message_lem p h = to_bytes-layout p h

abbrev pub login : Packet
login = record { cmd = CmdType.profile; payload = codes "alice"; timestamp = 5; sender = [] }

abbrev pub post : Packet
post = record { cmd = CmdType.send; payload = codes "hi"; timestamp = 9; sender = codes "alice" }

abbrev pub quiet_net : Net
quiet_net = record { closed = λ c. false; sent = [] }

abbrev pub alice : Profile
alice = record {
  profile_id = codes "alice";
  sessions_on = pos 2;
  followers = [];
  inbox = [];
  sessions = some 1 ∷ some 2 ∷ [];
}

abbrev pub bobby : Profile
bobby = record {
  profile_id = codes "bobby";
  sessions_on = pos 0;
  followers = [];
  inbox = post ∷ [];
  sessions = [];
}

abbrev pub nobody : Outside
nobody = record { listening = λ p. true; outbound = []; answer = shut }

abbrev pub only_alice : List (Str × ℕ)
only_alice = insert (codes "alice") 0 []

abbrev pub both : List (Str × ℕ)
both = insert (codes "bobby") 1 only_alice

abbrev pub server : World
server = record {
  heap = alice ∷ bobby ∷ [];
  net = quiet_net;
  profiles = both;
  file = none;
  num_readers = 0;
  num_writers = 0;
  list_backups = [];
  election_server_list = codes "10.0.0.1:4000" ∷ codes "10.0.0.2:4001" ∷ [];
  current_server_addr = codes "10.0.0.2:4001";
  election_started = false;
  backup = false;
  outside = nobody;
  now = 7;
}

no_bobby : find (codes "bobby") only_alice ≡ none
unfolding find insert same
no_bobby = refl

pub server-IsRegistry : IsRegistry (alice ∷ bobby ∷ []) both
server-IsRegistry =
    insert-IsRegistry (alice ∷ []) only_alice bobby no_bobby refl
      (insert-IsRegistry [] [] alice (unfold find in refl) refl no_profiles)

-- A library that prints every document as the empty text.
abbrev pub silent_json : Json
silent_json = record { dump = λ d. some []; reached = λ d. []; parse = λ s. none }
