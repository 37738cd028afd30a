-- ===== src/Tests/Servers.antt =====
-- The server with two profiles, alice with two sessions and bobby with none.
use twitter_like_client_serv.Base.{
  ◌≡◌, refl, none, some, [], ◌∷◌, ◌>>=◌, codes, arith, replicate, same, before,
}
use twitter_like_client_serv.Base.Map.{find, insert}
use twitter_like_client_serv.Exec.{exits, waits, fault, Ends}
use twitter_like_client_serv.Packet.{Packet, CmdType, of_cmd}
use twitter_like_client_serv.Connection.{bytes, shut, is_closed}
use twitter_like_client_serv.Server.Profile.{
  Profile, new_profile, inc_sessions_on, fetch_inbox_content,
}
use twitter_like_client_serv.Server.Profile.Delivery.{offline, fetch_inbox_content-offline}
use twitter_like_client_serv.Server.ProfilesManager.{add_follower_to}
use twitter_like_client_serv.Server.ProfilesManager.Objects.{IsRegistered}
use twitter_like_client_serv.Server.ProfileAccessController.{create_profile_if_not_exists}
use twitter_like_client_serv.Server.ProfileAccessController.Limit.{
  refused, IsStuck, third_session-IsStuck,
}
use twitter_like_client_serv.Server.Graph.Follow.{Follows, add_follower_to-Follows}
use twitter_like_client_serv.Server.Main.{from_client, client_loop, receive_alive}
use twitter_like_client_serv.Server.Main.Keeps.{from_client-IsRegistered}
use twitter_like_client_serv.Server.Main.Disconnect.{
  from_client_empty, client_loop_shut, receive_alive_close,
}
use twitter_like_client_serv.Server.Election.{index_of}
use twitter_like_client_serv.Address.{
  parse_address, split_address, cut_at_colon, stoi, skip_spaces, is_space, unsigned, signed,
  is_digit, read_digits, to_port,
}
use twitter_like_client_serv.Tests.States.{
  message, message_lem, login, post, quiet_net, alice, bobby, server, both, server-IsRegistry,
  silent_json,
}

from_client-IsRegistered_example :
    Ends IsRegistered
      (from_client ⦃json = silent_json⦄ 3 (bytes (message login) ∷ shut ∷ []) server)
from_client-IsRegistered_example =
    from_client-IsRegistered ⦃json = silent_json⦄ 3 (bytes (message login) ∷ shut ∷ []) server
      server-IsRegistry

-- Bobby follows alice.
add_follower_to-Follows_example :
    Follows ⦃json = silent_json⦄ server
      (codes "alice")
      (codes "bobby")
      (add_follower_to ⦃json = silent_json⦄ (codes "alice") (some 1) server)
add_follower_to-Follows_example =
    add_follower_to-Follows ⦃json = silent_json⦄ server (codes "alice") 1 bobby server-IsRegistry
      refl

alice_is_known : find (codes "alice") both ≡ some 0
unfolding find insert same before
alice_is_known = refl

nobody_is_empty : find [] both ≡ none
unfolding find insert same before
nobody_is_empty = refl

abbrev goodbye : Packet
goodbye = record { cmd = CmdType.close_conn; payload = []; timestamp = 7; sender = [] }

third_session-IsStuck_example :
    (create_profile_if_not_exists ⦃json = silent_json⦄ (codes "alice") (some 3) server
      ≡ exits (refused ⦃json = silent_json⦄ server 3 (message goodbye)))
    × IsStuck ⦃json = silent_json⦄ (refused ⦃json = silent_json⦄ server 3 (message goodbye))
third_session-IsStuck_example =
    third_session-IsStuck ⦃json = silent_json⦄ server (codes "alice") 3 0 alice (message goodbye)
      refl refl alice_is_known refl refl (unfold of_cmd in message_lem goodbye (omega arith))

from_client_empty_example : from_client ⦃json = silent_json⦄ 3 (shut ∷ []) server ≡ fault
from_client_empty_example = from_client_empty ⦃json = silent_json⦄ 3 [] server refl nobody_is_empty

client_loop_shut_example :
    client_loop ⦃json = silent_json⦄ 1 (some 0) (replicate 5 shut) server ≡ waits server
client_loop_shut_example =
    client_loop_shut ⦃json = silent_json⦄ 1 5 (some 0) server (unfold is_closed in refl)

receive_alive_close_example :
    receive_alive ⦃json = silent_json⦄ (bytes (message goodbye) ∷ []) server ≡ fault
receive_alive_close_example =
    receive_alive_close ⦃json = silent_json⦄ 7 (message goodbye) [] server (omega arith)
      (unfold of_cmd in message_lem goodbye (omega arith)) refl nobody_is_empty

abbrev bobby_online : Profile
bobby_online = record bobby { sessions = some 4 ∷ [] }

abbrev bobby_replicated : Profile
bobby_replicated = record bobby { sessions = some 4 ∷ none ∷ [] }

fetch_inbox_content-offline_example :
    (offline (post ∷ post ∷ []) (new_profile (codes "carol")) quiet_net
      >>= (λ (p, net). fetch_inbox_content (inc_sessions_on (some 5) p) net))
    ≡ some (
      inc_sessions_on (some 5) (new_profile (codes "carol")),
      record quiet_net { sent = (5, message post) ∷ (5, message post) ∷ [] },
    )
fetch_inbox_content-offline_example =
    fetch_inbox_content-offline (codes "carol") (post ∷ post ∷ [])
      (message post ∷ message post ∷ []) 5 quiet_net
      (message_lem post (omega arith), (message_lem post (omega arith), tt))

own_index :
    index_of (codes "10.0.0.2:4001") (codes "10.0.0.1:4000" ∷ codes "10.0.0.2:4001" ∷ []) ≡ some 1
unfolding index_of same
own_index = refl

first_peer : parse_address (codes "10.0.0.1:4000") ≡ some (codes "10.0.0.1", 4000)
unfolding parse_address split_address cut_at_colon stoi skip_spaces is_space unsigned signed
    is_digit read_digits to_port
first_peer = refl

abbrev ballot : Packet
ballot = record {
  cmd = CmdType.election;
  payload = codes "10.0.0.2:4001";
  timestamp = 7;
  sender = [];
}
