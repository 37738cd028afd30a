-- ===== src/Tests/Replicas.antt =====
-- The server, its replicas and its objects over several calls.
use twitter_like_client_serv.Base.{
  false, true, before, same, ◌≡◌, refl, none, some, List, ℕ, [], ◌∷◌, ◌++◌, ap, arith, codes, subst,
  zero, suc,
}
use twitter_like_client_serv.Base.Map.{find, insert}
use twitter_like_client_serv.Exec.{returns, Ends, Post}
use twitter_like_client_serv.Packet.{Packet, CmdType}
use twitter_like_client_serv.Packet.RoundTrip.{IsSendable}
use twitter_like_client_serv.Connection.Delivery.{receive_packet-to_bytes}
use twitter_like_client_serv.Connection.{bytes, shut}
use twitter_like_client_serv.Server.World.{World, deref, update, assign}
use twitter_like_client_serv.Server.ProfilesManager.{create_profile_if_not_exists}
use twitter_like_client_serv.Server.ProfilesManager.Each.{Each}
use twitter_like_client_serv.Server.ProfilesManager.Sessions.{IsCounted}
use twitter_like_client_serv.Server.ProfilesManager.Methods as Manager
use twitter_like_client_serv.Server.ProfilesManager.Quiet.{Counts}
use twitter_like_client_serv.Server.ProfileAccessController.Methods as Controller
use twitter_like_client_serv.Server.ProfileAccessController.Methods.Balance.{run-Balanced}
use twitter_like_client_serv.Server.Graph.{graph}
use twitter_like_client_serv.Server.Graph.Inner.{HasGraph}
use twitter_like_client_serv.Server.Graph.Create.{register, create_profile_if_not_exists-register}
use twitter_like_client_serv.Server.Main.{
  from_client, process_packet, replay, process_cmd, send_to_backups, send_to_list,
}
use twitter_like_client_serv.Server.Election.{receive_answer}
use twitter_like_client_serv.Server.Document.{names, entries}
use twitter_like_client_serv.Server.ProfilesManager
use twitter_like_client_serv.Server.ProfileAccessController.{
  get_profile_by_id, request_read, release_read, request_write, release_write, add_follower_to,
}
use twitter_like_client_serv.Server.Main.Keeps.{from_client-IsCounted}
use twitter_like_client_serv.Server.Main.Receipt.{IsReady, delivered, times, Replays}
use twitter_like_client_serv.Server.Main.Replicas.{Handled, replicas_agree}
use twitter_like_client_serv.Server.Main.Send.{send_to_list-sent}
use twitter_like_client_serv.Tests.States.{
  message, message_lem, login, alice, bobby, server, both, server-IsRegistry, silent_json,
}

server-IsCounted : Each IsCounted server
server-IsCounted zero p e =
    subst IsCounted (ap (λ o. elim o [ none ↦ alice | some q ↦ q ]) e)
      (record { limit = omega arith; there = omega arith })
server-IsCounted (suc zero) p e =
    subst IsCounted (ap (λ o. elim o [ none ↦ bobby | some q ↦ q ]) e)
      (record { limit = omega arith; there = omega arith })
server-IsCounted (suc (suc i)) p e = absurd (grind arith)

from_client-IsCounted_example :
    Ends
      (Each IsCounted)
      (from_client ⦃json = silent_json⦄ 3 (bytes (message login) ∷ shut ∷ []) server)
from_client-IsCounted_example =
    from_client-IsCounted ⦃json = silent_json⦄ 3 (bytes (message login) ∷ shut ∷ []) server
      server-IsCounted

-- Bobby logs in, is asked for, and a session of his is closed with all others.
run-Balanced_example :
    Post
      (λ _ v. Counts 0 0 v)
      (Counts 0 1)
      (Controller.run ⦃json = silent_json⦄
        (Manager.Method.create_profile_if_not_exists (codes "bobby") (some 5)
          ∷ Manager.Method.get_profile_by_id (codes "bobby")
          ∷ Manager.Method.send_close_conn_to_all
          ∷ [])
        server)
run-Balanced_example =
    run-Balanced ⦃json = silent_json⦄
      (Manager.Method.create_profile_if_not_exists (codes "bobby") (some 5)
        ∷ Manager.Method.get_profile_by_id (codes "bobby")
        ∷ Manager.Method.send_close_conn_to_all
        ∷ [])
      server

create_profile_if_not_exists-register_example :
    Ends
      (HasGraph (register (codes "carol") (graph server)))
      (create_profile_if_not_exists ⦃json = silent_json⦄ (codes "carol") (some 5) server)
create_profile_if_not_exists-register_example =
    create_profile_if_not_exists-register ⦃json = silent_json⦄ (codes "carol") (some 5) server
      server-IsRegistry

-- Bobby follows alice, on the primary and on a backup.
abbrev follow_alice : Packet
follow_alice = record {
  cmd = CmdType.follow;
  payload = codes "alice";
  timestamp = 7;
  sender = codes "bobby";
}

follow_alice-IsSendable : IsSendable follow_alice
follow_alice-IsSendable = record {
  fits = record { time = omega arith; room = omega arith };
  command = tt;
  payload_text = omega arith;
  sender_text = omega arith;
}

-- The primary has one backup, on the connection 8.
abbrev primary : World
primary = record server { list_backups = 8 ∷ [] }

abbrev with_follower : World
with_follower = record primary {
  heap = record alice { followers = 1 ∷ [] } ∷ bobby ∷ [];
  file = some [];
}

abbrev to_backup : List (ℕ × List ℕ)
to_backup = (8, message follow_alice) ∷ []

abbrev followed_primary : World
followed_primary = record with_follower { net = record server.net { sent = to_backup } }

primary-IsReady : IsReady primary
primary-IsReady = record { registered = server-IsRegistry; free = (refl, refl) }

follow_done :
    add_follower_to ⦃json = silent_json⦄ (codes "alice") (find (codes "bobby") both) primary
    ≡ returns tt with_follower
unfolding add_follower_to request_write release_write ProfilesManager.add_follower_to
    ProfilesManager.add_follower ProfilesManager.has_follower ProfilesManager.get_profile_by_id
    ProfilesManager.to_json_file ProfilesManager.save ProfilesManager.store entries names deref
    update assign find insert same before
follow_done = refl

follow_handled :
    process_packet ⦃json = silent_json⦄ (some 3) (find (codes "bobby") both) follow_alice primary
    ≡ returns false followed_primary
unfolding process_packet process_cmd send_to_backups
follow_handled =
    rw
      (
        follow_done,
        send_to_list-sent follow_alice (message follow_alice) (8 ∷ []) with_follower
            (message_lem follow_alice (omega arith)),
      )
      refl

-- The backup, which has another time.
abbrev backup : World
backup = record server { backup = true; now = 9 }

abbrev followed_backup : World
followed_backup = record backup {
  heap = record alice { followers = 1 ∷ [] } ∷ bobby ∷ [];
  file = some [];
}

backup-IsReady : IsReady backup
backup-IsReady = record { registered = server-IsRegistry; free = (refl, refl) }

follow_replayed :
    replay ⦃json = silent_json⦄ (bytes (message follow_alice)) backup ≡ returns tt followed_backup
unfolding replay receive_answer get_profile_by_id request_read release_read process_packet
    process_cmd add_follower_to request_write release_write ProfilesManager.add_follower_to
    ProfilesManager.add_follower ProfilesManager.has_follower ProfilesManager.get_profile_by_id
    ProfilesManager.to_json_file ProfilesManager.save ProfilesManager.store entries names deref
    update assign send_to_backups send_to_list find insert same before
follow_replayed =
    rw
      (receive_packet-to_bytes follow_alice (message follow_alice) follow_alice-IsSendable
        (message_lem follow_alice (omega arith)))
      refl

once : times 8 (8 ∷ []) ≡ 1
unfolding times
once = refl

all_received : Replays ⦃json = silent_json⦄ (delivered 8 (to_backup ++ [])) backup followed_backup
unfolding delivered
all_received = (followed_backup, follow_replayed, refl)

replicas_agree_example :
    graph followed_backup (codes "alice") ≡ graph followed_primary (codes "alice")
replicas_agree_example =
    replicas_agree ⦃json = silent_json⦄ 8 backup followed_backup
      (Handled.next 3 follow_alice (message follow_alice) false to_backup [] (to_backup ++ [])
        primary followed_primary followed_primary follow_alice-IsSendable
        (message_lem follow_alice (omega arith)) follow_handled refl refl
        (Handled.done followed_primary))
      once primary-IsReady backup-IsReady (unfold graph in λ id. refl) all_received (codes "alice")
