-- ===== src/Tests/Threads.antt =====
-- The threads of a server that starts.
use twitter_like_client_serv.Base.{◌≡◌, refl, none, some, List, [], ◌∷◌, codes, arith, same, before}
use twitter_like_client_serv.Base.Int.{pos}
use twitter_like_client_serv.Base.Map.{find, insert}
use twitter_like_client_serv.Exec.{waits}
use twitter_like_client_serv.Packet.RoundTrip.{IsSendable}
use twitter_like_client_serv.Connection.{bytes}
use twitter_like_client_serv.Connection.Delivery.{receive_packet-to_bytes}
use twitter_like_client_serv.Server.World.{World, allocate, update, assign}
use twitter_like_client_serv.Server.Election.{receive_answer}
use twitter_like_client_serv.Server.Inbox.{empty_inbox}
use twitter_like_client_serv.Server.Profile.{new_profile, inc_sessions_on}
use twitter_like_client_serv.Server.Document.{names, entries, to_doc}
use twitter_like_client_serv.Server.ProfilesManager
use twitter_like_client_serv.Server.ProfilesManager.Objects.{IsRegistered}
use twitter_like_client_serv.Server.ProfilesManager.Each.{Each}
use twitter_like_client_serv.Server.ProfilesManager.Sessions.{IsCounted}
use twitter_like_client_serv.Server.ProfilesManager.{create_manager}
use twitter_like_client_serv.Server.ProfileAccessController.{
  create_controller, get_profile_by_id, request_read, release_read, request_write, release_write,
  create_profile_if_not_exists,
}
use twitter_like_client_serv.Server.Main.{
  receive_alive, replay, process_packet, process_cmd, send_to_backups, send_to_list,
}
use twitter_like_client_serv.Server.Start.{create_globals, send_alive, print_indices}
use twitter_like_client_serv.Server.Start.Threads
use twitter_like_client_serv.Tests.States.{message, message_lem, login, silent_json}
use twitter_like_client_serv.Tests.Starts.{blank_memory}

-- A backup whose primary sends PROFILE of alice, and then the thread that prints.
abbrev threads : List Threads.Thread
threads =
    Threads.Thread.receive_alive (bytes (message login) ∷ []) ∷ Threads.Thread.send_alive 2 ∷ []

abbrev alice_replicated : World
alice_replicated = record blank_memory {
  heap =
      record {
        profile_id = codes "alice";
        sessions_on = pos 1;
        followers = [];
        inbox = [];
        sessions = none ∷ [];
      }
      ∷ [];
  profiles = insert (codes "alice") 0 [];
  file = some [];
}

login-IsSendable : IsSendable login
login-IsSendable = record {
  fits = record { time = omega arith; room = omega arith };
  command = tt;
  payload_text = omega arith;
  sender_text = tt;
}

login_replayed :
    receive_alive ⦃json = silent_json⦄ (bytes (message login) ∷ []) blank_memory
    ≡ waits alice_replicated
unfolding receive_alive replay receive_answer get_profile_by_id request_read release_read
    request_write release_write create_profile_if_not_exists ProfilesManager.get_profile_by_id
    ProfilesManager.create_profile_if_not_exists ProfilesManager.admit
    ProfilesManager.insert_profile ProfilesManager.to_json_file ProfilesManager.save
    ProfilesManager.store ProfilesManager.is_key entries names allocate update assign new_profile
    inc_sessions_on empty_inbox process_packet process_cmd send_to_backups send_to_list find insert
    same before to_doc
login_replayed =
    rw
      (receive_packet-to_bytes login (message login) login-IsSendable
        (message_lem login (omega arith)))
      refl

threads_run : Threads.from_start ⦃json = silent_json⦄ threads blank_memory ≡ some alice_replicated
unfolding Threads.from_start Threads.runs Threads.run create_globals create_controller
    create_manager send_alive print_indices
threads_run = rw login_replayed refl

from_start-Sound_example : IsRegistered alice_replicated × Each IsCounted alice_replicated
from_start-Sound_example =
    Threads.from_start-Sound ⦃json = silent_json⦄ threads blank_memory alice_replicated threads_run
