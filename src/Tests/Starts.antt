-- ===== src/Tests/Starts.antt =====
-- The programs as they start, and a client whose server is gone.
use twitter_like_client_serv.Base.{◌≡◌, refl, true, some, [], ◌∷◌, ◌++◌, codes, arith}
use twitter_like_client_serv.Base.Int.{pos}
use twitter_like_client_serv.Exec.{returns, exits, waits}
use twitter_like_client_serv.Address.{
  stoi, skip_spaces, is_space, unsigned, signed, is_digit, read_digits, to_port,
}
use twitter_like_client_serv.Packet.{Packet, CmdType, of_cmd, of_cmd_payload}
use twitter_like_client_serv.Packet.RoundTrip.{IsSendable}
use twitter_like_client_serv.Connection.{bytes, shut, receive_packet}
use twitter_like_client_serv.Connection.Delivery.{receive_packet-to_bytes}
use twitter_like_client_serv.System.{System, Call, Thread, after, ask_or_exit}
use twitter_like_client_serv.System.Listener
use twitter_like_client_serv.System.Listener.Order.{made}
use twitter_like_client_serv.Server.World.{World}
use twitter_like_client_serv.Server.Election.{router, receive_answer}
use twitter_like_client_serv.Server.Election.Elected.{asked}
use twitter_like_client_serv.Server.ProfilesManager
use twitter_like_client_serv.Server.ProfilesManager.{create_manager}
use twitter_like_client_serv.Server.ProfileAccessController.{
  create_controller, get_profile_by_id, request_read, release_read,
}
use twitter_like_client_serv.Server.Main.{
  find_role, receive_alive, replay, process_packet, process_cmd,
}
use twitter_like_client_serv.Server.Main.Role.{Answers, find_role-backup}
use twitter_like_client_serv.Server.Start.{Process, create_globals, main}
use twitter_like_client_serv.Server.Start.Takeover.{
  Serves, service, main_takeover, receive_alive-shut,
}
use twitter_like_client_serv.Tests.States.{message, message_lem, server, silent_json}
use twitter_like_client_serv.Tests.Elections.{
  takeover, farewell, registration, referral, request, referral-IsSendable, other_address,
  primary_peer,
}

-- A system in which every call returns 5.
abbrev obliging : System
obliging = record { calls = []; answer = λ before c. some 5 }

-- The memory of a server that the router refers to a primary.
abbrev pub blank_memory : World
blank_memory = record server {
  heap = [];
  profiles = [];
  election_server_list = [];
  outside = record server.outside { answer = bytes (message referral) };
}

globals_made : create_globals blank_memory ≡ returns tt blank_memory
unfolding create_globals create_controller create_manager
globals_made = refl

pub referral_read : receive_packet (bytes (message referral)) ≡ some referral
referral_read =
    receive_packet-to_bytes referral (message referral) referral-IsSendable
      (message_lem referral (omega arith))

referred : Answers blank_memory (codes "10.0.0.2" ++ (b':' ∷ codes "4001")) referral
referred = record {
  up = refl;
  question = message registration;
  asks = unfold of_cmd_payload in message_lem registration (omega arith);
  answer = message referral;
  came = refl;
  read = referral_read;
  last = message farewell;
  leaves = unfold of_cmd in message_lem farewell (omega arith);
}

abbrev backup_memory : World
backup_memory = record blank_memory {
  current_server_addr = codes "10.0.0.2:4001";
  backup = true;
  outside = record blank_memory.outside {
    outbound =
        (router, message registration)
        ∷ (router, message farewell)
        ∷ ((codes "10.0.0.1", 4000), message request)
        ∷ [];
  };
}

backup_found :
    find_role (codes "10.0.0.2") (codes "4001") blank_memory
    ≡ returns (some (codes "10.0.0.1", 4000)) backup_memory
unfolding referred
backup_found =
    find_role-backup blank_memory (codes "10.0.0.2") (codes "4001") referral
      (codes "10.0.0.1", 4000) (message request) referred refl other_address primary_peer refl
      (unfold of_cmd_payload in message_lem request (omega arith))

abbrev process : Process
process = record { world = blank_memory; system = obliging }

abbrev still_there : Packet
still_there = record { cmd = CmdType.alive; payload = []; timestamp = 7; sender = [] }

still_there-IsSendable : IsSendable still_there
still_there-IsSendable = record {
  fits = record { time = omega arith; room = omega arith };
  command = tt;
  payload_text = tt;
  sender_text = tt;
}

one_packet :
    receive_alive ⦃json = silent_json⦄ (bytes (message still_there) ∷ []) backup_memory
    ≡ waits backup_memory
unfolding receive_alive replay receive_answer get_profile_by_id request_read release_read
    ProfilesManager.get_profile_by_id process_packet process_cmd
one_packet =
    rw
      (receive_packet-to_bytes still_there (message still_there) still_there-IsSendable
        (message_lem still_there (omega arith)))
      refl

primary_gone :
    receive_alive ⦃json = silent_json⦄ (shut ∷ []) backup_memory
    ≡ exits (asked backup_memory (message takeover) (message farewell))
primary_gone =
    receive_alive-shut ⦃json = silent_json⦄ backup_memory (message takeover) (message farewell)
      (message referral) referral [] refl
      (unfold of_cmd_payload in message_lem takeover (omega arith)) refl referral_read
      (unfold of_cmd in message_lem farewell (omega arith))

own_port : stoi (codes "4001") ≡ some (pos 4001)
unfolding stoi skip_spaces is_space unsigned signed is_digit read_digits
own_port = refl

two_clients :
    Serves (after obliging (Call.create_thread Thread.receive_alive)) (codes "4001") 5 (5 ∷ 5 ∷ [])
unfolding Listener.start ask_or_exit
two_clients = record {
  number = pos 4001;
  parsed = own_port;
  opened = refl;
  thread = 5;
  alive = refl;
  connects = (refl, (5, refl), (refl, (5, refl), tt));
}

main_takeover_example :
    main ⦃json = silent_json⦄ (codes "10.0.0.2" ∷ codes "4001" ∷ []) (shut ∷ []) 2 process
    ≡ waits (record {
      world = asked backup_memory (message takeover) (message farewell);
      system =
          made obliging
            (Call.create_thread Thread.receive_alive ∷ service 5 (to_port (pos 4001)) (5 ∷ 5 ∷ []));
    })
unfolding two_clients
main_takeover_example =
    main_takeover ⦃json = silent_json⦄ (codes "10.0.0.2") (codes "4001") [] (shut ∷ []) process
      (codes "10.0.0.1", 4000) blank_memory backup_memory
      (asked backup_memory (message takeover) (message farewell)) 5 5 (5 ∷ 5 ∷ []) globals_made
      backup_found refl primary_gone two_clients
