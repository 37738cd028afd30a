-- ===== src/Tests/Elections.antt =====
-- A server that starts, and an election in which it is alone.
use twitter_like_client_serv.Base.{
  List, ℕ, ap, sym, subst, ◌∙◌, none, ◌≡◌, refl, true, false, some, [], ◌∷◌, ◌++◌, same, codes,
  arith,
}
use twitter_like_client_serv.Address.{
  parse_address, split_address, cut_at_colon, stoi, skip_spaces, is_space, unsigned, signed,
  is_digit, read_digits, to_port,
}
use twitter_like_client_serv.Exec.{returns}
use twitter_like_client_serv.Server.Election.{router}
use twitter_like_client_serv.Server.Main.{find_role, receive_profile_cmd, replay}
use twitter_like_client_serv.Server.Main.Send.{replicas}
use twitter_like_client_serv.Server.Main.Propagation.{announcement, set_backup-propagated}
use twitter_like_client_serv.Server.ServerList.{server_list_to_string}
use twitter_like_client_serv.Server.Main.Role.{Answers, find_role-backup}
use twitter_like_client_serv.Exec.{fault}
use twitter_like_client_serv.Packet.{Packet, CmdType, to_bytes, of_cmd, of_cmd_payload}
use twitter_like_client_serv.Packet.RoundTrip.{IsSendable}
use twitter_like_client_serv.Connection.{bytes, receive_packet}
use twitter_like_client_serv.Connection.Delivery.{receive_packet-to_bytes}
use twitter_like_client_serv.Server.World.{World}
use twitter_like_client_serv.Server.Election.{send_elected_msg}
use twitter_like_client_serv.Server.Election.Elected.{send_elected_msg_alone}
use twitter_like_client_serv.Tests.States.{message, message_lem, server, silent_json}

abbrev pub takeover : Packet
takeover = record {
  cmd = CmdType.set_primary;
  payload = codes "10.0.0.2:4001";
  timestamp = 7;
  sender = [];
}

abbrev confirmation : Packet
confirmation = record {
  cmd = CmdType.ok;
  payload = codes "10.0.0.2:4001";
  timestamp = 7;
  sender = [];
}

abbrev pub farewell : Packet
farewell = record { cmd = CmdType.close_conn; payload = []; timestamp = 7; sender = [] }

confirmation-IsSendable : IsSendable confirmation
confirmation-IsSendable = record {
  fits = record { time = omega arith; room = omega arith };
  command = tt;
  payload_text = omega arith;
  sender_text = tt;
}

abbrev lonely : World
lonely = record server {
  election_server_list = codes "10.0.0.2:4001" ∷ [];
  outside = record server.outside { answer = bytes (message confirmation) };
}

confirmed : receive_packet (bytes (message confirmation)) ≡ some confirmation
confirmed =
    receive_packet-to_bytes confirmation (message confirmation) confirmation-IsSendable
      (message_lem confirmation (omega arith))

send_elected_msg_alone_example : send_elected_msg (codes "10.0.0.2:4001") true lonely ≡ fault
send_elected_msg_alone_example =
    send_elected_msg_alone lonely (codes "10.0.0.2:4001") (message takeover) (message farewell)
      (message confirmation) confirmation refl refl
      (unfold of_cmd_payload in message_lem takeover (omega arith)) refl confirmed
      (unfold of_cmd in message_lem farewell (omega arith))

abbrev pub registration : Packet
registration = record {
  cmd = CmdType.set_primary_if_not_exists;
  payload = codes "10.0.0.2:4001";
  timestamp = 7;
  sender = [];
}

accepted : Answers lonely (codes "10.0.0.2" ++ (b':' ∷ codes "4001")) confirmation
accepted = record {
  up = refl;
  question = message registration;
  asks = unfold of_cmd_payload in message_lem registration (omega arith);
  answer = message confirmation;
  came = refl;
  read = confirmed;
  last = message farewell;
  leaves = unfold of_cmd in message_lem farewell (omega arith);
}

abbrev pub referral : Packet
referral = record {
  cmd = CmdType.set_primary;
  payload = codes "10.0.0.1:4000";
  timestamp = 7;
  sender = [];
}

pub referral-IsSendable : IsSendable referral
referral-IsSendable = record {
  fits = record { time = omega arith; room = omega arith };
  command = tt;
  payload_text = omega arith;
  sender_text = tt;
}

abbrev second : World
second = record server { outside = record server.outside { answer = bytes (message referral) } }

referred : Answers second (codes "10.0.0.2" ++ (b':' ∷ codes "4001")) referral
referred = record {
  up = refl;
  question = message registration;
  asks = unfold of_cmd_payload in message_lem registration (omega arith);
  answer = message referral;
  came = refl;
  read =
      receive_packet-to_bytes referral (message referral) referral-IsSendable
        (message_lem referral (omega arith));
  last = message farewell;
  leaves = unfold of_cmd in message_lem farewell (omega arith);
}

pub other_address : same (codes "10.0.0.1:4000") (codes "10.0.0.2:4001") ≡ false
unfolding same
other_address = refl

pub primary_peer : parse_address (codes "10.0.0.1:4000") ≡ some (codes "10.0.0.1", 4000)
unfolding parse_address split_address cut_at_colon stoi skip_spaces is_space unsigned signed
    is_digit read_digits to_port
primary_peer = refl

abbrev pub request : Packet
request = record {
  cmd = CmdType.set_backup;
  payload = codes "10.0.0.2:4001";
  timestamp = 7;
  sender = [];
}

find_role-backup_example :
    find_role (codes "10.0.0.2") (codes "4001") second
    ≡ returns (some (codes "10.0.0.1", 4000)) (record second {
      current_server_addr = codes "10.0.0.2:4001";
      backup = true;
      outside = record second.outside {
        outbound =
            (router, message registration)
            ∷ (router, message farewell)
            ∷ ((codes "10.0.0.1", 4000), message request)
            ∷ [];
      };
    })
unfolding referred
find_role-backup_example =
    find_role-backup second (codes "10.0.0.2") (codes "4001") referral (codes "10.0.0.1", 4000)
      (message request) referred refl other_address primary_peer refl
      (unfold of_cmd_payload in message_lem request (omega arith))

-- A third server joins.
abbrev join_request : Packet
join_request = record {
  cmd = CmdType.set_backup;
  payload = codes "10.0.0.3:4002";
  timestamp = 7;
  sender = [];
}

join_request-IsSendable : IsSendable join_request
join_request-IsSendable = record {
  fits = record { time = omega arith; room = omega arith };
  command = tt;
  payload_text = omega arith;
  sender_text = tt;
}

abbrev three_servers : List (List ℕ)
three_servers = codes "10.0.0.1:4000" ∷ codes "10.0.0.2:4001" ∷ codes "10.0.0.3:4002" ∷ []

abbrev list_text : List ℕ
list_text =
    codes "10.0.0.1:4000"
    ++ (b'\n' ∷ (codes "10.0.0.2:4001" ++ (b'\n' ∷ (codes "10.0.0.3:4002" ++ (b'\n' ∷ [])))))

abbrev list_packet : Packet
list_packet = record {
  cmd = CmdType.backup_propagation;
  payload = list_text;
  timestamp = 7;
  sender = [];
}

list_packet-IsSendable : IsSendable list_packet
list_packet-IsSendable = record {
  fits = record { time = omega arith; room = omega arith };
  command = tt;
  payload_text = omega arith;
  sender_text = tt;
}

same_packet : announcement server (codes "10.0.0.3:4002") ≡ list_packet
unfolding of_cmd_payload server_list_to_string
same_packet = refl

-- A backup with another list.
abbrev old_backup : World
old_backup = record server { election_server_list = codes "10.0.0.9:4009" ∷ [] }

set_backup-propagated_example :
    (w : World) × (receive_profile_cmd ⦃json = silent_json⦄ 8 (bytes (message join_request)) server
      ≡ returns none w)
    × (w.list_backups ≡ server.list_backups ++ 8 ∷ [])
    × (w.election_server_list ≡ three_servers)
    × (w.net.sent ≡ server.net.sent ++ replicas (message list_packet) w.list_backups)
    × (replay ⦃json = silent_json⦄ (bytes (message list_packet)) old_backup
        ≡ returns tt (record old_backup { election_server_list = w.election_server_list }))
set_backup-propagated_example =
    set_backup-propagated ⦃json = silent_json⦄ 8 (bytes (message join_request)) join_request
      (message list_packet) server old_backup
      (receive_packet-to_bytes join_request (message join_request) join_request-IsSendable
        (message_lem join_request (omega arith)))
      refl (omega arith) (subst IsSendable (sym same_packet) list_packet-IsSendable)
      (ap to_bytes same_packet ∙ message_lem list_packet (omega arith)) refl
