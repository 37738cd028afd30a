-- ===== src/Tests/Clients.antt =====
-- A client and the lines of its user.
use twitter_like_client_serv.Base.{
  ℕ, zero, suc, ◌≡◌, refl, false, none, some, [], ◌∷◌, ◌++◌, Str, codes, arith, length, replicate,
  length-replicate,
}
use twitter_like_client_serv.Exec.{exits, waits}
use twitter_like_client_serv.Packet.{
  Packet, CmdType, to_bytes, of_cmd, of_cmd_payload, of_cmd_payload_sender,
}
use twitter_like_client_serv.Command.{
  packet, refused, read_command, rfind, starts_with, begins, substr, send_command,
}
use twitter_like_client_serv.Client.{Client, input_loop, to_server, is_open}
use twitter_like_client_serv.Client.Commands.{read_command_repeated, follow_overflow}
use twitter_like_client_serv.Client.Input.{finished, input_loop-refused, to_server-sent}
use twitter_like_client_serv.Tests.States.{message, message_lem}

read_command_repeated_example : read_command (codes "SEND do not SEND it") ≡ refused
unfolding rfind starts_with
read_command_repeated_example = read_command_repeated (codes "do not SEND it") 11 refl

hello_line : read_command (codes "SEND hello") ≡ packet CmdType.send (codes "hello")
unfolding read_command rfind starts_with begins substr send_command
hello_line = refl

abbrev client : Client
client = record {
  con = some 1;
  next_con = 2;
  closed = λ i. false;
  profile = codes "alice";
  primary = codes "10.0.0.1:4000";
  to_server = [];
  to_router = [];
  router_closed = false;
  screen = [];
  now = 7;
}

wrong_line : read_command (codes "HELP") ≡ refused
unfolding read_command rfind starts_with begins
wrong_line = refl

input_loop-refused_example :
    input_loop 100 (codes "HELP") (codes "SEND hello" ∷ []) client ≡ waits client
input_loop-refused_example =
    input_loop-refused 100 (codes "HELP") (codes "SEND hello" ∷ []) client wrong_line
      (unfold is_open in refl)

abbrev hello : Packet
hello = record { cmd = CmdType.profile; payload = codes "alice"; timestamp = 7; sender = [] }

abbrev said : Packet
said = record { cmd = CmdType.send; payload = codes "hello"; timestamp = 7; sender = codes "alice" }

abbrev bye : Packet
bye = record { cmd = CmdType.close_conn; payload = []; timestamp = 7; sender = [] }

to_server-sent_example :
    to_server 1 (codes "SEND hello" ∷ []) client
    ≡ exits (finished client 1 ((1, message hello) ∷ (1, message said) ∷ (1, message bye) ∷ []))
unfolding of_cmd of_cmd_payload of_cmd_payload_sender
to_server-sent_example =
    to_server-sent 1 (codes "SEND hello" ∷ []) (message hello) (message said ∷ []) (message bye) 1
      client (omega arith) refl refl (message_lem hello (omega arith))
      ((CmdType.send, codes "hello", hello_line, message_lem said (omega arith)), tt)
      (message_lem bye (omega arith))

-- Letters none of which is an F.
no_word : (n : ℕ) → rfind (codes "FOLLOW") (replicate n b'a') ≡ none
unfolding rfind replicate starts_with
no_word zero = refl
no_word (suc n) = rw (no_word n)

no_copy : (n : ℕ) → rfind (codes "FOLLOW") (codes "OLLOW " ++ replicate n b'a') ≡ none
unfolding rfind starts_with
no_copy n = rw (rfind, no_word n) refl

abbrev long_name : Str
long_name = replicate 4100 b'a'

long_name_lem : length long_name ≡ 4100
long_name_lem = length-replicate 4100 b'a'

follow_overflow_example :
    (read_command (codes "FOLLOW " ++ long_name) ≡ packet CmdType.follow long_name)
    × (to_bytes (of_cmd_payload_sender 7 CmdType.follow long_name (codes "alice")) ≡ none)
follow_overflow_example =
    follow_overflow long_name (codes "alice") 7 (no_copy 4100) (omega (arith, long_name_lem))
