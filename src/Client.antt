-- ===== src/Client.antt =====
-- client/main.cpp: the two threads of the client, the connection to the primary and the start. The
-- lines that only print are left out, but for the messages that are shown to the user.
pub mod Commands
pub mod Input
pub mod Reconnect
pub mod Start
use twitter_like_client_serv.Base.{
  ℕ, zero, suc, ◌+◌, Bool, true, false, not, ◌||◌, ◌&&◌, Option, none, some, List, [], ◌∷◌, ◌++◌,
  Str, if◌then◌else◌, ◌==◌, ltb, leb, same, length, drop, codes,
}
use twitter_like_client_serv.Exec.{
  Outcome, returns, exits, waits, throws, fault, Exec, ◌>>=◌, ◌>>◌, pure, gets, modify, lift,
  pthread_exit,
}
use twitter_like_client_serv.Address.{parse_address}
use twitter_like_client_serv.Packet.{
  Packet, CmdType, get_payload, to_bytes, of_cmd, of_cmd_payload, of_cmd_payload_sender,
}
use twitter_like_client_serv.Command.{Command, packet, refused, out_of_range, read_command}
use twitter_like_client_serv.Connection.{Recv, bytes, shut, failed, unpack}

-- A message on the screen: its time, its sender and its text.
pub record Shown : Type 0 where
  pub timestamp : ℕ
  pub sender : Str
  pub payload : Str

-- `con` is `none` while it is null; its objects are numbers, and `to_server` holds the messages that
-- were handed to their sockets. `to_router` is for the connection to the router.
pub record Client : Type 0 where
  pub con : Option ℕ
  pub next_con : ℕ
  pub closed : ℕ → Bool
  pub profile : Str
  pub primary : Str
  pub to_server : List (ℕ × List ℕ)
  pub to_router : List (List ℕ)
  pub router_closed : Bool
  pub screen : List Shown
  pub now : ℕ

-- `Connection::sendPacket` to the server and to the router. Neither throws, and the SIGPIPE of a peer
-- that is gone is left out.
unfoldable pub send_server : Packet → Exec Client (Unit {0})
send_server p c = elim c.con [
  | none ↦ fault
  | some i ↦
      (do
        buffer ← lift (to_bytes p)
        modify (λ v. record v { to_server = v.to_server ++ (i, buffer) ∷ [] }))
        c
]

unfoldable pub send_router : Packet → Exec Client (Unit {0})
send_router p c =
    (do
      buffer ← lift (to_bytes p)
      modify (λ v. record v { to_router = v.to_router ++ buffer ∷ [] }))
      c

unfoldable pub close_server : Exec Client (Unit {0})
close_server c = elim c.con [
  | none ↦ fault
  | some i ↦ returns tt (record c { closed = λ j. if j == i then true else c.closed j })
]

-- `Connection::receivePacket` throws where the peer has shut the connection.
unfoldable pub receive : Recv → Exec Client Packet
receive shut c = throws c
receive failed c = unpack failed c
receive (bytes bs) c = unpack (bytes bs) c

-- `interruptionHandler`. `pthread_kill` with SIGKILL ends the process.
unfoldable pub interruption_handler : Exec Client (Unit {0})
interruption_handler = do
  now ← gets (λ c. c.now)
  profile ← gets (λ c. c.profile)
  send_server (of_cmd_payload_sender now CmdType.close_conn [] profile)
  close_server
  send_router (of_cmd_payload_sender now CmdType.close_conn [] profile)
  modify (λ c. record c { router_closed = true })
  pthread_exit

unfoldable pub send_presentation : Exec Client (Unit {0})
send_presentation = do
  now ← gets (λ c. c.now)
  profile ← gets (λ c. c.profile)
  send_server (of_cmd_payload now CmdType.profile profile)

-- `new Connection(…)`: a new object takes the place of the connection. It is open.
unfoldable pub open_connection : Exec Client (Unit {0})
open_connection c = returns tt (record c {
  con = some c.next_con;
  next_con = suc c.next_con;
  closed = λ j. if j == c.next_con then false else c.closed j;
})

-- The loop of `updateConn`. The list says of each try whether somebody accepted; every exception is
-- dropped, also that of `stoi`. At the end of the list it is still trying.
unfoldable pub retry_connection : Bool → Str → List Bool → Exec Client (Unit {0})
retry_connection send_ok address [] c = waits c
retry_connection send_ok address (accepted ∷ tries) c = elim (parse_address address) [
  | none ↦ retry_connection send_ok address tries c
  | some peer ↦
      if accepted
      then (do
        open_connection
        if send_ok
            then (do
              now ← gets (λ v. v.now)
              profile ← gets (λ v. v.profile)
              send_server (of_cmd_payload_sender now CmdType.ok [] profile))
            else pure tt)
          c
      else retry_connection send_ok address tries c
]

unfoldable pub close_old : Option ℕ → Exec Client (Unit {0})
close_old none = pure tt
close_old (some i) = close_server

-- `updateConn`, with what the router answers and the tries of the loop.
unfoldable pub update_conn : Bool → Recv → List Bool → Exec Client (Unit {0})
update_conn send_ok answer tries = do
  now ← gets (λ c. c.now)
  send_router (of_cmd now CmdType.get_primary)
  response ← receive answer
  primary ← gets (λ c. c.primary)
  if same (get_payload response) primary then pure tt else do
    modify (λ c. record c { primary = get_payload response })
    con ← gets (λ c. c.con)
    close_old con
    retry_connection send_ok (get_payload response) tries

-- The test `con == nullptr || !con->isClosed()`.
unfoldable pub is_open : Client → Bool
is_open c = elim c.con [ none ↦ true | some i ↦ not (c.closed i) ]

-- The end of the input: CLOSE_CONN, with no sender, and `exit`.
unfoldable pub end_of_input : Exec Client (Unit {0})
end_of_input = do
  now ← gets (λ c. c.now)
  send_server (of_cmd now CmdType.close_conn)
  close_server
  pthread_exit

-- The next `getline`, and the round of the loop on its line. `again` is the rest of the loop.
unfoldable pub next_line :
    (Str → List Str → Exec Client (Unit {0})) → List Str → Exec Client (Unit {0})
next_line again [] = end_of_input
next_line again (line ∷ rest) = again line rest

-- One round. A refused line leads to the next round with the same line: `continue` passes over
-- `getline`.
unfoldable pub input_step :
    (Str → List Str → Exec Client (Unit {0})) → Str → List Str → Command → Exec Client (Unit {0})
input_step again line rest refused = again line rest
input_step again line rest out_of_range = λ c. throws c
input_step again line rest (packet cmd text) = do
  now ← gets (λ v. v.now)
  profile ← gets (λ v. v.profile)
  send_server (of_cmd_payload_sender now cmd text profile)
  next_line again rest

-- The loop of `toServer` over the line that was read and the lines that are still to be read, each
-- ended by its newline. One round is one unit of fuel; `waits` says that the loop still runs when the
-- fuel is used up.
unfoldable pub input_loop : ℕ → Str → List Str → Exec Client (Unit {0})
input_loop zero line rest c = waits c
input_loop (suc fuel) line rest c =
    let next = input_step (input_loop fuel) line rest (read_command line) c in
    if is_open c then next else exits c

-- `toServer`: the presentation, and the lines up to the end of the input.
unfoldable pub to_server : ℕ → List Str → Exec Client (Unit {0})
to_server fuel lines = do send_presentation; next_line (input_loop fuel) lines

-- What `fromServer` does with a packet: CLOSE_CONN ends the program, all else is shown.
unfoldable pub show_packet : Packet → CmdType → Exec Client (Unit {0})
show_packet p CmdType.close_conn = do close_server; pthread_exit
show_packet p _ = modify (λ c. record c {
  screen =
      c.screen ++ record { timestamp = p.timestamp; sender = p.sender; payload = p.payload } ∷ [];
})

-- One round of `fromServer`: what `recv` returns, and for the handler of the exception, what the
-- router answers and the tries of the connection.
unfoldable pub receive_round : Recv → Exec Client (Unit {0})
receive_round recv = do p ← receive recv; show_packet p p.cmd

abbrev pub catch_all :
    Outcome Client (Unit {0}) → Exec Client (Unit {0}) → Outcome Client (Unit {0})
catch_all (throws c) handler = handler c
catch_all (returns a c) handler = returns a c
catch_all (exits c) handler = exits c
catch_all (waits c) handler = waits c
catch_all fault handler = fault

unfoldable pub from_server : List (Recv × Recv × List Bool) → Exec Client (Unit {0})
from_server [] c = elim c.con [ none ↦ fault | some i ↦ if c.closed i then exits c else waits c ]
from_server ((recv, answer, tries) ∷ rounds) c = elim c.con [
  | none ↦ fault
  | some i ↦
      if c.closed i
      then exits c
      else ((λ v. catch_all (receive_round recv v) (update_conn true answer tries))
            >> from_server rounds)
          c
]

-- `main`: the length of the profile's name, and the start of the connection.
unfoldable pub accepts_profile : Str → Bool
accepts_profile profile = not (ltb (length profile) 5 || ltb 21 (length profile))

unfoldable pub initial : Str → ℕ → Client
initial profile now = record {
  con = none;
  next_con = 0;
  closed = λ i. false;
  profile = profile;
  primary = codes "random:primary";
  to_server = [];
  to_router = [];
  router_closed = false;
  screen = [];
  now = now;
}
