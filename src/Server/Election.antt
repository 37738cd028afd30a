-- ===== src/Server/Election.antt =====
-- server/main.cpp: the connections that the server opens, and the ring of the election. The calls of
-- the two election functions in `processPacket` and `receiveAlive` are commented out in the source.
pub mod Ring
pub mod Elected
use twitter_like_client_serv.Base.{
  ℕ, zero, suc, ◌+◌, ◌%◌, Bool, true, false, Option, none, some, List, [], ◌∷◌, ◌++◌, Str, same,
  if◌then◌else◌, ◌==◌, get_elem?, length, codes,
}
use twitter_like_client_serv.Address.{parse_address}
use twitter_like_client_serv.Exec.{
  Outcome, returns, throws, fault, Exec, ◌>>=◌, ◌>>◌, pure, gets, modify, lift,
}
use twitter_like_client_serv.Packet.{Packet, CmdType, to_bytes, of_cmd, of_cmd_payload}
use twitter_like_client_serv.Connection.{Recv, bytes, shut, failed, unpack}
use twitter_like_client_serv.Server.World.{World, Outside}

-- `new Connection(port, addr)` throws if nobody accepts there.
unfoldable pub connect : Str × ℕ → Exec World (Unit {0})
connect peer w = if w.outside.listening peer then returns tt w else throws w

-- `new Connection(stoi(port), addr.c_str())` for a text "addr:port"; `stoi` may throw.
unfoldable pub connect_to : Str → Exec World (Str × ℕ)
connect_to address w = elim (parse_address address) [
  | none ↦ throws w
  | some peer ↦ (connect peer >> pure peer) w
]

-- `Connection::sendPacket`
unfoldable pub send_out : Str × ℕ → Packet → Exec World (Unit {0})
send_out peer packet w =
    (do
      buffer ← lift (to_bytes packet)
      modify (λ v. record v {
        outside = record v.outside { outbound = v.outside.outbound ++ (peer, buffer) ∷ [] };
      }))
      w

-- `Connection::receivePacket` throws where the peer has shut the connection.
unfoldable pub receive_answer : Recv → Exec World Packet
receive_answer shut w = throws w
receive_answer failed w = unpack failed w
receive_answer (bytes bs) w = unpack (bytes bs) w

abbrev pub router : Str × ℕ
router = (codes "127.0.0.1", 3000)

-- A question to the router: connect, send, receive, send CLOSE_CONN.
unfoldable pub ask_router : CmdType → Exec World Packet
ask_router cmd = do
  connect router
  now ← gets (λ w. w.now)
  addr ← gets (λ w. w.current_server_addr)
  send_out router (of_cmd_payload now cmd addr)
  recv ← gets (λ w. w.outside.answer)
  response ← receive_answer recv
  now ← gets (λ w. w.now)
  send_out router (of_cmd now CmdType.close_conn)
  pure response

-- `std::find` and `std::distance`: the index of the first entry that is equal.
unfoldable pub index_of : Str → List Str → Option ℕ
index_of s [] = none
index_of s (t ∷ ts) =
    if same t s then some 0 else elim (index_of s ts) [ none ↦ none | some i ↦ some (suc i) ]

-- `erase(itr)` at an index.
unfoldable pub erase_at : ℕ → List Str → List Str
erase_at i [] = []
erase_at zero (s ∷ ss) = ss
erase_at (suc i) (s ∷ ss) = s ∷ erase_at i ss

-- `electionServerList->at((index + 1) % size)`: a remainder by 0 is a fault, and `at` cannot throw.
unfoldable pub next_server : ℕ → List Str → Exec World Str
next_server index servers w =
    if length servers == 0 then fault else lift (get_elem? servers ((index + 1) % length servers)) w

-- What both functions send to the next server.
unfoldable pub pass_on : CmdType → Str → ℕ → Exec World (Unit {0})
pass_on cmd server_addr index = do
  servers ← gets (λ w. w.election_server_list)
  address ← next_server index servers
  peer ← connect_to address
  now ← gets (λ w. w.now)
  send_out peer (of_cmd_payload now cmd server_addr)
  now ← gets (λ w. w.now)
  send_out peer (of_cmd_payload now CmdType.close_conn [])

unfoldable pub find_self : Exec World (Option ℕ)
find_self = gets (λ w. index_of w.current_server_addr w.election_server_list)

unfoldable pub election_from : Str → Option ℕ → Exec World (Unit {0})
election_from server_addr none = pure tt
election_from server_addr (some index) = pass_on CmdType.election server_addr index

unfoldable pub send_election_msg : Str → Exec World (Unit {0})
send_election_msg server_addr = do
  modify (λ w. record w { election_started = true })
  index ← find_self
  election_from server_addr index

-- With `setPrimary` the server takes itself out of the list and tells the router.
unfoldable pub become_primary : ℕ → Exec World (Unit {0})
become_primary index = do
  modify (λ w. record w { election_server_list = erase_at index w.election_server_list })
  _ ← ask_router CmdType.set_primary
  pure tt

unfoldable pub elected_from : Str → Bool → Option ℕ → Exec World (Unit {0})
elected_from server_addr set_primary none = pure tt
elected_from server_addr set_primary (some index) = do
  if set_primary then become_primary index else pure tt
  pass_on CmdType.elected server_addr index

unfoldable pub send_elected_msg : Str → Bool → Exec World (Unit {0})
send_elected_msg server_addr set_primary = do
  modify (λ w. record w { election_started = false })
  index ← find_self
  elected_from server_addr set_primary index
