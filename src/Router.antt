-- ===== src/Router.antt =====
-- router/main.cpp: the program that knows which server is the primary. The lines that only print are
-- left out.
pub mod Primary
pub mod Start
use twitter_like_client_serv.Base.{
  ℕ, Bool, true, false, Option, none, some, List, [], ◌∷◌, ◌++◌, Str, if◌then◌else◌,
}
use twitter_like_client_serv.Exec.{
  Outcome, returns, exits, waits, fault, Exec, ◌>>=◌, ◌>>◌, pure, gets, modify, lift, pthread_exit,
}
use twitter_like_client_serv.Packet.{Packet, CmdType, get_cmd, get_payload, of_cmd_payload}
use twitter_like_client_serv.Connection.{Net, Recv, unpack}
use twitter_like_client_serv.Connection

-- The globals of the program, its connections and what `time(nullptr)` returns.
pub record Router : Type 0 where
  pub primary_server : Str
  pub has_primary : Bool
  pub net : Net
  pub now : ℕ

unfoldable pub send_packet : ℕ → Packet → Exec Router (Unit {0})
send_packet conn packet r =
    (do
      net' ← lift (Connection.send_packet conn packet r.net)
      modify (λ v. record v { net = net' }))
      r

unfoldable pub set_primary : Packet → Exec Router (Unit {0})
set_primary packet r = returns tt (record r { primary_server = get_payload packet })

-- An answer with the address of the primary.
unfoldable pub reply : ℕ → CmdType → Exec Router (Unit {0})
reply conn cmd r = send_packet conn (of_cmd_payload r.now cmd r.primary_server) r

-- SET_PRIMARY_IF_NOT_EXISTS, under the mutex: the flag is set after the answer.
unfoldable pub register : ℕ → Packet → Bool → Exec Router (Unit {0})
register conn packet true = reply conn CmdType.set_primary
register conn packet false = do
  set_primary packet
  reply conn CmdType.ok
  modify (λ r. record r { has_primary = true })

-- The `switch` of `fromClient`: whether the client wants to quit. SET_PRIMARY leaves the flag.
unfoldable pub handle_cmd : ℕ → Packet → CmdType → Exec Router Bool
handle_cmd conn packet CmdType.set_primary_if_not_exists = do
  has ← gets (λ r. r.has_primary)
  register conn packet has
  pure false
handle_cmd conn packet CmdType.set_primary = do
  set_primary packet
  reply conn CmdType.ok
  pure false
handle_cmd conn packet CmdType.get_primary = do reply conn CmdType.set_primary; pure false
handle_cmd conn packet CmdType.close_conn = pure true
handle_cmd conn packet _ = pure false

unfoldable pub handle : ℕ → Packet → Exec Router Bool
handle conn packet = handle_cmd conn packet (get_cmd packet)

unfoldable pub hang_up : ℕ → Exec Router (Unit {0})
hang_up conn = do modify (λ r. record r { net = Connection.close conn r.net }); pthread_exit

-- `fromClient`, over what `recv` returns round by round; at the end of the list the thread waits for
-- more. `receivePacket` throws nothing, so its handler is not reached.
unfoldable pub from_client : ℕ → List Recv → Exec Router (Unit {0})
from_client conn [] r = waits r
from_client conn (recv ∷ recvs) r =
    (do
      packet ← unpack recv
      client_wants_to_quit ← handle conn packet
      if client_wants_to_quit then hang_up conn else from_client conn recvs)
      r

-- The packets of all connections in the order in which the threads handle them.
unfoldable pub handle_all : List (ℕ × Packet) → Exec Router (Unit {0})
handle_all [] r = returns tt r
handle_all ((conn, packet) ∷ rest) r = (do _ ← handle conn packet; handle_all rest) r
