-- ===== src/Server/Main.antt =====
-- server/main.cpp: the packets that a client, a backup or the primary handles, the election messages
-- and the start of the server. The lines that only print are left out.
pub mod Invariant
pub mod Packets
pub mod Threads
pub mod Keeps
pub mod Disconnect
pub mod Role
pub mod Replication
pub mod Lock
pub mod Send
pub mod Rejoin
pub mod Overtaken
pub mod Propagation
pub mod Waiting
pub mod Silent
pub mod Passing
pub mod Receipt
pub mod Replicas
use twitter_like_client_serv.Base.{
  ℕ, zero, suc, ◌+◌, ◌%◌, Bool, true, false, not, ◌&&◌, ◌||◌, Option, none, some, List, [], ◌∷◌,
  ◌++◌, Str, same, if◌then◌else◌, ◌==◌, get_elem?, length, codes,
}
use twitter_like_client_serv.Exec.{
  Outcome, returns, exits, waits, throws, fault, Exec, ◌>>=◌, ◌>>◌, pure, gets, modify, lift,
  pthread_exit,
}
use twitter_like_client_serv.Bytes.{until_nul}
use twitter_like_client_serv.Packet.{
  Packet, CmdType, get_cmd, get_payload, get_sender, to_bytes, of_cmd, of_cmd_payload, from_bytes,
}
use twitter_like_client_serv.Connection.{
  Recv, bytes, shut, failed, unpack, receive_message, is_closed,
}
use twitter_like_client_serv.Server.Profile.{
  Profile, Session, get_profile_id, update_sessions_on, dec_sessions_on, fetch_inbox_content,
}
use twitter_like_client_serv.Server.World.{
  Pointer, World, Outside, Json, deref, update, update_sending, send_packet, close,
}
use twitter_like_client_serv.Server.ServerList.{server_list_to_string, get_lines}
use twitter_like_client_serv.Server.Election.{ask_router, connect_to, send_out, receive_answer}
use twitter_like_client_serv.Server.ProfileAccessController.{
  get_profile_by_id, add_follower_to, send_to_followers_of, create_profile_if_not_exists,
}

-- `sendToBackups`. The connections of the list are never null.
unfoldable pub send_to_list : Packet → List ℕ → Exec World (Unit {0})
send_to_list packet [] w = returns tt w
send_to_list packet (conn ∷ conns) w =
    (do send_packet (some conn) packet; send_to_list packet conns) w

unfoldable pub send_to_backups : Packet → Exec World (Unit {0})
send_to_backups packet w = send_to_list packet w.list_backups w

module _ ⦃json : Json⦄ where
  -- What `receiveProfileCmd` does for the first packet, by its command.
  unfoldable pub first_packet : ℕ → Packet → CmdType → Exec World Pointer
  first_packet conn packet CmdType.set_backup = do
    modify (λ w. record w {
      list_backups = w.list_backups ++ conn ∷ [];
      election_server_list = w.election_server_list ++ (get_payload packet) ∷ [];
    })
    now ← gets (λ w. w.now)
    servers ← gets (λ w. w.election_server_list)
    send_to_backups (of_cmd_payload now CmdType.backup_propagation (server_list_to_string servers))
    pure none
  first_packet conn packet CmdType.profile = do
    profile ← create_profile_if_not_exists (get_payload packet) (some conn)
    send_to_backups packet
    pure profile
  first_packet conn packet _ = do
    profile ← get_profile_by_id (get_sender packet)
    update profile (update_sessions_on (some conn))
    pure profile

  unfoldable pub receive_profile_cmd : ℕ → Recv → Exec World Pointer
  receive_profile_cmd conn recv = do packet ← unpack recv; first_packet conn packet (get_cmd packet)

  -- `processPacket`: whether the client wants to quit. `conn` is null on a backup.
  unfoldable pub process_cmd : Session → Pointer → Packet → CmdType → Exec World Bool
  process_cmd conn profile packet CmdType.profile = do
    _ ← create_profile_if_not_exists (get_payload packet) conn
    send_to_backups packet
    pure false
  process_cmd conn profile packet CmdType.follow = do
    add_follower_to (get_payload packet) profile
    send_to_backups packet
    pure false
  process_cmd conn profile packet CmdType.close_conn = do
    update profile (dec_sessions_on conn)
    send_to_backups packet
    pure true
  process_cmd conn profile packet CmdType.send = do
    send_to_followers_of profile packet
    send_to_backups packet
    pure false
  process_cmd conn profile packet CmdType.backup_propagation = do
    modify (λ w. record w { election_server_list = get_lines [] (get_payload packet) })
    pure false
  process_cmd conn profile packet _ = pure false

  unfoldable pub process_packet : Session → Pointer → Packet → Exec World Bool
  process_packet conn profile packet = process_cmd conn profile packet (get_cmd packet)

  -- The end of `fromClient`.
  unfoldable pub hang_up : ℕ → Exec World (Unit {0})
  hang_up conn = do close (some conn); pthread_exit

  -- The loop of `fromClient`, over what `recv` returns round by round; at the end of the list the
  -- thread waits for more.
  unfoldable pub client_loop : ℕ → Pointer → List Recv → Exec World (Unit {0})
  client_loop conn profile [] w = if is_closed conn w.net then hang_up conn w else waits w
  client_loop conn profile (recv ∷ recvs) w =
      if is_closed conn w.net
      then hang_up conn w
      else (do
        packet ← unpack recv
        client_wants_to_quit ← process_packet (some conn) profile packet
        if client_wants_to_quit then hang_up conn else client_loop conn profile recvs)
          w

  unfoldable pub greet : ℕ → Pointer → Exec World (Unit {0})
  greet conn profile = do
    p ← deref profile
    now ← gets (λ w. w.now)
    send_packet (some conn)
        (of_cmd_payload now CmdType.send (codes "Hello client! " ++ get_profile_id p))
    update_sending profile fetch_inbox_content

  unfoldable pub serve_client : ℕ → List Recv → Pointer → Exec World (Unit {0})
  serve_client conn recvs none = pure tt
  serve_client conn recvs (some i) = do greet conn (some i); client_loop conn (some i) recvs

  -- `fromClient`: the first packet, and then the loop.
  unfoldable pub from_client : ℕ → List Recv → Exec World (Unit {0})
  from_client conn [] w = waits w
  from_client conn (recv ∷ recvs) w =
      (do profile ← receive_profile_cmd conn recv; serve_client conn recvs profile) w

  -- The handler of `receiveAlive`: the backup tells the router that it is the primary.
  unfoldable pub take_over : Exec World (Unit {0})
  take_over = do _ ← ask_router CmdType.set_primary; pthread_exit

  -- The body of the `try` in `receiveAlive`.
  unfoldable pub replay : Recv → Exec World (Unit {0})
  replay recv = do
    packet ← receive_answer recv
    profile ← get_profile_by_id (get_sender packet)
    _ ← process_packet none profile packet
    pure tt

  -- `catch (...)`
  abbrev pub recover :
      Outcome World (Unit {0})
      → Exec World (Unit {0})
      → Exec World (Unit {0})
      → Outcome World (Unit {0})
  recover (returns a w) next handler = next w
  recover (exits w) next handler = exits w
  recover (waits w) next handler = waits w
  recover (throws w) next handler = handler w
  recover fault next handler = fault

  unfoldable pub receive_alive : List Recv → Exec World (Unit {0})
  receive_alive [] w = waits w
  receive_alive (recv ∷ recvs) w = recover (replay recv w) (receive_alive recvs) take_over

-- `main`: the role that the router's answer gives, `true` for a backup.
unfoldable pub role : Bool → Str → Packet → CmdType → Bool
role backup current response CmdType.set_primary = not (same (get_payload response) current)
role backup current response CmdType.ok = false
role backup current response _ = backup

unfoldable pub join_primary : Bool → Str → Exec World (Option (Str × ℕ))
join_primary true payload = do
  peer ← connect_to payload
  now ← gets (λ w. w.now)
  addr ← gets (λ w. w.current_server_addr)
  send_out peer (of_cmd_payload now CmdType.set_backup addr)
  pure (some peer)
join_primary false payload = pure none

-- `main` up to the connection of a backup to its primary: `none` is a primary.
unfoldable pub find_role : Str → Str → Exec World (Option (Str × ℕ))
find_role addr port = do
  modify (λ w. record w { current_server_addr = addr ++ (b':' ∷ port) })
  response ← ask_router CmdType.set_primary_if_not_exists
  modify
      (λ w. record w { backup = role w.backup w.current_server_addr response (get_cmd response) })
  backup ← gets (λ w. w.backup)
  join_primary backup (get_payload response)
