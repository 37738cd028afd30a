-- ===== src/Server/Main/Disconnect.antt =====
-- Connections that the peer shuts, and the CLOSE_CONN that names no sender.
use twitter_like_client_serv.Base.{
  ℕ, zero, suc, ◌+◌, ◌-◌, ◌^◌, ◌<◌, ◌≡◌, false, none, some, List, [], ◌∷◌, Str, replicate, arith,
}
use twitter_like_client_serv.Base.Map.{find}
use twitter_like_client_serv.Exec.{returns, waits, fault, bind, lift}
use twitter_like_client_serv.Packet.{CmdType, to_bytes, of_cmd}
use twitter_like_client_serv.Packet.RoundTrip.{IsSendable}
use twitter_like_client_serv.Connection.{Recv, bytes, shut, is_closed}
use twitter_like_client_serv.Connection.Delivery.{receive_packet_shut, receive_packet-to_bytes}
use twitter_like_client_serv.Server.World.{Pointer, World, Json, update}
use twitter_like_client_serv.Server.ProfilesManager
use twitter_like_client_serv.Server.ProfileAccessController.{
  get_profile_by_id, request_read, release_read,
}
use twitter_like_client_serv.Server.Election.{receive_answer}
use twitter_like_client_serv.Server.Main.{
  first_packet, receive_profile_cmd, process_cmd, process_packet, client_loop, from_client, replay,
  receive_alive,
}

-- A lookup by a thread while nobody writes.
pub get_profile_by_id_free :
    (id : Str) (w : World)
    → w.num_writers ≡ 0
    → get_profile_by_id id w
      ≡ returns (find id w.profiles) (record w { num_readers = w.num_readers + 1 - 1 })
unfolding get_profile_by_id request_read release_read ProfilesManager.get_profile_by_id
get_profile_by_id_free id w free = ground (arith, free)

module _ ⦃json : Json⦄ where
  -- A connection that is shut before its first packet is undefined behaviour in the server, while
  -- nobody writes and as long as no profile has the empty name: the buffer of zeros is taken for a
  -- packet of an unknown sender.
  pub from_client_empty :
      (conn : ℕ) (recvs : List Recv) (w : World)
      → w.num_writers ≡ 0
      → find [] w.profiles ≡ none
      → from_client conn (shut ∷ recvs) w ≡ fault
  unfolding from_client receive_profile_cmd first_packet update
  from_client_empty conn recvs w free none_empty =
      rw (receive_packet_shut, bind) (rw (get_profile_by_id_free [] w free, bind) (rw none_empty))

  -- A connection that the peer has shut, with no CLOSE_CONN, and that the server has not closed is
  -- never given up: after any number of rounds the thread still asks for more, and the server is as
  -- it was.
  pub client_loop_shut :
      (conn n : ℕ) (profile : Pointer) (w : World)
      → is_closed conn w.net ≡ false
      → client_loop conn profile (replicate n shut) w ≡ waits w
  unfolding client_loop replicate process_packet process_cmd
  client_loop_shut conn zero profile w up = rw up
  client_loop_shut conn (suc n) profile w up =
      rw up (rw (receive_packet_shut, bind) (client_loop_shut conn n profile w up))

  close_conn-IsSendable : (now : ℕ) → now < 2 ^ 64 → IsSendable (of_cmd now CmdType.close_conn)
  unfolding of_cmd
  close_conn-IsSendable now h = record {
    fits = record { time = h; room = omega arith };
    command = tt;
    payload_text = tt;
    sender_text = tt;
  }

  -- The CLOSE_CONN that a client sends at the end of its input has no sender. Where a backup
  -- receives it of its primary, while nobody writes, it is undefined behaviour, as long as no
  -- profile has the empty name.
  pub receive_alive_close :
      (now : ℕ) (b : List ℕ) (recvs : List Recv) (w : World)
      → now < 2 ^ 64
      → to_bytes (of_cmd now CmdType.close_conn) ≡ some b
      → w.num_writers ≡ 0
      → find [] w.profiles ≡ none
      → receive_alive (bytes b ∷ recvs) w ≡ fault
  unfolding receive_alive replay receive_answer process_packet process_cmd update of_cmd
  receive_alive_close now b recvs w h e free none_empty =
      rw
        (
          receive_packet-to_bytes
              (record { cmd = CmdType.close_conn; payload = []; timestamp = now; sender = [] }) b
              (close_conn-IsSendable now h) e,
          lift,
        )
        (rw (get_profile_by_id_free [] w free, bind) (rw none_empty))
