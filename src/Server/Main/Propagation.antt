-- ===== src/Server/Main/Propagation.antt =====
-- SET_BACKUP at the primary and BACKUP_PROPAGATION at the backups (server/main.cpp).
use twitter_like_client_serv.Base.{
  ℕ, ◌+◌, ◌-◌, ◌≡◌, refl, ap, ◌∙◌, none, some, List, [], ◌∷◌, ◌++◌, Str, All, arith,
}
use twitter_like_client_serv.Exec.{returns, bind}
use twitter_like_client_serv.Packet.{Packet, CmdType, of_cmd_payload}
use twitter_like_client_serv.Packet.RoundTrip.{IsSendable}
use twitter_like_client_serv.Connection.{Recv, bytes, given, receive_packet}
use twitter_like_client_serv.Connection.Delivery.{receive_packet-to_bytes}
use twitter_like_client_serv.Server.Profile.Delivery.{Encoded}
use twitter_like_client_serv.Server.World.{World, Json}
use twitter_like_client_serv.Server.Election.{receive_answer}
use twitter_like_client_serv.Server.ServerList.{
  IsLine, server_list_to_string, get_lines, get_lines-server_list_to_string,
}
use twitter_like_client_serv.Server.Main.{
  send_to_backups, first_packet, receive_profile_cmd, process_cmd, process_packet, replay,
}
use twitter_like_client_serv.Server.Main.Disconnect.{get_profile_by_id_free}
use twitter_like_client_serv.Server.Main.Send.{replicas, send_to_list-sent}

-- The list of the servers with a new one, and the packet that tells the backups.
abbrev pub joined : World → Str → List Str
joined w addr = w.election_server_list ++ addr ∷ []

abbrev pub announcement : World → Str → Packet
announcement w addr =
    of_cmd_payload w.now CmdType.backup_propagation (server_list_to_string (joined w addr))

module _ ⦃json : Json⦄ where
  -- The primary, on SET_BACKUP.
  set_backup-announced :
      (conn : ℕ) (recv : Recv) (packet : Packet) (b : List ℕ) (w : World)
      → receive_packet recv ≡ some packet
      → packet.cmd ≡ CmdType.set_backup
      → Encoded (announcement w packet.payload) b
      → receive_profile_cmd conn recv w
        ≡ returns none (record w {
          list_backups = w.list_backups ++ conn ∷ [];
          election_server_list = joined w packet.payload;
          net = record w.net { sent = w.net.sent ++ replicas b (w.list_backups ++ conn ∷ []) };
        })
  unfolding receive_profile_cmd first_packet send_to_backups
  set_backup-announced conn recv packet b w read cmd e =
      rw (read, given)
        (rw cmd (
          rw
            (send_to_list-sent (announcement w packet.payload) b (w.list_backups ++ conn ∷ [])
              (record w {
                list_backups = w.list_backups ++ conn ∷ [];
                election_server_list = joined w packet.payload;
              })
              e)
            refl))

  -- A backup, on BACKUP_PROPAGATION.
  replay-announcement :
      (p : Packet) (ss : List Str) (b : List ℕ) (v : World)
      → p.cmd ≡ CmdType.backup_propagation
      → p.payload ≡ server_list_to_string ss
      → All IsLine ss
      → IsSendable p
      → Encoded p b
      → v.num_writers ≡ 0
      → replay (bytes b) v
        ≡ returns tt (record v { election_server_list = ss; num_readers = v.num_readers + 1 - 1 })
  unfolding replay receive_answer process_packet process_cmd
  replay-announcement p ss b v cmd text lines sendable e free =
      rw (receive_packet-to_bytes p b sendable e, given)
        (rw (get_profile_by_id_free p.sender v free, bind)
          (rw (cmd, bind)
            (ap
              (λ l.
                returns tt
                  (record v { election_server_list = l; num_readers = v.num_readers + 1 - 1 }))
              (ap (get_lines []) text ∙ get_lines-server_list_to_string ss lines))))

  -- A server that joins as a backup. If no address holds a newline, the packet with the whole list fits
  -- the buffer and holds no zero byte, and the time fits in 64 bits, then the primary, on SET_BACKUP,
  -- returns no profile, puts the new connection and its address behind its lists, and sends the same
  -- message to every backup, the new one included; a backup whose lock nobody writes under, and that
  -- receives this message, has the primary's list in place of its own, whatever was in it before, and
  -- nothing else of it changes.
  pub set_backup-propagated :
      (conn : ℕ) (recv : Recv) (packet : Packet) (b : List ℕ) (w v : World)
      → receive_packet recv ≡ some packet
      → packet.cmd ≡ CmdType.set_backup
      → All IsLine (joined w packet.payload)
      → IsSendable (announcement w packet.payload)
      → Encoded (announcement w packet.payload) b
      → v.num_writers ≡ 0
      → (w' : World) × (receive_profile_cmd conn recv w ≡ returns none w')
        × (w'.list_backups ≡ w.list_backups ++ conn ∷ [])
        × (w'.election_server_list ≡ joined w packet.payload)
        × (w'.net.sent ≡ w.net.sent ++ replicas b w'.list_backups)
        × (replay (bytes b) v
            ≡ returns tt (record v { election_server_list = w'.election_server_list }))
  unfolding of_cmd_payload
  set_backup-propagated conn recv packet b w v read cmd lines sendable e free = (
    record w {
      list_backups = w.list_backups ++ conn ∷ [];
      election_server_list = joined w packet.payload;
      net = record w.net { sent = w.net.sent ++ replicas b (w.list_backups ++ conn ∷ []) };
    },
    set_backup-announced conn recv packet b w read cmd e,
    refl,
    refl,
    refl,
    replay-announcement (announcement w packet.payload) (joined w packet.payload) b v refl refl
          lines sendable e free
        ∙ ap
            (λ n.
              returns tt
                (record v { election_server_list = joined w packet.payload; num_readers = n }))
            (omega arith),
  )
