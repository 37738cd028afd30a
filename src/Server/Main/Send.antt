-- ===== src/Server/Main/Send.antt =====
-- SEND in `processPacket` of server/main.cpp: the followers and the backups.
use twitter_like_client_serv.Base.{
  ℕ, ◌+◌, ◌≡◌, ap, ◌∙◌, false, some, List, [], ◌∷◌, ◌++◌, map, get_elem?, append_assoc, append-nil,
  arith,
}
use twitter_like_client_serv.Exec.{returns}
use twitter_like_client_serv.Packet.{Packet, CmdType}
use twitter_like_client_serv.Connection.Delivery.{send_packet-sent}
use twitter_like_client_serv.Server.Profile.{Profile, Session}
use twitter_like_client_serv.Server.Profile.Delivery.{Encoded}
use twitter_like_client_serv.Server.World.{World, Json, deref, send_packet}
use twitter_like_client_serv.Server.ProfilesManager
use twitter_like_client_serv.Server.ProfilesManager.{send_to_each}
use twitter_like_client_serv.Server.ProfilesManager.Broadcast.{
  messages, Notified, send_to_each-Notified,
}
use twitter_like_client_serv.Server.ProfilesManager.Objects.{IsRegistered}
use twitter_like_client_serv.Server.ProfileAccessController.{release_write, send_to_followers_of}
use twitter_like_client_serv.Server.ProfileAccessController.Limit.{request_write_free}
use twitter_like_client_serv.Server.Main.{
  send_to_list, send_to_backups, process_cmd, process_packet,
}

-- The message to each backup.
abbrev pub replicas : List ℕ → List ℕ → List (ℕ × List ℕ)
replicas b conns = map (λ c. (c, b)) conns

pub send_to_list-sent :
    (packet : Packet) (b conns : List ℕ) (w : World)
    → Encoded packet b
    → send_to_list packet conns w
      ≡ returns tt (record w { net = record w.net { sent = w.net.sent ++ replicas b conns } })
unfolding send_to_list send_packet
send_to_list-sent packet b [] w e = rw append-nil
send_to_list-sent packet b (conn ∷ conns) w e = rw (
  send_packet-sent conn packet w.net b e,
  send_to_list-sent packet b conns
      (record w { net = record w.net { sent = w.net.sent ++ (conn, b) ∷ [] } }) e,
  append_assoc,
)

module _ ⦃json : Json⦄ where
  -- The followers and then the backups, once the loop over the followers has returned.
  broadcast :
      (conn : Session) (i : ℕ) (p : Profile) (packet : Packet) (b : List ℕ) (w : World)
      (heap' : List Profile)
      → w.num_readers ≡ 0
      → w.num_writers ≡ 0
      → get_elem? w.heap i ≡ some p
      → Encoded packet b
      → send_to_each packet p.followers (record w { num_writers = w.num_writers + 1 })
        ≡ returns tt (record w {
          heap = heap';
          num_writers = w.num_writers + 1;
          net = record w.net { sent = w.net.sent ++ messages b w.heap p.followers };
        })
      → process_cmd conn (some i) packet CmdType.send w
        ≡ returns false (record w {
          heap = heap';
          net = record w.net {
            sent = (w.net.sent ++ messages b w.heap p.followers) ++ replicas b w.list_backups;
          };
        })
  unfolding process_cmd send_to_followers_of release_write send_to_backups deref
      ProfilesManager.send_to_followers_of
  broadcast conn i p packet b w heap' nr nw at e run = rw (request_write_free w nr nw) (
      rw at (
        rw run (
          rw (send_to_list-sent packet b w.list_backups _ e) (
            ap
              (λ n. returns false (record w {
                heap = heap';
                num_writers = n;
                net = record w.net {
                  sent = (w.net.sent ++ messages b w.heap p.followers) ++ replicas b w.list_backups;
                };
              }))
              (omega arith)))))

  -- SEND from a profile, its packet fitting the buffer, with map and objects fitting together and
  -- nobody holding the lock. The call returns: each follower who is logged in is sent the message, once for each
  -- of its sessions that is no null pointer, in the order of the followers, and then each backup is; the
  -- message waits in the inbox of every other follower, behind what was there; no other profile, and
  -- nothing else, has changed.
  pub process_packet-Notified :
      (conn : Session) (i : ℕ) (p : Profile) (packet : Packet) (b : List ℕ) (w : World)
      → IsRegistered w
      → w.num_readers ≡ 0
      → w.num_writers ≡ 0
      → get_elem? w.heap i ≡ some p
      → packet.cmd ≡ CmdType.send
      → Encoded packet b
      → (heap' : List Profile) × (process_packet conn (some i) packet w
          ≡ returns false (record w {
            heap = heap';
            net = record w.net {
              sent = (w.net.sent ++ messages b w.heap p.followers) ++ replicas b w.list_backups;
            };
          }))
        × Notified packet p.followers w.heap heap'
  unfolding process_packet
  process_packet-Notified conn i p packet b w r nr nw at send e =
      let fs = r.followed i p at in
      let v : World = record w { num_writers = w.num_writers + 1 } in
      let (heap', run, all) = send_to_each-Notified packet b p.followers v e fs.valid fs.distinct in
      (
        heap',
        ap (λ c. process_cmd conn (some i) packet c w) send
            ∙ broadcast conn i p packet b w heap' nr nw at e run,
        all,
      )
