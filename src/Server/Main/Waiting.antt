-- ===== src/Server/Main/Waiting.antt =====
-- A backup that takes over, in server/main.cpp: a message that reached it before its user logged in at the
-- primary still waits there.
use twitter_like_client_serv.Base.{
  ℕ, ◌+◌, ◌-◌, ◌≡◌, ◌≢◌, ap, ◌∙◌, Bool, true, false, none, some, List, [], ◌∷◌, ◌++◌, Str,
  if◌then◌else◌, codes, length-append, get_elem?, set, arith, get_elem?-set_self, get_elem?-lt,
}
use twitter_like_client_serv.Base.Int.{pos, is_num, is_positive}
use twitter_like_client_serv.Base.Map.{find}
use twitter_like_client_serv.Exec.{returns, fault}
use twitter_like_client_serv.Packet.{Packet, CmdType, of_cmd_payload, of_cmd_payload_sender}
use twitter_like_client_serv.Packet.RoundTrip.{IsSendable, to_bytes-fits}
use twitter_like_client_serv.Connection.{Recv, bytes, given}
use twitter_like_client_serv.Connection.Delivery.{receive_packet-to_bytes, send_packet-sent}
use twitter_like_client_serv.Server.Profile.{Profile, Session, update_sessions_on, inc_sessions_on}
use twitter_like_client_serv.Server.Profile.Delivery.{Encoded, HasNull, fetch_inbox_content_null}
use twitter_like_client_serv.Server.World.{
  World, Json, deref, update, update_sending, assign, send_packet,
}
use twitter_like_client_serv.Client.{accepts_profile}
use twitter_like_client_serv.Server.ProfilesManager.Broadcast.{messages, is_among, notified}
use twitter_like_client_serv.Server.ProfilesManager.Objects.{IsRegistered}
use twitter_like_client_serv.Server.Main.{
  first_packet, receive_profile_cmd, greet, serve_client, from_client, process_cmd, process_packet,
  replay, send_to_backups,
}
use twitter_like_client_serv.Server.Election.{receive_answer}
use twitter_like_client_serv.Server.ProfilesManager
use twitter_like_client_serv.Server.ProfileAccessController.{
  release_write, create_profile_if_not_exists,
}
use twitter_like_client_serv.Server.ProfileAccessController.Limit.{request_write_free}
use twitter_like_client_serv.Server.Main.Send.{replicas, send_to_list-sent, process_packet-Notified}
use twitter_like_client_serv.Server.Main.Disconnect.{get_profile_by_id_free}
use twitter_like_client_serv.Server.Main.Rejoin.{hello_again, welcome, joined}

HasNull-append : (ss ts : List Session) → HasNull ss → HasNull (ss ++ ts)
HasNull-append [] ts h = absurd h
HasNull-append (none ∷ ss) ts h = tt
HasNull-append (some conn ∷ ss) ts h = HasNull-append ss ts h

HasNull-snoc : (ss : List Session) → HasNull (ss ++ none ∷ [])
HasNull-snoc [] = tt
HasNull-snoc (none ∷ ss) = tt
HasNull-snoc (some conn ∷ ss) = HasNull-snoc ss

snoc-not-nil : (xs : List Packet) (x : Packet) → xs ++ x ∷ [] ≢ []
snoc-not-nil [] x e = absurd (ground (arith, e))
snoc-not-nil (y ∷ xs) x e = absurd (ground (arith, e))

module _ ⦃json : Json⦄ where
  greet-waiting :
      (conn i : ℕ) (q : Profile) (b : List ℕ) (v : World)
      → get_elem? v.heap i ≡ some q
      → HasNull q.sessions
      → q.inbox ≢ []
      → Encoded (welcome v q.profile_id) b
      → greet conn (some i) (record v { heap = set v.heap i (joined q conn) }) ≡ fault
  unfolding greet deref update_sending send_packet
  greet-waiting conn i q b v at null more e =
      let now = get_elem?-set_self v.heap i (joined q conn) (get_elem?-lt v.heap i at) in
      rw now (
        rw (send_packet-sent conn (welcome v q.profile_id) v.net b e) (
          rw now (
            rw (
              fetch_inbox_content_null (joined q conn) _ (HasNull-append q.sessions _ null) more))))

  -- The thread of the client that comes from another server.
  pub from_client-waiting :
      (conn i now : ℕ) (q : Profile) (b greeting : List ℕ) (recvs : List Recv) (v : World)
      → IsSendable (hello_again now q.profile_id)
      → Encoded (hello_again now q.profile_id) b
      → Encoded (welcome v q.profile_id) greeting
      → v.num_writers ≡ 0
      → find q.profile_id v.profiles ≡ some i
      → get_elem? v.heap i ≡ some q
      → HasNull q.sessions
      → q.inbox ≢ []
      → from_client conn (bytes b ∷ recvs) v ≡ fault
  unfolding from_client receive_profile_cmd first_packet update assign update_sessions_on
      serve_client of_cmd_payload_sender
  from_client-waiting conn i now q b greeting recvs v sendable e d free found at null more =
      let again : v.num_readers + 1 - 1 ≡ v.num_readers = omega arith in
      rw (receive_packet-to_bytes (hello_again now q.profile_id) b sendable e, given)
        (rw (get_profile_by_id_free q.profile_id v free)
          (rw (found, again) (rw at (rw (greet-waiting conn i q greeting v at null more d)))))

  -- A packet that a backup receives, with what `processPacket` does with it.
  replayed :
      (p : Packet) (b : List ℕ) (quit : Bool) (v u : World)
      → IsSendable p
      → Encoded p b
      → v.num_writers ≡ 0
      → process_packet none (find p.sender v.profiles) p v ≡ returns quit u
      → replay (bytes b) v ≡ returns tt u
  unfolding replay receive_answer
  replayed p b quit v u sendable e free done =
      let again : v.num_readers + 1 - 1 ≡ v.num_readers = omega arith in
      rw (receive_packet-to_bytes p b sendable e, given)
        (rw (get_profile_by_id_free p.sender v free) (rw again (rw done)))

  -- PROFILE of a known profile with no session, on a backup: a null session is added.
  login-replayed :
      (l : Packet) (b : List ℕ) (i : ℕ) (q : Profile) (v : World)
      → l.cmd ≡ CmdType.profile
      → Encoded l b
      → v.num_readers ≡ 0
      → v.num_writers ≡ 0
      → find l.payload v.profiles ≡ some i
      → get_elem? v.heap i ≡ some q
      → q.sessions_on ≡ pos 0
      → process_packet none (find l.sender v.profiles) l v
        ≡ returns false (record v {
          heap = set v.heap i (inc_sessions_on none q);
          net = record v.net { sent = v.net.sent ++ replicas b v.list_backups };
        })
  unfolding process_packet process_cmd create_profile_if_not_exists release_write send_to_backups
      update assign deref ProfilesManager.create_profile_if_not_exists
      ProfilesManager.get_profile_by_id ProfilesManager.admit
  login-replayed l b i q v login e nr nw found at offline =
      let room : is_num q.sessions_on 2 ≡ false = ap (λ n. is_num n 2) offline in
      ap (λ c. process_cmd none (find l.sender v.profiles) l c v) login
      ∙ rw (request_write_free v nr nw) (
          rw found (
            rw at (
              rw room (
                rw at (
                  rw (send_to_list-sent l b v.list_backups _ e) (
                    ap
                      (λ n. returns false (record v {
                        heap = set v.heap i (inc_sessions_on none q);
                        num_writers = n;
                        net = record v.net { sent = v.net.sent ++ replicas b v.list_backups };
                      }))
                      (omega arith)))))))

  welcome-Encoded :
      (v : World) (name : Str)
      → accepts_profile name ≡ true
      → (b : List ℕ) × Encoded (welcome v name) b
  unfolding of_cmd_payload accepts_profile
  welcome-Encoded v name ok =
      (to_bytes-fits (welcome v name)).0
        (ground (arith, ok, length-append (codes "Hello client! ") name))

  -- A message, a login, and a takeover. A backup, whose map and objects fit together and whose lock
  -- nobody holds, counts no session of a user, whose name `main` accepts. It receives a SEND of an
  -- author whom the user follows, and then the PROFILE with which the user logs in at the primary,
  -- both of packets that can be sent unchanged; both are handled to their ends. When this server then
  -- takes over, the user's client, which comes with OK and its name, brings it into undefined
  -- behaviour: the message still waits, and the session of the login is a null pointer.
  pub waiting-fault :
      (m l : Packet) (bm bl ok : List ℕ) (i j conn now : ℕ) (q author : Profile) (recvs : List Recv)
      (v : World)
      → IsRegistered v
      → v.num_readers ≡ 0
      → v.num_writers ≡ 0
      → get_elem? v.heap i ≡ some q
      → q.sessions_on ≡ pos 0
      → accepts_profile q.profile_id ≡ true
      → get_elem? v.heap j ≡ some author
      → is_among i author.followers ≡ true
      → m.cmd ≡ CmdType.send
      → m.sender ≡ author.profile_id
      → IsSendable m
      → Encoded m bm
      → l.cmd ≡ CmdType.profile
      → l.payload ≡ q.profile_id
      → IsSendable l
      → Encoded l bl
      → IsSendable (hello_again now q.profile_id)
      → Encoded (hello_again now q.profile_id) ok
      → (v1 v2 : World) × (replay (bytes bm) v ≡ returns tt v1)
        × (replay (bytes bl) v1 ≡ returns tt v2)
        × (from_client conn (bytes ok ∷ recvs) v2 ≡ fault)
  unfolding notified inc_sessions_on
  waiting-fault m l bm bl ok i j conn now q author recvs v r nr nw at offline accepted there follows
        send from sm em login name sl el so eo =
      let sender_at : find m.sender v.profiles ≡ some j =
        ap (λ n. find n v.profiles) from ∙ r.registered j author there in
      let (heap', run, all) = process_packet-Notified none j author m bm v r nr nw there send em in
      let v1 : World = record v {
        heap = heap';
        net = record v.net {
          sent = (v.net.sent ++ messages bm v.heap author.followers) ++ replicas bm v.list_backups;
        };
      } in
      let q1 : Profile = record q { inbox = q.inbox ++ m ∷ [] } in
      let at1 : get_elem? heap' i ≡ some q1 =
        all.1 i q at
        ∙ ap (λ c. some (if c then notified m q else q)) follows
        ∙ ap (λ n. some (if is_positive n then q else q1)) offline in
      let found : find l.payload v.profiles ≡ some i =
        ap (λ n. find n v.profiles) name ∙ r.registered i q at in
      let q2 : Profile = inc_sessions_on none q1 in
      let v2 : World = record v1 {
        heap = set heap' i q2;
        net = record v1.net { sent = v1.net.sent ++ replicas bl v.list_backups };
      } in
      let (greeting, greet_enc) = welcome-Encoded v2 q.profile_id accepted in
      (
        v1,
        v2,
        replayed m bm false v v1 sm em nw (ap (λ p. process_packet none p m v) sender_at ∙ run),
        replayed l bl false v1 v2 sl el nw
            (login-replayed l bl i q1 v1 login el nr nw found at1 offline),
        from_client-waiting conn i now q2 ok greeting recvs v2 so eo greet_enc nw
            (r.registered i q at) (get_elem?-set_self heap' i q2 (get_elem?-lt heap' i at1))
            (HasNull-snoc q.sessions) (snoc-not-nil q.inbox m),
      )
