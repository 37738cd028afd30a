-- ===== src/Server/Main/Passing.antt =====
-- What the primary sends while it handles a packet (server/main.cpp): the message to the backups, after
-- the call that handles the packet has returned.
use twitter_like_client_serv.Base.{
  ℕ, ◌≡◌, refl, ap, sym, ◌∙◌, subst, Bool, true, false, none, some, List, [], ◌∷◌, ◌++◌, get_elem?,
  All, Option-cases, Bool-cases, inl, inr, append_assoc, append-nil, All-append, arith,
}
use twitter_like_client_serv.Base.Int.{is_positive}
use twitter_like_client_serv.Exec.{Outcome, returns, bind, lift, pure, ◌>>◌, Post, Post-bind}
use twitter_like_client_serv.Packet.{Packet, CmdType}
use twitter_like_client_serv.Server.Profile.{Profile, Session, dec_sessions_on}
use twitter_like_client_serv.Server.Profile.Delivery.{Encoded, copies}
use twitter_like_client_serv.Server.World.{Pointer, World, Json, deref}
use twitter_like_client_serv.Server.ProfilesManager
use twitter_like_client_serv.Server.ProfilesManager.{
  has_follower, store, save, to_json_file, insert_profile, add_follower, admit, refuse,
  max_sessions,
}
use twitter_like_client_serv.Server.ProfilesManager.Broadcast.{messages, messages_to, messages-cons}
use twitter_like_client_serv.Server.ProfilesManager.Objects.{IsRegistered}
use twitter_like_client_serv.Server.ProfilesManager.Quiet.{Counts}
use twitter_like_client_serv.Server.ProfileAccessController.{
  add_follower_to, send_to_followers_of, create_profile_if_not_exists,
}
use twitter_like_client_serv.Server.ProfileAccessController.Limit.{request_write_free}
use twitter_like_client_serv.Server.Main.{
  send_to_backups, first_packet, process_cmd, process_packet,
}
use twitter_like_client_serv.Server.Main.Lock.{Always}
use twitter_like_client_serv.Server.Main.Silent.{
  Sent, IsSilent, update-IsSilent, follow-IsSilent, create-IsSilent, writing-IsSilent,
}
use twitter_like_client_serv.Server.Main.Send.{replicas, send_to_list-sent, process_packet-Notified}

-- What a packet makes the primary send, the message `b` of the packet given: to each of its backups
-- once, and for SEND also to the sessions of the followers.
abbrev pub PassedOn : CmdType → List ℕ → List ℕ → List (ℕ × List ℕ) → Type 0
PassedOn CmdType.profile b conns ms = ms ≡ replicas b conns
PassedOn CmdType.follow b conns ms = ms ≡ replicas b conns
PassedOn CmdType.close_conn b conns ms = ms ≡ replicas b conns
PassedOn CmdType.send b conns ms = All (λ m. m.1 ≡ b) ms
PassedOn _ b conns ms = ms ≡ []

and_backups-Sent :
    {A B : Type 0} (sent : List (ℕ × List ℕ)) (conns b : List ℕ) (o : Outcome World A)
    (packet : Packet) (f : A → B)
    → Encoded packet b
    → IsSilent sent conns o
    → Post
        (λ a v. Sent (sent ++ replicas b conns) conns v)
        Always
        (bind o (λ a. send_to_backups packet >> pure (f a)))
unfolding send_to_backups
and_backups-Sent sent conns b o packet f e h =
    Post-bind (λ a v. Sent sent conns v) (λ a v. Sent (sent ++ replicas b conns) conns v) Always o _
      h
      λ a v (s, backups).
        rw (send_to_list-sent packet b v.list_backups v e, bind)
          (
            ap (λ c. v.net.sent ++ replicas b c) backups ∙ ap (λ l. l ++ replicas b conns) s,
            backups,
          )

copies-same : (b : List ℕ) (ss : List Session) → All (λ m. m.1 ≡ b) (copies b ss)
copies-same b [] = tt
copies-same b (none ∷ ss) = copies-same b ss
copies-same b (some conn ∷ ss) = (refl, copies-same b ss)

messages_to-same : (b : List ℕ) (p : Profile) → All (λ m. m.1 ≡ b) (messages_to b p)
unfolding messages_to
messages_to-same b p = elim (Bool-cases (is_positive p.sessions_on)) [
  | inl on ↦ rw on (copies-same b p.sessions)
  | inr off ↦ rw off tt
]

messages-same :
    (b : List ℕ) (heap : List Profile) (fs : List ℕ) → All (λ m. m.1 ≡ b) (messages b heap fs)
unfolding messages
messages-same b heap [] = tt
messages-same b heap (f ∷ fs) = elim (Option-cases (get_elem? heap f)) [
  | inl e ↦
      let skip : messages b heap fs ≡ messages b heap (f ∷ fs) = ground (arith, e) in
      subst (All (λ m. m.1 ≡ b)) skip (messages-same b heap fs)
  | inr (p, e) ↦ subst (All (λ m. m.1 ≡ b)) (sym (messages-cons b heap f fs p e)) (
      All-append (λ m. m.1 ≡ b) (messages_to b p) (messages b heap fs) (messages_to-same b p)
        (messages-same b heap fs))
]

replicas-same : (b conns : List ℕ) → All (λ m. m.1 ≡ b) (replicas b conns)
replicas-same b [] = tt
replicas-same b (c ∷ cs) = (refl, replicas-same b cs)

-- What a handled packet has added to the messages.
abbrev pub Adds : CmdType → List ℕ → World → World → Type 0
Adds cmd b w v =
    (ms : List (ℕ × List ℕ)) × (v.net.sent ≡ w.net.sent ++ ms)
    × PassedOn cmd b w.list_backups ms
    × (v.list_backups ≡ w.list_backups)

module _ ⦃json : Json⦄ where
  -- PROFILE, FOLLOW and CLOSE_CONN.
  replicated :
      (cmd : CmdType) (b : List ℕ) (w v : World)
      → PassedOn cmd b w.list_backups (replicas b w.list_backups)
      → Sent (w.net.sent ++ replicas b w.list_backups) w.list_backups v
      → Adds cmd b w v
  replicated cmd b w v passed (s, backups) = (replicas b w.list_backups, s, passed, backups)

  -- SEND.
  broadcast-Adds :
      (conn : Session) (profile : Pointer) (packet : Packet) (b : List ℕ) (w : World)
      → packet.cmd ≡ CmdType.send
      → IsRegistered w
      → Counts 0 0 w
      → Encoded packet b
      → Post
          (λ a v. Adds CmdType.send b w v)
          Always
          (process_cmd conn profile packet CmdType.send w)
  unfolding process_cmd send_to_followers_of ProfilesManager.send_to_followers_of deref
  broadcast-Adds conn none packet b w send r (nr, nw) e = rw (request_write_free w nr nw, bind) tt
  broadcast-Adds conn (some i) packet b w send r (nr, nw) e =
      elim (Option-cases (get_elem? w.heap i)) [
        | inl wild ↦ rw (request_write_free w nr nw, bind) (rw (wild, lift) tt)
        | inr (p, at) ↦
            let (heap', run, all) = process_packet-Notified conn i p packet b w r nr nw at send e in
            subst (Post (λ a v. Adds CmdType.send b w v) Always)
              (sym run
                ∙ unfold process_packet in ap (λ c. process_cmd conn (some i) packet c w) send)
              (
                messages b w.heap p.followers ++ replicas b w.list_backups,
                append_assoc w.net.sent (messages b w.heap p.followers) (replicas b w.list_backups),
                All-append (λ m. m.1 ≡ b) (messages b w.heap p.followers)
                    (replicas b w.list_backups) (messages-same b w.heap p.followers)
                    (replicas-same b w.list_backups),
                refl,
              )
      ]

  process_cmd-Adds :
      (conn : Session) (profile : Pointer) (packet : Packet) (b : List ℕ) (cmd : CmdType)
      (quit : Bool) (w v : World)
      → packet.cmd ≡ cmd
      → IsRegistered w
      → Counts 0 0 w
      → Encoded packet b
      → process_cmd conn profile packet cmd w ≡ returns quit v
      → Adds cmd b w v
  unfolding process_cmd create_profile_if_not_exists add_follower_to
  process_cmd-Adds conn profile packet b CmdType.profile quit w v same_cmd r free e done =
      replicated CmdType.profile b w v refl (
        subst (Post (λ a u. Sent (w.net.sent ++ replicas b w.list_backups) w.list_backups u) Always)
          done
          (and_backups-Sent w.net.sent w.list_backups b _ packet (λ _. false) e
            (writing-IsSilent w.net.sent w.list_backups _ w
              (create-IsSilent w.net.sent w.list_backups packet.payload conn) free (refl, refl))))
  process_cmd-Adds conn profile packet b CmdType.follow quit w v same_cmd r free e done =
      replicated CmdType.follow b w v refl (
        subst (Post (λ a u. Sent (w.net.sent ++ replicas b w.list_backups) w.list_backups u) Always)
          done
          (and_backups-Sent w.net.sent w.list_backups b _ packet (λ _. false) e
            (writing-IsSilent w.net.sent w.list_backups _ w
              (follow-IsSilent w.net.sent w.list_backups packet.payload profile) free
              (refl, refl))))
  process_cmd-Adds conn profile packet b CmdType.close_conn quit w v same_cmd r free e done =
      replicated CmdType.close_conn b w v refl (
        subst (Post (λ a u. Sent (w.net.sent ++ replicas b w.list_backups) w.list_backups u) Always)
          done
          (and_backups-Sent w.net.sent w.list_backups b _ packet (λ _. true) e
            (update-IsSilent w.net.sent w.list_backups profile (dec_sessions_on conn) w
              (refl, refl))))
  process_cmd-Adds conn profile packet b CmdType.send quit w v same_cmd r free e done =
      subst (Post (λ a u. Adds CmdType.send b w u) Always) done
        (broadcast-Adds conn profile packet b w same_cmd r free e)
  process_cmd-Adds conn profile packet b CmdType.backup_propagation quit w v same_cmd r free e
        done =
      let (s, backups) =
        subst (Post (λ a u. Sent w.net.sent w.list_backups u) Always) done (refl, refl) in
      ([], s ∙ sym (append-nil w.net.sent), refl, backups)
  process_cmd-Adds conn profile packet b _ quit w v same_cmd r free e done =
      let (s, backups) =
        subst (Post (λ a u. Sent w.net.sent w.list_backups u) Always) done (refl, refl) in
      ([], s ∙ sym (append-nil w.net.sent), refl, backups)

  -- A packet that `processPacket` handles to its end.
  pub process_packet-Adds :
      (conn : Session) (profile : Pointer) (packet : Packet) (b : List ℕ) (quit : Bool)
      (w v : World)
      → IsRegistered w
      → Counts 0 0 w
      → Encoded packet b
      → process_packet conn profile packet w ≡ returns quit v
      → Adds packet.cmd b w v
  unfolding process_packet
  process_packet-Adds conn profile packet b quit w v r free e done =
      process_cmd-Adds conn profile packet b packet.cmd quit w v refl r free e done

  -- The first packet of a client, if it is PROFILE.
  pub first_packet-Adds :
      (conn : ℕ) (profile : Pointer) (packet : Packet) (b : List ℕ) (w v : World)
      → Counts 0 0 w
      → Encoded packet b
      → first_packet conn packet CmdType.profile w ≡ returns profile v
      → Adds CmdType.profile b w v
  unfolding first_packet create_profile_if_not_exists
  first_packet-Adds conn profile packet b w v free e done = replicated CmdType.profile b w v refl (
      subst (Post (λ a u. Sent (w.net.sent ++ replicas b w.list_backups) w.list_backups u) Always)
        done
        (and_backups-Sent w.net.sent w.list_backups b _ packet (λ i. i) e
          (writing-IsSilent w.net.sent w.list_backups _ w
            (create-IsSilent w.net.sent w.list_backups packet.payload (some conn)) free
            (refl, refl))))
