-- ===== src/Server/Main/Replication.antt =====
-- server/main.cpp on a primary and on its backup: what each packet does to the graph of names.
use mathlib.Core.Path.{fun_ext}
use twitter_like_client_serv.Base.{
  ℕ, ◌+◌, ◌-◌, ◌≡◌, refl, subst, true, false, none, some, List, [], ◌∷◌, Str, inl, inr, arith,
}
use twitter_like_client_serv.Base.Map.{find}
use twitter_like_client_serv.Exec.{Outcome, Exec, bind, pure, ◌>>◌, Ends, Keeps, Ends-bind}
use twitter_like_client_serv.Packet.{Packet, CmdType, to_bytes}
use twitter_like_client_serv.Packet.RoundTrip.{IsSendable}
use twitter_like_client_serv.Connection.{bytes, given}
use twitter_like_client_serv.Connection.Delivery.{receive_packet-to_bytes}
use twitter_like_client_serv.Server.Election.{receive_answer}
use twitter_like_client_serv.Server.Main.Disconnect.{get_profile_by_id_free}
use twitter_like_client_serv.Server.Profile.{Session, dec_sessions_on, send_or_insert_inbox}
use twitter_like_client_serv.Server.World.{Pointer, World, Json}
use twitter_like_client_serv.Server.Document.{to_doc}
use twitter_like_client_serv.Server.ProfilesManager
use twitter_like_client_serv.Server.ProfilesManager.Local.{
  quiet, IsLocal, IsQuiet, save-Keeps, send_packet-Keeps, send_to_followers_of-Keeps,
}
use twitter_like_client_serv.Server.ProfilesManager.Objects.{
  IsRegistered, send_or_insert_inbox-IsInner,
}
use twitter_like_client_serv.Server.ProfileAccessController.{
  release_write, writing, add_follower_to, send_to_followers_of, create_profile_if_not_exists,
}
use twitter_like_client_serv.Server.ProfileAccessController.Limit.{request_write_free}
use twitter_like_client_serv.Server.Graph.{Graph, graph, follow}
use twitter_like_client_serv.Server.Graph.Inner.{
  HasGraph, HasGraph-IsLocal, update-HasGraph, update_sending-HasGraph,
}
use twitter_like_client_serv.Server.Graph.Create.{register, create_profile_if_not_exists-register}
use twitter_like_client_serv.Server.Graph.Follow.{Follows, add_follower_to-Follows}
use twitter_like_client_serv.Server.Main.{
  send_to_list, send_to_backups, first_packet, process_cmd, process_packet, replay,
}

-- What a packet means for the graph of names.
unfoldable pub effect : Packet → CmdType → Graph → Graph
effect packet CmdType.profile g = register packet.payload g
effect packet CmdType.follow g = follow packet.payload packet.sender g
effect packet _ g = g

-- The message to the backups leaves the objects and the map alone.
pub send_to_list-Keeps :
    (P : World → Type 0)
    → IsQuiet P
    → (packet : Packet) (conns : List ℕ) → Keeps P (send_to_list packet conns)
unfolding send_to_list
send_to_list-Keeps P calm packet [] w r = r
send_to_list-Keeps P calm packet (conn ∷ conns) w r =
    Ends-bind P _ _ (send_packet-Keeps P calm (some conn) packet w r)
      λ _ v s. send_to_list-Keeps P calm packet conns v s

and_backups-Ends :
    {A B : Type 0} (P : World → Type 0)
    → IsLocal P
    → (o : Outcome World A) (packet : Packet) (f : A → B) → Ends P o
    → Ends P (bind o (λ a. send_to_backups packet >> pure (f a)))
unfolding send_to_backups
and_backups-Ends P local o packet f h = Ends-bind P o _ h λ a v s.
    Ends-bind P _ _ (send_to_list-Keeps P (quiet P local) packet v.list_backups v s) λ _ u t. t

-- A method in the write section of a lock that nobody holds.
writing-Ends :
    {A : Type 0} (P : World → Type 0)
    → IsLocal P
    → (method : Exec World A) (w : World) → w.num_readers ≡ 0
    → w.num_writers ≡ 0
    → Ends P (method (record w { num_writers = w.num_writers + 1 }))
    → Ends P (writing method w)
unfolding release_write
writing-Ends P local method w nr nw h =
    rw (request_write_free w nr nw, bind) (Ends-bind P _ _ h λ a v s. local v _ refl refl s)

module _ ⦃json : Json⦄ where
  Follows-Ends :
      (w : World) (followed n : Str) (o : Outcome World (Unit {0}))
      → Follows w followed n o
      → Ends (HasGraph (follow followed n (graph w))) o
  Follows-Ends w followed n o (w', inl (same_world, e), h, _, _) =
      rw e (subst (HasGraph (follow followed n (graph w))) same_world h)
  Follows-Ends w followed n o (w', inr (es, built, e), h, _, _) = rw e (
      save-Keeps (HasGraph (follow followed n (graph w)))
        (quiet (HasGraph (follow followed n (graph w)))
          (HasGraph-IsLocal (follow followed n (graph w))))
        (to_doc es) w' h)

  null_follower :
      (P : World → Type 0) (id : Str) (w : World)
      → Ends P (ProfilesManager.add_follower_to id none w)
  unfolding ProfilesManager.add_follower_to
  null_follower P id w = tt

  -- The two calls of the controller that change the graph.
  pub create-effect :
      (id : Str) (conn : Session) (w : World)
      → IsRegistered w
      → w.num_readers ≡ 0
      → w.num_writers ≡ 0
      → Ends (HasGraph (register id (graph w))) (create_profile_if_not_exists id conn w)
  unfolding create_profile_if_not_exists graph
  create-effect id conn w r nr nw =
      writing-Ends (HasGraph (register id (graph w))) (HasGraph-IsLocal (register id (graph w))) _ w
        nr nw
        (create_profile_if_not_exists-register id conn
          (record w { num_writers = w.num_writers + 1 }) r)

  pub follow-effect :
      (id name : Str) (profile : Pointer) (w : World)
      → IsRegistered w
      → w.num_readers ≡ 0
      → w.num_writers ≡ 0
      → find name w.profiles ≡ profile
      → Ends (HasGraph (follow id name (graph w))) (add_follower_to id profile w)
  unfolding add_follower_to graph
  follow-effect id name none w r nr nw named =
      writing-Ends (HasGraph (follow id name (graph w)))
        (HasGraph-IsLocal (follow id name (graph w))) _ w nr nw
        (null_follower (HasGraph (follow id name (graph w))) id _)
  follow-effect id name (some i) w r nr nw named =
      let (f, at, same_name) = r.keyed name i named in
      writing-Ends (HasGraph (follow id name (graph w)))
        (HasGraph-IsLocal (follow id name (graph w))) _ w nr nw
        (rw (← same_name) (
          Follows-Ends (record w { num_writers = w.num_writers + 1 }) id f.profile_id _
            (add_follower_to-Follows (record w { num_writers = w.num_writers + 1 }) id i f r at)))

  -- While nobody holds the lock, and for a profile that is the one of the sender's name: whatever the
  -- session, null or not, the packet changes the graph as it means, however its handling ends.
  process_cmd-effect :
      (conn : Session) (profile : Pointer) (packet : Packet) (cmd : CmdType) (w : World)
      → IsRegistered w
      → w.num_readers ≡ 0
      → w.num_writers ≡ 0
      → find packet.sender w.profiles ≡ profile
      → Ends (HasGraph (effect packet cmd (graph w))) (process_cmd conn profile packet cmd w)
  unfolding process_cmd effect send_to_followers_of graph
  process_cmd-effect conn profile packet CmdType.profile w r nr nw named =
      and_backups-Ends (HasGraph (register packet.payload (graph w)))
        (HasGraph-IsLocal (register packet.payload (graph w))) _ packet (λ _. false)
        (create-effect packet.payload conn w r nr nw)
  process_cmd-effect conn profile packet CmdType.follow w r nr nw named =
      and_backups-Ends (HasGraph (follow packet.payload packet.sender (graph w)))
        (HasGraph-IsLocal (follow packet.payload packet.sender (graph w))) _ packet (λ _. false)
        (follow-effect packet.payload packet.sender profile w r nr nw named)
  process_cmd-effect conn profile packet CmdType.close_conn w r nr nw named =
      and_backups-Ends (HasGraph (graph w)) (HasGraph-IsLocal (graph w)) _ packet (λ _. true)
        (update-HasGraph (graph w) profile (dec_sessions_on conn)
          (λ p. unfold dec_sessions_on in ground arith) w (λ id. refl))
  process_cmd-effect conn profile packet CmdType.send w r nr nw named =
      and_backups-Ends (HasGraph (graph w)) (HasGraph-IsLocal (graph w)) _ packet (λ _. false)
        (writing-Ends (HasGraph (graph w)) (HasGraph-IsLocal (graph w)) _ w nr nw (
          send_to_followers_of-Keeps (HasGraph (graph w))
            (quiet (HasGraph (graph w)) (HasGraph-IsLocal (graph w))) packet
            (λ i.
              update_sending-HasGraph (graph w) (some i) (send_or_insert_inbox packet)
                (send_or_insert_inbox-IsInner packet))
            profile _ (λ id. refl)))
  process_cmd-effect conn profile packet CmdType.backup_propagation w r nr nw named = λ id. refl
  process_cmd-effect conn profile packet _ w r nr nw named = λ id. refl

  -- The first packet of a client, if it is PROFILE.
  pub first_packet-effect :
      (conn : ℕ) (packet : Packet) (w : World)
      → IsRegistered w
      → w.num_readers ≡ 0
      → w.num_writers ≡ 0
      → Ends
          (HasGraph (register packet.payload (graph w)))
          (first_packet conn packet CmdType.profile w)
  unfolding first_packet
  first_packet-effect conn packet w r nr nw =
      and_backups-Ends (HasGraph (register packet.payload (graph w)))
        (HasGraph-IsLocal (register packet.payload (graph w))) _ packet (λ i. i)
        (create-effect packet.payload (some conn) w r nr nw)

  -- The same from any description of the graph.
  pub process_packet-effect :
      (g : Graph) (conn : Session) (profile : Pointer) (packet : Packet) (w : World)
      → IsRegistered w
      → w.num_readers ≡ 0
      → w.num_writers ≡ 0
      → find packet.sender w.profiles ≡ profile
      → HasGraph g w
      → Ends (HasGraph (effect packet packet.cmd g)) (process_packet conn profile packet w)
  unfolding process_packet
  process_packet-effect g conn profile packet w r nr nw named h =
      subst
        (λ f.
          Ends (HasGraph (effect packet packet.cmd f))
            (process_cmd conn profile packet packet.cmd w))
        (fun_ext h) (process_cmd-effect conn profile packet packet.cmd w r nr nw named)

  pub replay-effect :
      (g : Graph) (packet : Packet) (b : List ℕ) (v : World)
      → IsSendable packet
      → to_bytes packet ≡ some b
      → IsRegistered v
      → v.num_readers ≡ 0
      → v.num_writers ≡ 0
      → HasGraph g v
      → Ends (HasGraph (effect packet packet.cmd g)) (replay (bytes b) v)
  unfolding replay receive_answer graph
  replay-effect g packet b v sendable e r nr nw h =
      rw (receive_packet-to_bytes packet b sendable e, given)
        (rw (get_profile_by_id_free packet.sender v nw, bind)
          (Ends-bind (HasGraph (effect packet packet.cmd g)) _ _
            (process_packet-effect g none (find packet.sender v.profiles) packet
              (record v { num_readers = v.num_readers + 1 - 1 }) r (omega arith) nw refl h)
            λ _ u t. t))

  -- The primary and its backups agree. Where the objects and the map of both fit together, nobody holds
  -- their locks and both have the graph `g`, a packet that the primary handles for its sender and that
  -- a backup receives of it leaves both with the graph that the packet means, however the handling
  -- ends on either side. Nothing is said of a run into undefined behaviour.
  pub replication :
      (g : Graph) (conn : ℕ) (packet : Packet) (b : List ℕ) (w v : World)
      → IsSendable packet
      → to_bytes packet ≡ some b
      → (IsRegistered w × (w.num_readers ≡ 0) × (w.num_writers ≡ 0) × HasGraph g w)
      → (IsRegistered v × (v.num_readers ≡ 0) × (v.num_writers ≡ 0) × HasGraph g v)
      → Ends
          (HasGraph (effect packet packet.cmd g))
          (process_packet (some conn) (find packet.sender w.profiles) packet w)
        × Ends (HasGraph (effect packet packet.cmd g)) (replay (bytes b) v)
  replication g conn packet b w v sendable e (reg, nrw, nww, hw) (rv, nrv, nwv, hv) = (
    process_packet-effect g (some conn) (find packet.sender w.profiles) packet w reg nrw nww refl
        hw,
    replay-effect g packet b v sendable e rv nrv nwv hv,
  )
