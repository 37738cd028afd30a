-- ===== src/Server/Main/Lock.antt =====
-- The lock of server/ProfileAccessController.cpp while server/main.cpp handles a packet.
use twitter_like_client_serv.Base.{ℕ, ◌+◌, ◌-◌, ◌≡◌, refl, true, false, none, some, List, arith}
use twitter_like_client_serv.Base.Map.{find}
use twitter_like_client_serv.Exec.{
  Outcome, Exec, bind, pure, ◌>>◌, Keeps, Post, Post-bind, Post-Ends, Post-mono,
}
use twitter_like_client_serv.Packet.{Packet, CmdType, to_bytes}
use twitter_like_client_serv.Packet.RoundTrip.{IsSendable}
use twitter_like_client_serv.Connection.{bytes, given}
use twitter_like_client_serv.Connection.Delivery.{receive_packet-to_bytes}
use twitter_like_client_serv.Server.Election.{receive_answer}
use twitter_like_client_serv.Server.Profile.{Session, dec_sessions_on, send_or_insert_inbox}
use twitter_like_client_serv.Server.World.{Pointer, World, Json}
use twitter_like_client_serv.Server.ProfilesManager.Local.{send_to_followers_of-Keeps}
use twitter_like_client_serv.Server.ProfilesManager.Quiet.{
  Counts, Counts-IsQuiet, update-Counts, update_sending-Counts, add_follower_to-Counts,
  create-Counts,
}
use twitter_like_client_serv.Server.ProfileAccessController.{
  release_write, writing, add_follower_to, send_to_followers_of, create_profile_if_not_exists,
}
use twitter_like_client_serv.Server.ProfileAccessController.Limit.{request_write_free}
use twitter_like_client_serv.Server.Main.{
  send_to_list, send_to_backups, first_packet, process_cmd, process_packet, replay,
}
use twitter_like_client_serv.Server.Main.Disconnect.{get_profile_by_id_free}
use twitter_like_client_serv.Server.Main.Replication.{send_to_list-Keeps}

abbrev pub Always : World → Type 0
Always w = Unit {0}

-- The lock is free if the call returns.
abbrev pub Frees : {A : Type 0} → Outcome World A → Type 0
Frees o = Post (λ a v. Counts 0 0 v) Always o

pub writing-Frees :
    {A : Type 0} (method : Exec World A) (w : World)
    → Keeps (Counts 0 1) method
    → Counts 0 0 w
    → Frees (writing method w)
unfolding release_write
writing-Frees method w keeps (nr, nw) =
    rw (request_write_free w nr nw, bind)
      (Post-bind (λ a v. Counts 0 1 v) (λ a v. Counts 0 0 v) Always _ _
        (Post-mono (λ a v. Counts 0 1 v) (Counts 0 1) Always _ (λ v s. tt)
          (Post-Ends (Counts 0 1) _ (keeps _ (nr, omega (arith, nw)))))
        λ a v (r, s). (r, rw s refl))

Keeps-Frees :
    {A : Type 0} (call : Exec World A) (w : World)
    → Keeps (Counts 0 0) call
    → Counts 0 0 w
    → Frees (call w)
Keeps-Frees call w keeps free =
    Post-mono (λ a v. Counts 0 0 v) (Counts 0 0) Always _ (λ v s. tt)
      (Post-Ends (Counts 0 0) _ (keeps w free))

and_backups-Frees :
    {A B : Type 0} (o : Outcome World A) (packet : Packet) (f : A → B)
    → Frees o
    → Frees (bind o (λ a. send_to_backups packet >> pure (f a)))
unfolding send_to_backups
and_backups-Frees o packet f h =
    Post-bind (λ a v. Counts 0 0 v) (λ a v. Counts 0 0 v) Always o _ h
      λ a v s.
        Post-bind (λ a v. Counts 0 0 v) (λ a v. Counts 0 0 v) Always _ _
          (Keeps-Frees (send_to_list packet v.list_backups) v
            (send_to_list-Keeps (Counts 0 0) (Counts-IsQuiet 0 0) packet v.list_backups) s)
          λ _ u t. t

module _ ⦃json : Json⦄ where
  process_cmd-Frees :
      (conn : Session) (profile : Pointer) (packet : Packet) (cmd : CmdType) (w : World)
      → Counts 0 0 w
      → Frees (process_cmd conn profile packet cmd w)
  unfolding process_cmd create_profile_if_not_exists add_follower_to send_to_followers_of
  process_cmd-Frees conn profile packet CmdType.profile w free =
      and_backups-Frees _ packet (λ _. false)
        (writing-Frees _ w (create-Counts 0 1 packet.payload conn) free)
  process_cmd-Frees conn profile packet CmdType.follow w free =
      and_backups-Frees _ packet (λ _. false)
        (writing-Frees _ w (add_follower_to-Counts 0 1 packet.payload profile) free)
  process_cmd-Frees conn profile packet CmdType.close_conn w free =
      and_backups-Frees _ packet (λ _. true)
        (Keeps-Frees _ w (update-Counts 0 0 profile (dec_sessions_on conn)) free)
  process_cmd-Frees conn profile packet CmdType.send w free =
      and_backups-Frees _ packet (λ _. false)
        (writing-Frees _ w
          (send_to_followers_of-Keeps (Counts 0 1) (Counts-IsQuiet 0 1) packet
            (λ i. update_sending-Counts 0 1 (some i) (send_or_insert_inbox packet)) profile)
          free)
  process_cmd-Frees conn profile packet CmdType.backup_propagation w free = free
  process_cmd-Frees conn profile packet _ w free = free

  pub first_packet-Frees :
      (conn : ℕ) (packet : Packet) (w : World)
      → Counts 0 0 w
      → Frees (first_packet conn packet CmdType.profile w)
  unfolding first_packet create_profile_if_not_exists
  first_packet-Frees conn packet w free =
      and_backups-Frees _ packet (λ i. i)
        (writing-Frees _ w (create-Counts 0 1 packet.payload (some conn)) free)

  pub process_packet-Frees :
      (conn : Session) (profile : Pointer) (packet : Packet) (w : World)
      → Counts 0 0 w
      → Frees (process_packet conn profile packet w)
  unfolding process_packet
  process_packet-Frees conn profile packet w free =
      process_cmd-Frees conn profile packet packet.cmd w free

  pub replay-Frees :
      (packet : Packet) (b : List ℕ) (v : World)
      → IsSendable packet
      → to_bytes packet ≡ some b
      → Counts 0 0 v
      → Frees (replay (bytes b) v)
  unfolding replay receive_answer
  replay-Frees packet b v sendable e (nr, nw) =
      rw (receive_packet-to_bytes packet b sendable e, given)
        (rw (get_profile_by_id_free packet.sender v nw, bind)
          (Post-bind (λ a u. Counts 0 0 u) (λ a u. Counts 0 0 u) Always _ _
            (process_packet-Frees none (find packet.sender v.profiles) packet
              (record v { num_readers = v.num_readers + 1 - 1 }) (omega arith, nw))
            λ _ u t. t))
