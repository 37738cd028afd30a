-- ===== src/Server/Main/Packets.antt =====
-- `processPacket` of server/main.cpp over an invariant of the profiles.
use twitter_like_client_serv.Base.{
  ℕ, refl, true, false, ◌||◌, some, List, [], ◌∷◌, Str, ltb, inl, inr, Bool-cases,
}
use twitter_like_client_serv.Exec.{Exec, ◌>>=◌, ◌>>◌, pure, Keeps, Ends-bind}
use twitter_like_client_serv.Packet.{Packet, CmdType}
use twitter_like_client_serv.Server.Profile.{Session}
use twitter_like_client_serv.Server.World.{Pointer, World, Json}
use twitter_like_client_serv.Server.ProfilesManager
use twitter_like_client_serv.Server.ProfileAccessController.{
  request_read, request_write, release_read, release_write, reading, writing, get_profile_by_id,
  add_follower_to, send_to_followers_of, create_profile_if_not_exists,
}
use twitter_like_client_serv.Server.Main.{
  send_to_list, send_to_backups, process_cmd, process_packet,
}
use twitter_like_client_serv.Server.ProfilesManager.Local.{quiet, send_packet-Keeps}
use twitter_like_client_serv.Server.Main.Invariant.{IsInvariant}

module _ ⦃json : Json⦄ (P : World → Type 0) (inv : IsInvariant P) where
  -- The lock's counts are no part of an invariant.
  reading-Keeps : {A : Type 0} (method : Exec World A) → Keeps P method → Keeps P (reading method)
  unfolding request_read release_read
  reading-Keeps method keeps w r = elim (Bool-cases (ltb 0 w.num_writers)) [
    | inl busy ↦ rw busy r
    | inr free ↦
        rw free
          (Ends-bind P _ _ (keeps _ (inv.local w _ refl refl r)) λ a v s. inv.local v _ refl refl s)
  ]

  writing-Keeps : {A : Type 0} (method : Exec World A) → Keeps P method → Keeps P (writing method)
  unfolding request_write release_write
  writing-Keeps method keeps w r = elim (Bool-cases (ltb 0 w.num_readers || ltb 0 w.num_writers)) [
    | inl busy ↦ rw busy r
    | inr free ↦
        rw free
          (Ends-bind P _ _ (keeps _ (inv.local w _ refl refl r)) λ a v s. inv.local v _ refl refl s)
  ]

  pub get_profile_by_id-Keeps : (id : Str) → Keeps P (get_profile_by_id id)
  unfolding get_profile_by_id
  get_profile_by_id-Keeps id =
      reading-Keeps (ProfilesManager.get_profile_by_id id)
        λ w r. unfold ProfilesManager.get_profile_by_id in r

  send_to_list-Keeps : (packet : Packet) (conns : List ℕ) → Keeps P (send_to_list packet conns)
  unfolding send_to_list
  send_to_list-Keeps packet [] w r = r
  send_to_list-Keeps packet (conn ∷ conns) w r =
      Ends-bind P _ _ (send_packet-Keeps P (quiet P inv.local) (some conn) packet w r)
        λ _ v s. send_to_list-Keeps packet conns v s

  pub send_to_backups-Keeps : (packet : Packet) → Keeps P (send_to_backups packet)
  unfolding send_to_backups
  send_to_backups-Keeps packet w r = send_to_list-Keeps packet w.list_backups w r

  -- A step, and then the message to the backups.
  pub and_backups-Keeps :
      {A B : Type 0} (step : Exec World A) (packet : Packet) (f : A → B)
      → Keeps P step
      → Keeps P (step >>= (λ a. send_to_backups packet >> pure (f a)))
  and_backups-Keeps step packet f keeps w r =
      Ends-bind P _ _ (keeps w r)
        λ a v s. Ends-bind P _ _ (send_to_backups-Keeps packet v s) λ _ u t. t

  pub create-Keeps : (id : Str) (conn : Session) → Keeps P (create_profile_if_not_exists id conn)
  unfolding create_profile_if_not_exists
  create-Keeps id conn = writing-Keeps _ (inv.login id conn)

  pub follow-Keeps : (id : Str) (follower : Pointer) → Keeps P (add_follower_to id follower)
  unfolding add_follower_to
  follow-Keeps id follower = writing-Keeps _ (inv.follow id follower)

  send-Keeps : (profile : Pointer) (packet : Packet) → Keeps P (send_to_followers_of profile packet)
  unfolding send_to_followers_of
  send-Keeps profile packet = writing-Keeps _ (inv.post profile packet)

  process_cmd-Keeps :
      (conn : Session) (profile : Pointer) (packet : Packet) (cmd : CmdType)
      → Keeps P (process_cmd conn profile packet cmd)
  unfolding process_cmd
  process_cmd-Keeps conn profile packet CmdType.profile =
      and_backups-Keeps _ packet (λ _. false) (create-Keeps packet.payload conn)
  process_cmd-Keeps conn profile packet CmdType.follow =
      and_backups-Keeps _ packet (λ _. false) (follow-Keeps packet.payload profile)
  process_cmd-Keeps conn profile packet CmdType.close_conn =
      and_backups-Keeps _ packet (λ _. true) (inv.logout conn profile)
  process_cmd-Keeps conn profile packet CmdType.send =
      and_backups-Keeps _ packet (λ _. false) (send-Keeps profile packet)
  process_cmd-Keeps conn profile packet CmdType.backup_propagation =
      λ w r. inv.local w _ refl refl r
  process_cmd-Keeps conn profile packet _ = λ w r. r

  pub process_packet-Keeps :
      (conn : Session) (profile : Pointer) (packet : Packet)
      → Keeps P (process_packet conn profile packet)
  unfolding process_packet
  process_packet-Keeps conn profile packet = process_cmd-Keeps conn profile packet packet.cmd
