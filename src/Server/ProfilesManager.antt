-- ===== src/Server/ProfilesManager.antt =====
-- server/ProfilesManager.h and server/ProfilesManager.cpp: the map of the profiles, the followers
-- and the file `state.json`. The lines that only print are left out.
pub mod Local
pub mod Each
pub mod Sessions
pub mod Methods
pub mod Quiet
pub mod Objects
pub mod Keeps
pub mod Broadcast
use twitter_like_client_serv.Base.{
  ℕ, zero, suc, ◌+◌, Bool, true, false, not, Option, none, some, List, [], ◌∷◌, ◌++◌, Str, same,
  if◌then◌else◌, get_elem?,
}
use twitter_like_client_serv.Base.Int.{is_num}
use twitter_like_client_serv.Base.Map.{find, insert}
use twitter_like_client_serv.Exec.{
  Outcome, returns, throws, fault, Exec, ◌>>=◌, ◌>>◌, pure, gets, modify, lift, pthread_exit,
}
use twitter_like_client_serv.Packet.{Packet, CmdType, of_cmd}
use twitter_like_client_serv.Server.Profile.{
  Profile, Session, get_profile_id, get_sessions_on, get_sessions, get_followers, new_profile,
  inc_sessions_on, send_or_insert_inbox,
}
use twitter_like_client_serv.Server.Document.{names, entries, to_doc}
use twitter_like_client_serv.Server.World.{
  Pointer, World, Doc, null, object, Json, deref, update, update_sending, allocate, send_packet,
  close,
}

abbrev pub max_sessions : ℕ
max_sessions = 2

-- `ProfilesManager::ProfilesManager`: an empty map. The call of `fromJsonFile` is commented out.
unfoldable pub create_manager : Exec World (Unit {0})
create_manager = modify (λ w. record w { heap = []; profiles = [] })

-- `profiles->count(profileId) > 0`
unfoldable pub is_key : Str → List (Str × ℕ) → Bool
is_key id m = elim (find id m) [ none ↦ false | some i ↦ true ]

unfoldable pub get_profile_by_id : Str → Exec World Pointer
get_profile_by_id id w = returns (find id w.profiles) w

unfoldable pub has_profile : Str → Exec World Bool
has_profile id w = returns (is_key id w.profiles) w

-- `find_if` over the followers, by name.
unfoldable pub has_follower : Str → List ℕ → Exec World Bool
has_follower id [] w = returns false w
has_follower id (i ∷ is) w =
    (do p ← deref (some i); if same (get_profile_id p) id then pure true else has_follower id is) w

-- A profile with `max_sessions` sessions takes no more: the thread ends here.
unfoldable pub refuse : Session → Exec World Pointer
refuse conn = do
  now ← gets (λ v. v.now)
  send_packet conn (of_cmd now CmdType.close_conn)
  close conn
  pthread_exit

-- The file is opened, which empties it, before the document is printed: what an exception leaves of
-- the document is what has reached the file by then.
unfoldable pub store : Str → Option Str → Exec World (Unit {0})
store reached none w = throws (record w { file = some reached })
store reached (some text) w = returns tt (record w { file = some text })

module _ ⦃json : Json⦄ where
  unfoldable pub save : Doc → Exec World (Unit {0})
  save d = store (json.reached d) (json.dump d)

  unfoldable pub to_json_file : Exec World (Unit {0})
  to_json_file w = (do es ← lift (entries w.heap w.profiles); save (to_doc es)) w

  unfoldable pub insert_profile : Str → ℕ → Exec World Bool
  insert_profile id i = do
    is_in_map ← gets (λ v. is_key id v.profiles)
    modify (λ v. record v { profiles = if is_in_map then v.profiles else insert id i v.profiles })
    to_json_file
    pure (not is_in_map)

  -- The rest of `addFollowerTo`, from the profile that it found.
  unfoldable pub add_follower : Pointer → ℕ → Str → Exec World (Unit {0})
  add_follower none follower id = pure tt
  add_follower (some target) follower id = do
    p ← deref (some target)
    there ← has_follower id (get_followers p)
    if there then pure tt else do
      update (some target) (λ q. record q { followers = q.followers ++ follower ∷ [] })
      to_json_file

  unfoldable pub add_follower_to : Str → Pointer → Exec World (Unit {0})
  add_follower_to followed none w = fault
  add_follower_to followed (some follower) w =
      (do
        f ← deref (some follower)
        if same (get_profile_id f) followed then pure tt else do
          target ← get_profile_by_id followed
          add_follower target follower (get_profile_id f))
        w

  -- The two branches of `createProfileIfNotExists` over the profile that it found.
  unfoldable pub admit : Str → Session → Pointer → Exec World Pointer
  admit id conn none = do i ← allocate (new_profile id); _ ← insert_profile id i; pure (some i)
  admit id conn (some i) = do
    p ← deref (some i)
    if is_num (get_sessions_on p) max_sessions then refuse conn else pure (some i)

  unfoldable pub create_profile_if_not_exists : Str → Session → Exec World Pointer
  create_profile_if_not_exists id conn = do
    found ← get_profile_by_id id
    profile ← admit id conn found
    update profile (inc_sessions_on conn)
    pure profile

  -- `fromJsonFile`, which the constructor has commented out: a profile for each member, and then
  -- the followers of each.
  unfoldable pub restore_profiles : List (Str × List Str) → Exec World (Unit {0})
  restore_profiles [] w = returns tt w
  restore_profiles ((id, followers) ∷ es) w =
      (do
        i ← allocate (new_profile id)
        modify (λ v. record v { profiles = insert id i v.profiles })
        restore_profiles es)
        w

  unfoldable pub restore_followers : Str → List Str → Exec World (Unit {0})
  restore_followers id [] w = returns tt w
  restore_followers id (name ∷ rest) w =
      (do follower ← get_profile_by_id name; add_follower_to id follower; restore_followers id rest)
        w

  unfoldable pub restore_entries : List (Str × List Str) → Exec World (Unit {0})
  restore_entries [] w = returns tt w
  restore_entries ((id, followers) ∷ es) w =
      (do restore_followers id followers; restore_entries es) w

  unfoldable pub restore : Option Doc → Exec World (Unit {0})
  restore none w = throws w
  restore (some null) w = returns tt w
  restore (some (object es)) w = (do restore_profiles es; restore_entries es) w

  unfoldable pub from_json_file : Exec World (Unit {0})
  from_json_file w = elim w.file [ none ↦ returns tt w | some text ↦ restore (json.parse text) w ]

-- The loop of `sendToFollowersOf`.
unfoldable pub send_to_each : Packet → List ℕ → Exec World (Unit {0})
send_to_each packet [] w = returns tt w
send_to_each packet (i ∷ is) w =
    (do update_sending (some i) (send_or_insert_inbox packet); send_to_each packet is) w

unfoldable pub send_to_followers_of : Pointer → Packet → Exec World (Unit {0})
send_to_followers_of profile packet = do p ← deref profile; send_to_each packet (get_followers p)

-- The loops of `sendCloseConnToAll`.
unfoldable pub close_sessions : List Session → Exec World (Unit {0})
close_sessions [] w = returns tt w
close_sessions (conn ∷ ss) w =
    (do
      now ← gets (λ v. v.now)
      send_packet conn (of_cmd now CmdType.close_conn)
      close conn
      close_sessions ss)
      w

unfoldable pub close_each : List (Str × ℕ) → Exec World (Unit {0})
close_each [] w = returns tt w
close_each ((id, i) ∷ m) w =
    (do p ← deref (some i); close_sessions (get_sessions p); close_each m) w

unfoldable pub send_close_conn_to_all : Exec World (Unit {0})
send_close_conn_to_all w = close_each w.profiles w
