-- ===== src/Server/ProfileAccessController.antt =====
-- server/ProfileAccessController.h and server/ProfileAccessController.cpp: the manager behind a lock
-- for readers and writers. Here one thread calls at a time: a wait for a condition ends the run in
-- `waits`. `ReadersWriters` has the threads together.
pub mod Methods
pub mod Limit
pub mod ReadersWriters
use twitter_like_client_serv.Base.{
  ℕ, suc, ◌+◌, ◌-◌, Bool, true, false, ◌||◌, Option, none, some, Str, ltb, if◌then◌else◌,
}
use twitter_like_client_serv.Exec.{Outcome, returns, waits, Exec, ◌>>=◌, ◌>>◌, pure, modify}
use twitter_like_client_serv.Packet.{Packet}
use twitter_like_client_serv.Server.Profile.{Session}
use twitter_like_client_serv.Server.World.{Pointer, World, Json}
use twitter_like_client_serv.Server.ProfilesManager

-- `ProfileAccessController::ProfileAccessController`
unfoldable pub create_controller : Exec World (Unit {0})
create_controller = do
  ProfilesManager.create_manager
  modify (λ w. record w { num_readers = 0; num_writers = 0 })

unfoldable pub request_read : Exec World (Unit {0})
request_read w =
    if ltb 0 w.num_writers
    then waits w
    else returns tt (record w { num_readers = w.num_readers + 1 })

unfoldable pub request_write : Exec World (Unit {0})
request_write w =
    if ltb 0 w.num_readers || ltb 0 w.num_writers
    then waits w
    else returns tt (record w { num_writers = w.num_writers + 1 })

-- Each method below has made its request before, so neither count is 0 here. The signals wake
-- threads that wait: they change no field.
unfoldable pub release_read : Exec World (Unit {0})
release_read w = returns tt (record w { num_readers = w.num_readers - 1 })

unfoldable pub release_write : Exec World (Unit {0})
release_write w = returns tt (record w { num_writers = w.num_writers - 1 })

-- A method of the manager between the request and the release: where the thread ends inside the
-- method, the release is not reached.
abbrev pub reading : {A : Type 0} → Exec World A → Exec World A
reading method = do request_read; result ← method; release_read; pure result

abbrev pub writing : {A : Type 0} → Exec World A → Exec World A
writing method = do request_write; result ← method; release_write; pure result

unfoldable pub get_profile_by_id : Str → Exec World Pointer
get_profile_by_id id = reading (ProfilesManager.get_profile_by_id id)

unfoldable pub has_profile : Str → Exec World Bool
has_profile id = reading (ProfilesManager.has_profile id)

unfoldable pub send_to_followers_of : Pointer → Packet → Exec World (Unit {0})
send_to_followers_of profile packet = writing (ProfilesManager.send_to_followers_of profile packet)

unfoldable pub send_close_conn_to_all : Exec World (Unit {0})
send_close_conn_to_all = writing ProfilesManager.send_close_conn_to_all

module _ ⦃json : Json⦄ where
  unfoldable pub insert_profile : Str → ℕ → Exec World Bool
  insert_profile id i = writing (ProfilesManager.insert_profile id i)

  unfoldable pub add_follower_to : Str → Pointer → Exec World (Unit {0})
  add_follower_to followed follower = writing (ProfilesManager.add_follower_to followed follower)

  unfoldable pub create_profile_if_not_exists : Str → Session → Exec World Pointer
  create_profile_if_not_exists id conn =
      writing (ProfilesManager.create_profile_if_not_exists id conn)
