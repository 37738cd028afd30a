-- ===== src/Server/ProfilesManager/Methods.antt =====
-- The public methods of server/ProfilesManager.h and server/ProfileAccessController.h, which are the
-- same, each with its arguments, and a call of one on the manager.
use twitter_like_client_serv.Base.{ℕ, Bool, List, [], ◌∷◌, Str}
use twitter_like_client_serv.Exec.{returns, Exec, ◌>>=◌, ◌>>◌, pure}
use twitter_like_client_serv.Packet.{Packet}
use twitter_like_client_serv.Server.Profile.{Session}
use twitter_like_client_serv.Server.World.{Pointer, World, Json}
use twitter_like_client_serv.Server.ProfilesManager

pub data Method : Type 0 where
  insert_profile : Str → ℕ → Method
  get_profile_by_id has_profile : Str → Method
  add_follower_to : Str → Pointer → Method
  send_to_followers_of : Pointer → Packet → Method
  create_profile_if_not_exists : Str → Session → Method
  send_close_conn_to_all : Method

-- What a method returns.
pub data Answer : Type 0 where
  nothing : Answer
  truth : Bool → Answer
  profile : Pointer → Answer

module _ ⦃json : Json⦄ where
  unfoldable pub call : Method → Exec World Answer
  call (Method.insert_profile id i) = do rtn ← ProfilesManager.insert_profile id i; pure (truth rtn)
  call (Method.get_profile_by_id id) = do
    found ← ProfilesManager.get_profile_by_id id
    pure (profile found)
  call (Method.has_profile id) = do has ← ProfilesManager.has_profile id; pure (truth has)
  call (Method.add_follower_to followed follower) = do
    ProfilesManager.add_follower_to followed follower
    pure nothing
  call (Method.send_to_followers_of sender packet) = do
    ProfilesManager.send_to_followers_of sender packet
    pure nothing
  call (Method.create_profile_if_not_exists id conn) = do
    found ← ProfilesManager.create_profile_if_not_exists id conn
    pure (profile found)
  call Method.send_close_conn_to_all = do ProfilesManager.send_close_conn_to_all; pure nothing

  -- The answers of calls that one caller makes one after the other.
  unfoldable pub calls : List Method → Exec World (List Answer)
  calls [] w = returns [] w
  calls (m ∷ ms) w = (do answer ← call m; rest ← calls ms; pure (answer ∷ rest)) w

  -- A new manager, and calls of its methods.
  unfoldable pub run : List Method → Exec World (List Answer)
  run ms = do ProfilesManager.create_manager; calls ms
