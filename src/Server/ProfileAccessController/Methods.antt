-- ===== src/Server/ProfileAccessController/Methods.antt =====
-- A call of one public method of server/ProfileAccessController.h, and calls one after the other.
pub mod Balance
use twitter_like_client_serv.Base.{Bool, List, [], ◌∷◌}
use twitter_like_client_serv.Exec.{returns, Exec, ◌>>=◌, ◌>>◌, pure}
use twitter_like_client_serv.Server.World.{World, Json}
use twitter_like_client_serv.Server.ProfileAccessController
use twitter_like_client_serv.Server.ProfilesManager.Methods.{
  Method, Answer, nothing, truth, profile,
}

module _ ⦃json : Json⦄ where
  unfoldable pub call : Method → Exec World Answer
  call (Method.insert_profile id i) = do
    rtn ← ProfileAccessController.insert_profile id i
    pure (truth rtn)
  call (Method.get_profile_by_id id) = do
    found ← ProfileAccessController.get_profile_by_id id
    pure (profile found)
  call (Method.has_profile id) = do rtn ← ProfileAccessController.has_profile id; pure (truth rtn)
  call (Method.add_follower_to followed follower) = do
    ProfileAccessController.add_follower_to followed follower
    pure nothing
  call (Method.send_to_followers_of sender packet) = do
    ProfileAccessController.send_to_followers_of sender packet
    pure nothing
  call (Method.create_profile_if_not_exists id conn) = do
    found ← ProfileAccessController.create_profile_if_not_exists id conn
    pure (profile found)
  call Method.send_close_conn_to_all = do
    ProfileAccessController.send_close_conn_to_all
    pure nothing

  -- The answers of calls that one caller makes one after the other.
  unfoldable pub calls : List Method → Exec World (List Answer)
  calls [] w = returns [] w
  calls (m ∷ ms) w = (do answer ← call m; rest ← calls ms; pure (answer ∷ rest)) w

  -- `main` makes the controller; then the calls.
  unfoldable pub run : List Method → Exec World (List Answer)
  run ms = do ProfileAccessController.create_controller; calls ms
