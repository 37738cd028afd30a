-- ===== src/Server/Main/Invariant.antt =====
-- What a property of the profiles must survive so that every thread of the server keeps it: the
-- interface between the manager's operations and the threads of server/main.cpp.
use twitter_like_client_serv.Base.{Str}
use twitter_like_client_serv.Exec.{Keeps}
use twitter_like_client_serv.Packet.{Packet}
use twitter_like_client_serv.Server.Profile.{
  Session, dec_sessions_on, update_sessions_on, fetch_inbox_content,
}
use twitter_like_client_serv.Server.World.{Pointer, World, Json, update, update_sending}
use twitter_like_client_serv.Server.ProfilesManager.Local.{IsLocal}
use twitter_like_client_serv.Server.ProfilesManager.{
  create_profile_if_not_exists, add_follower_to, send_to_followers_of,
}

pub record IsInvariant ⦃json : Json⦄ (P : World → Type 0) : Type 0 where
  pub local : IsLocal P
  -- The manager's methods that the threads call keep it.
  pub login : (id : Str) (conn : Session) → Keeps P (create_profile_if_not_exists id conn)
  pub follow : (id : Str) (follower : Pointer) → Keeps P (add_follower_to id follower)
  pub post : (profile : Pointer) (packet : Packet) → Keeps P (send_to_followers_of profile packet)
  -- The methods of a profile that the threads call keep it.
  pub logout :
      (conn : Session) (profile : Pointer) → Keeps P (update profile (dec_sessions_on conn))
  pub reconnect :
      (conn : Session) (profile : Pointer) → Keeps P (update profile (update_sessions_on conn))
  pub inbox : (profile : Pointer) → Keeps P (update_sending profile fetch_inbox_content)
