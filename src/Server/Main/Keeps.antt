-- ===== src/Server/Main/Keeps.antt =====
-- The threads of server/main.cpp, the registry of the profiles and the limit of the sessions.
use twitter_like_client_serv.Base.{ℕ, refl, List, arith}
use twitter_like_client_serv.Exec.{Ends}
use twitter_like_client_serv.Connection.{Recv}
use twitter_like_client_serv.Server.Profile.{
  dec_sessions_on, update_sessions_on, fetch_inbox_content,
}
use twitter_like_client_serv.Server.World.{World, Json}
use twitter_like_client_serv.Server.ProfilesManager.Objects.{
  IsRegistered, IsRegistered-IsLocal, update-Keeps, update_sending-Keeps,
  fetch_inbox_content-IsInner,
}
use twitter_like_client_serv.Server.ProfilesManager.Keeps as Manager
use twitter_like_client_serv.Server.ProfilesManager.Each.{
  Each, Each-IsLocal, update-Each, update_sending-Each, send_to_followers_of-Each,
  add_follower_to-Each,
}
use twitter_like_client_serv.Server.ProfilesManager.Sessions.{
  IsCounted, create_profile_if_not_exists-Counted, dec_sessions_on-IsCounted,
  update_sessions_on-IsCounted, send_or_insert_inbox-IsCounted, fetch_inbox_content-IsCounted,
}
use twitter_like_client_serv.Server.Main.{from_client, receive_alive}
use twitter_like_client_serv.Server.Main.Invariant.{IsInvariant}
use twitter_like_client_serv.Server.Main.Threads.{from_client-Keeps, receive_alive-Keeps}

module _ ⦃json : Json⦄ where
  pub IsRegistered-IsInvariant : IsInvariant IsRegistered
  IsRegistered-IsInvariant = record {
    local = IsRegistered-IsLocal;
    login = Manager.create_profile_if_not_exists-Keeps;
    follow = Manager.add_follower_to-Keeps;
    post = Manager.send_to_followers_of-Keeps;
    logout = λ conn profile.
        update-Keeps profile (dec_sessions_on conn) (λ p. unfold dec_sessions_on in ground arith);
    reconnect = λ conn profile.
        update-Keeps profile (update_sessions_on conn)
          (λ p. unfold update_sessions_on in (refl, refl));
    inbox = λ profile. update_sending-Keeps profile fetch_inbox_content fetch_inbox_content-IsInner;
  }

  pub IsCounted-IsInvariant : IsInvariant (Each IsCounted)
  IsCounted-IsInvariant = record {
    local = Each-IsLocal IsCounted;
    login = create_profile_if_not_exists-Counted;
    follow = add_follower_to-Each IsCounted (λ p fs h. record { limit = h.limit; there = h.there });
    post = λ profile packet.
        send_to_followers_of-Each IsCounted profile packet (send_or_insert_inbox-IsCounted packet);
    logout = λ conn profile.
        update-Each IsCounted profile (dec_sessions_on conn) (dec_sessions_on-IsCounted conn);
    reconnect = λ conn profile.
        update-Each IsCounted profile (update_sessions_on conn) (update_sessions_on-IsCounted conn);
    inbox = λ profile.
        update_sending-Each IsCounted profile fetch_inbox_content fetch_inbox_content-IsCounted;
  }

  -- The limit on the sessions: from a state in which each profile counts at most `MAX_SESSIONS`
  -- sessions, and no more than there are in its list, a client's thread leads to such a state again
  -- when it ends, waits, or stops on an exception, whatever `recv` returns, round by round. Nothing
  -- is said of a run into undefined behaviour.
  pub from_client-IsCounted :
      (conn : ℕ) (recvs : List Recv) (w : World)
      → Each IsCounted w
      → Ends (Each IsCounted) (from_client conn recvs w)
  from_client-IsCounted conn recvs w r =
      from_client-Keeps (Each IsCounted) IsCounted-IsInvariant conn recvs w r

  -- The same for a backup's thread.
  pub receive_alive-IsCounted :
      (recvs : List Recv) (w : World)
      → Each IsCounted w
      → Ends (Each IsCounted) (receive_alive recvs w)
  receive_alive-IsCounted recvs w r =
      receive_alive-Keeps (Each IsCounted) IsCounted-IsInvariant recvs w r

  -- A client's thread: from a state in which map and objects of the profiles fit together (each key
  -- leads to the object of that name and each object is found by its name; no profile follows
  -- itself or another one twice), they fit together when the thread ends, waits, or stops on an
  -- exception, whatever `recv` returns, round by round. Nothing is said of a run into undefined
  -- behaviour.
  pub from_client-IsRegistered :
      (conn : ℕ) (recvs : List Recv) (w : World)
      → IsRegistered w
      → Ends IsRegistered (from_client conn recvs w)
  from_client-IsRegistered conn recvs w r =
      from_client-Keeps IsRegistered IsRegistered-IsInvariant conn recvs w r

  -- A backup's thread keeps map and objects of the profiles fitting together in the same sense,
  -- whatever it receives of its primary, and also if it takes over; nothing is said of a run into
  -- undefined behaviour.
  pub receive_alive-IsRegistered :
      (recvs : List Recv) (w : World) → IsRegistered w → Ends IsRegistered (receive_alive recvs w)
  receive_alive-IsRegistered recvs w r =
      receive_alive-Keeps IsRegistered IsRegistered-IsInvariant recvs w r
