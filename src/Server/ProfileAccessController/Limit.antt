-- ===== src/Server/ProfileAccessController/Limit.antt =====
-- The limit on the sessions of a profile, and what the refusal of one session does to the lock.
use twitter_like_client_serv.Base.{
  ℕ, ◌+◌, ◌<◌, ◌≡◌, true, some, List, [], ◌∷◌, ◌++◌, Str, get_elem?, arith, lt→ltb,
}
use twitter_like_client_serv.Base.Int.{is_num}
use twitter_like_client_serv.Base.Map.{find}
use twitter_like_client_serv.Exec.{returns, exits, waits, Exec, bind}
use twitter_like_client_serv.Packet.{Packet, CmdType, to_bytes, of_cmd}
use twitter_like_client_serv.Connection.{Net}
use twitter_like_client_serv.Connection
use twitter_like_client_serv.Connection.Delivery.{send_packet-sent}
use twitter_like_client_serv.Server.Profile.{Profile, Session}
use twitter_like_client_serv.Server.World.{Pointer, World, Json, deref, send_packet, close}
use twitter_like_client_serv.Server.ProfilesManager
use twitter_like_client_serv.Server.ProfilesManager.{refuse, admit}
use twitter_like_client_serv.Server.ProfileAccessController.{
  request_read, request_write, reading, writing, insert_profile, get_profile_by_id, has_profile,
  send_to_followers_of, send_close_conn_to_all, add_follower_to, create_profile_if_not_exists,
}

-- A writer that waits and one that goes on.
writing_busy :
    {A : Type 0} (method : Exec World A) (w : World)
    → 0 < w.num_writers
    → writing method w ≡ waits w
unfolding request_write
writing_busy method w h = ground (arith, lt→ltb 0 w.num_writers h)

pub request_write_free :
    (w : World)
    → w.num_readers ≡ 0
    → w.num_writers ≡ 0
    → request_write w ≡ returns tt (record w { num_writers = w.num_writers + 1 })
unfolding request_write
request_write_free w nr nw = ground (arith, nr, nw)

reading_busy :
    {A : Type 0} (method : Exec World A) (w : World)
    → 0 < w.num_writers
    → reading method w ≡ waits w
unfolding request_read
reading_busy method w h = rw (lt→ltb 0 w.num_writers h)

-- Every method of the controller waits.
pub record IsStuck ⦃json : Json⦄ (w : World) : Type 0 where
  pub lookups : (id : Str) → get_profile_by_id id w ≡ waits w
  pub queries : (id : Str) → has_profile id w ≡ waits w
  pub inserts : (id : Str) (i : ℕ) → insert_profile id i w ≡ waits w
  pub logins : (id : Str) (conn : Session) → create_profile_if_not_exists id conn w ≡ waits w
  pub follows : (id : Str) (follower : Pointer) → add_follower_to id follower w ≡ waits w
  pub sends :
      (profile : Pointer) (packet : Packet) → send_to_followers_of profile packet w ≡ waits w
  pub shutdowns : send_close_conn_to_all w ≡ waits w

module _ ⦃json : Json⦄ where
  -- While a writer is counted, every method waits.
  pub writer-IsStuck : (w : World) → 0 < w.num_writers → IsStuck w
  unfolding get_profile_by_id has_profile insert_profile create_profile_if_not_exists
      add_follower_to send_to_followers_of send_close_conn_to_all
  writer-IsStuck w h = record {
    lookups = λ id. reading_busy _ w h;
    queries = λ id. reading_busy _ w h;
    inserts = λ id i. writing_busy _ w h;
    logins = λ id conn. writing_busy _ w h;
    follows = λ id follower. writing_busy _ w h;
    sends = λ profile packet. writing_busy _ w h;
    shutdowns = writing_busy _ w h;
  }

  -- The world after a refusal: CLOSE_CONN is sent, the connection is closed, the lock is not released.
  abbrev pub refused : World → ℕ → List ℕ → World
  refused w conn b = record w {
    net = Connection.close conn (record w.net { sent = w.net.sent ++ (conn, b) ∷ [] });
    num_writers = w.num_writers + 1;
  }

  refuse-sent :
      (w : World) (conn : ℕ) (b : List ℕ)
      → to_bytes (of_cmd w.now CmdType.close_conn) ≡ some b
      → refuse (some conn) w
        ≡ exits (record w {
          net = Connection.close conn (record w.net { sent = w.net.sent ++ (conn, b) ∷ [] });
        })
  unfolding refuse send_packet close
  refuse-sent w conn b e = rw (send_packet-sent conn (of_cmd w.now CmdType.close_conn) w.net b e)

  full_profile :
      (w : World) (id : Str) (conn i : ℕ) (p : Profile) (b : List ℕ)
      → find id w.profiles ≡ some i
      → get_elem? w.heap i ≡ some p
      → is_num p.sessions_on 2 ≡ true
      → to_bytes (of_cmd w.now CmdType.close_conn) ≡ some b
      → ProfilesManager.create_profile_if_not_exists id (some conn) w
        ≡ exits (record w {
          net = Connection.close conn (record w.net { sent = w.net.sent ++ (conn, b) ∷ [] });
        })
  unfolding ProfilesManager.create_profile_if_not_exists ProfilesManager.get_profile_by_id admit
      deref
  full_profile w id conn i p b found at full enc =
      rw found (rw at (rw full (rw (refuse-sent w conn b enc, bind))))

  -- A login to a profile with two sessions, while nobody holds the lock: the session, which is not
  -- null, is sent CLOSE_CONN and closed, the profiles are as they were, and the thread ends inside
  -- the write section. In the state it leaves every method of the controller waits.
  pub third_session-IsStuck :
      (w : World) (id : Str) (conn i : ℕ) (p : Profile) (b : List ℕ)
      → w.num_readers ≡ 0
      → w.num_writers ≡ 0
      → find id w.profiles ≡ some i
      → get_elem? w.heap i ≡ some p
      → is_num p.sessions_on 2 ≡ true
      → to_bytes (of_cmd w.now CmdType.close_conn) ≡ some b
      → (create_profile_if_not_exists id (some conn) w ≡ exits (refused w conn b))
        × IsStuck (refused w conn b)
  unfolding create_profile_if_not_exists
  third_session-IsStuck w id conn i p b nr nw found at full enc = (
    rw (request_write_free w nr nw, bind)
        (rw (
          full_profile (record w { num_writers = w.num_writers + 1 }) id conn i p b found at full
              enc,
          bind,
        )),
    writer-IsStuck (refused w conn b) (omega arith),
  )
