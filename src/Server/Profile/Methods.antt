-- ===== src/Server/Profile/Methods.antt =====
-- The public methods of server/Profile.h, and calls one after the other.
use twitter_like_client_serv.Base.{ℕ, Option, some, List, [], ◌∷◌, ◌>>=◌, Str}
use twitter_like_client_serv.Base.Int.{ℤ}
use twitter_like_client_serv.Packet.{Packet}
use twitter_like_client_serv.Connection.{Net}
use twitter_like_client_serv.Server.Profile
use twitter_like_client_serv.Server.Profile.{Profile, Session}

pub data Method : Type 0 where
  get_profile_id get_sessions_on get_followers get_sessions : Method
  inc_sessions_on dec_sessions_on update_sessions_on : Session → Method
  send_or_insert_inbox : Packet → Method
  fetch_inbox_content : Method

-- What a method returns.
pub data Answer : Type 0 where
  nothing : Answer
  name : Str → Answer
  count : ℤ → Answer
  profiles : List ℕ → Answer
  sessions : List Session → Answer

unfoldable pub call : Method → Profile → Net → Option (Answer × Profile × Net)
call Method.get_profile_id p net = some (name (Profile.get_profile_id p), p, net)
call Method.get_sessions_on p net = some (count (Profile.get_sessions_on p), p, net)
call Method.get_followers p net = some (profiles (Profile.get_followers p), p, net)
call Method.get_sessions p net = some (sessions (Profile.get_sessions p), p, net)
call (Method.inc_sessions_on conn) p net = some (nothing, Profile.inc_sessions_on conn p, net)
call (Method.dec_sessions_on conn) p net = some (nothing, Profile.dec_sessions_on conn p, net)
call (Method.update_sessions_on conn) p net = some (nothing, Profile.update_sessions_on conn p, net)
call (Method.send_or_insert_inbox packet) p net = do
  (p, net) ← Profile.send_or_insert_inbox packet p net
  some (nothing, p, net)
call Method.fetch_inbox_content p net = do
  (p, net) ← Profile.fetch_inbox_content p net
  some (nothing, p, net)

unfoldable pub calls : List Method → Profile → Net → Option (List Answer × Profile × Net)
calls [] p net = some ([], p, net)
calls (m ∷ ms) p net = do
  (answer, p, net) ← call m p net
  (answers, p, net) ← calls ms p net
  some (answer ∷ answers, p, net)

-- A new profile, and calls of its methods.
unfoldable pub run : Str → List Method → Net → Option (List Answer × Profile × Net)
run id ms net = calls ms (Profile.new_profile id) net
