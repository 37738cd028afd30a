-- ===== src/Tests/Objects.antt =====
-- Objects over several calls of their methods.
use twitter_like_client_serv.Base.{◌≡◌, refl, some, List, [], ◌∷◌, codes, length}
use twitter_like_client_serv.Base.Int.{pos}
use twitter_like_client_serv.Server.Inbox
use twitter_like_client_serv.Server.Inbox.Queue
use twitter_like_client_serv.Server.Inbox.Queue.{popped, inserted, run-popped}
use twitter_like_client_serv.Server.Profile
use twitter_like_client_serv.Server.Profile.{Profile}
use twitter_like_client_serv.Server.Profile.Methods as Object
use twitter_like_client_serv.Server.Profile.Count.{plus, reconnects, run-count}
use twitter_like_client_serv.Tests.States.{login, post, quiet_net}

-- Two packets go into an inbox, and one comes out.
abbrev two_in : List Queue.Method
two_in =
    Queue.Method.insert_packet post
    ∷ Queue.Method.insert_packet login
    ∷ Queue.Method.pop_packet
    ∷ []

one_out :
    Queue.run two_in ≡ some (Queue.nothing ∷ Queue.nothing ∷ Queue.packet post ∷ [], login ∷ [])
unfolding Queue.run Queue.calls Queue.call Inbox.empty_inbox Inbox.insert_packet Inbox.pop_packet
one_out = refl

-- Two sessions are counted and one is not; one of the counted ones ends.
abbrev sessions_change : List Object.Method
sessions_change =
    Object.Method.inc_sessions_on (some 1)
    ∷ Object.Method.inc_sessions_on (some 2)
    ∷ Object.Method.update_sessions_on (some 3)
    ∷ Object.Method.dec_sessions_on (some 1)
    ∷ []

abbrev carol : Profile
carol = record {
  profile_id = codes "carol";
  sessions_on = pos 1;
  followers = [];
  inbox = [];
  sessions = some 2 ∷ some 3 ∷ [];
}

abbrev no_answers : List Object.Answer
no_answers = Object.nothing ∷ Object.nothing ∷ Object.nothing ∷ Object.nothing ∷ []

sessions_changed :
    Object.run (codes "carol") sessions_change quiet_net ≡ some (no_answers, carol, quiet_net)
unfolding Object.run Object.calls Object.call Profile.new_profile Profile.inc_sessions_on
    Profile.dec_sessions_on Profile.update_sessions_on Profile.has_session Profile.erase_session
    Profile.same_session Inbox.empty_inbox
sessions_changed = refl

run-count_example : plus (pos 1) (reconnects sessions_change 0) ≡ pos (length carol.sessions)
run-count_example =
    run-count sessions_change (codes "carol") carol quiet_net quiet_net no_answers sessions_changed
