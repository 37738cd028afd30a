-- ===== src/Tests/Posts.antt =====
-- A post of bobby's, whom alice follows.
use mathlib.Core.List.{Mem, mem-cons_self, mem-cons_of_mem}
use twitter_like_client_serv.Base.{
  ℕ, ◌≡◌, refl, false, some, List, [], ◌∷◌, ◌++◌, Str, codes, arith,
}
use twitter_like_client_serv.Exec.{returns}
use twitter_like_client_serv.Connection.{bytes, shut, is_closed}
use twitter_like_client_serv.Command.{rfind, starts_with}
use twitter_like_client_serv.Client.{Client, accepts_profile, next_line, input_loop, from_server}
use twitter_like_client_serv.Server.Profile.{Profile}
use twitter_like_client_serv.Server.Registry.{set-IsRegistry}
use twitter_like_client_serv.Server.World.{World}
use twitter_like_client_serv.Server.ProfilesManager.Objects.{IsRegistered}
use twitter_like_client_serv.Server.ProfilesManager.Broadcast.{messages, Notified}
use twitter_like_client_serv.Server.Main.{client_loop, process_packet}
use twitter_like_client_serv.Server.Main.Send.{replicas, process_packet-Notified}
use twitter_like_client_serv.Post.{IsPost, IsOnline, post-shown}
use twitter_like_client_serv.Tests.States.{
  message, message_lem, post, alice, bobby, both, server, server-IsRegistry, silent_json,
}

abbrev pub followed_bobby : Profile
followed_bobby = record bobby { followers = 0 ∷ [] }

abbrev pub stage : World
stage = record server { heap = alice ∷ followed_bobby ∷ []; list_backups = 8 ∷ [] }

pub stage-IsRegistered : IsRegistered stage
stage-IsRegistered =
    set-IsRegistry (alice ∷ bobby ∷ []) both 1 bobby followed_bobby refl refl
      (record { valid = (omega arith, tt); distinct = (tt, tt); not_self = (omega arith, tt) })
      server-IsRegistry

process_packet-Notified_example :
    (heap' : List Profile) × (process_packet ⦃json = silent_json⦄ (some 3) (some 1) post stage
      ≡ returns false (record stage {
        heap = heap';
        net = record stage.net {
          sent =
              ([] ++ messages (message post) stage.heap (0 ∷ []))
              ++ replicas (message post) (8 ∷ []);
        };
      }))
    × Notified post (0 ∷ []) stage.heap heap'
process_packet-Notified_example =
    process_packet-Notified ⦃json = silent_json⦄ (some 3) 1 followed_bobby post (message post) stage
      stage-IsRegistered refl refl refl refl (message_lem post (omega arith))

abbrev user : Str → Client
user profile = record {
  con = some 0;
  next_con = 1;
  closed = λ i. false;
  profile = profile;
  primary = codes "10.0.0.2:4001";
  to_server = [];
  to_router = [];
  router_closed = false;
  screen = [];
  now = 9;
}

user-IsOnline : IsOnline (user (codes "bobby")) 0
unfolding accepts_profile
user-IsOnline = record {
  connection = refl;
  open_connection = refl;
  name = refl;
  characters = omega arith;
  time = omega arith;
}

hello-IsPost : IsPost (codes "hi")
unfolding rfind starts_with
hello-IsPost = record {
  short = omega arith;
  characters = omega arith;
  one_send = refl;
  no_follow = refl;
}

post-shown_example :
    (b : List ℕ) × (input_loop 1 (codes "SEND hi") [] (user (codes "bobby"))
      ≡ next_line
          (input_loop 0)
          []
          (record (user (codes "bobby")) { to_server = [] ++ (0, b) ∷ [] }))
    × ((w' : World) × (ms : List (ℕ × List ℕ)) × (client_loop ⦃json = silent_json⦄ 3
            (some 1)
            (bytes b ∷ [])
            stage
          ≡ client_loop ⦃json = silent_json⦄ 3 (some 1) [] w')
        × (w'.net.sent ≡ [] ++ ms)
        × Mem (2, b) ms)
    × (from_server ((bytes b, shut, []) ∷ []) (user (codes "alice"))
        ≡ from_server [] (record (user (codes "alice")) {
          screen =
              [] ++ record { timestamp = 9; sender = codes "bobby"; payload = codes "hi" } ∷ [];
        }))
unfolding is_closed
post-shown_example =
    post-shown ⦃json = silent_json⦄ 0 0 (codes "hi") [] (user (codes "bobby")) user-IsOnline
      hello-IsPost 3 1 followed_bobby [] stage stage-IsRegistered refl refl refl refl 0 2 alice
      mem-cons_self refl refl (mem-cons_of_mem (some 1) mem-cons_self) 0 shut [] []
      (user (codes "alice")) refl refl
