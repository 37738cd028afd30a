-- ===== src/Tests/Failovers.antt =====
-- The client of alice, whose server is gone.
use mathlib.Core.List.{Mem, mem-cons_self}
use twitter_like_client_serv.Base.{
  ℕ, ◌≡◌, refl, false, true, some, List, [], ◌∷◌, ◌++◌, codes, arith, replicate,
}
use twitter_like_client_serv.Exec.{returns, fault}
use twitter_like_client_serv.Packet.{Packet, CmdType, of_cmd, of_cmd_payload_sender}
use twitter_like_client_serv.Connection.{bytes, shut}
use twitter_like_client_serv.Client.{Client, accepts_profile, is_open, from_server}
use twitter_like_client_serv.Client.Reconnect.{reopened, moved, from_server-reconnects}
use twitter_like_client_serv.Server.World.{World}
use twitter_like_client_serv.Server.Main.{client_loop, from_client, process_packet, replay}
use twitter_like_client_serv.Server.Main.Rejoin.{rejoined, welcome}
use twitter_like_client_serv.Post.{IsOnline, shown}
use twitter_like_client_serv.Failover.{IsReferral, IsSuccessor, failover}
use twitter_like_client_serv.Tests.States.{message, message_lem, post, alice, bobby, silent_json}
use twitter_like_client_serv.Tests.Elections.{referral, other_address, primary_peer}
use twitter_like_client_serv.Tests.Posts.{followed_bobby, stage, stage-IsRegistered}
use twitter_like_client_serv.Tests.Packets.{post-IsSendable}
use twitter_like_client_serv.Packet.RoundTrip.{IsSendable}
use twitter_like_client_serv.Server.ProfilesManager.Broadcast.{is_among}
use twitter_like_client_serv.Server.Main.Waiting.{waiting-fault}
use twitter_like_client_serv.Tests.Restores.{followed_alice, friends, friends-IsRegistered}
use twitter_like_client_serv.Tests.Starts.{referral_read}

-- The client of alice on the connection 1, and a new primary.
abbrev client : Client
client = record {
  con = some 1;
  next_con = 2;
  closed = λ i. false;
  profile = codes "alice";
  primary = codes "10.0.0.2:4001";
  to_server = [];
  to_router = [];
  router_closed = false;
  screen = [];
  now = 7;
}

abbrev where_is_it : Packet
where_is_it = record { cmd = CmdType.get_primary; payload = []; timestamp = 7; sender = [] }

abbrev here_again : Packet
here_again = record { cmd = CmdType.ok; payload = []; timestamp = 7; sender = codes "alice" }

from_server-reconnects_example :
    (from_server
        ((shut, bytes (message referral), replicate 2 false ++ true ∷ []) ∷ (shut, shut, []) ∷ [])
        client
      ≡ from_server ((shut, shut, []) ∷ []) (
          reopened
            (moved client 1 (message where_is_it) (codes "10.0.0.1:4000"))
            (message here_again)))
    × (is_open (
          reopened
            (moved client 1 (message where_is_it) (codes "10.0.0.1:4000"))
            (message here_again))
        ≡ true)
from_server-reconnects_example =
    from_server-reconnects 2 1 (codes "10.0.0.1", 4000) referral (message referral)
      (message where_is_it) (message here_again) [] ((shut, shut, []) ∷ []) client refl refl
      (unfold of_cmd in message_lem where_is_it (omega arith)) referral_read other_address
      primary_peer (unfold of_cmd_payload_sender in message_lem here_again (omega arith))

client-IsOnline : IsOnline client 1
unfolding accepts_profile
client-IsOnline = record {
  connection = refl;
  open_connection = refl;
  name = refl;
  characters = omega arith;
  time = omega arith;
}

client-IsReferral : IsReferral client (message referral) (message where_is_it) referral
client-IsReferral = record {
  question_sent = unfold of_cmd in message_lem where_is_it (omega arith);
  answered = referral_read;
  moved_on = other_address;
  address = ((codes "10.0.0.1", 4000), primary_peer);
}

stage-IsSuccessor : IsSuccessor stage 0 alice (codes "alice")
stage-IsSuccessor = record {
  registered = stage-IsRegistered;
  no_readers = refl;
  no_writers = refl;
  object = refl;
  name_of = refl;
  session = refl;
  no_messages = refl;
  time = omega arith;
}

failover_example :
    (ok greeting : List ℕ) × (from_client ⦃json = silent_json⦄ 9 (bytes ok ∷ []) stage
      ≡ client_loop ⦃json = silent_json⦄ 9 (some 0) [] (rejoined stage 9 0 alice greeting))
    × ((w : World) × (ms : List (ℕ × List ℕ)) × (process_packet ⦃json = silent_json⦄
            (some 3)
            (some 1)
            post
            (rejoined stage 9 0 alice greeting)
          ≡ returns false w)
        × (w.net.sent ≡ (rejoined stage 9 0 alice greeting).net.sent ++ ms)
        × Mem (9, message post) ms)
    × (from_server
          ((shut, bytes (message referral), replicate 2 false ++ true ∷ [])
            ∷ (bytes greeting, shut, [])
            ∷ (bytes (message post), shut, [])
            ∷ [])
          client
        ≡ from_server []
            (record (reopened (moved client 1 (message where_is_it) (codes "10.0.0.1:4000")) ok) {
              screen = ([] ++ shown (welcome stage (codes "alice")) ∷ []) ++ shown post ∷ [];
            }))
failover_example =
    failover ⦃json = silent_json⦄ client 1 2 (message referral) (message where_is_it) referral []
      (shut, []) (shut, []) [] client-IsOnline client-IsReferral stage 0 9 alice []
      stage-IsSuccessor 3 1 followed_bobby post (message post) refl mem-cons_self refl
      post-IsSendable (message_lem post (omega arith))

-- Alice posts while bobby, who follows her, is not logged in; then he logs in.
abbrev bobby_login : Packet
bobby_login = record { cmd = CmdType.profile; payload = codes "bobby"; timestamp = 9; sender = [] }

bobby_login-IsSendable : IsSendable bobby_login
bobby_login-IsSendable = record {
  fits = record { time = omega arith; room = omega arith };
  command = tt;
  payload_text = omega arith;
  sender_text = tt;
}

abbrev bobby_again : Packet
bobby_again = record { cmd = CmdType.ok; payload = []; timestamp = 9; sender = codes "bobby" }

bobby_again-IsSendable : IsSendable bobby_again
bobby_again-IsSendable = record {
  fits = record { time = omega arith; room = omega arith };
  command = tt;
  payload_text = tt;
  sender_text = omega arith;
}

waiting-fault_example :
    (v1 v2 : World) × (replay ⦃json = silent_json⦄ (bytes (message post)) friends ≡ returns tt v1)
    × (replay ⦃json = silent_json⦄ (bytes (message bobby_login)) v1 ≡ returns tt v2)
    × (from_client ⦃json = silent_json⦄ 9 (bytes (message bobby_again) ∷ []) v2 ≡ fault)
unfolding accepts_profile is_among of_cmd_payload_sender
waiting-fault_example =
    waiting-fault ⦃json = silent_json⦄ post bobby_login (message post) (message bobby_login)
      (message bobby_again) 1 0 9 9 bobby followed_alice [] friends friends-IsRegistered refl refl
      refl refl refl refl refl refl refl post-IsSendable (message_lem post (omega arith)) refl refl
      bobby_login-IsSendable (message_lem bobby_login (omega arith)) bobby_again-IsSendable
      (message_lem bobby_again (omega arith))
