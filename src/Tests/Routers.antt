-- ===== src/Tests/Routers.antt =====
-- A router, two servers and a client.
use twitter_like_client_serv.Base.{◌≡◌, refl, true, false, [], ◌∷◌, Str, codes, arith, replicate}
use twitter_like_client_serv.Exec.{returns, waits}
use twitter_like_client_serv.Packet.{Packet, CmdType}
use twitter_like_client_serv.Connection.{shut}
use twitter_like_client_serv.Router.{Router, handle_all, from_client}
use twitter_like_client_serv.Router.Primary.{first_server_stays, from_client_shut}
use twitter_like_client_serv.Tests.States.{quiet_net}

abbrev fresh : Router
fresh = record { primary_server = []; has_primary = false; net = quiet_net; now = 3 }

abbrev settled : Router
settled = record { primary_server = codes "a:1"; has_primary = true; net = quiet_net; now = 3 }

abbrev registration : Str → Packet
registration address = record {
  cmd = CmdType.set_primary_if_not_exists;
  payload = address;
  timestamp = 3;
  sender = [];
}

abbrev question : Packet
question = record { cmd = CmdType.get_primary; payload = []; timestamp = 4; sender = [] }

first_server_stays_example :
    (r : Router) × (handle_all
        ((1, registration (codes "a:1")) ∷ (2, registration (codes "b:2")) ∷ (3, question) ∷ [])
        fresh
      ≡ returns tt r)
    × (r.has_primary ≡ true)
    × (r.primary_server ≡ codes "a:1")
first_server_stays_example =
    first_server_stays 1 (registration (codes "a:1"))
      ((2, registration (codes "b:2")) ∷ (3, question) ∷ []) fresh refl refl (omega arith)
      ((λ e. cc), ((λ e. cc), tt))

from_client_shut_example : from_client 1 (replicate 4 shut) settled ≡ waits settled
from_client_shut_example = from_client_shut 1 4 settled
