-- ===== src/Router/Primary.antt =====
-- Who is the primary, and who is told so.
use twitter_like_client_serv.Base.{
  ℕ, zero, suc, ◌+◌, ◌≤◌, ◌≡◌, ◌≢◌, refl, sym, ◌∙◌, Bool, true, false, some, List, [], ◌∷◌, ◌++◌,
  Str, length, arith, replicate, subst, ◌⊎◌, inl, inr,
}
use twitter_like_client_serv.Exec.{returns, waits, bind}
use twitter_like_client_serv.Packet.{Packet, CmdType, of_cmd_payload, to_bytes}
use twitter_like_client_serv.Packet.RoundTrip.{to_bytes-fits}
use twitter_like_client_serv.Connection.{shut}
use twitter_like_client_serv.Connection.Delivery.{send_packet-sent, receive_packet_shut}
use twitter_like_client_serv.Router.{
  Router, send_packet, set_primary, reply, register, handle_cmd, handle, from_client, handle_all,
}

-- The answer of the router fits its buffer.
abbrev pub HasRoom : Str → Type 0
HasRoom address = 25 + length address ≤ 4096

-- The message of an answer.
pub answer :
    (r : Router) (cmd : CmdType)
    → HasRoom r.primary_server
    → (b : List ℕ) × (to_bytes (of_cmd_payload r.now cmd r.primary_server) ≡ some b)
unfolding of_cmd_payload
answer r cmd h = (to_bytes-fits _).0 (omega arith)

pub reply-sent :
    (conn : ℕ) (cmd : CmdType) (r : Router) (b : List ℕ)
    → to_bytes (of_cmd_payload r.now cmd r.primary_server) ≡ some b
    → reply conn cmd r
      ≡ returns tt (record r { net = record r.net { sent = r.net.sent ++ (conn, b) ∷ [] } })
unfolding reply send_packet
reply-sent conn cmd r b e = rw (send_packet-sent conn _ r.net b e)

-- The router once a message has gone out.
abbrev pub after_reply : Router → ℕ → List ℕ → Router
after_reply r conn b = record r { net = record r.net { sent = r.net.sent ++ (conn, b) ∷ [] } }

register_again :
    (conn : ℕ) (packet : Packet) (has : Bool) (r : Router) (b : List ℕ)
    → has ≡ true
    → to_bytes (of_cmd_payload r.now CmdType.set_primary r.primary_server) ≡ some b
    → register conn packet has r ≡ returns tt (after_reply r conn b)
unfolding register
register_again conn packet true r b h e = reply-sent conn CmdType.set_primary r b e
register_again conn packet false r b h e = absurd (cc)

register_first :
    (conn : ℕ) (packet : Packet) (has : Bool) (r : Router) (b : List ℕ)
    → has ≡ false
    → to_bytes (of_cmd_payload r.now CmdType.ok packet.payload) ≡ some b
    → register conn packet has r
      ≡ returns tt (record (after_reply (record r { primary_server = packet.payload }) conn b) {
        has_primary = true;
      })
unfolding register set_primary
register_first conn packet true r b h e = absurd (cc)
register_first conn packet false r b h e =
    rw (reply-sent conn CmdType.ok (record r { primary_server = packet.payload }) b e, bind)

-- No packet of the list is a SET_PRIMARY.
abbrev pub NoTakeover : List (ℕ × Packet) → Type 0
NoTakeover [] = Unit {0}
NoTakeover ((conn, packet) ∷ rest) = (packet.cmd ≢ CmdType.set_primary) × NoTakeover rest

handle_registered :
    (conn : ℕ) (packet : Packet) (cmd : CmdType) (r : Router)
    → r.has_primary ≡ true
    → HasRoom r.primary_server
    → cmd ≢ CmdType.set_primary
    → (b : Bool) × (r' : Router) × (handle_cmd conn packet cmd r ≡ returns b r')
      × (r'.has_primary ≡ true)
      × (r'.primary_server ≡ r.primary_server)
      × (r'.now ≡ r.now)
unfolding handle_cmd
handle_registered conn packet CmdType.set_primary_if_not_exists r has room other =
    let (b, e) = answer r CmdType.set_primary room in
    (
      false,
      after_reply r conn b,
      rw (register_again conn packet r.has_primary r b has e),
      has,
      refl,
      refl,
    )
handle_registered conn packet CmdType.set_primary r has room other = absurd (other refl)
handle_registered conn packet CmdType.get_primary r has room other =
    let (b, e) = answer r CmdType.set_primary room in
    (false, after_reply r conn b, rw (reply-sent conn CmdType.set_primary r b e), has, refl, refl)
handle_registered conn packet CmdType.close_conn r has room other = (true, r, refl, has, refl, refl)
handle_registered conn packet _ r has room other = (false, r, refl, has, refl, refl)

handle_all_registered :
    (events : List (ℕ × Packet)) (r : Router)
    → r.has_primary ≡ true
    → HasRoom r.primary_server
    → NoTakeover events
    → (r' : Router) × (handle_all events r ≡ returns tt r')
      × (r'.has_primary ≡ true)
      × (r'.primary_server ≡ r.primary_server)
unfolding handle_all handle
handle_all_registered [] r has room quiet = (r, refl, has, refl)
handle_all_registered ((conn, packet) ∷ rest) r has room quiet =
    let (b, v, e, has', same', now') =
      handle_registered conn packet packet.cmd r has room quiet.0 in
    let (u, e', has'', same'') = handle_all_registered rest v has' (rw same' room) quiet.1 in
    (u, rw (e, bind) e', has'', same'' ∙ same')

-- A router with no primary, and a server that is the first to register, with an address that leaves
-- room in an answer: the server becomes the primary. It stays the primary through all packets that
-- follow, of any connections and in any order, if none is SET_PRIMARY, and the router handles each
-- of them.
pub first_server_stays :
    (conn : ℕ) (packet : Packet) (rest : List (ℕ × Packet)) (r : Router)
    → r.has_primary ≡ false
    → packet.cmd ≡ CmdType.set_primary_if_not_exists
    → HasRoom packet.payload
    → NoTakeover rest
    → (r' : Router) × (handle_all ((conn, packet) ∷ rest) r ≡ returns tt r')
      × (r'.has_primary ≡ true)
      × (r'.primary_server ≡ packet.payload)
unfolding handle_all handle handle_cmd
first_server_stays conn packet rest r free first room quiet =
    let told : Router = record r { primary_server = packet.payload } in
    let (b, e) = answer told CmdType.ok room in
    let (u, e', has, same') =
      handle_all_registered rest (record (after_reply told conn b) { has_primary = true }) refl room
        quiet in
    (u, rw (first_handled b e, bind) e', has, same')
  where
    first_handled :
        (b : List ℕ)
        → to_bytes (of_cmd_payload r.now CmdType.ok packet.payload) ≡ some b
        → handle_cmd conn packet packet.cmd r
          ≡ returns false
              (record (after_reply (record r { primary_server = packet.payload }) conn b) {
                has_primary = true;
              })
    first_handled b e =
        subst
          (λ c.
            handle_cmd conn packet c r
            ≡ returns false
                (record (after_reply (record r { primary_server = packet.payload }) conn b) {
                  has_primary = true;
                }))
          (sym first) (rw (register_first conn packet r.has_primary r b free e))

-- A server that registers when there is a primary, and a client that asks, are sent SET_PRIMARY
-- with the address of the primary, if that leaves room in an answer; nothing else of the router
-- changes.
pub handle_asked :
    (conn : ℕ) (packet : Packet) (r : Router)
    → ((packet.cmd ≡ CmdType.get_primary)
        ⊎ ((packet.cmd ≡ CmdType.set_primary_if_not_exists) × (r.has_primary ≡ true)))
    → HasRoom r.primary_server
    → (b : List ℕ) × (to_bytes (of_cmd_payload r.now CmdType.set_primary r.primary_server) ≡ some b)
      × (handle conn packet r ≡ returns false (after_reply r conn b))
unfolding handle handle_cmd
handle_asked conn packet r (inl ask) room =
    let (b, e) = answer r CmdType.set_primary room in
    (
      b,
      e,
      subst (λ c. handle_cmd conn packet c r ≡ returns false (after_reply r conn b)) (sym ask)
          (rw (reply-sent conn CmdType.set_primary r b e)),
    )
handle_asked conn packet r (inr (ask, has)) room =
    let (b, e) = answer r CmdType.set_primary room in
    (
      b,
      e,
      subst (λ c. handle_cmd conn packet c r ≡ returns false (after_reply r conn b)) (sym ask)
          (rw (register_again conn packet r.has_primary r b has e)),
    )

-- A connection that the peer has shut is never given up: after any number of rounds the thread still
-- asks for more, and the router is as it was.
pub from_client_shut : (conn n : ℕ) (r : Router) → from_client conn (replicate n shut) r ≡ waits r
unfolding from_client replicate handle handle_cmd
from_client_shut conn zero r = refl
from_client_shut conn (suc n) r = rw (receive_packet_shut, bind) (from_client_shut conn n r)
