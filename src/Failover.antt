-- ===== src/Failover.antt =====
-- A client whose server is gone: `fromServer` and `updateConn` of client/main.cpp, and `fromClient` of
-- server/main.cpp at the server that takes over.
use mathlib.Core.List.{Mem}
use twitter_like_client_serv.Base.{
  ℕ, ◌<◌, ◌^◌, ◌≡◌, ==_iff, refl, sym, ◌∙◌, subst, Bool, true, false, some, List, [], ◌∷◌, ◌++◌,
  Str, same, get_elem?, replicate, arith,
}
use twitter_like_client_serv.Base.Int.{is_positive}
use twitter_like_client_serv.Exec.{returns}
use twitter_like_client_serv.Address.{parse_address}
use twitter_like_client_serv.Packet.{Packet, CmdType, to_bytes, of_cmd_payload, of_cmd}
use twitter_like_client_serv.Packet.RoundTrip.{IsSendable, to_bytes-fits}
use twitter_like_client_serv.Connection.{Recv, bytes, shut, receive_packet}
use twitter_like_client_serv.Connection.Delivery.{receive_packet-to_bytes}
use twitter_like_client_serv.Client.{Client, from_server}
use twitter_like_client_serv.Client.Reconnect.{reopened, moved, from_server-reconnects}
use twitter_like_client_serv.Server.Profile.{Profile}
use twitter_like_client_serv.Server.Profile.Delivery.{Encoded}
use twitter_like_client_serv.Server.World.{World, Json}
use twitter_like_client_serv.Server.ProfilesManager.Objects.{IsRegistered}
use twitter_like_client_serv.Server.Main.{client_loop, from_client, process_packet}
use twitter_like_client_serv.Server.Main.Rejoin.{
  hello_again, hello_again-IsSendable, welcome, welcome-IsSendable, rejoined, from_client-rejoined,
  post-rejoined,
}
use twitter_like_client_serv.Post.{IsOnline, shown, from_server-post}

-- What the router answers: an address that is not the client's primary.
pub record IsReferral (r : Client) (answer question : List ℕ) (response : Packet) : Type 0 where
  pub question_sent : to_bytes (of_cmd r.now CmdType.get_primary) ≡ some question
  pub answered : receive_packet (bytes answer) ≡ some response
  pub moved_on : same response.payload r.primary ≡ false
  pub address : (peer : Str × ℕ) × (parse_address response.payload ≡ some peer)

-- The server that takes over: map and objects fit together, nobody holds the lock, and the profile at
-- `i` has the name, a session counted and nothing in its inbox; the time fits in 64 bits.
pub record IsSuccessor (v : World) (i : ℕ) (q : Profile) (name : Str) : Type 0 where
  pub registered : IsRegistered v
  pub no_readers : v.num_readers ≡ 0
  pub no_writers : v.num_writers ≡ 0
  pub object : get_elem? v.heap i ≡ some q
  pub name_of : q.profile_id ≡ name
  pub session : is_positive q.sessions_on ≡ true
  pub no_messages : q.inbox ≡ []
  pub time : v.now < 2 ^ 64

module _ ⦃json : Json⦄ where
  -- A client whose server is gone goes on at the server that takes over. A follower's client, with a
  -- name that `main` accepts, finds its connection shut; the router names another primary, which
  -- accepts a connection after any number of tries. That server's map and objects fit together,
  -- nobody holds its lock, and it has the follower's profile, with a session counted and nothing in
  -- its inbox. Then there are an OK and a greeting such that the client sends the OK over a new
  -- connection; the server's thread for it puts the new session to the profile, sends the greeting,
  -- and goes on to its loop; a SEND that it then handles for a profile that the follower follows is
  -- sent to the new session; and the client, when it receives the greeting and that message, shows
  -- both and goes on receiving.
  pub failover :
      (r : Client) (k n : ℕ) (answer question : List ℕ) (response : Packet) (tries : List Bool)
      (again : Recv × List Bool) (more : Recv × List Bool) (rounds : List (Recv × Recv × List Bool))
      → IsOnline r k
      → IsReferral r answer question response
      → (v : World) (i conn : ℕ) (q : Profile) (recvs : List Recv) → IsSuccessor v i q r.profile
      → (s j : ℕ) (author : Profile) (p : Packet) (b : List ℕ) → get_elem? v.heap j ≡ some author
      → Mem i author.followers
      → p.cmd ≡ CmdType.send
      → IsSendable p
      → Encoded p b
      → (ok greeting : List ℕ) × (from_client conn (bytes ok ∷ recvs) v
          ≡ client_loop conn (some i) recvs (rejoined v conn i q greeting))
        × ((w : World) × (ms : List (ℕ × List ℕ)) × (process_packet
                (some s)
                (some j)
                p
                (rejoined v conn i q greeting)
              ≡ returns false w)
            × (w.net.sent ≡ (rejoined v conn i q greeting).net.sent ++ ms)
            × Mem (conn, b) ms)
        × (from_server
              ((shut, bytes answer, replicate n false ++ true ∷ tries)
                ∷ (bytes greeting, again.0, again.1)
                ∷ (bytes b, more.0, more.1)
                ∷ rounds)
              r
            ≡ from_server rounds (record (reopened (moved r k question response.payload) ok) {
              screen = (r.screen ++ shown (welcome v r.profile) ∷ []) ++ shown p ∷ [];
            }))
  failover r k n answer question response tries again more rounds on ref v i conn q recvs succ s j
        author p b there follows send sendable e =
      let hello = hello_again-IsSendable r.now r.profile on.time on.name on.characters in
      let greets = welcome-IsSendable v r.profile succ.time on.name on.characters in
      let (ok, enc) = (to_bytes-fits (hello_again r.now r.profile)).0 hello.fits.room in
      let (greeting, greet_enc) = (to_bytes-fits (welcome v r.profile)).0 greets.fits.room in
      let back = sym succ.name_of in
      let looped =
        from_client-rejoined conn i r.now q ok greeting recvs v
          (subst (λ m. IsSendable (hello_again r.now m)) back hello)
          (subst (λ m. Encoded (hello_again r.now m) ok) back enc)
          (subst (λ m. Encoded (welcome v m) greeting) back greet_enc) succ.no_writers
          (succ.registered.registered i q succ.object) succ.object succ.no_messages in
      let (peer, parsed) = ref.address in
      let c = reopened (moved r k question response.payload) ok in
      let up : c.closed r.next_con ≡ false = ground (arith, ==_iff r.next_con r.next_con) in
      (
        ok,
        greeting,
        looped,
        post-rejoined conn i j s q author greeting p b v succ.registered succ.no_readers
            succ.no_writers succ.object succ.session there follows send e,
        (from_server-reconnects n k peer response answer question ok tries
              ((bytes greeting, again.0, again.1) ∷ (bytes b, more.0, more.1) ∷ rounds) r
              on.connection on.open_connection ref.question_sent ref.answered ref.moved_on parsed
              enc).0
            ∙ from_server-post r.next_con (welcome v r.profile) greeting again.0 again.1
                ((bytes b, more.0, more.1) ∷ rounds) c (unfold of_cmd_payload in refl)
                (receive_packet-to_bytes (welcome v r.profile) greeting greets greet_enc) refl up
            ∙ from_server-post r.next_con p b more.0 more.1 rounds
                (record c { screen = c.screen ++ shown (welcome v r.profile) ∷ [] }) send
                (receive_packet-to_bytes p b sendable e) refl up,
      )
