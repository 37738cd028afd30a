-- ===== src/Server/Main/Threads.antt =====
-- The threads of server/main.cpp over an invariant of the profiles.
use twitter_like_client_serv.Base.{
  ℕ, refl, Bool, true, false, Option, none, some, List, [], ◌∷◌, Str, inl, inr, Bool-cases,
  Option-cases,
}
use twitter_like_client_serv.Exec.{
  Outcome, returns, exits, waits, throws, fault, Exec, bind, Ends, Keeps, Ends-bind,
}
use twitter_like_client_serv.Packet.{Packet, CmdType, to_bytes}
use twitter_like_client_serv.Connection.{
  Recv, bytes, shut, failed, given, unpack, is_refused, receive_message, receive_packet, is_closed,
}
use twitter_like_client_serv.Server.World.{Pointer, World, Json}
use twitter_like_client_serv.Server.Election.{connect, send_out, receive_answer, ask_router, router}
use twitter_like_client_serv.Server.Main.{
  first_packet, receive_profile_cmd, hang_up, client_loop, greet, serve_client, from_client,
  take_over, replay, recover, receive_alive,
}
use twitter_like_client_serv.Server.ProfilesManager.Local.{
  quiet, send_packet-Keeps, close-Keeps, deref-Keeps,
}
use twitter_like_client_serv.Server.Main.Invariant.{IsInvariant}
use twitter_like_client_serv.Server.Main.Packets.{
  get_profile_by_id-Keeps, send_to_backups-Keeps, and_backups-Keeps, create-Keeps,
  process_packet-Keeps,
}

module _ ⦃json : Json⦄ (P : World → Type 0) (inv : IsInvariant P) where
  hang_up-Keeps : (conn : ℕ) → Keeps P (hang_up conn)
  unfolding hang_up
  hang_up-Keeps conn w r =
      Ends-bind P _ _ (close-Keeps P (quiet P inv.local) (some conn) w r) λ _ v s. s

  given-Keeps : (refused : Bool) (o : Option Packet) → Keeps P (given refused o)
  given-Keeps true none w r = r
  given-Keeps false none w r = tt
  given-Keeps refused (some p) w r = r

  unpack-Keeps : (recv : Recv) → Keeps P (unpack recv)
  unpack-Keeps recv = given-Keeps (is_refused (receive_message recv)) (receive_packet recv)

  client_loop-Keeps :
      (conn : ℕ) (profile : Pointer) (recvs : List Recv) → Keeps P (client_loop conn profile recvs)
  unfolding client_loop
  client_loop-Keeps conn profile [] w r = elim (Bool-cases (is_closed conn w.net)) [
    | inl down ↦ rw down (hang_up-Keeps conn w r)
    | inr up ↦ rw up r
  ]
  client_loop-Keeps conn profile (recv ∷ recvs) w r = elim (Bool-cases (is_closed conn w.net)) [
    | inl down ↦ rw down (hang_up-Keeps conn w r)
    | inr up ↦ rw up (
        Ends-bind P _ _ (unpack-Keeps recv w r) λ packet u t.
          Ends-bind P _ _ (process_packet-Keeps P inv (some conn) profile packet u t) λ quit v s.
            elim (Bool-cases quit) [
              | inl q ↦ rw q (hang_up-Keeps conn v s)
              | inr q ↦ rw q (client_loop-Keeps conn profile recvs v s)
            ])
  ]

  pub first_packet-Keeps :
      (conn : ℕ) (packet : Packet) (cmd : CmdType) → Keeps P (first_packet conn packet cmd)
  unfolding first_packet
  first_packet-Keeps conn packet CmdType.set_backup = λ w r.
      Ends-bind P _ _ (send_to_backups-Keeps P inv _ _ (inv.local w _ refl refl r)) λ _ v s. s
  first_packet-Keeps conn packet CmdType.profile =
      and_backups-Keeps P inv _ packet (λ p. p) (create-Keeps P inv packet.payload (some conn))
  first_packet-Keeps conn packet _ = λ w r.
      Ends-bind P _ _ (get_profile_by_id-Keeps P inv packet.sender w r)
        λ profile v s. Ends-bind P _ _ (inv.reconnect (some conn) profile v s) λ _ u t. t

  greet-Keeps : (conn : ℕ) (profile : Pointer) → Keeps P (greet conn profile)
  unfolding greet
  greet-Keeps conn profile w r =
      Ends-bind P _ _ (deref-Keeps P (quiet P inv.local) profile w r) λ p v s.
        Ends-bind P _ _ (send_packet-Keeps P (quiet P inv.local) (some conn) _ v s)
          λ _ u t. inv.inbox profile u t

  serve_client-Keeps :
      (conn : ℕ) (recvs : List Recv) (profile : Pointer) → Keeps P (serve_client conn recvs profile)
  unfolding serve_client
  serve_client-Keeps conn recvs none = λ w r. r
  serve_client-Keeps conn recvs (some i) = λ w r.
      Ends-bind P _ _ (greet-Keeps conn (some i) w r)
        λ _ v s. client_loop-Keeps conn (some i) recvs v s

  -- The same for the whole thread of a client, from its first packet on.
  pub from_client-Keeps : (conn : ℕ) (recvs : List Recv) → Keeps P (from_client conn recvs)
  unfolding from_client receive_profile_cmd
  from_client-Keeps conn [] w r = r
  from_client-Keeps conn (recv ∷ recvs) w r =
      Ends-bind P _ _
        (Ends-bind P _ _ (unpack-Keeps recv w r)
          λ packet u t. first_packet-Keeps conn packet packet.cmd u t)
        λ profile v s. serve_client-Keeps conn recvs profile v s

  connect-Keeps : (peer : Str × ℕ) → Keeps P (connect peer)
  unfolding connect
  connect-Keeps peer w r = elim (Bool-cases (w.outside.listening peer)) [
    | inl up ↦ rw up r
    | inr down ↦ rw down r
  ]

  send_out-Keeps : (peer : Str × ℕ) (packet : Packet) → Keeps P (send_out peer packet)
  unfolding send_out
  send_out-Keeps peer packet w r = elim (Option-cases (to_bytes packet)) [
    | inl e ↦ rw (e, bind) tt
    | inr (b, e) ↦ rw (e, bind) (inv.local w _ refl refl r)
  ]

  receive_answer-Keeps : (recv : Recv) → Keeps P (receive_answer recv)
  unfolding receive_answer
  receive_answer-Keeps shut w r = r
  receive_answer-Keeps failed w r = unpack-Keeps failed w r
  receive_answer-Keeps (bytes bs) w r = unpack-Keeps (bytes bs) w r

  ask_router-Keeps : (cmd : CmdType) → Keeps P (ask_router cmd)
  unfolding ask_router
  ask_router-Keeps cmd w r = Ends-bind P _ _ (connect-Keeps router w r) λ _ v s.
      Ends-bind P _ _ (send_out-Keeps router _ v s) λ _ u t.
        Ends-bind P _ _ (receive_answer-Keeps u.outside.answer u t)
          λ _ x y. Ends-bind P _ _ (send_out-Keeps router _ x y) λ _ z q. q

  pub replay-Keeps : (recv : Recv) → Keeps P (replay recv)
  unfolding replay
  replay-Keeps recv w r = Ends-bind P _ _ (receive_answer-Keeps recv w r) λ packet v s.
      Ends-bind P _ _ (get_profile_by_id-Keeps P inv packet.sender v s) λ profile u t.
        Ends-bind P _ _ (process_packet-Keeps P inv none profile packet u t) λ _ x y. y

  take_over-Keeps : Keeps P take_over
  unfolding take_over
  take_over-Keeps w r = Ends-bind P _ _ (ask_router-Keeps CmdType.set_primary w r) λ _ v s. s

  recover-Keeps :
      (o : Outcome World (Unit {0})) (next handler : Exec World (Unit {0}))
      → Ends P o
      → Keeps P next
      → Keeps P handler
      → Ends P (recover o next handler)
  recover-Keeps (returns a w) next handler r n h = n w r
  recover-Keeps (exits w) next handler r n h = r
  recover-Keeps (waits w) next handler r n h = r
  recover-Keeps (throws w) next handler r n h = h w r
  recover-Keeps fault next handler r n h = tt

  -- The same for the thread of a backup.
  pub receive_alive-Keeps : (recvs : List Recv) → Keeps P (receive_alive recvs)
  unfolding receive_alive
  receive_alive-Keeps [] w r = r
  receive_alive-Keeps (recv ∷ recvs) w r =
      recover-Keeps (replay recv w) (receive_alive recvs) take_over (replay-Keeps recv w r)
        (receive_alive-Keeps recvs) take_over-Keeps
