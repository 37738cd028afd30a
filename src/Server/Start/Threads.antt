-- ===== src/Server/Start/Threads.antt =====
-- The threads of server/main.cpp, one after the other, each up to its end or to where it waits.
use twitter_like_client_serv.Base.{
  ℕ, ◌≡◌, Option, none, some, List, [], ◌∷◌, arith, >>=_cases, ◌>>=◌, subst, ap,
}
use twitter_like_client_serv.Exec.{Outcome, returns, exits, waits, throws, fault, Exec, Ends}
use twitter_like_client_serv.Connection.{Recv, client_connection}
use twitter_like_client_serv.Server.Registry.{no_profiles}
use twitter_like_client_serv.Server.World.{World, Json}
use twitter_like_client_serv.Server.ProfilesManager
use twitter_like_client_serv.Server.ProfilesManager.Objects.{IsRegistered}
use twitter_like_client_serv.Server.ProfilesManager.Each.{Each}
use twitter_like_client_serv.Server.ProfilesManager.Sessions.{IsCounted}
use twitter_like_client_serv.Server.ProfileAccessController.{create_controller}
use twitter_like_client_serv.Server.Main
use twitter_like_client_serv.Server.Main.Keeps.{
  from_client-IsRegistered, from_client-IsCounted, receive_alive-IsRegistered,
  receive_alive-IsCounted,
}
use twitter_like_client_serv.Server.Start
use twitter_like_client_serv.Server.Start.{create_globals}

-- A thread, with what `recv` returns to it, or the rounds of its loop.
pub data Thread : Type 0 where
  from_client : ℕ → List Recv → Thread
  receive_alive : List Recv → Thread
  send_alive : ℕ → Thread

-- The printing of `sendAlive` leaves the memory as it was.
abbrev printing : World → Outcome (List ℕ) (Unit {0}) → Outcome World (Unit {0})
printing w (returns a out) = returns a w
printing w (exits out) = exits w
printing w (waits out) = waits w
printing w (throws out) = throws w
printing w fault = fault

-- The memory after a thread has ended or while it waits: an exception that leaves the thread ends the
-- process.
abbrev pub left : Outcome World (Unit {0}) → Option World
left (returns a w) = some w
left (exits w) = some w
left (waits w) = some w
left (throws w) = none
left fault = none

module _ ⦃json : Json⦄ where
  -- A client's thread begins with a new connection.
  unfoldable pub run : Thread → Exec World (Unit {0})
  run (Thread.from_client conn recvs) w =
      Main.from_client conn recvs (record w { net = client_connection conn w.net })
  run (Thread.receive_alive recvs) w = Main.receive_alive recvs w
  run (Thread.send_alive rounds) w = printing w (Start.send_alive rounds w.list_backups [])

  unfoldable pub runs : List Thread → World → Option World
  runs [] w = some w
  runs (t ∷ ts) w = left (run t w) >>= runs ts

  -- The globals are made, and then the threads run.
  unfoldable pub from_start : List Thread → World → Option World
  from_start ts w = left (create_globals w) >>= runs ts

-- The memory that is there, or else `w`.
abbrev memory : World → Option World → World
memory w none = w
memory w (some v) = v

left-Ends :
    (P : World → Type 0) (o : Outcome World (Unit {0})) (v : World)
    → Ends P o
    → left o ≡ some v
    → P v
left-Ends P (returns a w) v h e = subst P (ap (memory w) e) h
left-Ends P (exits w) v h e = subst P (ap (memory w) e) h
left-Ends P (waits w) v h e = subst P (ap (memory w) e) h
left-Ends P (throws w) v h e = absurd (grind arith)
left-Ends P fault v h e = absurd (grind arith)

printing-Ends :
    (P : World → Type 0) (w : World) (o : Outcome (List ℕ) (Unit {0})) → P w → Ends P (printing w o)
printing-Ends P w (returns a out) h = h
printing-Ends P w (exits out) h = h
printing-Ends P w (waits out) h = h
printing-Ends P w (throws out) h = h
printing-Ends P w fault h = tt

module _ ⦃json : Json⦄ where
  abbrev Sound : World → Type 0
  Sound w = IsRegistered w × Each IsCounted w

  run-Sound : (t : Thread) (w v : World) → Sound w → left (run t w) ≡ some v → Sound v
  unfolding run
  run-Sound (Thread.from_client conn recvs) w v (r, c) e =
      let open_world = record w { net = client_connection conn w.net } in
      (
        left-Ends IsRegistered _ v (from_client-IsRegistered conn recvs open_world r) e,
        left-Ends (Each IsCounted) _ v (from_client-IsCounted conn recvs open_world c) e,
      )
  run-Sound (Thread.receive_alive recvs) w v (r, c) e = (
    left-Ends IsRegistered _ v (receive_alive-IsRegistered recvs w r) e,
    left-Ends (Each IsCounted) _ v (receive_alive-IsCounted recvs w c) e,
  )
  run-Sound (Thread.send_alive rounds) w v (r, c) e =
      left-Ends Sound _ v (printing-Ends Sound w (Start.send_alive rounds w.list_backups []) (r, c))
        e

  runs-Sound : (ts : List Thread) (w v : World) → Sound w → runs ts w ≡ some v → Sound v
  unfolding runs
  runs-Sound [] w v h e = subst Sound (ap (memory w) e) h
  runs-Sound (t ∷ ts) w v h e =
      let (u, first, rest) = >>=_cases (left (run t w)) (runs ts) v e in
      runs-Sound ts u v (run-Sound t w u h first) rest

  -- A server from its start on, whatever its threads receive, as long as they run one after the other,
  -- each up to its end or to where it waits, and none of them ends the process: map and objects of the
  -- profiles fit together, each profile counts at most `MAX_SESSIONS` sessions, and no more than
  -- there are in its list.
  pub from_start-Sound :
      (ts : List Thread) (w v : World)
      → from_start ts w ≡ some v
      → IsRegistered v × Each IsCounted v
  unfolding from_start create_globals create_controller ProfilesManager.create_manager
  from_start-Sound ts w v e = runs-Sound ts _ v (no_profiles, λ i p at. absurd (grind arith)) e
