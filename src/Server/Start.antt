-- ===== src/Server/Start.antt =====
-- server/main.cpp: `main`, from the arguments to the loop that serves the clients, and the
-- constructors of the globals. Lines that only print are left out.
pub mod Threads
pub mod Takeover
use twitter_like_client_serv.Base.{ℕ, zero, suc, Option, none, some, List, [], ◌∷◌, ◌++◌, Str}
use twitter_like_client_serv.Exec.{
  Outcome, returns, exits, waits, throws, fault, Exec, ◌>>=◌, ◌>>◌, modify, pthread_exit,
}
use twitter_like_client_serv.Address.{stoi, to_port}
use twitter_like_client_serv.Connection.{Recv}
use twitter_like_client_serv.System.{System, Call, Thread, ask_or_exit}
use twitter_like_client_serv.System.Listener
use twitter_like_client_serv.System.Listener.{Server, accept_loop}
use twitter_like_client_serv.Server.World.{World, Json}
use twitter_like_client_serv.Server.ProfileAccessController.{create_controller}
use twitter_like_client_serv.Server.Main.{receive_alive, find_role}

-- The globals that `main` makes before it asks the router.
unfoldable pub create_globals : Exec World (Unit {0})
create_globals = do
  create_controller
  modify (λ w. record w { list_backups = []; election_server_list = [] })

-- The process: its memory, and the calls that it has made for its own socket and threads.
pub record Process : Type 0 where
  pub world : World
  pub system : System

abbrev pub in_world : {A : Type 0} → System → Outcome World A → Outcome Process A
in_world s (returns a w) = returns a (record { world = w; system = s })
in_world s (exits w) = exits (record { world = w; system = s })
in_world s (waits w) = waits (record { world = w; system = s })
in_world s (throws w) = throws (record { world = w; system = s })
in_world s fault = fault

abbrev pub on_world : {A : Type 0} → Exec World A → Exec Process A
on_world m p = in_world p.system (m p.world)

abbrev pub in_system : {A : Type 0} → World → Outcome System A → Outcome Process A
in_system w (returns a s) = returns a (record { world = w; system = s })
in_system w (exits s) = exits (record { world = w; system = s })
in_system w (waits s) = waits (record { world = w; system = s })
in_system w (throws s) = throws (record { world = w; system = s })
in_system w fault = fault

abbrev pub on_system : {A : Type 0} → Exec System A → Exec Process A
on_system m p = in_system p.world (m p.system)

-- `pthread_join`: it returns when the thread has ended, also by `pthread_exit`. An exception that
-- leaves the thread ends the program.
abbrev pub join : System → Outcome World (Unit {0}) → Outcome Process (Unit {0})
join s (returns a w) = returns a (record { world = w; system = s })
join s (exits w) = returns tt (record { world = w; system = s })
join s (waits w) = waits (record { world = w; system = s })
join s (throws w) = throws (record { world = w; system = s })
join s fault = fault

-- `new Server(stoi(port))`
unfoldable pub open_port : Str → Exec System Server
open_port port s = elim (stoi port) [ none ↦ throws s | some n ↦ Listener.start (to_port n) s ]

-- `interruptionHandler`. The global `server` is null until the port is open, and a method of a null
-- object is a fault.
unfoldable pub interruption_handler : Option Server → Exec System (Unit {0})
interruption_handler none s = fault
interruption_handler (some server) s = (do Listener.stop server; pthread_exit) s

-- `sendAlive`: one round prints the index of every backup. The state is what was printed.
unfoldable pub print_indices : List ℕ → ℕ → Exec (List ℕ) (Unit {0})
print_indices [] i out = returns tt out
print_indices (conn ∷ conns) i out = print_indices conns (suc i) (out ++ i ∷ [])

-- `while (true)`, for so many rounds.
unfoldable pub send_alive : ℕ → List ℕ → Exec (List ℕ) (Unit {0})
send_alive zero list_backups out = waits out
send_alive (suc rounds) list_backups out =
    (do print_indices list_backups 0; send_alive rounds list_backups) out

module _ ⦃json : Json⦄ where
  -- A backup handles the packets of its primary, in a thread that it waits for.
  unfoldable pub follow_primary : List Recv → Option (Str × ℕ) → Exec Process (Unit {0})
  follow_primary recvs none p = returns tt p
  follow_primary recvs (some peer) p =
      (do
        _ ← on_system (ask_or_exit (Call.create_thread Thread.receive_alive))
        (λ q. join q.system (receive_alive recvs q.world)))
        p

  -- The second part of `main`.
  unfoldable pub serve : Str → ℕ → Exec Process (Unit {0})
  serve port rounds = do
    server ← on_system (open_port port)
    _ ← on_system (ask_or_exit (Call.create_thread Thread.send_alive))
    on_system (accept_loop rounds server)

  -- `main`, with what the primary sends if this server becomes a backup, and the rounds of the loop.
  unfoldable pub main : List Str → List Recv → ℕ → Exec Process (Unit {0})
  main [] recvs rounds p = exits p
  main (addr ∷ []) recvs rounds p = exits p
  main (addr ∷ port ∷ rest) recvs rounds p =
      (do
        on_world create_globals
        peer ← on_world (find_role addr port)
        follow_primary recvs peer
        serve port rounds)
        p
