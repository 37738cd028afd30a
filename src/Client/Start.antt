-- ===== src/Client/Start.antt =====
-- client/main.cpp: `main`.
use twitter_like_client_serv.Base.{
  ℕ, ◌≡◌, Bool, true, false, none, some, List, [], ◌∷◌, Str, if◌then◌else◌,
}
use twitter_like_client_serv.Exec.{
  Outcome, returns, exits, waits, throws, fault, Exec, ◌>>=◌, ◌>>◌, pure,
}
use twitter_like_client_serv.Address.{stoi, to_port}
use twitter_like_client_serv.Connection.{Recv}
use twitter_like_client_serv.System.{System, Call, Thread, ask}
use twitter_like_client_serv.System.Connection
use twitter_like_client_serv.System.Connection.{Connection}
use twitter_like_client_serv.Client.{Client, accepts_profile, update_conn, to_server, from_server}

-- The memory of the client, and the calls that `main` makes itself.
pub record Process : Type 0 where
  pub client : Client
  pub system : System

abbrev pub in_client : {A : Type 0} → System → Outcome Client A → Outcome Process A
in_client s (returns a c) = returns a (record { client = c; system = s })
in_client s (exits c) = exits (record { client = c; system = s })
in_client s (waits c) = waits (record { client = c; system = s })
in_client s (throws c) = throws (record { client = c; system = s })
in_client s fault = fault

abbrev pub in_system : {A : Type 0} → Client → Outcome System A → Outcome Process A
in_system c (returns a s) = returns a (record { client = c; system = s })
in_system c (exits s) = exits (record { client = c; system = s })
in_system c (waits s) = waits (record { client = c; system = s })
in_system c (throws s) = throws (record { client = c; system = s })
in_system c fault = fault

abbrev pub on_client : {A : Type 0} → Exec Client A → Exec Process A
on_client m p = in_client p.system (m p.client)

abbrev pub on_system : {A : Type 0} → Exec System A → Exec Process A
on_system m p = in_system p.client (m p.system)

-- `new Connection(stoi(port), addr)`
unfoldable pub connect_router : Str → Str → Exec System Connection
connect_router addr port s = elim (stoi port) [
  | none ↦ throws s
  | some n ↦ Connection.connect (to_port n) addr s
]

-- From the check of the name on. What `pthread_create` returns is dropped.
unfoldable pub start : Str → Str → Str → Recv → List Bool → Exec Process (Unit {0})
start profile addr port answer tries = do
  _ ← on_system (connect_router addr port)
  on_client (update_conn false answer tries)
  _ ← on_system (ask (Call.create_thread Thread.to_server))
  _ ← on_system (ask (Call.create_thread Thread.from_server))
  pure tt

-- `pthread_join`: it returns when the thread has ended. `exit` leaves the connection closed, and the
-- other thread then has nothing to do, so that it makes no difference here.
abbrev pub join : System → Outcome Client (Unit {0}) → Outcome Process (Unit {0})
join s (returns a c) = returns a (record { client = c; system = s })
join s (exits c) = returns tt (record { client = c; system = s })
join s (waits c) = waits (record { client = c; system = s })
join s (throws c) = throws (record { client = c; system = s })
join s fault = fault

-- What comes from outside: the router's answer and the tries to connect to the primary, the user's
-- lines with the rounds of their loop, and what `fromServer` receives.
pub record Events : Type 0 where
  pub answer : Recv
  pub tries : List Bool
  pub fuel : ℕ
  pub lines : List Str
  pub rounds : List (Recv × Recv × List Bool)

-- The threads of the client, in the runs in which the lines are read before the packets.
unfoldable pub finish : Events → Exec Process (Unit {0})
finish events = do
  (λ p. join p.system (to_server events.fuel events.lines p.client))
  (λ p. join p.system (from_server events.rounds p.client))

unfoldable pub main : List Str → Events → Exec Process (Unit {0})
main (profile ∷ addr ∷ port ∷ rest) events p =
    if accepts_profile profile
    then (start profile addr port events.answer events.tries >> finish events)
        (record p { client = record p.client { profile = profile } })
    else exits p
main _ events p = exits p

-- A name that is refused ends the program before it asks the system for anything.
main_refused :
    (profile addr port : Str) (rest : List Str) (events : Events) (p : Process)
    → accepts_profile profile ≡ false
    → main (profile ∷ addr ∷ port ∷ rest) events p ≡ exits p
unfolding main
main_refused profile addr port rest events p h = rw h

from_server_closed :
    (i : ℕ) (rounds : List (Recv × Recv × List Bool)) (c : Client)
    → c.con ≡ some i
    → c.closed i ≡ true
    → from_server rounds c ≡ exits c
unfolding from_server
from_server_closed i [] c at down = rw at (rw down)
from_server_closed i (r ∷ rounds) c at down = rw at (rw down)

-- A client whose input has come to its end, with the connection closed, ends, whatever its server goes
-- on to send: nothing of that is shown.
pub finish_closed :
    (i : ℕ) (events : Events) (p : Process) (c : Client)
    → to_server events.fuel events.lines p.client ≡ exits c
    → c.con ≡ some i
    → c.closed i ≡ true
    → finish events p ≡ returns tt (record { client = c; system = p.system })
unfolding finish
finish_closed i events p c ended at down =
    rw ended (rw (from_server_closed i events.rounds c at down))
