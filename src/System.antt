-- ===== src/System.antt =====
-- What the programs ask of the operating system: sockets and threads. What a call returns is no code
-- of the programs, so it is an argument: a function of the calls made before. `none` is -1, or for a
-- new thread a number other than 0.
pub mod Listener
pub mod Connection
use twitter_like_client_serv.Base.{
  ℕ, Bool, true, false, Option, none, some, List, [], ◌∷◌, ◌++◌, Str, if◌then◌else◌,
}
use twitter_like_client_serv.Exec.{Outcome, returns, exits, Exec}

-- The functions that the programs start threads with; a server's client thread has the socket of
-- its client.
pub data Thread : Type 0 where
  from_client : ℕ → Thread
  send_alive receive_alive to_server from_server : Thread

pub data Call : Type 0 where
  socket : Call
  reuse_address : ℕ → Call
  bind : ℕ → ℕ → Call
  listen : ℕ → ℕ → Call
  accept : ℕ → Call
  connect : ℕ → Str → ℕ → Call
  send : ℕ → List ℕ → Call
  close : ℕ → Call
  create_thread : Thread → Call

pub record System : Type 0 where
  -- The calls made so far, oldest first, and what each call returns behind the calls before it.
  pub calls : List Call
  pub answer : List Call → Call → Option ℕ

abbrev pub after : System → Call → System
after s c = record s { calls = s.calls ++ c ∷ [] }

unfoldable pub ask : Call → Exec System (Option ℕ)
ask c s = returns (s.answer s.calls c) (after s c)

-- A call whose failure ends the program: `perror` and `exit(EXIT_FAILURE)`.
unfoldable pub ask_or_exit : Call → Exec System ℕ
ask_or_exit c s = elim (s.answer s.calls c) [
  | none ↦ exits (after s c)
  | some v ↦ returns v (after s c)
]
