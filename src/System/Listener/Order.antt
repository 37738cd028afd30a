-- ===== src/System/Listener/Order.antt =====
-- In which order a server is set up and its clients are served.
use twitter_like_client_serv.Base.{
  ℕ, ◌≡◌, ◌⊎◌, inl, inr, refl, none, some, List, [], ◌∷◌, ◌++◌, length, append_assoc, append-nil,
  Option-cases, subst, ◌∙◌,
}
use twitter_like_client_serv.Exec.{Outcome, returns, exits, waits, bind}
use twitter_like_client_serv.System.{System, Call, Thread, after, ask_or_exit}
use twitter_like_client_serv.System.Listener.{Server, backlog_size, start, wait_client, accept_loop}

-- The state once these calls have been made.
abbrev pub made : System → List Call → System
made s cs = record s { calls = s.calls ++ cs }

-- The calls end with one that failed.
abbrev pub EndsFailed : System → List Call → Type 0
EndsFailed s cs =
    (front : List Call) × (c : Call) × (cs ≡ front ++ c ∷ [])
    × (s.answer (s.calls ++ front) c ≡ none)

pub answered :
    (c : Call) (s : System) (v : ℕ)
    → s.answer s.calls c ≡ some v
    → ask_or_exit c s ≡ returns v (after s c)
unfolding ask_or_exit
answered c s v e = rw (e, ask_or_exit)

-- A call behind others: it is answered, or the program ends with it.
ask_cases :
    (c : Call) (s : System) (cs : List Call)
    → ((v : ℕ) × (ask_or_exit c (made s cs) ≡ returns v (made s (cs ++ c ∷ []))))
      ⊎ ((ask_or_exit c (made s cs) ≡ exits (made s (cs ++ c ∷ []))) × EndsFailed s (cs ++ c ∷ []))
unfolding ask_or_exit
ask_cases c s cs = elim (Option-cases (s.answer (s.calls ++ cs) c)) [
  | inl e ↦ inr (rw (e, ask_or_exit) (rw append_assoc), (cs, c, refl, e))
  | inr (v, e) ↦ inl (v, rw (e, ask_or_exit) (rw append_assoc))
]

-- What the constructor asks for, with the number of the socket.
abbrev pub opening : ℕ → ℕ → List Call
opening fd port =
    Call.socket ∷ Call.reuse_address fd ∷ Call.bind fd port ∷ Call.listen fd backlog_size ∷ []

-- How the constructor ends: with a socket that was made, bound to the port and set to listen, in this
-- order; or the program ends at the first of these calls that fails.
abbrev pub Starts : ℕ → System → Outcome System Server → Type 0
Starts port s o =
    ((fd : ℕ) × (o ≡ returns (record { serverfd = fd }) (made s (opening fd port))))
    ⊎ ((cs : List Call) × (o ≡ exits (made s cs)) × EndsFailed s cs)

start_from : (port : ℕ) (s : System) → Starts port s (start port (made s []))
unfolding start
start_from port s = elim (ask_cases Call.socket s []) [
  | inr (e, failed) ↦ inr (Call.socket ∷ [], rw (e, bind), failed)
  | inl (fd, e) ↦ elim (ask_cases (Call.reuse_address fd) s (Call.socket ∷ [])) [
    | inr (e2, failed) ↦ inr (_, rw (e, bind) (rw (e2, bind)), failed)
    | inl (v, e2) ↦
        elim (ask_cases (Call.bind fd port) s (Call.socket ∷ Call.reuse_address fd ∷ [])) [
          | inr (e3, failed) ↦ inr (_, rw (e, bind) (rw (e2, bind) (rw (e3, bind))), failed)
          | inl (u, e3) ↦
              elim (ask_cases (Call.listen fd backlog_size) s
                (Call.socket ∷ Call.reuse_address fd ∷ Call.bind fd port ∷ [])) [
                  | inr (e4, failed) ↦
                      inr (_, rw (e, bind) (rw (e2, bind) (rw (e3, bind) (rw (e4, bind)))), failed)
                  | inl (t, e4) ↦
                      inl (fd, rw (e, bind) (rw (e2, bind) (rw (e3, bind) (rw (e4, bind)))))
                ]
        ]
  ]
]

-- The constructor of `Server` returns with the socket made, bound to the port and listening, in this
-- order; or the program ends at the first of these calls that fails, and makes no call after it.
pub start_cases : (port : ℕ) (s : System) → Starts port s (start port s)
start_cases port s = subst (λ t. Starts port s (start port t)) (made_nil s) (start_from port s)
  where
    made_nil : (s : System) → made s [] ≡ s
    made_nil s = rw append-nil

-- What the loop asks for to serve these clients.
abbrev pub served : Server → List ℕ → List Call
served server [] = []
served server (c ∷ cs) =
    Call.accept server.serverfd ∷ Call.create_thread (Thread.from_client c) ∷ served server cs

-- These clients connect, one after the other, and their threads can be made.
abbrev pub Connects : Server → System → List ℕ → Type 0
Connects server s [] = Unit {0}
Connects server s (c ∷ cs) =
    (s.answer s.calls (Call.accept server.serverfd) ≡ some c)
    × ((v : ℕ) × (s.answer (s.calls ++ Call.accept server.serverfd ∷ [])
            (Call.create_thread (Thread.from_client c))
          ≡ some v))
    × Connects server
        (after (after s (Call.accept server.serverfd)) (Call.create_thread (Thread.from_client c)))
        cs

-- The loop of `main` starts one thread for each client that connects, with its socket and in the
-- order of the connections, and then waits for the next one.
pub accept_loop-served :
    (server : Server) (clients : List ℕ) (s : System)
    → Connects server s clients
    → accept_loop (length clients) server s ≡ waits (made s (served server clients))
unfolding accept_loop wait_client
accept_loop-served server [] s h = rw append-nil
accept_loop-served server (c ∷ cs) s (came, (v, begun), more) =
    rw (answered (Call.accept server.serverfd) s c came, bind)
      (rw
        (
          answered (Call.create_thread (Thread.from_client c))
              (after s (Call.accept server.serverfd)) v begun,
          bind,
        )
        (accept_loop-served server cs _ more ∙ rw (append_assoc, append_assoc)))
