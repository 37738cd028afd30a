-- ===== src/System/Listener/Methods.antt =====
-- The public methods of commons/Server.h, and calls one after the other.
use twitter_like_client_serv.Base.{
  ℕ, ◌≡◌, refl, sym, List, [], ◌∷◌, ◌++◌, map, append-nil, append_assoc, Option-cases, inl, inr,
  ◌∙◌,
}
use twitter_like_client_serv.Exec.{returns, Exec, ◌>>=◌, ◌>>◌, bind, pure, Post, Post-bind}
use twitter_like_client_serv.System.{System, Call, ask, ask_or_exit}
use twitter_like_client_serv.System.Listener
use twitter_like_client_serv.System.Listener.{Server}

pub data Method : Type 0 where
  close wait_client : Method

-- What a method returns.
pub data Answer : Type 0 where
  nothing : Answer
  client : ℕ → Answer

unfoldable pub call : Server → Method → Exec System Answer
call server Method.close = do Listener.stop server; pure nothing
call server Method.wait_client = do clientfd ← Listener.wait_client server; pure (client clientfd)

unfoldable pub calls : Server → List Method → Exec System (List Answer)
calls server [] s = returns [] s
calls server (m ∷ ms) s =
    (do answer ← call server m; rest ← calls server ms; pure (answer ∷ rest)) s

-- A server on this port, and calls of its methods.
unfoldable pub run : ℕ → List Method → Exec System (List Answer)
run port ms = do server ← Listener.start port; calls server ms

-- What a method asks the system for.
abbrev pub request : Server → Method → Call
request server Method.close = Call.close server.serverfd
request server Method.wait_client = Call.accept server.serverfd

-- The calls of the system behind those of `s` are these.
abbrev Asked : System → List Call → System → Type 0
Asked s cs v = v.calls ≡ s.calls ++ cs

abbrev Always : System → Type 0
Always s = Unit {0}

call-Asked :
    (server : Server) (m : Method) (s : System)
    → Post (λ a v. Asked s (request server m ∷ []) v) Always (call server m s)
unfolding call Listener.stop Listener.wait_client ask ask_or_exit
call-Asked server Method.close s = refl
call-Asked server Method.wait_client s =
    elim (Option-cases (s.answer s.calls (Call.accept server.serverfd))) [
      | inl e ↦ rw (e, bind) tt
      | inr (fd, e) ↦ rw (e, bind) refl
    ]

-- Calls of the methods that all return ask the system for one thing each, in their order, and each on
-- the server's own socket.
pub calls-Asked :
    (server : Server) (ms : List Method) (s : System)
    → Post (λ a v. Asked s (map (request server) ms) v) Always (calls server ms s)
unfolding calls
calls-Asked server [] s = sym (append-nil s.calls)
calls-Asked server (m ∷ ms) s =
    Post-bind (λ a v. Asked s (request server m ∷ []) v)
      (λ a v. Asked s (map (request server) (m ∷ ms)) v) Always _ _ (call-Asked server m s)
      λ a v first.
        Post-bind (λ b u. Asked v (map (request server) ms) u)
          (λ b u. Asked s (map (request server) (m ∷ ms)) u) Always _ _ (calls-Asked server ms v)
          λ b u rest. rest ∙ rw (first, append_assoc)
