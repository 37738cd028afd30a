-- ===== src/System/Connection/Methods.antt =====
-- The public methods of commons/Connection.h, and calls one after the other.
use twitter_like_client_serv.Base.{◌≡◌, refl, Bool, true, List, [], ◌∷◌, ◌∙◌, Bool-cases, inl, inr}
use twitter_like_client_serv.Exec.{Outcome, returns, Exec, ◌>>=◌, ◌>>◌, pure, Post, Post-bind}
use twitter_like_client_serv.Packet.{Packet}
use twitter_like_client_serv.Connection.{Recv}
use twitter_like_client_serv.System.{System, ask}
use twitter_like_client_serv.System.Connection
use twitter_like_client_serv.System.Connection.{Connection}

-- `receive_packet` has what `recv` returns.
pub data Method : Type 0 where
  close is_closed : Method
  send_packet : Packet → Method
  receive_packet : Recv → Method

-- What a method returns.
pub data Answer : Type 0 where
  nothing : Answer
  truth : Bool → Answer
  packet : Packet → Answer

unfoldable pub call : Method → Connection → Exec System (Answer × Connection)
call Method.close con = do con ← Connection.close con; pure (nothing, con)
call Method.is_closed con = pure (truth (Connection.is_closed con), con)
call (Method.send_packet p) con = do Connection.send_packet con p; pure (nothing, con)
call (Method.receive_packet recv) con = do p ← Connection.receive_packet recv; pure (packet p, con)

unfoldable pub calls : List Method → Connection → Exec System (List Answer × Connection)
calls [] con s = returns ([], con) s
calls (m ∷ ms) con s =
    (do (answer, con) ← call m con; (answers, con) ← calls ms con; pure (answer ∷ answers, con)) s

-- The same socket, and closed if it was closed.
abbrev Later : Connection → Connection → Type 0
Later con con' = (con'.sockfd ≡ con.sockfd) × (con.closed ≡ true → con'.closed ≡ true)

abbrev Always : System → Type 0
Always s = Unit {0}

any : {A : Type 0} (o : Outcome System A) → Post (λ a s. Unit {0}) Always o
any (returns a s) = tt
any (Outcome.exits s) = tt
any (Outcome.waits s) = tt
any (Outcome.throws s) = tt
any Outcome.fault = tt

call-Later :
    (m : Method) (con : Connection) (s : System) → Post (λ r v. Later con r.1) Always (call m con s)
unfolding call Connection.close ask
call-Later Method.close con s = elim (Bool-cases con.closed) [
  | inl down ↦ rw down (refl, λ h. refl)
  | inr up ↦ rw up (refl, λ h. refl)
]
call-Later Method.is_closed con s = (refl, λ h. h)
call-Later (Method.send_packet p) con s =
    Post-bind (λ a v. Unit {0}) (λ r v. Later con r.1) Always _ _
      (any (Connection.send_packet con p s)) λ _ v u. (refl, λ h. h)
call-Later (Method.receive_packet recv) con s =
    Post-bind (λ a v. Unit {0}) (λ r v. Later con r.1) Always _ _
      (any (Connection.receive_packet recv s)) λ _ v u. (refl, λ h. h)

-- Whatever methods are called: a connection keeps its socket, and stays closed once it is closed.
pub calls-Later :
    (ms : List Method) (con : Connection) (s : System)
    → Post (λ r v. Later con r.1) Always (calls ms con s)
unfolding calls
calls-Later [] con s = (refl, λ h. h)
calls-Later (m ∷ ms) con s =
    Post-bind (λ r v. Later con r.1) (λ r v. Later con r.1) Always _ _ (call-Later m con s)
      λ r v (here, stays).
        Post-bind (λ q u. Later r.1 q.1) (λ q u. Later con q.1) Always _ _ (calls-Later ms r.1 v)
          λ q u (next, holds). (next ∙ here, λ h. holds (stays h))
