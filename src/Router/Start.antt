-- ===== src/Router/Start.antt =====
-- router/main.cpp: `main`, and its signal handler.
use twitter_like_client_serv.Base.{ℕ, ◌≡◌, List, ◌++◌, length, append_assoc, ◌∙◌}
use twitter_like_client_serv.Exec.{Exec, returns, waits, bind, ◌>>=◌, pthread_exit}
use twitter_like_client_serv.System.{System}
use twitter_like_client_serv.System.Listener.{start, accept_loop}
use twitter_like_client_serv.System.Listener.Order.{
  made, opening, served, Connects, accept_loop-served,
}

abbrev pub port : ℕ
port = 3000

-- `interruptionHandler`: `exit(EXIT_SUCCESS)`
unfoldable pub interruption_handler : Exec System (Unit {0})
interruption_handler = pthread_exit

-- `main`, for so many rounds of its loop.
unfoldable pub main : ℕ → Exec System (Unit {0})
main rounds = do server ← start port; accept_loop rounds server

-- Where its port can be opened, the router serves the clients that connect, each in a thread of its
-- own, in their order, and then waits for the next.
pub main-served :
    (s : System) (fd : ℕ) (clients : List ℕ)
    → start port s ≡ returns (record { serverfd = fd }) (made s (opening fd port))
    → Connects (record { serverfd = fd }) (made s (opening fd port)) clients
    → main (length clients) s
      ≡ waits (made s (opening fd port ++ served (record { serverfd = fd }) clients))
unfolding main
main-served s fd clients opened h =
    rw (opened, bind)
      (accept_loop-served (record { serverfd = fd }) clients (made s (opening fd port)) h
        ∙ rw append_assoc)
