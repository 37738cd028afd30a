-- ===== src/System/Listener.antt =====
-- commons/Server.h and commons/Server.cpp: the socket on which the router and a server wait for
-- connections, and the loop of both `main` functions around `waitClient`.
pub mod Order
pub mod Methods
use twitter_like_client_serv.Base.{ℕ, zero, suc, List, [], ◌∷◌, ◌++◌}
use twitter_like_client_serv.Exec.{Exec, waits, exits, ◌>>=◌, ◌>>◌, pure, pthread_exit}
use twitter_like_client_serv.System.{System, Call, Thread, ask, ask_or_exit}

abbrev pub backlog_size : ℕ
backlog_size = 100

pub record Server : Type 0 where
  pub serverfd : ℕ

-- `Server::Server`
unfoldable pub start : ℕ → Exec System Server
start port = do
  serverfd ← ask_or_exit Call.socket
  _ ← ask_or_exit (Call.reuse_address serverfd)
  _ ← ask_or_exit (Call.bind serverfd port)
  _ ← ask_or_exit (Call.listen serverfd backlog_size)
  pure (record { serverfd = serverfd })

-- `Server::close`
unfoldable pub stop : Server → Exec System (Unit {0})
stop server = do _ ← ask (Call.close server.serverfd); pure tt

-- `Server::waitClient`: the socket of a new `ClientConnection`.
unfoldable pub wait_client : Server → Exec System ℕ
wait_client server = ask_or_exit (Call.accept server.serverfd)

-- `while (true)` of `main`: a thread for each client. One round is one unit of fuel; `waits` says that
-- the loop still runs when the fuel is used up.
unfoldable pub accept_loop : ℕ → Server → Exec System (Unit {0})
accept_loop zero server s = waits s
accept_loop (suc rounds) server s =
    (do
      clientfd ← wait_client server
      _ ← ask_or_exit (Call.create_thread (Thread.from_client clientfd))
      accept_loop rounds server)
      s
