-- ===== src/Server/Start/Takeover.antt =====
-- When a server opens its port: a primary at once, a backup when its primary is gone.
use twitter_like_client_serv.Base.{
  ℕ, ◌≡◌, true, some, List, ◌∷◌, ◌++◌, Str, length, append_assoc, ◌∙◌,
}
use twitter_like_client_serv.Base.Int.{ℤ}
use twitter_like_client_serv.Exec.{returns, exits, waits, bind}
use twitter_like_client_serv.Address.{stoi, to_port}
use twitter_like_client_serv.Packet.{Packet, CmdType, to_bytes, of_cmd, of_cmd_payload}
use twitter_like_client_serv.Connection.{Recv, bytes, shut, receive_packet}
use twitter_like_client_serv.System.{System, Call, Thread, after}
use twitter_like_client_serv.System.Listener
use twitter_like_client_serv.System.Listener.{Server, accept_loop}
use twitter_like_client_serv.System.Listener.Order.{
  made, opening, served, Connects, accept_loop-served, answered,
}
use twitter_like_client_serv.Server.World.{World, Json}
use twitter_like_client_serv.Server.Election.{router, receive_answer}
use twitter_like_client_serv.Server.Election.Elected.{asked, ask_router-answer}
use twitter_like_client_serv.Server.Main.{replay, take_over, receive_alive, find_role}
use twitter_like_client_serv.Server.Start.{
  Process, create_globals, open_port, follow_primary, serve, main,
}

-- The system lets a server open its port, start its thread and serve these clients, from the state `s`.
pub record Serves (s : System) (port : Str) (fd : ℕ) (clients : List ℕ) : Type 0 where
  pub number : ℤ
  pub parsed : stoi port ≡ some number
  pub opened :
      Listener.start (to_port number) s
      ≡ returns (record { serverfd = fd }) (made s (opening fd (to_port number)))
  pub thread : ℕ
  pub alive :
      s.answer (s.calls ++ opening fd (to_port number)) (Call.create_thread Thread.send_alive)
      ≡ some thread
  pub connects :
      Connects
        (record { serverfd = fd })
        (after (made s (opening fd (to_port number))) (Call.create_thread Thread.send_alive))
        clients

open_port-start :
    (port : Str) (n : ℤ) (s : System)
    → stoi port ≡ some n
    → open_port port s ≡ Listener.start (to_port n) s
unfolding open_port
open_port-start port n s e = rw (e, open_port)

-- All that the server has asked for by then.
abbrev pub service : ℕ → ℕ → List ℕ → List Call
service fd port clients =
    opening fd port
    ++ (Call.create_thread Thread.send_alive ∷ served (record { serverfd = fd }) clients)

module _ ⦃json : Json⦄ where
  serve-Serves :
      (w : World) (s : System) (port : Str) (fd : ℕ) (clients : List ℕ)
      (h : Serves s port fd clients)
      → serve port (length clients) (record { world = w; system = s })
        ≡ waits (record { world = w; system = made s (service fd (to_port h.number) clients) })
  unfolding serve
  serve-Serves w s port fd clients h = rw (open_port-start port h.number s h.parsed ∙ h.opened) (
      rw
        (answered (Call.create_thread Thread.send_alive) (made s (opening fd (to_port h.number)))
          h.thread h.alive)
        (rw (accept_loop-served (record { serverfd = fd }) clients _ h.connects)
          (rw (append_assoc, append_assoc))))

  -- A backup whose primary is gone, and that has told the router, opens its port and serves its
  -- clients, in the order in which they connect, from the state that the primary's packets have left.
  pub main_takeover :
      (addr port : Str) (rest : List Str) (recvs : List Recv) (p : Process) (peer : Str × ℕ)
      (w0 w v : World) (thread fd : ℕ) (clients : List ℕ)
      → create_globals p.world ≡ returns tt w0
      → find_role addr port w0 ≡ returns (some peer) w
      → p.system.answer p.system.calls (Call.create_thread Thread.receive_alive) ≡ some thread
      → receive_alive recvs w ≡ exits v
      → (h : Serves (after p.system (Call.create_thread Thread.receive_alive)) port fd clients)
      → main (addr ∷ port ∷ rest) recvs (length clients) p
        ≡ waits (record {
          world = v;
          system =
              made p.system
                (Call.create_thread Thread.receive_alive ∷ service fd (to_port h.number) clients);
        })
  unfolding main follow_primary
  main_takeover addr port rest recvs p peer w0 w v thread fd clients made_globals found begun gone
        h =
      rw made_globals (
        rw found (
          rw (answered (Call.create_thread Thread.receive_alive) p.system thread begun) (
            rw gone (
              serve-Serves v (after p.system (Call.create_thread Thread.receive_alive)) port fd
                clients h
              ∙ rw append_assoc))))

module _ ⦃json : Json⦄ where
  -- A backup that finds the connection of its primary shut tells the router that it is the primary.
  pub receive_alive-shut :
      (w : World) (b last answer : List ℕ) (response : Packet) (recvs : List Recv)
      → w.outside.listening router ≡ true
      → to_bytes (of_cmd_payload w.now CmdType.set_primary w.current_server_addr) ≡ some b
      → w.outside.answer ≡ bytes answer
      → receive_packet (bytes answer) ≡ some response
      → to_bytes (of_cmd w.now CmdType.close_conn) ≡ some last
      → receive_alive (shut ∷ recvs) w ≡ exits (asked w b last)
  unfolding receive_alive replay receive_answer take_over
  receive_alive-shut w b last answer response recvs up e came read d =
      rw (ask_router-answer CmdType.set_primary w b last answer response up e came read d, bind)
