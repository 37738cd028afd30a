-- ===== src/Client/Reconnect.antt =====
-- What the client does when its server is gone: `updateConn`, called by the handler of `fromServer`.
use twitter_like_client_serv.Base.{
  ℕ, zero, suc, ◌≡◌, refl, Bool, true, false, some, List, [], ◌∷◌, ◌++◌, Str, same, if◌then◌else◌,
  ◌==◌, ==_iff, replicate, arith,
}
use twitter_like_client_serv.Exec.{returns, bind}
use twitter_like_client_serv.Address.{parse_address}
use twitter_like_client_serv.Packet.{Packet, CmdType, to_bytes, of_cmd, of_cmd_payload_sender}
use twitter_like_client_serv.Connection.{Recv, bytes, shut, receive_packet}
use twitter_like_client_serv.Client.{
  Client, send_router, close_server, receive, open_connection, retry_connection, close_old,
  update_conn, is_open, receive_round, from_server,
}
use twitter_like_client_serv.Client.Input.{send_server-sent}

-- The client on a new connection, over which it has sent `ok`.
abbrev pub reopened : Client → List ℕ → Client
reopened c ok = record c {
  con = some c.next_con;
  next_con = suc c.next_con;
  closed = λ j. if j == c.next_con then false else c.closed j;
  to_server = c.to_server ++ (c.next_con, ok) ∷ [];
}

retry_connection-reopened :
    (n : ℕ) (address : Str) (peer : Str × ℕ) (rest : List Bool) (ok : List ℕ) (c : Client)
    → parse_address address ≡ some peer
    → to_bytes (of_cmd_payload_sender c.now CmdType.ok [] c.profile) ≡ some ok
    → retry_connection true address (replicate n false ++ true ∷ rest) c
      ≡ returns tt (reopened c ok)
unfolding retry_connection replicate open_connection
retry_connection-reopened zero address peer rest ok c parsed e =
    rw (parsed, retry_connection)
      (send_server-sent (of_cmd_payload_sender c.now CmdType.ok [] c.profile) ok c.next_con
        (record c {
          con = some c.next_con;
          next_con = suc c.next_con;
          closed = λ j. if j == c.next_con then false else c.closed j;
        })
        refl e)
retry_connection-reopened (suc n) address peer rest ok c parsed e =
    rw (parsed, retry_connection) (retry_connection-reopened n address peer rest ok c parsed e)

-- The client that has been told of another primary, with its old connection closed.
abbrev pub moved : Client → ℕ → List ℕ → Str → Client
moved c i question primary = record c {
  primary = primary;
  closed = λ j. if j == i then true else c.closed j;
  to_router = c.to_router ++ question ∷ [];
}

-- A client whose server has shut the connection asks the router. If the router names another primary,
-- and that accepts a connection after any number of tries, then the client closes the old connection,
-- opens a new one, sends OK with its name over it, and goes on with its loop, whose test finds the new
-- connection open.
pub from_server-reconnects :
    (n i : ℕ) (peer : Str × ℕ) (response : Packet) (answer question ok : List ℕ) (rest : List Bool)
    (rounds : List (Recv × Recv × List Bool)) (c : Client)
    → c.con ≡ some i
    → c.closed i ≡ false
    → to_bytes (of_cmd c.now CmdType.get_primary) ≡ some question
    → receive_packet (bytes answer) ≡ some response
    → same response.payload c.primary ≡ false
    → parse_address response.payload ≡ some peer
    → to_bytes (of_cmd_payload_sender c.now CmdType.ok [] c.profile) ≡ some ok
    → (from_server ((shut, bytes answer, replicate n false ++ true ∷ rest) ∷ rounds) c
        ≡ from_server rounds (reopened (moved c i question response.payload) ok))
      × (is_open (reopened (moved c i question response.payload) ok) ≡ true)
unfolding is_open from_server receive_round receive update_conn send_router close_old close_server
from_server-reconnects n i peer response answer question ok rest rounds c at up ask read other
      parsed e =
    (
      rw at (
          rw up (
            rw (ask, bind)
              (rw (read, bind)
                (rw other (
                  rw (
                    retry_connection-reopened n response.payload peer rest ok
                        (record (moved c i question response.payload) { con = some i }) parsed e,
                    bind,
                  )))))),
      ground (arith, ==_iff c.next_con c.next_con),
    )
