-- ===== src/Server/Main/Role.antt =====
-- The role that a server takes when it starts.
use twitter_like_client_serv.Base.{
  ℕ, ◌≡◌, Bool, true, false, none, some, List, [], ◌∷◌, ◌++◌, Str, same, ◌⊎◌, inl, inr,
  append_assoc,
}
use twitter_like_client_serv.Exec.{returns, bind}
use twitter_like_client_serv.Address.{parse_address}
use twitter_like_client_serv.Packet.{Packet, CmdType, to_bytes, of_cmd, of_cmd_payload}
use twitter_like_client_serv.Connection.{bytes, receive_packet}
use twitter_like_client_serv.Server.World.{World}
use twitter_like_client_serv.Server.Election.{router}
use twitter_like_client_serv.Server.Election.Ring.{connect_to-open, send_out-sent}
use twitter_like_client_serv.Server.Election.Elected.{asked, ask_router-answer}
use twitter_like_client_serv.Server.Main.{role, join_primary, find_role}

-- What the router answers to a server that starts.
pub record Answers (w : World) (self : Str) (response : Packet) : Type 0 where
  pub up : w.outside.listening router ≡ true
  pub question : List ℕ
  pub asks : to_bytes (of_cmd_payload w.now CmdType.set_primary_if_not_exists self) ≡ some question
  pub answer : List ℕ
  pub came : w.outside.answer ≡ bytes answer
  pub read : receive_packet (bytes answer) ≡ some response
  pub last : List ℕ
  pub leaves : to_bytes (of_cmd w.now CmdType.close_conn) ≡ some last

role_taken :
    (b : Bool) (self : Str) (response : Packet) (cmd : CmdType)
    → cmd ≡ CmdType.set_primary
    → same response.payload self ≡ false
    → role b self response cmd ≡ true
unfolding role
role_taken b self response cmd e other = rw e (rw other)

role_free :
    (b : Bool) (self : Str) (response : Packet) (cmd : CmdType)
    → (cmd ≡ CmdType.ok) ⊎ ((cmd ≡ CmdType.set_primary) × (same response.payload self ≡ true))
    → role b self response cmd ≡ false
unfolding role
role_free b self response cmd (inl e) = rw e
role_free b self response cmd (inr (e, own)) = rw e (rw own)

-- A server that starts and is told OK by the router, or its own address, becomes the primary: it
-- registers, says goodbye to the router, and connects to no other server.
pub find_role-primary :
    (w : World) (addr port : Str) (response : Packet)
    (a : Answers w (addr ++ (b':' ∷ port)) response)
    → ((response.cmd ≡ CmdType.ok)
        ⊎ ((response.cmd ≡ CmdType.set_primary)
            × (same response.payload (addr ++ (b':' ∷ port)) ≡ true)))
    → find_role addr port w
      ≡ returns none (record w {
        current_server_addr = addr ++ (b':' ∷ port);
        backup = false;
        outside = record w.outside {
          outbound = w.outside.outbound ++ (router, a.question) ∷ (router, a.last) ∷ [];
        };
      })
unfolding find_role
find_role-primary w addr port response a own =
    rw
      (
        ask_router-answer CmdType.set_primary_if_not_exists
            (record w { current_server_addr = addr ++ (b':' ∷ port) }) a.question a.last a.answer
            response a.up a.asks a.came a.read a.leaves,
        bind,
      )
      (rw (role_free w.backup (addr ++ (b':' ∷ port)) response response.cmd own)
        (unfold join_primary in rw append_assoc))

-- A server that starts, is told the address of another one and can connect to it becomes a backup:
-- it registers, says goodbye to the router, and sends SET_BACKUP with its own address to that server.
pub find_role-backup :
    (w : World) (addr port : Str) (response : Packet) (peer : Str × ℕ) (request : List ℕ)
    (a : Answers w (addr ++ (b':' ∷ port)) response)
    → response.cmd ≡ CmdType.set_primary
    → same response.payload (addr ++ (b':' ∷ port)) ≡ false
    → parse_address response.payload ≡ some peer
    → w.outside.listening peer ≡ true
    → to_bytes (of_cmd_payload w.now CmdType.set_backup (addr ++ (b':' ∷ port))) ≡ some request
    → find_role addr port w
      ≡ returns (some peer) (record w {
        current_server_addr = addr ++ (b':' ∷ port);
        backup = true;
        outside = record w.outside {
          outbound =
              w.outside.outbound ++ (router, a.question) ∷ (router, a.last) ∷ (peer, request) ∷ [];
        };
      })
unfolding find_role
find_role-backup w addr port response peer request a set other parsed up e =
    rw
      (
        ask_router-answer CmdType.set_primary_if_not_exists
            (record w { current_server_addr = addr ++ (b':' ∷ port) }) a.question a.last a.answer
            response a.up a.asks a.came a.read a.leaves,
        bind,
      )
      (rw (role_taken w.backup (addr ++ (b':' ∷ port)) response response.cmd set other) (
        unfold join_primary in
        rw
          (
            connect_to-open response.payload peer
                (record (asked w a.question a.last) {
                  current_server_addr = addr ++ (b':' ∷ port);
                  backup = true;
                })
                parsed up,
            bind,
          )
          (rw
            (
              send_out-sent peer _ request
                  (record (asked w a.question a.last) {
                    current_server_addr = addr ++ (b':' ∷ port);
                    backup = true;
                  })
                  e,
              bind,
            )
            (rw (append_assoc, append_assoc)))))
