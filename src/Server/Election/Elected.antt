-- ===== src/Server/Election/Elected.antt =====
-- The message of a server that has won the election, where it is the only server of the ring.
use twitter_like_client_serv.Base.{
  ℕ, ◌≡◌, ap, true, false, some, List, [], ◌∷◌, ◌++◌, Str, same_refl,
}
use twitter_like_client_serv.Exec.{returns, fault, bind}
use twitter_like_client_serv.Packet.{Packet, CmdType, to_bytes, of_cmd, of_cmd_payload}
use twitter_like_client_serv.Connection.{bytes, receive_packet}
use twitter_like_client_serv.Server.World.{World}
use twitter_like_client_serv.Server.Election.{
  connect, receive_answer, router, ask_router, index_of, erase_at, next_server, pass_on, find_self,
  become_primary, elected_from, send_elected_msg,
}
use twitter_like_client_serv.Server.Election.Ring.{send_out-sent}

-- The world once the router has been asked.
abbrev pub asked : World → List ℕ → List ℕ → World
asked w b last = record w {
  outside = record w.outside {
    outbound = (w.outside.outbound ++ (router, b) ∷ []) ++ (router, last) ∷ [];
  };
}

pub ask_router-answer :
    (cmd : CmdType) (w : World) (b last answer : List ℕ) (response : Packet)
    → w.outside.listening router ≡ true
    → to_bytes (of_cmd_payload w.now cmd w.current_server_addr) ≡ some b
    → w.outside.answer ≡ bytes answer
    → receive_packet (bytes answer) ≡ some response
    → to_bytes (of_cmd w.now CmdType.close_conn) ≡ some last
    → ask_router cmd w ≡ returns response (asked w b last)
unfolding ask_router connect receive_answer
ask_router-answer cmd w b last answer response up e came read d = rw up (
    rw (send_out-sent router _ b w e, bind)
      (rw came (
        rw (read, bind)
          (ap (λ o. bind o (λ a v. returns response v))
            (send_out-sent router (of_cmd w.now CmdType.close_conn) last
              (record w {
                outside = record w.outside {
                  outbound = w.outside.outbound ++ (router, b) ∷ [];
                  answer = bytes answer;
                };
              })
              d)))))

-- A server that is alone in its list, and takes itself out of it to become the primary: the router
-- is told and answers, and then the index of the next server is a remainder by 0.
pub send_elected_msg_alone :
    (w : World) (server_addr : Str) (b last answer : List ℕ) (response : Packet)
    → w.election_server_list ≡ w.current_server_addr ∷ []
    → w.outside.listening router ≡ true
    → to_bytes (of_cmd_payload w.now CmdType.set_primary w.current_server_addr) ≡ some b
    → w.outside.answer ≡ bytes answer
    → receive_packet (bytes answer) ≡ some response
    → to_bytes (of_cmd w.now CmdType.close_conn) ≡ some last
    → send_elected_msg server_addr true w ≡ fault
unfolding send_elected_msg find_self index_of elected_from become_primary erase_at pass_on
    next_server
send_elected_msg_alone w server_addr b last answer response alone up e came read d = rw alone (
    rw (same_refl w.current_server_addr) (
      rw (
        ask_router-answer CmdType.set_primary
            (record w { election_started = false; election_server_list = [] }) b last answer
            response up e came read d,
        bind,
      )))
