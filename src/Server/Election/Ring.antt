-- ===== src/Server/Election/Ring.antt =====
-- The election messages go to the next server in the ring.
use twitter_like_client_serv.Base.{
  ℕ, suc, ◌+◌, ◌%◌, ◌<◌, ◌≡◌, ap, true, some, List, [], ◌∷◌, ◌++◌, Str, same, same_iff, get_elem?,
  get_elem?-lt, Bool-cases, Option-cases, inl, inr, length, arith, append_assoc,
}
use twitter_like_client_serv.Address.{parse_address}
use twitter_like_client_serv.Exec.{returns, bind}
use twitter_like_client_serv.Packet.{Packet, CmdType, to_bytes, of_cmd_payload}
use twitter_like_client_serv.Server.World.{World}
use twitter_like_client_serv.Server.Election.{
  connect, connect_to, send_out, index_of, next_server, pass_on, find_self, election_from,
  send_election_msg,
}

-- The index that the search returns is inside the list, and the entry there is the one looked for.
pub index_of-get_elem? :
    (s : Str) (ss : List Str) (i : ℕ) → index_of s ss ≡ some i → get_elem? ss i ≡ some s
unfolding index_of
index_of-get_elem? s [] i e = absurd (cc)
index_of-get_elem? s (t ∷ ts) i e = elim (Bool-cases (same t s)) [
  | inl hit ↦
      let first : i ≡ 0 = ground (arith, e, hit) in rw first (ap some ((same_iff t s).0 hit))
  | inr miss ↦ elim (Option-cases (index_of s ts)) [
    | inl absent ↦ absurd (ground (arith, e, miss, absent))
    | inr (j, later) ↦
        let behind : i ≡ suc j = ground (arith, e, miss, later) in
        rw behind (index_of-get_elem? s ts j later)
  ]
]

pub connect_to-open :
    (address : Str) (peer : Str × ℕ) (w : World)
    → parse_address address ≡ some peer
    → w.outside.listening peer ≡ true
    → connect_to address w ≡ returns peer w
unfolding connect_to connect
connect_to-open address peer w e up = ground (arith, e, up)

pub send_out-sent :
    (peer : Str × ℕ) (p : Packet) (b : List ℕ) (w : World)
    → to_bytes p ≡ some b
    → send_out peer p w
      ≡ returns tt (record w {
        outside = record w.outside { outbound = w.outside.outbound ++ (peer, b) ∷ [] };
      })
unfolding send_out
send_out-sent peer p b w e = rw (e, bind)

next_server-lt :
    (index : ℕ) (servers : List Str) (address : Str) (w : World)
    → index < length servers
    → get_elem? servers ((index + 1) % length servers) ≡ some address
    → next_server index servers w ≡ returns address w
unfolding next_server
next_server-lt index servers address w h at = ground (arith, h, at)

-- The server's own address stands in the list at `index`, and the entry behind it, round the end of
-- the list, is an address where somebody listens. The election starts, and that server is sent
-- ELECTION with the given address and then CLOSE_CONN, if both packets fit.
pub send_election_msg-sent :
    (w : World) (server_addr address : Str) (index : ℕ) (peer : Str × ℕ) (b last : List ℕ)
    → index_of w.current_server_addr w.election_server_list ≡ some index
    → get_elem? w.election_server_list ((index + 1) % length w.election_server_list) ≡ some address
    → parse_address address ≡ some peer
    → w.outside.listening peer ≡ true
    → to_bytes (of_cmd_payload w.now CmdType.election server_addr) ≡ some b
    → to_bytes (of_cmd_payload w.now CmdType.close_conn []) ≡ some last
    → send_election_msg server_addr w
      ≡ returns tt (record w {
        election_started = true;
        outside = record w.outside {
          outbound = w.outside.outbound ++ (peer, b) ∷ (peer, last) ∷ [];
        };
      })
unfolding send_election_msg find_self election_from pass_on
send_election_msg-sent w server_addr address index peer b last found at parsed up e d = rw found (
    rw
      (
        next_server-lt index w.election_server_list address started
            (get_elem?-lt w.election_server_list index (index_of-get_elem? _ _ index found)) at,
        bind,
      )
      (rw (connect_to-open address peer started parsed up, bind)
        (rw (send_out-sent peer _ b started e, bind)
          (rw (send_out-sent peer (of_cmd_payload w.now CmdType.close_conn []) last once d)
            (rw append_assoc)))))
  where
    started : World
    started = record w { election_started = true }

    once : World
    once = record started {
      outside = record w.outside { outbound = w.outside.outbound ++ (peer, b) ∷ [] };
    }
