-- ===== src/Connection/Methods.antt =====
-- The public methods of commons/ClientConnection.h, and calls one after the other.
use twitter_like_client_serv.Base.{
  ℕ, ◌++◌, ◌≡◌, refl, Bool, true, false, ◌||◌, Option, none, some, List, [], ◌∷◌, ◌>>=◌, ◌==◌, ap,
  sym, ◌∙◌, >>=_cases, if◌then◌else◌, arith,
}
use twitter_like_client_serv.Bytes.{read}
use twitter_like_client_serv.Packet.{Packet, packet_buffer_len, to_bytes}
use twitter_like_client_serv.Connection
use twitter_like_client_serv.Connection.{Net, Recv}

-- `receive_packet` has what `recv` returns.
pub data Method : Type 0 where
  close is_closed : Method
  send_packet : Packet → Method
  receive_packet : Recv → Method

-- What a method returns.
pub data Answer : Type 0 where
  nothing : Answer
  truth : Bool → Answer
  packet : Packet → Answer

unfoldable pub call : ℕ → Method → Net → Option (Answer × Net)
call conn Method.close net = some (nothing, Connection.close conn net)
call conn Method.is_closed net = some (truth (Connection.is_closed conn net), net)
call conn (Method.send_packet p) net = do
  net ← Connection.send_packet conn p net
  some (nothing, net)
call conn (Method.receive_packet recv) net = do
  p ← Connection.receive_packet recv
  some (packet p, net)

unfoldable pub calls : ℕ → List Method → Net → Option (List Answer × Net)
calls conn [] net = some ([], net)
calls conn (m ∷ ms) net = do
  (answer, net) ← call conn m net
  (answers, net) ← calls conn ms net
  some (answer ∷ answers, net)

-- A new connection, and calls of its methods.
unfoldable pub run : ℕ → List Method → Net → Option (List Answer × Net)
run conn ms net = calls conn ms (Connection.client_connection conn net)

-- Whether one of the calls closes the connection.
unfoldable pub closes : List Method → Bool
closes [] = false
closes (Method.close ∷ ms) = true
closes (m ∷ ms) = closes ms

-- The flags of all connections, after the calls.
abbrev Flags : ℕ → List Method → Net → Net → Type 0
Flags conn ms net net' =
    (c : ℕ) → net'.closed c ≡ (if c == conn then closes ms || net.closed conn else net.closed c)

abbrev flag : {A : Type 0} → Net → Option (A × Net) → ℕ → Bool
flag net none = net.closed
flag net (some (answer, net')) = net'.closed

send_packet_closed :
    (conn : ℕ) (p : Packet) (net net' : Net)
    → Connection.send_packet conn p net ≡ some net'
    → net'.closed ≡ net.closed
unfolding Connection.send_packet Connection.send_message
send_packet_closed conn p net net' e =
    let (b, made, sent) =
      >>=_cases (to_bytes p) (λ buffer. Connection.send_message conn buffer net) _ e in
    let (out, copied, end) =
      >>=_cases (read 0 packet_buffer_len b)
        (λ buffer_out. some (record net { sent = net.sent ++ (conn, buffer_out) ∷ [] })) _ sent in
    ap (λ o. elim o [ none ↦ net.closed | some n ↦ n.closed ]) (sym end)

-- The flags that a call leaves, from those before it.
abbrev after : ℕ → Method → Net → ℕ → Bool
after conn Method.close net c = if c == conn then true else net.closed c
after conn m net c = net.closed c

call_closed :
    (conn : ℕ) (m : Method) (net mid : Net) (answer : Answer)
    → call conn m net ≡ some (answer, mid)
    → mid.closed ≡ after conn m net
unfolding call Connection.close
call_closed conn Method.close net mid answer e = sym (ap (flag net) e)
call_closed conn Method.is_closed net mid answer e = sym (ap (flag net) e)
call_closed conn (Method.send_packet p) net mid answer e =
    let (sent, run, end) = >>=_cases (Connection.send_packet conn p net) _ _ e in
    sym (ap (flag net) end) ∙ send_packet_closed conn p net sent run
call_closed conn (Method.receive_packet recv) net mid answer e =
    let (p, run, end) = >>=_cases (Connection.receive_packet recv) _ _ e in sym (ap (flag net) end)

at_same : (conn c : ℕ) (f : ℕ → Bool) → f c ≡ (if c == conn then f conn else f c)
at_same conn c f = grind arith

-- The first call and those behind it.
closes-next :
    (conn : ℕ) (m : Method) (ms : List Method) (net : Net) (c : ℕ)
    → (if c == conn then closes ms || after conn m net conn else after conn m net c)
      ≡ (if c == conn then closes (m ∷ ms) || net.closed conn else net.closed c)
unfolding closes
closes-next conn Method.close ms net c = ground arith
closes-next conn Method.is_closed ms net c = refl
closes-next conn (Method.send_packet p) ms net c = refl
closes-next conn (Method.receive_packet recv) ms net c = refl

calls-Flags :
    (conn : ℕ) (ms : List Method) (net net' : Net) (answers : List Answer)
    → calls conn ms net ≡ some (answers, net')
    → Flags conn ms net net'
unfolding calls closes
calls-Flags conn [] net net' answers e c =
    ap (λ f. f c) (sym (ap (flag net) e)) ∙ at_same conn c net.closed
calls-Flags conn (m ∷ ms) net net' answers e c =
    let ((answer, mid), first, rest) = >>=_cases (call conn m net) _ _ e in
    let ((said, done), behind, end) = >>=_cases (calls conn ms mid) _ _ rest in
    ap (λ f. f c) (sym (ap (flag net) end))
    ∙ (calls-Flags conn ms mid done said behind c
        ∙ (ap (λ f. if c == conn then closes ms || f conn else f c)
              (call_closed conn m net mid answer first)
            ∙ closes-next conn m ms net c))

-- A new connection, after any calls of its methods that run into no undefined behaviour, is closed if
-- one of them has closed it, and open otherwise. No call changes another connection.
pub run-closes :
    (conn : ℕ) (ms : List Method) (net net' : Net) (answers : List Answer)
    → run conn ms net ≡ some (answers, net')
    → (c : ℕ) → net'.closed c ≡ (if c == conn then closes ms else net.closed c)
unfolding run Connection.client_connection
run-closes conn ms net net' answers e c = calls-Flags conn ms _ net' answers e c ∙ ground arith
