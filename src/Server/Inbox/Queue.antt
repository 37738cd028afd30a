-- ===== src/Server/Inbox/Queue.antt =====
-- The public methods of server/Inbox.h, and calls one after the other.
use twitter_like_client_serv.Base.{
  ◌≡◌, Bool, Option, none, some, List, [], ◌∷◌, ◌++◌, ◌>>=◌, append_assoc, >>=_cases, sym, arith,
  ap, ◌∙◌, append-nil,
}
use twitter_like_client_serv.Packet.{Packet}
use twitter_like_client_serv.Server.Inbox
use twitter_like_client_serv.Server.Inbox.{Inbox}

pub data Method : Type 0 where
  insert_packet : Packet → Method
  pop_packet has_packet : Method

-- What a method returns.
pub data Answer : Type 0 where
  nothing : Answer
  packet : Packet → Answer
  truth : Bool → Answer

unfoldable pub call : Method → Inbox → Option (Answer × Inbox)
call (Method.insert_packet p) inbox = some (nothing, Inbox.insert_packet p inbox)
call Method.pop_packet inbox = do (p, rest) ← Inbox.pop_packet inbox; some (packet p, rest)
call Method.has_packet inbox = some (truth (Inbox.has_packet inbox), inbox)

unfoldable pub calls : List Method → Inbox → Option (List Answer × Inbox)
calls [] inbox = some ([], inbox)
calls (m ∷ ms) inbox = do
  (answer, inbox) ← call m inbox
  (answers, inbox) ← calls ms inbox
  some (answer ∷ answers, inbox)

-- A new inbox, and calls of its methods.
unfoldable pub run : List Method → Option (List Answer × Inbox)
run ms = calls ms Inbox.empty_inbox

-- The packets that went in, and those that came out, oldest first.
unfoldable pub inserted : List Method → List Packet
inserted [] = []
inserted (Method.insert_packet p ∷ ms) = p ∷ inserted ms
inserted (m ∷ ms) = inserted ms

unfoldable pub popped : List Answer → List Packet
popped [] = []
popped (packet p ∷ answers) = p ∷ popped answers
popped (answer ∷ answers) = popped answers

-- What came out of the inbox, and what is left.
abbrev out : Option (List Answer × Inbox) → List Packet
out none = []
out (some (answers, rest)) = popped answers ++ rest

calls-popped :
    (ms : List Method) (inbox rest : Inbox) (answers : List Answer)
    → calls ms inbox ≡ some (answers, rest)
    → popped answers ++ rest ≡ inbox ++ inserted ms
unfolding calls call inserted popped Inbox.insert_packet Inbox.pop_packet Inbox.has_packet
calls-popped [] inbox rest answers e = sym (ap out e) ∙ sym (append-nil inbox)
calls-popped (Method.insert_packet p ∷ ms) inbox rest answers e =
    let ((said, r), run, end) = >>=_cases (calls ms (inbox ++ p ∷ [])) _ _ e in
    sym (ap out end)
    ∙ calls-popped ms (inbox ++ p ∷ []) r said run
    ∙ append_assoc inbox (p ∷ []) (inserted ms)
calls-popped (Method.pop_packet ∷ ms) [] rest answers e = absurd (grind arith)
calls-popped (Method.pop_packet ∷ ms) (p ∷ inbox) rest answers e =
    let ((said, r), run, end) = >>=_cases (calls ms inbox) _ _ e in
    sym (ap out end) ∙ ap (λ ps. p ∷ ps) (calls-popped ms inbox r said run)
calls-popped (Method.has_packet ∷ ms) inbox rest answers e =
    let ((said, r), run, end) = >>=_cases (calls ms inbox) _ _ e in
    sym (ap out end) ∙ calls-popped ms inbox r said run

-- First in, first out: a new inbox, after any calls that run into no undefined behaviour. The packets
-- that were popped, in their order, and then those that are left are all those that were inserted, in
-- their order.
pub run-popped :
    (ms : List Method) (rest : Inbox) (answers : List Answer)
    → run ms ≡ some (answers, rest)
    → popped answers ++ rest ≡ inserted ms
unfolding run Inbox.empty_inbox
run-popped ms rest answers e = calls-popped ms [] rest answers e
