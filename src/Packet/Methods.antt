-- ===== src/Packet/Methods.antt =====
-- The constructors and the public methods of commons/Packet.h, and calls one after the other.
use twitter_like_client_serv.Base.{
  ℕ, ◌≡◌, refl, sym, ap, ◌∙◌, Option, some, List, [], ◌∷◌, ◌>>=◌, Str,
}
use twitter_like_client_serv.Packet
use twitter_like_client_serv.Packet.{Packet, CmdType}
use twitter_like_client_serv.Packet.RoundTrip.{IsSendable, from_bytes-to_bytes}

-- The five constructors; the first has what the memory held.
pub data Constructor : Type 0 where
  empty : CmdType → ℕ → Constructor
  of_payload : Str → Constructor
  of_cmd : CmdType → Constructor
  of_cmd_payload : CmdType → Str → Constructor
  of_cmd_payload_sender : CmdType → Str → Str → Constructor

unfoldable pub create : ℕ → Constructor → Packet
create now (Constructor.empty cmd timestamp) = Packet.of_memory_held cmd timestamp
create now (Constructor.of_payload payload) = Packet.of_payload now payload
create now (Constructor.of_cmd cmd) = Packet.of_cmd now cmd
create now (Constructor.of_cmd_payload cmd payload) = Packet.of_cmd_payload now cmd payload
create now (Constructor.of_cmd_payload_sender cmd payload sender) =
    Packet.of_cmd_payload_sender now cmd payload sender

pub data Method : Type 0 where
  to_bytes : Method
  from_bytes : List ℕ → Method
  get_cmd get_payload get_sender get_timestamp : Method

-- What a method returns.
pub data Answer : Type 0 where
  nothing : Answer
  buffer : List ℕ → Answer
  command : CmdType → Answer
  text : Str → Answer
  time : ℕ → Answer

-- `fromBytes` writes all four fields, so that nothing is left of the object before.
unfoldable pub call : Method → Packet → Option (Answer × Packet)
call Method.to_bytes p = do b ← Packet.to_bytes p; some (buffer b, p)
call (Method.from_bytes b) p = do q ← Packet.from_bytes b; some (nothing, q)
call Method.get_cmd p = some (command (Packet.get_cmd p), p)
call Method.get_payload p = some (text (Packet.get_payload p), p)
call Method.get_sender p = some (text (Packet.get_sender p), p)
call Method.get_timestamp p = some (time (Packet.get_timestamp p), p)

unfoldable pub calls : List Method → Packet → Option (List Answer × Packet)
calls [] p = some ([], p)
calls (m ∷ ms) p = do (answer, p) ← call m p; (answers, p) ← calls ms p; some (answer ∷ answers, p)

-- A new packet, and calls of its methods.
unfoldable pub run : ℕ → Constructor → List Method → Option (List Answer × Packet)
run now constructor ms = calls ms (create now constructor)

-- However a packet object was made: once it has read the buffer of a packet that can be sent unchanged,
-- its methods answer as those of that packet.
pub run-from_bytes :
    (now : ℕ) (constructor : Constructor) (p : Packet) (b : List ℕ) (ms : List Method)
    → IsSendable p
    → Packet.to_bytes p ≡ some b
    → run now constructor (Method.from_bytes b ∷ ms)
      ≡ (calls ms p >>= (λ (answers, q). some (nothing ∷ answers, q)))
unfolding run calls call
run-from_bytes now constructor p b ms sendable e =
    let read = sym (ap (λ o. o >>= Packet.from_bytes) e) ∙ from_bytes-to_bytes p sendable in
    rw read refl
