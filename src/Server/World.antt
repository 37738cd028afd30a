-- ===== src/Server/World.antt =====
-- The state of the server process: the profile objects, the connections and the globals of
-- server/main.cpp. A pointer is `none` if it is null; a call through a null pointer is a fault.
use twitter_like_client_serv.Base.{
  ℕ, Bool, Option, none, some, List, [], ◌∷◌, ◌++◌, Str, length, get_elem?, set,
}
use twitter_like_client_serv.Exec.{returns, fault, Exec, ◌>>=◌, modify, lift}
use twitter_like_client_serv.Packet.{Packet}
use twitter_like_client_serv.Connection.{Net, Recv}
use twitter_like_client_serv.Connection
use twitter_like_client_serv.Server.Profile.{Profile, Session}

-- A `Profile *`: a place in `heap`.
abbrev pub Pointer : Type 0
Pointer = Option ℕ

-- The programs that the server connects to: which addresses accept a connection, what was sent to
-- each, and what `recv` returns of the router's answer.
pub record Outside : Type 0 where
  pub listening : Str × ℕ → Bool
  pub outbound : List ((Str × ℕ) × List ℕ)
  pub answer : Recv

pub record World : Type 0 where
  -- The profile objects, in the order in which they were made.
  pub heap : List Profile
  pub net : Net
  -- `ProfilesManager::profiles`, and the content of its file, if there is one.
  pub profiles : List (Str × ℕ)
  pub file : Option Str
  -- `ProfileAccessController`
  pub num_readers : ℕ
  pub num_writers : ℕ
  -- The globals of main.cpp.
  pub list_backups : List ℕ
  pub election_server_list : List Str
  pub current_server_addr : Str
  pub election_started : Bool
  pub backup : Bool
  pub outside : Outside
  -- What `time(nullptr)` returns.
  pub now : ℕ

-- `json.hpp`: the document that the server writes is null or an object of arrays of texts.
pub data Doc : Type 0 where
  null : Doc
  object : List (Str × List Str) → Doc

-- What the server uses of the library: `<<`, which fails on a text that is not UTF-8, and `>>`,
-- which fails on a text that is no document. Where `<<` fails, `reached` has come into the file.
pub record Json : Type 0 where
  pub dump : Doc → Option Str
  pub reached : Doc → Str
  pub parse : Str → Option Doc

-- `*p`
unfoldable pub deref : Pointer → Exec World Profile
deref none w = fault
deref (some i) w = lift (get_elem? w.heap i) w

-- The object `i` after a method has changed it.
unfoldable pub assign : ℕ → Profile → World → World
assign i p w = record w { heap = set w.heap i p }

-- A method that changes the object `p` points to.
unfoldable pub update : Pointer → (Profile → Profile) → Exec World (Unit {0})
update none f w = fault
update (some i) f w = (lift (get_elem? w.heap i) >>= (λ p. modify (assign i (f p)))) w

-- A method that changes the object `p` points to and sends messages.
unfoldable pub update_sending :
    Pointer → (Profile → Net → Option (Profile × Net)) → Exec World (Unit {0})
update_sending none f w = fault
update_sending (some i) f w =
    (do
      p ← lift (get_elem? w.heap i)
      (p', net') ← lift (f p w.net)
      modify (λ v. record (assign i p' v) { net = net' }))
      w

-- `new Profile(…)`
unfoldable pub allocate : Profile → Exec World ℕ
allocate p w = returns (length w.heap) (record w { heap = w.heap ++ p ∷ [] })

-- A method of the connection that a pointer points to.
unfoldable pub send_packet : Session → Packet → Exec World (Unit {0})
send_packet none packet w = fault
send_packet (some conn) packet w =
    (do
      net' ← lift (Connection.send_packet conn packet w.net)
      modify (λ v. record v { net = net' }))
      w

unfoldable pub close : Session → Exec World (Unit {0})
close none w = fault
close (some conn) w = returns tt (record w { net = Connection.close conn w.net })
