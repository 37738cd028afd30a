-- ===== src/Post.antt =====
-- A post on its way: `toServer` of client/main.cpp at its author, `fromClient` of server/main.cpp, and
-- `fromServer` of client/main.cpp at a follower.
pub mod Messages
use mathlib.Core.List.{
  Mem, not-mem-nil, Mem-prop, mem-cons_self, mem-cons_of_mem, eq-or-mem_of_mem-cons,
  mem-append_left, mem-append_right,
}
use twitter_like_client_serv.Base.{
  ℕ, suc, ◌+◌, ◌≤◌, ◌<◌, ◌^◌, ◌≡◌, refl, sym, ap, ◌∙◌, subst, true, false, Option, none, some, List,
  [], ◌∷◌, ◌++◌, Str, get_elem?, length, codes, append_assoc, arith, Option-cases, inl, inr, ◌⊎◌,
  Bool,
}
use twitter_like_client_serv.Base.Int.{is_positive}
use twitter_like_client_serv.Exec.{Outcome, returns, ◌>>=◌, ◌>>◌, bind, lift}
use twitter_like_client_serv.Bytes.{HasNoNul}
use twitter_like_client_serv.Packet.{Packet, CmdType, to_bytes, of_cmd_payload_sender}
use twitter_like_client_serv.Packet.RoundTrip.{IsSendable, to_bytes-fits}
use twitter_like_client_serv.Connection.{Recv, bytes, given, is_closed, receive_packet}
use twitter_like_client_serv.Connection.Delivery.{receive_packet-to_bytes}
use twitter_like_client_serv.Command.{packet, read_command}
use twitter_like_client_serv.Client.{
  Client, Shown, accepts_profile, is_open, next_line, input_step, input_loop, receive, show_packet,
  receive_round, from_server,
}
use twitter_like_client_serv.Client.Commands.{NoCopy, read_command-send}
use twitter_like_client_serv.Client.Input.{send_server-sent, open_here}
use twitter_like_client_serv.Server.Profile.{Profile, Session}
use twitter_like_client_serv.Server.Profile.Delivery.{Encoded, copies}
use twitter_like_client_serv.Server.World.{World, Json}
use twitter_like_client_serv.Server.ProfilesManager.Broadcast.{
  messages, messages_to, messages-cons, Notified,
}
use twitter_like_client_serv.Server.ProfilesManager.Objects.{IsRegistered}
use twitter_like_client_serv.Post.Messages.{messages-Mem}
use twitter_like_client_serv.Server.Main.{client_loop, process_packet}
use twitter_like_client_serv.Server.Main.Send.{replicas, process_packet-Notified}

-- A message that a user can type after "SEND": it has at most 128 bytes and no zero byte, the line has
-- no second "SEND" and no "FOLLOW".
pub record IsPost (text : Str) : Type 0 where
  pub short : length text ≤ 128
  pub characters : HasNoNul text
  pub one_send : NoCopy (codes "SEND") (codes "END " ++ text)
  pub no_follow : NoCopy (codes "FOLLOW") (codes "SEND " ++ text)

-- A client over the open connection `i`, with a name that `main` accepts.
pub record IsOnline (c : Client) (i : ℕ) : Type 0 where
  pub connection : c.con ≡ some i
  pub open_connection : c.closed i ≡ false
  pub name : accepts_profile c.profile ≡ true
  pub characters : HasNoNul c.profile
  pub time : c.now < 2 ^ 64

-- What the client shows of a packet.
abbrev pub shown : Packet → Shown
shown p = record { timestamp = p.timestamp; sender = p.sender; payload = p.payload }

-- The packet of a post.
abbrev pub post_of : Client → Str → Packet
post_of c text = of_cmd_payload_sender c.now CmdType.send text c.profile

pub post_of-IsSendable :
    (c : Client) (i : ℕ) (text : Str) → IsOnline c i → IsPost text → IsSendable (post_of c text)
unfolding of_cmd_payload_sender accepts_profile
post_of-IsSendable c i text on post = record {
  fits = record { time = on.time; room = ground (arith, on.name, post.short) };
  command = tt;
  payload_text = post.characters;
  sender_text = on.characters;
}

read_command-post :
    (text : Str) → IsPost text → read_command (codes "SEND " ++ text) ≡ packet CmdType.send text
read_command-post text post =
    read_command-send text post.one_send post.no_follow ∙ ground (arith, post.short)

-- The author's client: the round of `toServer` on the line.
input_loop-post :
    (fuel i : ℕ) (text : Str) (rest : List Str) (c : Client) (b : List ℕ)
    → IsOnline c i
    → IsPost text
    → Encoded (post_of c text) b
    → input_loop (suc fuel) (codes "SEND " ++ text) rest c
      ≡ next_line (input_loop fuel) rest (record c { to_server = c.to_server ++ (i, b) ∷ [] })
unfolding input_loop input_step
input_loop-post fuel i text rest c b on post e =
    rw (open_here i c on.connection on.open_connection) (
      rw (read_command-post text post)
        (rw (send_server-sent (post_of c text) b i c on.connection e)))

-- The follower's client: the round of `fromServer` on the message.
pub from_server-post :
    (k : ℕ) (p : Packet) (b : List ℕ) (answer : Recv) (tries : List Bool)
    (rounds : List (Recv × Recv × List Bool)) (r : Client)
    → p.cmd ≡ CmdType.send
    → receive_packet (bytes b) ≡ some p
    → r.con ≡ some k
    → r.closed k ≡ false
    → from_server ((bytes b, answer, tries) ∷ rounds) r
      ≡ from_server rounds (record r { screen = r.screen ++ shown p ∷ [] })
unfolding from_server receive_round receive show_packet
from_server-post k p b answer tries rounds r cmd e at up = rw at (rw up (rw (e, given) (rw cmd)))

module _ ⦃json : Json⦄ where
  -- The server: the round of `fromClient` on the message.
  client_loop-post :
      (s j : ℕ) (author : Profile) (p : Packet) (b : List ℕ) (recvs : List Recv) (w : World)
      → IsRegistered w
      → w.num_readers ≡ 0
      → w.num_writers ≡ 0
      → is_closed s w.net ≡ false
      → get_elem? w.heap j ≡ some author
      → p.cmd ≡ CmdType.send
      → Encoded p b
      → receive_packet (bytes b) ≡ some p
      → (heap' : List Profile) × (client_loop s (some j) (bytes b ∷ recvs) w
          ≡ client_loop s (some j) recvs (record w {
            heap = heap';
            net = record w.net {
              sent =
                  (w.net.sent ++ messages b w.heap author.followers) ++ replicas b w.list_backups;
            };
          }))
        × Notified p author.followers w.heap heap'
  unfolding client_loop
  client_loop-post s j author p b recvs w r nr nw up at cmd e arrives =
      let (heap', run, all) = process_packet-Notified (some s) j author p b w r nr nw at cmd e in
      (heap', rw up (rw (arrives, lift) (rw run)), all)

  -- From the keyboard of its author to the screen of a follower. An author over an open connection
  -- types SEND and a post. In the server, whose map and objects fit together and whose lock nobody
  -- holds, the thread of a session of the author's profile receives what the client sent, and a
  -- follower of that profile is logged in with some session. The follower's client, over an open
  -- connection, receives the same bytes. Then there are bytes such that the author's client sends
  -- them for the line and goes on to the next; the server's thread goes on to its next message, after it
  -- has sent these bytes to the follower's session; and the follower's client
  -- shows the post, its author's name and its time, and goes on receiving.
  pub post-shown :
      (fuel i : ℕ) (text : Str) (rest : List Str) (c : Client)
      → IsOnline c i
      → IsPost text
      → (s j : ℕ) (author : Profile) (recvs : List Recv) (w : World) → IsRegistered w
      → w.num_readers ≡ 0
      → w.num_writers ≡ 0
      → is_closed s w.net ≡ false
      → get_elem? w.heap j ≡ some author
      → (f conn : ℕ) (follower : Profile) → Mem f author.followers
      → get_elem? w.heap f ≡ some follower
      → is_positive follower.sessions_on ≡ true
      → Mem (some conn) follower.sessions
      → (k : ℕ) (answer : Recv) (tries : List Bool) (rounds : List (Recv × Recv × List Bool))
        (r : Client)
      → r.con ≡ some k
      → r.closed k ≡ false
      → (b : List ℕ) × (input_loop (suc fuel) (codes "SEND " ++ text) rest c
          ≡ next_line (input_loop fuel) rest (record c { to_server = c.to_server ++ (i, b) ∷ [] }))
        × ((w' : World) × (ms : List (ℕ × List ℕ)) × (client_loop s (some j) (bytes b ∷ recvs) w
              ≡ client_loop s (some j) recvs w')
            × (w'.net.sent ≡ w.net.sent ++ ms)
            × Mem (conn, b) ms)
        × (from_server ((bytes b, answer, tries) ∷ rounds) r
            ≡ from_server rounds (record r {
              screen =
                  r.screen ++ record { timestamp = c.now; sender = c.profile; payload = text } ∷ [];
            }))
  unfolding of_cmd_payload_sender
  post-shown fuel i text rest c on post s j author recvs w reg nr nw up at f conn follower follows
        here counted session k answer tries rounds r there open_reader =
      let sendable = post_of-IsSendable c i text on post in
      let (b, e) = (to_bytes-fits (post_of c text)).0 sendable.fits.room in
      let arrives = receive_packet-to_bytes (post_of c text) b sendable e in
      let (heap', run, all) =
        client_loop-post s j author (post_of c text) b recvs w reg nr nw up at refl e arrives in
      let ms = messages b w.heap author.followers in
      (
        b,
        input_loop-post fuel i text rest c b on post e,
        (
          record w {
            heap = heap';
            net = record w.net { sent = (w.net.sent ++ ms) ++ replicas b w.list_backups };
          },
          ms ++ replicas b w.list_backups,
          run,
          append_assoc w.net.sent ms (replicas b w.list_backups),
          mem-append_left (replicas b w.list_backups)
              (messages-Mem b w.heap author.followers f follower conn follows here counted session),
        ),
        from_server-post k (post_of c text) b answer tries rounds r refl arrives there open_reader,
      )
