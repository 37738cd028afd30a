-- ===== src/Server/Main/Replicas.antt =====
-- A primary and its backup over all the packets that the one sends to the other (server/main.cpp).
use twitter_like_client_serv.Base.{
  ℕ, ◌≡◌, refl, sym, ◌∙◌, ap, subst, Bool, some, List, [], ◌++◌, Str, length, drop, drop-length,
}
use twitter_like_client_serv.Base.Map.{find}
use twitter_like_client_serv.Exec.{returns, Ends}
use twitter_like_client_serv.Packet.{Packet, CmdType}
use twitter_like_client_serv.Packet.RoundTrip.{IsSendable}
use twitter_like_client_serv.Connection.{bytes, given}
use mathlib.Core.Path.{fun_ext}
use twitter_like_client_serv.Connection.Delivery.{receive_packet-to_bytes}
use twitter_like_client_serv.Server.Profile.Delivery.{Encoded}
use twitter_like_client_serv.Server.World.{Pointer, World, Json}
use twitter_like_client_serv.Server.ProfilesManager.Objects.{IsRegistered}
use twitter_like_client_serv.Server.Graph.{Graph, graph}
use twitter_like_client_serv.Server.Graph.Inner.{HasGraph}
use twitter_like_client_serv.Server.Main.{process_packet, first_packet, receive_profile_cmd}
use twitter_like_client_serv.Server.Main.Packets.{process_packet-Keeps}
use twitter_like_client_serv.Server.Main.Threads.{first_packet-Keeps}
use twitter_like_client_serv.Server.Main.Keeps.{IsRegistered-IsInvariant}
use twitter_like_client_serv.Server.Main.Lock.{Frees, process_packet-Frees, first_packet-Frees}
use twitter_like_client_serv.Server.Main.Replication.{
  effect, first_packet-effect, process_packet-effect,
}
use twitter_like_client_serv.Server.Main.Passing.{
  PassedOn, Adds, process_packet-Adds, first_packet-Adds,
}
use twitter_like_client_serv.Server.Main.Receipt.{
  delivered, times, IsReady, Replays, delivered-append, Replays-append, Replays-effect,
}

-- Packets that the primary handles to their ends, and all that it has sent meanwhile: the first packet
-- of a client that logs in, and packets of clients for the profiles of their senders.
pub data Handled ⦃json : Json⦄ : World → List (ℕ × List ℕ) → World → Type 0 where
  done : (w : World) → Handled w [] w
  login :
      (conn : ℕ) (packet : Packet) (b : List ℕ) (profile : Pointer)
      (ms rest all : List (ℕ × List ℕ)) (w w1 w2 : World)
      → packet.cmd ≡ CmdType.profile
      → IsSendable packet
      → Encoded packet b
      → receive_profile_cmd conn (bytes b) w ≡ returns profile w1
      → w1.net.sent ≡ w.net.sent ++ ms
      → all ≡ ms ++ rest
      → Handled w1 rest w2
      → Handled w all w2
  next :
      (conn : ℕ) (packet : Packet) (b : List ℕ) (quit : Bool) (ms rest all : List (ℕ × List ℕ))
      (w w1 w2 : World)
      → IsSendable packet
      → Encoded packet b
      → process_packet (some conn) (find packet.sender w.profiles) packet w ≡ returns quit w1
      → w1.net.sent ≡ w.net.sent ++ ms
      → all ≡ ms ++ rest
      → Handled w1 rest w2
      → Handled w all w2

module _ ⦃json : Json⦄ where
  -- The primary after the first packet of a client that logs in, and after any other packet.
  abbrev Next : Graph → CmdType → Packet → List ℕ → World → World → Type 0
  Next g cmd p b w w1 = IsReady w1 × HasGraph (effect p cmd g) w1 × Adds cmd b w w1

  login-Next :
      (g : Graph) (conn : ℕ) (p : Packet) (b : List ℕ) (profile : Pointer) (w w1 : World)
      → p.cmd ≡ CmdType.profile
      → IsSendable p
      → Encoded p b
      → receive_profile_cmd conn (bytes b) w ≡ returns profile w1
      → IsReady w
      → HasGraph g w
      → Next g CmdType.profile p b w w1
  unfolding receive_profile_cmd effect
  login-Next g conn p b profile w w1 cmd sendable e received ready h =
      let first : first_packet conn p CmdType.profile w ≡ returns profile w1 =
        sym (
          rw (receive_packet-to_bytes p b sendable e, given)
            (ap (λ d. first_packet conn p d w) cmd))
        ∙ received in
      (
        record {
          registered = subst (Ends IsRegistered) first (
              first_packet-Keeps IsRegistered IsRegistered-IsInvariant conn p CmdType.profile w
                ready.registered);
          free = subst Frees first (first_packet-Frees conn p w ready.free);
        },
        subst (λ f. HasGraph (effect p CmdType.profile f) w1) (fun_ext h)
            (subst (Ends (HasGraph (effect p CmdType.profile (graph w)))) first
              (first_packet-effect conn p w ready.registered ready.free.0 ready.free.1)),
        first_packet-Adds conn profile p b w w1 ready.free e first,
      )

  packet-Next :
      (g : Graph) (conn : ℕ) (p : Packet) (b : List ℕ) (quit : Bool) (w w1 : World)
      → Encoded p b
      → process_packet (some conn) (find p.sender w.profiles) p w ≡ returns quit w1
      → IsReady w
      → HasGraph g w
      → Next g p.cmd p b w w1
  packet-Next g conn p b quit w w1 e handled ready h = (
    record {
      registered = subst (Ends IsRegistered) handled (
          process_packet-Keeps IsRegistered IsRegistered-IsInvariant (some conn)
            (find p.sender w.profiles) p w ready.registered);
      free =
          subst Frees handled
            (process_packet-Frees (some conn) (find p.sender w.profiles) p w ready.free);
    },
    subst (Ends (HasGraph (effect p p.cmd g))) handled (
        process_packet-effect g (some conn) (find p.sender w.profiles) p w ready.registered
          ready.free.0 ready.free.1 refl h),
    process_packet-Adds (some conn) (find p.sender w.profiles) p b quit w w1 ready.registered
        ready.free e handled,
  )

  -- One packet on both sides. `ms` is what the primary has sent for it.
  both-effect :
      (g : Graph) (cmd : CmdType) (p : Packet) (c : ℕ) (b : List ℕ)
      (ms rest all : List (ℕ × List ℕ)) (w w1 v v' : World)
      → p.cmd ≡ cmd
      → IsSendable p
      → Encoded p b
      → Adds cmd b w w1
      → w1.net.sent ≡ w.net.sent ++ ms
      → all ≡ ms ++ rest
      → times c w.list_backups ≡ 1
      → IsReady v
      → HasGraph g v
      → Replays (delivered c all) v v'
      → (u : World) × IsReady u
        × HasGraph (effect p cmd g) u
        × Replays (delivered c rest) u v'
        × (times c w1.list_backups ≡ 1)
  both-effect g cmd p c b ms rest all w w1 v v' same_cmd sendable e (ns, sent, passed, backups) s
        whole once ready h run =
      let same_sent : ns ≡ ms =
        sym (drop-length w.net.sent ns)
        ∙ ap (drop (length w.net.sent)) (sym sent ∙ s)
        ∙ drop-length w.net.sent ms in
      let split : delivered c all ≡ delivered c ms ++ delivered c rest =
        ap (delivered c) whole ∙ delivered-append c ms rest in
      let (u, first, last) =
        Replays-append (delivered c ms) (delivered c rest) v v'
          (subst (λ l. Replays l v v') split run) in
      let (ready', h') =
        Replays-effect g cmd p c b w.list_backups ms v u same_cmd sendable e once
          (subst (PassedOn cmd b w.list_backups) same_sent passed) ready h first in
      (u, ready', h', last, ap (times c) backups ∙ once)

  agree_from :
      (g : Graph) (c : ℕ) {w : World} {all : List (ℕ × List ℕ)} {w' : World} (v v' : World)
      → Handled w all w'
      → times c w.list_backups ≡ 1
      → IsReady w
      → IsReady v
      → HasGraph g w
      → HasGraph g v
      → Replays (delivered c all) v v'
      → (id : Str) → graph v' id ≡ graph w' id
  unfolding delivered
  agree_from g c v v' (done w) once ready ready' hw hv last =
      λ id. ap (λ x. graph x id) (sym last) ∙ hv id ∙ sym (hw id)
  agree_from g c v v' (login conn p b i ms rest all w w1 w2 cmd sendable e received sent whole more)
        once ready ready' hw hv run =
      let (ready1, h1, adds) = login-Next g conn p b i w w1 cmd sendable e received ready hw in
      let (u, ready_u, hu, left, once') =
        both-effect g CmdType.profile p c b ms rest all w w1 v v' cmd sendable e adds sent whole
          once ready' hv run in
      agree_from (effect p CmdType.profile g) c u v' more once' ready1 ready_u h1 hu left
  agree_from g c v v' (next conn p b quit ms rest all w w1 w2 sendable e handled sent whole more)
        once ready ready' hw hv run =
      let (ready1, h1, adds) = packet-Next g conn p b quit w w1 e handled ready hw in
      let (u, ready_u, hu, left, once') =
        both-effect g p.cmd p c b ms rest all w w1 v v' refl sendable e adds sent whole once ready'
          hv run in
      agree_from (effect p p.cmd g) c u v' more once' ready1 ready_u h1 hu left

  -- A primary and its backup that have the same graph of names, both with nobody in their locks and
  -- with map and objects that fit together, have the same graph again after any packets that the
  -- primary handles to their ends, first packets of clients that log in or packets for the profiles of
  -- their senders that can be sent unchanged, and after the backup has received, in their order, all
  -- the messages that the primary has sent to it meanwhile, and has handled each to its end. The
  -- connection of the backup is in the primary's list once.
  pub replicas_agree :
      (c : ℕ) {w : World} {sent : List (ℕ × List ℕ)} {w' : World} (v v' : World)
      → Handled w sent w'
      → times c w.list_backups ≡ 1
      → IsReady w
      → IsReady v
      → ((id : Str) → graph v id ≡ graph w id)
      → Replays (delivered c sent) v v'
      → (id : Str) → graph v' id ≡ graph w' id
  replicas_agree c {w} v v' handled once ready ready' same_graph run =
      agree_from (graph w) c v v' handled once ready ready' (λ id. refl) same_graph run
