-- ===== src/Server/Main/Receipt.antt =====
-- What a backup makes of the messages that the primary has sent to it: `receiveAlive` of
-- server/main.cpp, while the handling of each returns.
use twitter_like_client_serv.Base.{
  ℕ, ◌+◌, ◌≡◌, refl, ◌∙◌, ap, subst, List, [], ◌∷◌, ◌++◌, ◌==◌, if◌then◌else◌, All, Bool-cases, inl,
  inr, arith,
}
use twitter_like_client_serv.Exec.{returns, Ends}
use twitter_like_client_serv.Packet.{Packet, CmdType}
use twitter_like_client_serv.Packet.RoundTrip.{IsSendable}
use twitter_like_client_serv.Connection.{bytes}
use twitter_like_client_serv.Server.Profile.Delivery.{Encoded}
use twitter_like_client_serv.Server.World.{World, Json}
use twitter_like_client_serv.Server.ProfilesManager.Objects.{IsRegistered}
use twitter_like_client_serv.Server.ProfilesManager.Quiet.{Counts}
use twitter_like_client_serv.Server.Graph.{Graph}
use twitter_like_client_serv.Server.Graph.Inner.{HasGraph}
use twitter_like_client_serv.Server.Main.{replay}
use twitter_like_client_serv.Server.Main.Threads.{replay-Keeps}
use twitter_like_client_serv.Server.Main.Keeps.{IsRegistered-IsInvariant}
use twitter_like_client_serv.Server.Main.Lock.{Frees, replay-Frees}
use twitter_like_client_serv.Server.Main.Replication.{effect, replay-effect}
use twitter_like_client_serv.Server.Main.Send.{replicas}
use twitter_like_client_serv.Server.Main.Passing.{PassedOn}

-- The messages for the connection `c`, in their order.
unfoldable pub delivered : ℕ → List (ℕ × List ℕ) → List (List ℕ)
delivered c [] = []
delivered c ((d, b) ∷ ms) = let rest = delivered c ms in if d == c then b ∷ rest else rest

-- How often `c` is in the list.
unfoldable pub times : ℕ → List ℕ → ℕ
times c [] = 0
times c (d ∷ ds) = let rest = times c ds in if d == c then rest + 1 else rest

-- A server between two packets.
pub record IsReady (w : World) : Type 0 where
  pub registered : IsRegistered w
  pub free : Counts 0 0 w

-- A backup receives these messages, one after the other, and handles each to its end.
abbrev pub Replays : ⦃json : Json⦄ → List (List ℕ) → World → World → Type 0
Replays [] v v' = v ≡ v'
Replays (b ∷ bs) v v' = (u : World) × (replay (bytes b) v ≡ returns tt u) × Replays bs u v'

pub delivered-append :
    (c : ℕ) (ms ns : List (ℕ × List ℕ)) → delivered c (ms ++ ns) ≡ delivered c ms ++ delivered c ns
unfolding delivered
delivered-append c [] ns = refl
delivered-append c ((d, b) ∷ ms) ns = ground (arith, delivered-append c ms ns)

delivered-none :
    (c : ℕ) (b conns : List ℕ) → times c conns ≡ 0 → delivered c (replicas b conns) ≡ []
unfolding delivered times
delivered-none c b [] h = refl
delivered-none c b (d ∷ ds) h = ground (arith, h, delivered-none c b ds)

-- A backup that is in the list once is sent one message.
delivered-once :
    (c : ℕ) (b conns : List ℕ) → times c conns ≡ 1 → delivered c (replicas b conns) ≡ b ∷ []
unfolding delivered times
delivered-once c b [] h = absurd (omega (arith, h))
delivered-once c b (d ∷ ds) h = elim (Bool-cases (d == c)) [
  | inl here ↦ ground (arith, here, h, delivered-none c b ds)
  | inr there ↦ ground (arith, there, h, delivered-once c b ds)
]

delivered-same :
    (c : ℕ) (b : List ℕ) (ms : List (ℕ × List ℕ))
    → All (λ m. m.1 ≡ b) ms
    → All (λ x. x ≡ b) (delivered c ms)
unfolding delivered
delivered-same c b [] a = tt
delivered-same c b ((d, x) ∷ ms) a = elim (Bool-cases (d == c)) [
  | inl here ↦ rw here (a.0, delivered-same c b ms a.1)
  | inr there ↦ rw there (delivered-same c b ms a.1)
]

module _ ⦃json : Json⦄ where
  pub Replays-append :
      (xs ys : List (List ℕ)) (v v' : World)
      → Replays (xs ++ ys) v v'
      → (u : World) × Replays xs v u × Replays ys u v'
  Replays-append [] ys v v' h = (v, refl, h)
  Replays-append (x ∷ xs) ys v v' (u, run, h) =
      let (t, first, last) = Replays-append xs ys u v' h in (t, (u, run, first), last)

  pub replay-IsReady :
      (g : Graph) (cmd : CmdType) (p : Packet) (b : List ℕ) (v v1 : World)
      → p.cmd ≡ cmd
      → IsSendable p
      → Encoded p b
      → IsReady v
      → HasGraph g v
      → replay (bytes b) v ≡ returns tt v1
      → IsReady v1 × HasGraph (effect p cmd g) v1
  replay-IsReady g cmd p b v v1 same_cmd sendable e ready h ended = (
    record {
      registered =
          subst (Ends IsRegistered) ended
            (replay-Keeps IsRegistered IsRegistered-IsInvariant (bytes b) v ready.registered);
      free = subst Frees ended (replay-Frees p b v sendable e ready.free);
    },
    subst (λ d. HasGraph (effect p d g) v1) same_cmd
        (subst (Ends (HasGraph (effect p p.cmd g))) ended
          (replay-effect g p b v sendable e ready.registered ready.free.0 ready.free.1 h)),
  )

  -- One message.
  Replays-one :
      (g : Graph) (cmd : CmdType) (p : Packet) (c : ℕ) (b conns : List ℕ) (ms : List (ℕ × List ℕ))
      (v v1 : World)
      → p.cmd ≡ cmd
      → IsSendable p
      → Encoded p b
      → times c conns ≡ 1
      → ms ≡ replicas b conns
      → IsReady v
      → HasGraph g v
      → Replays (delivered c ms) v v1
      → IsReady v1 × HasGraph (effect p cmd g) v1
  Replays-one g cmd p c b conns ms v v1 same_cmd sendable e once passed ready h run =
      let only = ap (delivered c) passed ∙ delivered-once c b conns once in
      let (u, replayed, last) = subst (λ l. Replays l v v1) only run in
      subst (λ x. IsReady x × HasGraph (effect p cmd g) x) last
        (replay-IsReady g cmd p b v u same_cmd sendable e ready h replayed)

  -- Any number of copies of a SEND.
  Replays-send :
      (g : Graph) (p : Packet) (b : List ℕ) (bs : List (List ℕ)) (v v1 : World)
      → p.cmd ≡ CmdType.send
      → IsSendable p
      → Encoded p b
      → All (λ x. x ≡ b) bs
      → IsReady v
      → HasGraph g v
      → Replays bs v v1
      → IsReady v1 × HasGraph g v1
  unfolding effect
  Replays-send g p b [] v v1 send sendable e a ready h last =
      subst (λ x. IsReady x × HasGraph g x) last (ready, h)
  Replays-send g p b (x ∷ bs) v v1 send sendable e a ready h (u, replayed, run) =
      let (ready', h') =
        replay-IsReady g CmdType.send p b v u send sendable e ready h
          (subst (λ y. replay (bytes y) v ≡ returns tt u) a.0 replayed) in
      Replays-send g p b bs u v1 send sendable e a.1 ready' h' run

  -- A backup that has received what a handled packet has sent it.
  pub Replays-effect :
      (g : Graph) (cmd : CmdType) (p : Packet) (c : ℕ) (b conns : List ℕ) (ms : List (ℕ × List ℕ))
      (v v1 : World)
      → p.cmd ≡ cmd
      → IsSendable p
      → Encoded p b
      → times c conns ≡ 1
      → PassedOn cmd b conns ms
      → IsReady v
      → HasGraph g v
      → Replays (delivered c ms) v v1
      → IsReady v1 × HasGraph (effect p cmd g) v1
  unfolding effect delivered
  Replays-effect g CmdType.profile p c b conns ms v v1 =
      Replays-one g CmdType.profile p c b conns ms v v1
  Replays-effect g CmdType.follow p c b conns ms v v1 =
      Replays-one g CmdType.follow p c b conns ms v v1
  Replays-effect g CmdType.close_conn p c b conns ms v v1 =
      Replays-one g CmdType.close_conn p c b conns ms v v1
  Replays-effect g CmdType.send p c b conns ms v v1 = λ send sendable e once passed ready h run.
      Replays-send g p b (delivered c ms) v v1 send sendable e (delivered-same c b ms passed) ready
        h run
  Replays-effect g _ p c b conns ms v v1 = λ same_cmd sendable e once passed ready h run.
      subst (λ x. IsReady x × HasGraph g x) (subst (λ l. Replays (delivered c l) v v1) passed run)
        (ready, h)
