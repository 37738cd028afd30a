-- ===== src/Server/ProfilesManager/Broadcast.antt =====
-- `sendToFollowersOf` of server/ProfilesManager.cpp: what becomes of a message to each follower.
use twitter_like_client_serv.Base.{
  ℕ, ◌<◌, ◌≡◌, refl, sym, ap, ◌∙◌, subst, Bool, false, none, some, List, [], ◌∷◌, ◌++◌, ◌==◌, ◌||◌,
  if◌then◌else◌, get_elem?, get_elem?_total, set, length, length-set, All, append_assoc, append-nil,
  arith, ==_iff, Bool-cases, inl, inr,
}
use twitter_like_client_serv.Base.Int.{is_positive}
use twitter_like_client_serv.Exec.{returns}
use twitter_like_client_serv.Packet.{Packet}
use twitter_like_client_serv.Server.Profile.{Profile, send_or_insert_inbox}
use twitter_like_client_serv.Server.Profile.Delivery.{Encoded, copies, send_or_insert_inbox_cases}
use twitter_like_client_serv.Server.Registry.{Absent, Distinct, get_elem?-set}
use twitter_like_client_serv.Server.World.{World, update_sending, assign}
use twitter_like_client_serv.Server.ProfilesManager.{send_to_each}

-- The message, once for each session that is no null pointer of a profile that is logged in.
unfoldable pub messages_to : List ℕ → Profile → List (ℕ × List ℕ)
messages_to b p = if is_positive p.sessions_on then copies b p.sessions else []

-- The messages to each of the followers.
unfoldable pub messages : List ℕ → List Profile → List ℕ → List (ℕ × List ℕ)
messages b heap [] = []
messages b heap (f ∷ fs) = elim (get_elem? heap f) [
  | none ↦ messages b heap fs
  | some p ↦ messages_to b p ++ messages b heap fs
]

unfoldable pub is_among : ℕ → List ℕ → Bool
is_among i [] = false
is_among i (f ∷ fs) = f == i || is_among i fs

-- The profile after a packet: it waits in the inbox of a profile that nobody is logged in to.
unfoldable pub notified : Packet → Profile → Profile
notified packet p =
    if is_positive p.sessions_on then p else record p { inbox = p.inbox ++ packet ∷ [] }

-- The objects after a packet to the followers `fs`.
abbrev pub Notified : Packet → List ℕ → List Profile → List Profile → Type 0
Notified packet fs heap heap' =
    (length heap' ≡ length heap)
    × ((i : ℕ) (p : Profile)
        → get_elem? heap i ≡ some p
        → get_elem? heap' i ≡ some (if is_among i fs then notified packet p else p))

Absent-is_among : (i : ℕ) (fs : List ℕ) → Absent i fs → is_among i fs ≡ false
unfolding is_among
Absent-is_among i [] a = refl
Absent-is_among i (f ∷ fs) a = ground (arith, Absent-is_among i fs a.1, ==_iff f i, a.0)

-- The messages do not depend on the inboxes.
messages-set :
    (b : List ℕ) (heap : List Profile) (i : ℕ) (p : Profile) (packet : Packet) (fs : List ℕ)
    → get_elem? heap i ≡ some p
    → messages b (set heap i (notified packet p)) fs ≡ messages b heap fs
unfolding messages messages_to notified
messages-set b heap i p packet [] at = refl
messages-set b heap i p packet (f ∷ fs) at = ground (
  arith,
  get_elem?-set heap i f (notified packet p) p at,
  messages-set b heap i p packet fs at,
  ==_iff i f,
  ap (get_elem? heap) {x = i} {y = f},
)

pub messages-cons :
    (b : List ℕ) (heap : List Profile) (f : ℕ) (fs : List ℕ) (p : Profile)
    → get_elem? heap f ≡ some p
    → messages b heap (f ∷ fs) ≡ messages_to b p ++ messages b heap fs
unfolding messages
messages-cons b heap f fs p at = ground (arith, at)

one_notified :
    (packet : Packet) (b : List ℕ) (w : World) (f : ℕ) (p : Profile)
    → Encoded packet b
    → get_elem? w.heap f ≡ some p
    → update_sending (some f) (send_or_insert_inbox packet) w
      ≡ returns tt (record w {
        heap = set w.heap f (notified packet p);
        net = record w.net { sent = w.net.sent ++ messages_to b p };
      })
unfolding update_sending assign notified messages_to
one_notified packet b w f p e at = elim (Bool-cases (is_positive p.sessions_on)) [
  | inl on ↦ rw (at, send_or_insert_inbox_cases packet b p w.net e, on)
  | inr off ↦ rw (at, send_or_insert_inbox_cases packet b p w.net e, off, append-nil)
]

-- What is received at the head and then by the rest.
Notified-cons :
    (packet : Packet) (f : ℕ) (fs : List ℕ) (heap heap' : List Profile) (p : Profile)
    → get_elem? heap f ≡ some p
    → Absent f fs
    → Notified packet fs (set heap f (notified packet p)) heap'
    → Notified packet (f ∷ fs) heap heap'
unfolding is_among
Notified-cons packet f fs heap heap' p at new (size, each) = (
  size ∙ length-set heap f (notified packet p),
  λ i q e. elim (Bool-cases (f == i)) [
    | inl here ↦ ground (
      arith,
      here,
      e,
      at,
      ap (get_elem? heap) ((==_iff f i).0 here),
      ap (λ j. is_among j fs) ((==_iff f i).0 here),
      Absent-is_among f fs new,
      each i (notified packet p) (ground (arith, get_elem?-set heap f i (notified packet p) p at)),
    )
    | inr there ↦ ground (
      arith,
      there,
      each i q (ground (arith, e, there, get_elem?-set heap f i (notified packet p) p at)),
    )
  ],
)

-- The loop of `sendToFollowersOf`.
pub send_to_each-Notified :
    (packet : Packet) (b : List ℕ) (fs : List ℕ) (w : World)
    → Encoded packet b
    → All (λ f. f < length w.heap) fs
    → Distinct fs
    → (heap' : List Profile) × (send_to_each packet fs w
        ≡ returns tt (record w {
          heap = heap';
          net = record w.net { sent = w.net.sent ++ messages b w.heap fs };
        }))
      × Notified packet fs w.heap heap'
unfolding send_to_each is_among
send_to_each-Notified packet b [] w e a d =
    (w.heap, unfold messages in rw append-nil, (refl, λ i p at. at))
send_to_each-Notified packet b (f ∷ fs) w e a d =
    let (p, at) = get_elem?_total w.heap f a.0 in
    let v : World = record w {
      heap = set w.heap f (notified packet p);
      net = record w.net { sent = w.net.sent ++ messages_to b p };
    } in
    let (heap', run, all) =
      send_to_each-Notified packet b fs v e
        (subst (λ n. All (λ g. g < n) fs) (sym (length-set w.heap f (notified packet p))) a.1)
        d.1 in
    let whole : v.net.sent ++ messages b v.heap fs ≡ w.net.sent ++ messages b w.heap (f ∷ fs) =
      ap (λ ms. v.net.sent ++ ms) (messages-set b w.heap f p packet fs at)
      ∙ append_assoc w.net.sent (messages_to b p) (messages b w.heap fs)
      ∙ ap (λ ms. w.net.sent ++ ms) (sym (messages-cons b w.heap f fs p at)) in
    (
      heap',
      rw (one_notified packet b w f p e at) (
          run
          ∙ ap (λ ms. returns tt (record w { heap = heap'; net = record w.net { sent = ms } }))
              whole),
      Notified-cons packet f fs w.heap heap' p at d.0 all,
    )
