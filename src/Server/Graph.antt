-- ===== src/Server/Graph.antt =====
-- What the server promises about followers: a graph of names, without objects and pointers.
pub mod Inner
pub mod Create
pub mod Pushed
pub mod Follow
pub mod Restore
use twitter_like_client_serv.Base.{
  ℕ, zero, suc, ◌+◌, ◌<◌, ◌≡◌, refl, sym, ap, ◌∙◌, Bool, true, false, not, ◌&&◌, ◌||◌, Option, none,
  some, List, [], ◌∷◌, ◌++◌, ◌>>=◌, ◌==◌, Str, same, if◌then◌else◌, get_elem?, set, length, All,
  arith, Option-cases, inl, inr, Bool-cases, ==_iff, get_elem?_total,
}
use twitter_like_client_serv.Base.Map.{find}
use twitter_like_client_serv.Server.Profile.{Profile}
use twitter_like_client_serv.Server.Document.{names, entries}
use twitter_like_client_serv.Server.Registry.{IsRegistry, get_elem?-set}
use twitter_like_client_serv.Server.World.{World}

-- The names of the followers of each name that is known.
abbrev pub Graph : Type 0
Graph = Str → Option (List Str)

unfoldable pub followers_at : List Profile → Option ℕ → Option (List Str)
followers_at heap none = none
followers_at heap (some i) = get_elem? heap i >>= (λ p. names heap p.followers)

unfoldable pub graph : World → Graph
graph w id = followers_at w.heap (find id w.profiles)

unfoldable pub is_member : Str → List Str → Bool
is_member n [] = false
is_member n (m ∷ ms) = if same m n then true else is_member n ms

unfoldable pub add_name : Str → List Str → List Str
add_name n ns = if is_member n ns then ns else ns ++ n ∷ []

-- What FOLLOW means: the name is added behind the followers of a known other name, once.
unfoldable pub follow : Str → Str → Graph → Graph
follow followed follower g id =
    if same followed id && not (same follower followed)
    then g id >>= (λ ns. some (add_name follower ns))
    else g id

pub names_total :
    (heap : List Profile) (fs : List ℕ)
    → All (λ f. f < length heap) fs
    → (ns : List Str) × (names heap fs ≡ some ns)
unfolding names
names_total heap [] a = ([], refl)
names_total heap (f ∷ fs) a =
    let (p, at) = get_elem?_total heap f a.0 in
    let (ns, e) = names_total heap fs a.1 in (p.profile_id ∷ ns, rw (at, ◌>>=◌) (rw (e, ◌>>=◌)))

-- The names do not depend on anything but the names of the objects.
pub names-set :
    (heap : List Profile) (i : ℕ) (p q : Profile) (fs : List ℕ)
    → get_elem? heap i ≡ some p
    → q.profile_id ≡ p.profile_id
    → names (set heap i q) fs ≡ names heap fs
unfolding names
names-set heap i p q [] at e = refl
names-set heap i p q (f ∷ fs) at e = elim (Bool-cases (i == f)) [
  | inl here ↦ ground (
    arith,
    get_elem?-set heap i f q p at,
    names-set heap i p q fs at e,
    ==_iff i f,
    ap (get_elem? heap) ((==_iff i f).0 here),
  )
  | inr there ↦ ground (arith, get_elem?-set heap i f q p at, names-set heap i p q fs at e)
]

pub names-snoc :
    (heap : List Profile) (fs : List ℕ) (f : ℕ) (ns : List Str) (p : Profile)
    → names heap fs ≡ some ns
    → get_elem? heap f ≡ some p
    → names heap (fs ++ f ∷ []) ≡ some (ns ++ p.profile_id ∷ [])
unfolding names
names-snoc heap [] f ns p e at = rw at (ground (arith, e))
names-snoc heap (g ∷ gs) f ns p e at = elim (Option-cases (get_elem? heap g)) [
  | inl bad ↦ absurd (ground (arith, bad, e))
  | inr (q, here) ↦ elim (Option-cases (names heap gs)) [
    | inl bad ↦ absurd (ground (arith, here, bad, e))
    | inr (ms, there) ↦ ground (arith, here, there, e, names-snoc heap gs f ms p there at)
  ]
]

-- The document of a registry can be built.
pub entries_total :
    (heap : List Profile) (profiles m : List (Str × ℕ))
    → ((i : ℕ) (p : Profile) → get_elem? heap i ≡ some p → All (λ f. f < length heap) p.followers)
    → All (λ e. (p : Profile) × (get_elem? heap e.1 ≡ some p)) m
    → (es : List (Str × List Str)) × (entries heap m ≡ some es)
unfolding entries
entries_total heap profiles [] valid a = ([], refl)
entries_total heap profiles ((id, i) ∷ m) valid ((p, at), a) =
    let (ns, e) = names_total heap p.followers (valid i p at) in
    let (es, d) = entries_total heap profiles m valid a in
    ((id, ns) ∷ es, rw (at, ◌>>=◌) (rw (e, ◌>>=◌) (rw (d, ◌>>=◌))))
