-- ===== src/Server/Graph/Pushed.antt =====
-- The graph of the server's objects when a follower has been pushed, and when none is.
use twitter_like_client_serv.Base.{
  ℕ, ◌≡◌, refl, sym, ap, ◌∙◌, true, false, none, some, List, [], ◌∷◌, ◌++◌, ◌>>=◌ as bind_option,
  ◌==◌, Str, same, same_iff, same_refl, same_cases, get_elem?, set, arith, Option-cases, inl, inr,
  ◌⊎◌, Bool-cases, ==_iff,
}
use twitter_like_client_serv.Base.Map.{find}
use twitter_like_client_serv.Server.Profile.{Profile}
use twitter_like_client_serv.Server.Document.{names}
use twitter_like_client_serv.Server.Registry.{get_elem?-set}
use twitter_like_client_serv.Server.World.{World}
use twitter_like_client_serv.Server.ProfilesManager.Objects.{IsRegistered}
use twitter_like_client_serv.Server.Graph.{
  graph, followers_at, follow, add_name, is_member, names-set, names-snoc,
}

-- The graph when `follower`, under the name `n`, has been pushed behind the followers of `target`.
module _ (w : World) (r : IsRegistered w) (followed n : Str) (target follower : ℕ) (p f : Profile)
    (ns : List Str) (found : find followed w.profiles ≡ some target)
    (at : get_elem? w.heap target ≡ some p) (known : get_elem? w.heap follower ≡ some f)
    (name : f.profile_id ≡ n) (followers : names w.heap p.followers ≡ some ns)
    (fresh : is_member n ns ≡ false) (other : same n followed ≡ false) where
  abbrev q : Profile
  q = record p { followers = p.followers ++ follower ∷ [] }

  abbrev heap' : List Profile
  heap' = set w.heap target q

  target_followers : followers_at heap' (some target) ≡ some (ns ++ n ∷ [])
  unfolding followers_at
  target_followers = rw (get_elem?-set w.heap target target q p at) (
      rw ((==_iff target target).1 refl) (
        names-set w.heap target p q (p.followers ++ follower ∷ []) at refl
        ∙ names-snoc w.heap p.followers follower ns f followers known
        ∙ ap (λ m. some (ns ++ m ∷ [])) name))

  other_followers :
      (i : ℕ) → (target == i) ≡ false → followers_at heap' (some i) ≡ followers_at w.heap (some i)
  unfolding followers_at
  other_followers i ne =
      rw (get_elem?-set w.heap target i q p at)
        (rw ne (same_names (Option-cases (get_elem? w.heap i))))
    where
      same_names :
          (get_elem? w.heap i ≡ none) ⊎ ((o : Profile) × (get_elem? w.heap i ≡ some o))
          → bind_option (get_elem? w.heap i) (λ o. names heap' o.followers)
            ≡ bind_option (get_elem? w.heap i) (λ o. names w.heap o.followers)
      same_names (inl e) = rw e
      same_names (inr (o, e)) = rw e (names-set w.heap target p q o.followers at refl)

  unknown_name :
      (id : Str)
      → find id w.profiles ≡ none
      → followers_at heap' none ≡ follow followed n (graph w) id
  unfolding follow graph followers_at
  unknown_name id unknown = ground (arith, unknown)

  same_target : (id : Str) (i : ℕ) → find id w.profiles ≡ some i → i ≡ target → id ≡ followed
  same_target id i e place =
      let (o, here, named) = r.keyed id i e in
      let (u, there, named') = r.keyed followed target found in
      ground (arith, ap (get_elem? w.heap) place)

  target_name : (id : Str) → id ≡ followed → follow followed n (graph w) id ≡ some (ns ++ n ∷ [])
  unfolding follow graph followers_at add_name
  target_name id e = rw e (ground (arith, found, at, followers, fresh, other, same_refl followed))

  other_name :
      (id : Str) (i : ℕ)
      → find id w.profiles ≡ some i
      → (target == i) ≡ false
      → follow followed n (graph w) id ≡ followers_at w.heap (some i)
  unfolding follow graph
  other_name id i e ne = ground (
    arith,
    e,
    ne,
    found,
    same_iff followed id,
    ap (λ (k : Str). find k w.profiles) {x = followed} {y = id},
    ==_iff target i,
  )

  pub pushed-graph :
      (id : Str) → followers_at heap' (find id w.profiles) ≡ follow followed n (graph w) id
  pushed-graph id = elim (Option-cases (find id w.profiles)) [
    | inl unknown ↦ rw unknown (unknown_name id unknown)
    | inr (i, e) ↦ elim (Bool-cases (target == i)) [
      | inl here ↦
          let place : i ≡ target = ground (arith, ==_iff target i) in
          rw e (rw place target_followers) ∙ sym (target_name id (same_target id i e place))
      | inr there ↦ rw e (other_followers i there) ∙ sym (other_name id i e there)
    ]
  ]

-- The three ways in which FOLLOW changes nothing.
pub follow_self :
    (w : World) (followed n : Str) (id : Str)
    → same n followed ≡ true
    → graph w id ≡ follow followed n (graph w) id
unfolding follow
follow_self w followed n id self = ground (arith, self)

pub follow_unknown :
    (w : World) (followed n : Str) (id : Str)
    → find followed w.profiles ≡ none
    → graph w id ≡ follow followed n (graph w) id
unfolding follow graph followers_at
follow_unknown w followed n id unknown = elim (same_cases followed id) [
  | inl e ↦ rw (← e) (ground (arith, unknown))
  | inr (e, ne) ↦ ground (arith, e)
]

pub follow_again :
    (w : World) (followed n : Str) (target : ℕ) (p : Profile) (ns : List Str) (id : Str)
    → find followed w.profiles ≡ some target
    → get_elem? w.heap target ≡ some p
    → names w.heap p.followers ≡ some ns
    → is_member n ns ≡ true
    → graph w id ≡ follow followed n (graph w) id
unfolding follow graph followers_at add_name
follow_again w followed n target p ns id found at followers there = elim (same_cases followed id) [
  | inl e ↦ rw (← e) (ground (arith, found, at, followers, there))
  | inr (e, ne) ↦ ground (arith, e)
]
