-- ===== src/Server/Graph/Follow.antt =====
-- `addFollowerTo` of server/ProfilesManager.cpp over the graph of names.
use twitter_like_client_serv.Base.{
  ℕ, ◌≡◌, refl, ap, ◌∙◌, false, some, List, [], ◌∷◌, ◌++◌, Str, same, get_elem?, set, arith,
  Option-cases, inl, inr, ◌⊎◌, Bool-cases,
}
use twitter_like_client_serv.Base.Map.{find, All-entries}
use twitter_like_client_serv.Exec.{Outcome, returns, ◌>>◌, bind}
use twitter_like_client_serv.Server.Profile.{Profile}
use twitter_like_client_serv.Server.Document.{names, entries, to_doc}
use twitter_like_client_serv.Server.World.{World, Json, deref, update, assign}
use twitter_like_client_serv.Server.ProfilesManager.{
  get_profile_by_id, has_follower, save, to_json_file, add_follower, add_follower_to,
}
use twitter_like_client_serv.Server.ProfilesManager.Objects.{IsRegistered}
use twitter_like_client_serv.Server.ProfilesManager.Keeps.{
  has_follower-Absent, other_target, pushed-IsRegistry,
}
use twitter_like_client_serv.Server.Graph.{graph, follow, is_member, names_total, entries_total}
use twitter_like_client_serv.Server.Graph.Pushed.{
  pushed-graph, follow_self, follow_unknown, follow_again,
}

-- The search by name over objects is the search in the list of their names.
has_follower-names :
    (id : Str) (fs : List ℕ) (ns : List Str) (w : World)
    → names w.heap fs ≡ some ns
    → has_follower id fs w ≡ returns (is_member id ns) w
unfolding has_follower names is_member deref
has_follower-names id [] ns w e = ground (arith, e)
has_follower-names id (f ∷ fs) ns w e = elim (Option-cases (get_elem? w.heap f)) [
  | inl bad ↦ absurd (ground (arith, bad, e))
  | inr (q, here) ↦ elim (Option-cases (names w.heap fs)) [
    | inl bad ↦ absurd (ground (arith, here, bad, e))
    | inr (ms, there) ↦ ground (arith, here, there, e, has_follower-names id fs ms w there)
  ]
]

-- What FOLLOW does. Either nothing changes, or the map stays and the document of the new state goes to
-- the file: `store` returns, or throws if the library cannot print the document. In both cases the
-- graph is that of `follow`, and the registry stays.
abbrev pub Follows : ⦃json : Json⦄ → World → Str → Str → Outcome World (Unit {0}) → Type 0
Follows ⦃json⦄ w followed n o =
    (w' : World) × (((w' ≡ w) × (o ≡ returns tt w))
      ⊎ ((es : List (Str × List Str)) × (entries w'.heap w'.profiles ≡ some es)
          × (o ≡ save (to_doc es) w')))
    × ((id : Str) → graph w' id ≡ follow followed n (graph w) id)
    × (w'.profiles ≡ w.profiles)
    × IsRegistered w'

module _ ⦃json : Json⦄ where
  pub to_json_file-store :
      (w : World)
      → IsRegistered w
      → (es : List (Str × List Str)) × (entries w.heap w.profiles ≡ some es)
        × (to_json_file w ≡ save (to_doc es) w)
  unfolding to_json_file
  to_json_file-store w r =
      let objects =
        All-entries (λ e. (p : Profile) × (get_elem? w.heap e.1 ≡ some p)) w.profiles r.sorted
          (λ k i e. let (p, at, name) = r.keyed k i e in (p, at)) in
      let (es, built) =
        entries_total w.heap w.profiles w.profiles (λ i p at. (r.followed i p at).valid) objects in
      (es, built, rw (built, bind))

  -- The pointers are distinct where the names are.
  push-Follows :
      (w : World) (followed : Str) (target follower : ℕ) (p f : Profile) (ns : List Str)
      → IsRegistered w
      → find followed w.profiles ≡ some target
      → get_elem? w.heap target ≡ some p
      → get_elem? w.heap follower ≡ some f
      → names w.heap p.followers ≡ some ns
      → is_member f.profile_id ns ≡ false
      → same f.profile_id followed ≡ false
      → Follows w followed f.profile_id (
          (update (some target) (λ q. record q { followers = q.followers ++ follower ∷ [] })
              >> to_json_file)
            w)
  unfolding update assign graph
  push-Follows w followed target follower p f ns r found at known followers fresh other =
      let missed : has_follower f.profile_id p.followers w ≡ returns false w =
        has_follower-names f.profile_id p.followers ns w followers ∙ ap (λ b. returns b w) fresh in
      let kept =
        pushed-IsRegistry target follower p f w at known
          (other_target followed target follower f w r known other found)
          (has_follower-Absent f.profile_id p.followers w follower f known refl missed) r in
      let (es, built, saved) =
        to_json_file-store
          (record w {
            heap = set w.heap target (record p { followers = p.followers ++ follower ∷ [] });
          })
          kept in
      (
        record w {
          heap = set w.heap target (record p { followers = p.followers ++ follower ∷ [] });
        },
        inr (es, built, rw at saved),
        pushed-graph w r followed f.profile_id target follower p f ns found at known refl followers
            fresh other,
        refl,
        kept,
      )

  found-Follows :
      (w : World) (followed : Str) (target follower : ℕ) (f : Profile)
      → IsRegistered w
      → find followed w.profiles ≡ some target
      → get_elem? w.heap follower ≡ some f
      → same f.profile_id followed ≡ false
      → Follows w followed f.profile_id (add_follower (some target) follower f.profile_id w)
  unfolding add_follower deref
  found-Follows w followed target follower f r found known other =
      let (p, at, name) = r.keyed followed target found in
      let (ns, followers) = names_total w.heap p.followers (r.followed target p at).valid in
      let searched = has_follower-names f.profile_id p.followers ns w followers in
      elim (Bool-cases (is_member f.profile_id ns)) [
        | inl there ↦ (
          w,
          inl (refl, rw at (rw searched (rw there))),
          (λ id. follow_again w followed f.profile_id target p ns id found at followers there),
          refl,
          r,
        )
        | inr fresh ↦ rw at (
            rw searched (
              rw fresh (
                push-Follows w followed target follower p f ns r found at known followers fresh
                  other)))
      ]

  -- FOLLOW, from an object and in a state where map and objects fit together, implements `follow` on
  -- the graph of names: a known other name gets one more follower, once. If nothing changes the call
  -- returns; else the document of the new state goes to the file, and the call ends as `store` does.
  -- Map and objects still fit together, and the map is as it was.
  pub add_follower_to-Follows :
      (w : World) (followed : Str) (follower : ℕ) (f : Profile)
      → IsRegistered w
      → get_elem? w.heap follower ≡ some f
      → Follows w followed f.profile_id (add_follower_to followed (some follower) w)
  unfolding add_follower_to deref get_profile_by_id
  add_follower_to-Follows w followed follower f r known =
      elim (Bool-cases (same f.profile_id followed)) [
        | inl self ↦ (
          w,
          inl (refl, rw known (rw self)),
          (λ id. follow_self w followed f.profile_id id self),
          refl,
          r,
        )
        | inr other ↦ elim (Option-cases (find followed w.profiles)) [
          | inl unknown ↦ (
            w,
            inl (refl, rw known (rw other (rw unknown (unfold add_follower in refl)))),
            (λ id. follow_unknown w followed f.profile_id id unknown),
            refl,
            r,
          )
          | inr (target, found) ↦
              rw known (
                rw other
                  (rw found (found-Follows w followed target follower f r found known other)))
        ]
      ]
