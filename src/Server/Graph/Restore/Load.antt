-- ===== src/Server/Graph/Restore/Load.antt =====
-- `fromJsonFile` of server/ProfilesManager.cpp, loop by loop.
use mathlib.Core.Path.{fun_ext}
use twitter_like_client_serv.Base.{
  ℕ, ◌≡◌, refl, sym, ap, ◌∙◌, subst, Bool, true, none, some, List, [], ◌∷◌, ◌++◌, Str, same_iff,
  same_refl, length, arith, All, Option-cases, inl, inr,
}
use twitter_like_client_serv.Base.Map.{find, IsMap, insert, find-insert, find-Above}
use twitter_like_client_serv.Exec.{Outcome, returns}
use twitter_like_client_serv.Server.Profile.{new_profile}
use twitter_like_client_serv.Server.Document.{to_doc}
use twitter_like_client_serv.Server.World.{World, Doc, Json, allocate}
use twitter_like_client_serv.Server.ProfilesManager.{
  get_profile_by_id, store, save, add_follower_to, restore_profiles, restore_followers,
  restore_entries,
}
use twitter_like_client_serv.Server.Registry.{insert-IsRegistry}
use twitter_like_client_serv.Server.ProfilesManager.Objects.{IsRegistered}
use twitter_like_client_serv.Server.Graph.{Graph, graph, followers_at, follow}
use twitter_like_client_serv.Server.Graph.Create.{graph_made}
use twitter_like_client_serv.Server.Graph.Follow.{add_follower_to-Follows}
use twitter_like_client_serv.Server.Graph.Restore.Fill.{Entry, opened, follow_all, fill}
use twitter_like_client_serv.Server.Graph.Restore.Entries.{IsPlain, doc-IsPlain}

-- The keys of the map are UTF-8.
abbrev pub HasTexts : (Str → Bool) → World → Type 0
HasTexts is_utf8 w = (id : Str) (i : ℕ) → find id w.profiles ≡ some i → is_utf8 id ≡ true

-- The call returns, with the graph `g`.
abbrev pub Loads : (Str → Bool) → Graph → Outcome World (Unit {0}) → Type 0
Loads is_utf8 g o =
    (b : World) × (o ≡ returns tt b) × IsRegistered b × HasTexts is_utf8 b × (graph b ≡ g)

-- The call returns with the same map, and with the graph `g`.
abbrev pub Fills : World → Graph → Outcome World (Unit {0}) → Type 0
Fills a g o =
    (b : World) × (o ≡ returns tt b) × IsRegistered b × (b.profiles ≡ a.profiles) × (graph b ≡ g)

-- The name has an object.
abbrev pub HasName : World → Str → Type 0
HasName w n = (i : ℕ) × (find n w.profiles ≡ some i)

pub graph-HasName : (w : World) (n : Str) (ns : List Str) → graph w n ≡ some ns → HasName w n
unfolding graph followers_at
graph-HasName w n ns e = elim (Option-cases (find n w.profiles)) [
  | inl bad ↦ absurd (ground (arith, bad, e))
  | inr found ↦ found
]

module _ ⦃json : Json⦄ (is_utf8 : Str → Bool) where
  -- The first loop: each key gets a new object.
  pub restore_profiles-Loads :
      (es : List Entry) (a : World)
      → IsRegistered a
      → HasTexts is_utf8 a
      → IsMap es
      → All (λ (e : Entry). is_utf8 e.0 ≡ true) es
      → ((id : Str) (ns : List Str) → find id es ≡ some ns → find id a.profiles ≡ none)
      → Loads is_utf8 (opened es (graph a)) (restore_profiles es a)
  unfolding restore_profiles opened find new_profile allocate
  restore_profiles-Loads [] a r t m u free = (a, refl, r, t, refl)
  restore_profiles-Loads ((id, ns) ∷ es) a r t m u free =
      let new : find id a.profiles ≡ none = free id ns (rw (same_refl id)) in
      let (b, run, r', t', g) =
        restore_profiles-Loads es
          (record a {
            heap = a.heap ++ new_profile id ∷ [];
            profiles = insert id (length a.heap) a.profiles;
          })
          (insert-IsRegistry a.heap a.profiles (new_profile id) new refl r)
          (λ j i e. ground (
            arith,
            e,
            find-insert j id (length a.heap) a.profiles new,
            t j i,
            u.0,
            same_iff id j,
            ap is_utf8 {x = id} {y = j},
          ))
          m.1 u.1
          (λ j ms e. ground (
            arith,
            e,
            find-insert j id (length a.heap) a.profiles new,
            free j ms,
            same_iff id j,
            find-Above id es m.0,
            ap (λ (k : Str). find k es) {x = id} {y = j},
          )) in
      (b, run, r', t', g ∙ ap (opened es) (fun_ext (graph_made a id r new)))

module _ ⦃json : Json⦄ (is_utf8 : Str → Bool)
    (prints : (d : Doc)
      → IsPlain is_utf8 d
      → (text : Str) × (json.dump d ≡ some text) × (json.parse text ≡ some d)) where
  -- One follower: the document of the new state can be printed.
  add_follower_to-Fills :
      (id n : Str) (a : World) (i : ℕ)
      → IsRegistered a
      → HasTexts is_utf8 a
      → find n a.profiles ≡ some i
      → Fills a (follow id n (graph a)) (add_follower_to id (some i) a)
  unfolding graph save store
  add_follower_to-Fills id n a i r t found =
      let (p, at, name) = r.keyed n i found in
      let (w, ending, g, keys, r') = add_follower_to-Follows a id i p r at in
      let all = subst (λ m. graph w ≡ follow id m (graph a)) name (fun_ext g) in
      elim ending [
        | inl (still, done) ↦ (w, done ∙ ap (returns tt) (sym still), r', keys, all)
        | inr (es, built, done) ↦
            let (text, printed, back) = prints (to_doc es) (
              doc-IsPlain w.heap w.profiles r' es built is_utf8
                (λ j k e. t j k (ap (find j) (sym keys) ∙ e))) in
            (
              record w { file = some text },
              done ∙ ap (λ o. store (json.reached (to_doc es)) o w) printed,
              r',
              keys,
              all,
            )
      ]

  -- The loop over the followers of one entry.
  restore_followers-Fills :
      (id : Str) (ns : List Str) (a : World)
      → IsRegistered a
      → HasTexts is_utf8 a
      → All (HasName a) ns
      → Fills a (follow_all id ns (graph a)) (restore_followers id ns a)
  unfolding restore_followers follow_all get_profile_by_id
  restore_followers-Fills id [] a r t h = (a, refl, r, refl, refl)
  restore_followers-Fills id (n ∷ ns) a r t h =
      let (i, found) = h.0 in
      let (b, run, r', keys, g) = add_follower_to-Fills id n a i r t found in
      let (c, run', r'', keys', g') =
        restore_followers-Fills id ns b r' (λ j k e. t j k (ap (find j) (sym keys) ∙ e))
          (subst (λ m. All (λ n. (i : ℕ) × (find n m ≡ some i)) ns) (sym keys) h.1) in
      (c, rw found (rw run run'), r'', keys' ∙ keys, g' ∙ ap (follow_all id ns) g)

  -- The second loop of `fromJsonFile`.
  pub restore_entries-Fills :
      (es : List Entry) (a : World)
      → IsRegistered a
      → HasTexts is_utf8 a
      → All (λ (e : Entry). All (HasName a) e.1) es
      → Fills a (fill es (graph a)) (restore_entries es a)
  unfolding restore_entries fill
  restore_entries-Fills [] a r t h = (a, refl, r, refl, refl)
  restore_entries-Fills ((id, ns) ∷ es) a r t h =
      let (b, run, r', keys, g) = restore_followers-Fills id ns a r t h.0 in
      let (c, run', r'', keys', g') =
        restore_entries-Fills es b r' (λ j k e. t j k (ap (find j) (sym keys) ∙ e))
          (subst (λ m. All (λ (e : Entry). All (λ n. (i : ℕ) × (find n m ≡ some i)) e.1) es)
            (sym keys) h.1) in
      (c, rw run run', r'', keys' ∙ keys, g' ∙ ap (fill es) g)
