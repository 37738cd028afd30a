-- ===== src/Server/Graph/Create.antt =====
-- `createProfileIfNotExists` of server/ProfilesManager.cpp over the graph of names.
use twitter_like_client_serv.Base.{
  ℕ, ◌≡◌, refl, none, some, List, [], ◌∷◌, ◌++◌, Str, same, same_cases, if◌then◌else◌, get_elem?,
  get_elem?-append, get_elem?-length, length, arith, Option-cases, Bool-cases, inl, inr, ◌⊎◌,
}
use twitter_like_client_serv.Base.Int.{is_num}
use twitter_like_client_serv.Base.Map.{find, insert, find-insert}
use twitter_like_client_serv.Exec.{Ends, Ends-bind}
use twitter_like_client_serv.Server.Profile.{Profile, Session, new_profile, inc_sessions_on}
use twitter_like_client_serv.Server.Document.{names}
use twitter_like_client_serv.Server.World.{World, Json, allocate}
use twitter_like_client_serv.Server.ProfilesManager.{
  get_profile_by_id, insert_profile, admit, create_profile_if_not_exists,
}
use twitter_like_client_serv.Server.ProfilesManager.Local.{
  quiet, deref-Keeps, refuse-Keeps, to_json_file-Keeps,
}
use twitter_like_client_serv.Server.ProfilesManager.Objects.{IsRegistered}
use twitter_like_client_serv.Server.ProfilesManager.Keeps.{is_key_free}
use twitter_like_client_serv.Server.Graph.{Graph, graph, followers_at, names_total}
use twitter_like_client_serv.Server.Graph.Inner.{HasGraph, HasGraph-IsLocal, update-HasGraph}

-- A name that nobody has, with no followers.
unfoldable pub register : Str → Graph → Graph
register id g j = if same id j then elim (g id) [ none ↦ some [] | some ns ↦ some ns ] else g j

names-append :
    (heap more : List Profile) (fs : List ℕ) (ns : List Str)
    → names heap fs ≡ some ns
    → names (heap ++ more) fs ≡ some ns
unfolding names
names-append heap more [] ns e = e
names-append heap more (f ∷ fs) ns e = elim (Option-cases (get_elem? heap f)) [
  | inl bad ↦ absurd (ground (arith, bad, e))
  | inr (p, here) ↦ elim (Option-cases (names heap fs)) [
    | inl bad ↦ absurd (ground (arith, here, bad, e))
    | inr (ms, there) ↦ ground (
      arith,
      here,
      there,
      e,
      get_elem?-append heap more f here,
      names-append heap more fs ms there,
    )
  ]
]

-- A name that is known.
register_known :
    (w : World) (id : Str) (i : ℕ)
    → IsRegistered w
    → find id w.profiles ≡ some i
    → HasGraph (register id (graph w)) w
unfolding graph followers_at register
register_known w id i r found j =
    let (p, at, name) = r.keyed id i found in
    let (ns, followers) = names_total w.heap p.followers (r.followed i p at).valid in
    elim (same_cases id j) [
      | inl e ↦ rw (← e) (ground (arith, found, at, followers))
      | inr (e, ne) ↦ ground (arith, e)
    ]

-- A new object under a free name.
module _ (w : World) (id : Str) (r : IsRegistered w) (free : find id w.profiles ≡ none) where
  graph_new :
      (j : Str)
      → followers_at (w.heap ++ new_profile id ∷ []) (find j (insert id (length w.heap) w.profiles))
        ≡ register id (graph w) j
  unfolding graph followers_at register
  graph_new j =
      rw (find-insert j id (length w.heap) w.profiles free) (elim (Bool-cases (same id j)) [
        | inl here ↦
            unfold new_profile names in
            ground (arith, here, free, get_elem?-length w.heap (new_profile id))
        | inr there ↦ elim (Option-cases (find j w.profiles)) [
          | inl unknown ↦ ground (arith, there, unknown)
          | inr (i, found) ↦
              let (p, at, name) = r.keyed j i found in
              let (ns, followers) = names_total w.heap p.followers (r.followed i p at).valid in
              ground (
                arith,
                there,
                found,
                at,
                followers,
                get_elem?-append w.heap (new_profile id ∷ []) i at,
                names-append w.heap (new_profile id ∷ []) p.followers ns followers,
              )
        ]
      ])

  pub graph_made : HasGraph (register id (graph w)) (record w {
    heap = w.heap ++ new_profile id ∷ [];
    profiles = insert id (length w.heap) w.profiles;
  })
  unfolding graph
  graph_made = graph_new

module _ ⦃json : Json⦄ where
  -- Where map and objects fit together, PROFILE implements `register` on the graph of names, whether
  -- the call returns, ends its thread or throws. Nothing is said of a run into undefined behaviour.
  pub create_profile_if_not_exists-register :
      (id : Str) (conn : Session) (w : World)
      → IsRegistered w
      → Ends (HasGraph (register id (graph w))) (create_profile_if_not_exists id conn w)
  unfolding create_profile_if_not_exists get_profile_by_id
  create_profile_if_not_exists-register id conn w r =
      Ends-bind (HasGraph (register id (graph w))) _ _
        (admitted (Option-cases (find id w.profiles)))
        λ profile v s.
          Ends-bind (HasGraph (register id (graph w))) _ _
            (update-HasGraph (register id (graph w)) profile (inc_sessions_on conn)
              (λ p. unfold inc_sessions_on in (refl, refl)) v s)
            λ _ u t. t
    where
      after : World → Type 0
      after = HasGraph (register id (graph w))

      admitted :
          (find id w.profiles ≡ none) ⊎ ((i : ℕ) × (find id w.profiles ≡ some i))
          → Ends (HasGraph (register id (graph w))) (admit id conn (find id w.profiles) w)
      admitted (inl free) = rw free (
          unfold admit allocate insert_profile in
          rw (is_key_free id w.profiles free) (
            Ends-bind after _ _
              (Ends-bind after _ _
                (to_json_file-Keeps after (quiet after (HasGraph-IsLocal (register id (graph w)))) _
                  (graph_made w id r free))
                λ _ v s. s)
              λ _ v s. s))
      admitted (inr (i, found)) = rw found (
          unfold admit in
          Ends-bind after _ _
            (deref-Keeps after (quiet after (HasGraph-IsLocal (register id (graph w)))) (some i) w
              (register_known w id i r found))
            λ p v s. elim (Bool-cases (is_num p.sessions_on 2)) [
              | inl full ↦ rw full (
                  refuse-Keeps after (quiet after (HasGraph-IsLocal (register id (graph w)))) conn v
                    s)
              | inr room ↦ rw room s
            ])
