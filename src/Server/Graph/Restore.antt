-- ===== src/Server/Graph/Restore.antt =====
-- `toJsonFile` and `fromJsonFile` of server/ProfilesManager.cpp: what comes back out of `state.json`.
pub mod Fill
pub mod Entries
pub mod Load
use mathlib.Core.Path.{fun_ext}
use twitter_like_client_serv.Base.{
  ℕ, ◌≡◌, refl, sym, ap, ◌∙◌, subst, Bool, true, Option, none, some, List, [], ◌∷◌, Str, All, arith,
  Option-cases, inl, inr,
}
use twitter_like_client_serv.Base.Map.{find, IsMap}
use twitter_like_client_serv.Exec.{Outcome, returns, ◌>>=◌, ◌>>◌}
use twitter_like_client_serv.Server.Document.{entries, to_doc}
use twitter_like_client_serv.Server.World.{World, Doc, Json}
use twitter_like_client_serv.Server.ProfilesManager.{
  create_manager, store, save, to_json_file, from_json_file, restore, save, restore_profiles,
  restore_entries,
}
use twitter_like_client_serv.Server.Registry.{no_profiles}
use twitter_like_client_serv.Server.ProfilesManager.Objects.{IsRegistered}
use twitter_like_client_serv.Server.Graph.{Graph, graph, followers_at}
use twitter_like_client_serv.Server.Graph.Follow.{to_json_file-store}
use twitter_like_client_serv.Server.Graph.Restore.Fill.{
  Entry, IsEntry, opened, fill, opened-key, opened-other, fill-key, fill-other,
}
use twitter_like_client_serv.Server.Graph.Restore.Entries.{
  IsPlain, find-entries, entries-IsMap, entries-All, doc-texts, doc-IsPlain,
}
use twitter_like_client_serv.Server.Graph.Restore.Load.{
  HasTexts, Loads, Fills, HasName, graph-HasName, restore_profiles-Loads, restore_entries-Fills,
}

-- A graph with no names.
abbrev pub no_graph : Graph
no_graph id = none

filled-find :
    (es : List Entry) (j : Str)
    → IsMap es
    → All (IsEntry es) es
    → fill es (opened es no_graph) j ≡ find j es
filled-find es j m a = elim (Option-cases (find j es)) [
  | inl other ↦
      rw other (fill-other es (opened es no_graph) j other ∙ opened-other es no_graph j other)
  | inr (ns, key) ↦ rw key (
      fill-key es es (opened es no_graph) j ns m a (λ k ms e. opened-key es no_graph k ms e refl)
        key)
]

All-map {ℓ κ κ'} :
    {A : Type ℓ} (P : A → Type κ) (Q : A → Type κ') (xs : List A)
    → ((x : A) → P x → Q x)
    → All P xs
    → All Q xs
All-map P Q [] h a = tt
All-map P Q (x ∷ xs) h a = (h x a.0, All-map P Q xs h a.1)

module _ ⦃json : Json⦄ where
  -- With no member the document is null, which gives nothing back.
  restore-loops :
      (es : List Entry) (a : World)
      → restore (some (to_doc es)) a ≡ (restore_profiles es >> restore_entries es) a
  unfolding restore
  restore-loops [] a = unfold restore_profiles restore_entries in refl
  restore-loops (e ∷ es) a = refl

  module _ (is_utf8 : Str → Bool)
      (prints : (d : Doc)
        → IsPlain is_utf8 d
        → (text : Str) × (json.dump d ≡ some text) × (json.parse text ≡ some d)) where
    -- Both loops, over the document of a registry, from an empty map.
    loops-Loads :
        (es : List Entry) (a : World)
        → IsMap es
        → All (IsEntry es) es
        → All (λ (e : Entry). (is_utf8 e.0 ≡ true) × All (λ n. is_utf8 n ≡ true) e.1) es
        → IsRegistered a
        → a.profiles ≡ []
        → (b : World) × ((restore_profiles es >> restore_entries es) a ≡ returns tt b)
          × IsRegistered b
          × ((id : Str) → graph b id ≡ find id es)
    unfolding graph followers_at find
    loops-Loads es a m good texts r empty =
        let (b, opens, r', t, g) =
          restore_profiles-Loads is_utf8 es a r (λ j i e. absurd (ground (arith, e, empty))) m
            (All-map (λ e. (is_utf8 e.0 ≡ true) × All (λ n. is_utf8 n ≡ true) e.1)
              (λ e. is_utf8 e.0 ≡ true) es (λ e h. h.0) texts)
            (λ id ns e. ap (find id) empty) in
        let start : graph a ≡ no_graph =
          fun_ext (λ id. ap (λ k. followers_at a.heap (find id k)) empty) in
        let shape : graph b ≡ opened es no_graph = g ∙ ap (opened es) start in
        let (c, fills, r'', keys, g') = restore_entries-Fills is_utf8 prints es b r' t (
          All-map (IsEntry es) (λ e. All (HasName b) e.1) es
            (λ e h.
              All-map (λ n. (ms : List Str) × (find n es ≡ some ms)) (HasName b) e.1
                (λ n k.
                  graph-HasName b n []
                    (ap (λ h. h n) shape ∙ opened-key es no_graph n k.0 k.1 refl))
                h.2)
            good) in
        (
          c,
          rw opens fills,
          r'',
          λ id. ap (λ h. h id) (g' ∙ ap (fill es) shape) ∙ filled-find es id m good,
        )

    -- What `toJsonFile` writes, `fromJsonFile` reads: in a process with new and empty maps, the file of a
    -- server whose map and objects fit together, and whose names are UTF-8, gives the same
    -- names with the same followers in the same order, and its map and objects fit together again. Neither
    -- call fails. The library prints a document of UTF-8 texts with its keys in order, and
    -- parses what it has printed.
    pub to_json_file-from_json_file :
        (w u : World)
        → IsRegistered w
        → HasTexts is_utf8 w
        → (text : Str) × (to_json_file w ≡ returns tt (record w { file = some text }))
          × (v : World) × ((create_manager >> from_json_file) (record u { file = some text })
              ≡ returns tt v)
          × IsRegistered v
          × ((id : Str) → graph v id ≡ graph w id)
    unfolding create_manager from_json_file save store
    to_json_file-from_json_file w u r t =
        let (es, built, saved) = to_json_file-store w r in
        let (text, printed, back) =
          prints (to_doc es) (doc-IsPlain w.heap w.profiles r es built is_utf8 t) in
        let a : World = record u { heap = []; profiles = []; file = some text } in
        let (v, run, r', g) =
          loops-Loads es a (entries-IsMap w.heap w.profiles es r.sorted built)
            (entries-All w.heap w.profiles r es built)
            (doc-texts w.heap w.profiles r es built is_utf8 t) no_profiles refl in
        (
          text,
          saved ∙ ap (λ o. store (json.reached (to_doc es)) o w) printed,
          v,
          ap (λ d. restore d a) back ∙ restore-loops es a ∙ run,
          r',
          λ id. g id ∙ unfold graph in find-entries w.heap w.profiles es id built,
        )
