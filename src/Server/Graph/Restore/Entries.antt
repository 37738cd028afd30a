-- ===== src/Server/Graph/Restore/Entries.antt =====
-- The document that `toJsonFile` of server/ProfilesManager.cpp builds of a registry.
use twitter_like_client_serv.Base.{
  ℕ, ◌≡◌, refl, sym, ap, ◌∙◌, subst, Bool, true, false, some, List, [], ◌∷◌, Str, same_iff,
  get_elem?, arith, All, Option-cases, inl, inr,
}
use twitter_like_client_serv.Base.Map.{find, Above, IsMap, All-entries}
use twitter_like_client_serv.Server.Profile.{Profile}
use twitter_like_client_serv.Server.Document.{names, entries, to_doc}
use twitter_like_client_serv.Server.World.{Doc, null, object}
use twitter_like_client_serv.Server.Registry.{IsRegistry, Absent, Distinct}
use twitter_like_client_serv.Server.Graph.{names_total, is_member, followers_at}
use twitter_like_client_serv.Server.Graph.Restore.Fill.{Entry, NoneTwice, IsEntry}

-- A document whose keys are in order, and whose texts are UTF-8.
abbrev pub IsPlain : (Str → Bool) → Doc → Type 0
IsPlain is_utf8 null = Unit {0}
IsPlain is_utf8 (object es) =
    IsMap es × All (λ (e : Entry). (is_utf8 e.0 ≡ true) × All (λ n. is_utf8 n ≡ true) e.1) es

names-cons :
    (heap : List Profile) (f : ℕ) (fs : List ℕ) (ns : List Str)
    → names heap (f ∷ fs) ≡ some ns
    → (q : Profile) × (ms : List Str) × (get_elem? heap f ≡ some q)
      × (names heap fs ≡ some ms)
      × (ns ≡ q.profile_id ∷ ms)
unfolding names
names-cons heap f fs ns e = elim (Option-cases (get_elem? heap f)) [
  | inl bad ↦ absurd (ground (arith, bad, e))
  | inr (q, here) ↦ elim (Option-cases (names heap fs)) [
    | inl bad ↦ absurd (ground (arith, here, bad, e))
    | inr (ms, there) ↦ (q, ms, here, there, ground (arith, here, there, e))
  ]
]

entries-cons :
    (heap : List Profile) (id : Str) (i : ℕ) (m : List (Str × ℕ)) (es : List Entry)
    → entries heap ((id, i) ∷ m) ≡ some es
    → (p : Profile) × (ns : List Str) × (rest : List Entry) × (get_elem? heap i ≡ some p)
      × (names heap p.followers ≡ some ns)
      × (entries heap m ≡ some rest)
      × (es ≡ (id, ns) ∷ rest)
unfolding entries
entries-cons heap id i m es e = elim (Option-cases (get_elem? heap i)) [
  | inl bad ↦ absurd (ground (arith, bad, e))
  | inr (p, at) ↦ elim (Option-cases (names heap p.followers)) [
    | inl bad ↦ absurd (ground (arith, at, bad, e))
    | inr (ns, followers) ↦ elim (Option-cases (entries heap m)) [
      | inl bad ↦ absurd (ground (arith, at, followers, bad, e))
      | inr (rest, below) ↦
          (p, ns, rest, at, followers, below, ground (arith, at, followers, below, e))
    ]
  ]
]

-- What holds of the name of each follower.
names-All {κ} :
    (P : Str → Type κ) (heap : List Profile) (fs : List ℕ) (ns : List Str)
    → ((i : ℕ) (p : Profile) → get_elem? heap i ≡ some p → P p.profile_id)
    → names heap fs ≡ some ns
    → All P ns
unfolding names
names-All P heap [] [] h e = tt
names-All P heap [] (n ∷ ns) h e = absurd (ground (arith, e))
names-All P heap (f ∷ fs) ns h e =
    let (q, ms, here, there, now) = names-cons heap f fs ns e in
    rw now (h f q here, names-All P heap fs ms h there)

-- The entry of a key is that of the followers of its object.
pub find-entries :
    (heap : List Profile) (m : List (Str × ℕ)) (es : List Entry) (j : Str)
    → entries heap m ≡ some es
    → find j es ≡ followers_at heap (find j m)
unfolding entries find followers_at
find-entries heap [] [] j e = refl
find-entries heap [] (x ∷ es) j e = absurd (ground (arith, e))
find-entries heap ((id, i) ∷ m) es j e =
    let (p, ns, rest, at, followers, below, now) = entries-cons heap id i m es e in
    rw now (ground (arith, at, followers, find-entries heap m rest j below))

entries-Above :
    (k : Str) (heap : List Profile) (m : List (Str × ℕ)) (es : List Entry)
    → Above k m
    → entries heap m ≡ some es
    → Above k es
unfolding entries
entries-Above k heap [] [] a e = tt
entries-Above k heap [] (x ∷ es) a e = absurd (ground (arith, e))
entries-Above k heap ((id, i) ∷ m) es a e =
    let (p, ns, rest, at, followers, below, now) = entries-cons heap id i m es e in
    rw now (a.0, entries-Above k heap m rest a.1 below)

pub entries-IsMap :
    (heap : List Profile) (m : List (Str × ℕ)) (es : List Entry)
    → IsMap m
    → entries heap m ≡ some es
    → IsMap es
unfolding entries
entries-IsMap heap [] [] a e = tt
entries-IsMap heap [] (x ∷ es) a e = absurd (ground (arith, e))
entries-IsMap heap ((id, i) ∷ m) es a e =
    let (p, ns, rest, at, followers, below, now) = entries-cons heap id i m es e in
    rw now (entries-Above id heap m rest a.0 below, entries-IsMap heap m rest a.1 below)

module _ (heap : List Profile) (profiles : List (Str × ℕ)) (r : IsRegistry heap profiles) where
  -- A name is no member if its object is not among the pointers.
  Absent-is_member :
      (f : ℕ) (p : Profile) (fs : List ℕ) (ns : List Str)
      → get_elem? heap f ≡ some p
      → Absent f fs
      → names heap fs ≡ some ns
      → is_member p.profile_id ns ≡ false
  unfolding names is_member
  Absent-is_member f p [] [] at a e = refl
  Absent-is_member f p [] (n ∷ ns) at a e = absurd (ground (arith, e))
  Absent-is_member f p (g ∷ fs) ns at a e =
      let (q, ms, here, there, now) = names-cons heap g fs ns e in
      rw now (
        ground (
          arith,
          Absent-is_member f p fs ms at a.1 there,
          same_iff q.profile_id p.profile_id,
          ap (λ (n : Str). find n profiles) {x = q.profile_id} {y = p.profile_id},
          r.registered g q here,
          r.registered f p at,
          a.0,
        ))

  Distinct-NoneTwice :
      (fs : List ℕ) (ns : List Str) → Distinct fs → names heap fs ≡ some ns → NoneTwice ns
  unfolding names
  Distinct-NoneTwice [] [] d e = tt
  Distinct-NoneTwice [] (n ∷ ns) d e = absurd (ground (arith, e))
  Distinct-NoneTwice (f ∷ fs) ns d e =
      let (q, ms, here, there, now) = names-cons heap f fs ns e in
      rw now (Absent-is_member f q fs ms here d.0 there, Distinct-NoneTwice fs ms d.1 there)

  -- The document of the registry.
  module _ (all : List Entry) (built : entries heap profiles ≡ some all) where
    key_of :
        (i : ℕ) (p : Profile)
        → get_elem? heap i ≡ some p
        → (ms : List Str) × (find p.profile_id all ≡ some ms)
    unfolding followers_at
    key_of i p at =
        let (ms, e) = names_total heap p.followers (r.followed i p at).valid in
        (ms, find-entries heap profiles all p.profile_id built ∙ rw (r.registered i p at) (rw at e))

    entries-IsEntry :
        (m : List (Str × ℕ)) (es : List Entry)
        → All (λ e. find e.0 profiles ≡ some e.1) m
        → entries heap m ≡ some es
        → All (IsEntry all) es
    unfolding entries
    entries-IsEntry [] [] a e = tt
    entries-IsEntry [] (x ∷ es) a e = absurd (ground (arith, e))
    entries-IsEntry ((id, i) ∷ m) es a e =
        let (p, ns, rest, at, followers, below, now) = entries-cons heap id i m es e in
        let (o, here, name) = r.keyed id i a.0 in
        let fs = r.followed i p at in
        rw now (
          (
            Distinct-NoneTwice p.followers ns fs.distinct followers,
            subst (λ (k : Str). is_member k ns ≡ false) (ground (arith, at, here, name))
                (Absent-is_member i p p.followers ns at fs.not_self followers),
            names-All (λ n. (ms : List Str) × (find n all ≡ some ms)) heap p.followers ns key_of
                followers,
          ),
          entries-IsEntry m rest a.1 below,
        )

    pub entries-All : All (IsEntry all) all
    entries-All =
        entries-IsEntry profiles all
          (All-entries (λ e. find e.0 profiles ≡ some e.1) profiles r.sorted (λ k i e. e)) built

    -- The texts of the document are the keys of the map.
    module _ (is_utf8 : Str → Bool)
        (texts : (id : Str) (i : ℕ) → find id profiles ≡ some i → is_utf8 id ≡ true) where
      entries-texts :
          (m : List (Str × ℕ)) (es : List Entry)
          → All (λ e. find e.0 profiles ≡ some e.1) m
          → entries heap m ≡ some es
          → All (λ (e : Entry). (is_utf8 e.0 ≡ true) × All (λ n. is_utf8 n ≡ true) e.1) es
      unfolding entries
      entries-texts [] [] a e = tt
      entries-texts [] (x ∷ es) a e = absurd (ground (arith, e))
      entries-texts ((id, i) ∷ m) es a e =
          let (p, ns, rest, at, followers, below, now) = entries-cons heap id i m es e in
          rw now (
            (
              texts id i a.0,
              names-All (λ n. is_utf8 n ≡ true) heap p.followers ns
                  (λ j o there. texts o.profile_id j (r.registered j o there)) followers,
            ),
            entries-texts m rest a.1 below,
          )

      pub doc-texts :
          All (λ (e : Entry). (is_utf8 e.0 ≡ true) × All (λ n. is_utf8 n ≡ true) e.1) all
      doc-texts =
          entries-texts profiles all
            (All-entries (λ d. find d.0 profiles ≡ some d.1) profiles r.sorted (λ k i d. d)) built

      entries-IsPlain : (es : List Entry) → es ≡ all → IsPlain is_utf8 (to_doc es)
      entries-IsPlain [] e = tt
      entries-IsPlain (x ∷ es) e =
          subst
            (λ ds.
              IsMap ds
              × All (λ (d : Entry). (is_utf8 d.0 ≡ true) × All (λ n. is_utf8 n ≡ true) d.1) ds)
            (sym e) (entries-IsMap heap profiles all r.sorted built, doc-texts)

      pub doc-IsPlain : IsPlain is_utf8 (to_doc all)
      doc-IsPlain = entries-IsPlain all refl
