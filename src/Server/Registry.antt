-- ===== src/Server/Registry.antt =====
-- What the profile objects and the map of `ProfilesManager` keep between them.
use twitter_like_client_serv.Base.{
  ℕ, zero, suc, ◌+◌, ◌≤◌, ◌<◌, ◌≡◌, ◌≢◌, refl, sym, ap, true, false, none, some, List, [], ◌∷◌,
  ◌++◌, Str, ◌==◌, if◌then◌else◌, arith, get_elem?, set, length, same, same_iff, same_refl, All,
  ==_iff, length-append, length-set, Bool-cases, ◌⊎◌, inl, inr, get_elem?-append, get_elem?-length,
}
use twitter_like_client_serv.Base.Map.{find, insert, IsMap, insert-IsMap, find-insert}
use twitter_like_client_serv.Server.Profile.{Profile}

-- No pointer of the list is `i`.
abbrev pub Absent : ℕ → List ℕ → Type 0
Absent i [] = Unit {0}
Absent i (j ∷ js) = (j ≢ i) × Absent i js

abbrev pub Distinct : List ℕ → Type 0
Distinct [] = Unit {0}
Distinct (j ∷ js) = Absent j js × Distinct js

-- The followers of the profile at `i`: objects, none twice, and not the profile itself.
pub record IsFollowed (size i : ℕ) (followers : List ℕ) : Type 0 where
  pub valid : All (λ f. f < size) followers
  pub distinct : Distinct followers
  pub not_self : Absent i followers

pub record IsRegistry (heap : List Profile) (profiles : List (Str × ℕ)) : Type 0 where
  pub sorted : IsMap profiles
  -- A key of the map leads to the object of that name, and each object is found by its name.
  pub keyed :
      (id : Str) (i : ℕ)
      → find id profiles ≡ some i
      → (p : Profile) × (get_elem? heap i ≡ some p) × (p.profile_id ≡ id)
  pub registered :
      (i : ℕ) (p : Profile) → get_elem? heap i ≡ some p → find p.profile_id profiles ≡ some i
  pub followed :
      (i : ℕ) (p : Profile) → get_elem? heap i ≡ some p → IsFollowed (length heap) i p.followers

-- A process that has no profile yet.
pub no_profiles : IsRegistry [] []
no_profiles = record {
  sorted = tt;
  keyed = λ id i e. absurd (unfold find in grind arith);
  registered = λ i p e. absurd (grind arith);
  followed = λ i p e. absurd (grind arith);
}

-- What stands at `j` after a write at `i`.
pub get_elem?-set {ℓ} :
    {A : Type ℓ} (xs : List A) (i j : ℕ) (v u : A)
    → get_elem? xs i ≡ some u
    → get_elem? (set xs i v) j ≡ (if i == j then some v else get_elem? xs j)
get_elem?-set [] i j v u e = absurd (grind arith)
get_elem?-set (x ∷ xs) zero zero v u e = refl
get_elem?-set (x ∷ xs) zero (suc j) v u e = ground arith
get_elem?-set (x ∷ xs) (suc i) zero v u e = ground arith
get_elem?-set (x ∷ xs) (suc i) (suc j) v u e = ground (arith, get_elem?-set xs i j v u e)

All-mono : (n m : ℕ) (xs : List ℕ) → n ≤ m → All (λ x. x < n) xs → All (λ x. x < m) xs
All-mono n m [] h a = tt
All-mono n m (x ∷ xs) h a = (omega arith, All-mono n m xs h a.1)

pub set_cases {ℓ} :
    {A : Type ℓ} (xs : List A) (i j : ℕ) (v u o : A)
    → get_elem? xs i ≡ some u
    → get_elem? (set xs i v) j ≡ some o
    → ((j ≡ i) × (o ≡ v)) ⊎ (get_elem? xs j ≡ some o)
set_cases xs i j v u o here e =
    let at = get_elem?-set xs i j v u here in
    elim (Bool-cases (i == j)) [
      | inl same_place ↦ inl (ground arith, ground arith)
      | inr other_place ↦ inr (ground arith)
    ]

-- A method that keeps the name and the followers of an object keeps the registry.
pub set-IsRegistry :
    (heap : List Profile) (profiles : List (Str × ℕ)) (i : ℕ) (p q : Profile)
    → get_elem? heap i ≡ some p
    → q.profile_id ≡ p.profile_id
    → IsFollowed (length heap) i q.followers
    → IsRegistry heap profiles
    → IsRegistry (set heap i q) profiles
set-IsRegistry heap profiles i p q here name fs r = record {
  sorted = r.sorted;
  keyed = λ id j e. moved id j (r.keyed id j e);
  registered = λ j o e.
      ground (
        arith,
        get_elem?-set heap i j q p here,
        r.registered j o,
        r.registered i p here,
        ==_iff i j,
      );
  followed = λ j o e. rw (length-set heap i q) (kept j o (set_cases heap i j q p o here e));
}
  where
    moved :
        (id : Str) (j : ℕ)
        → ((o : Profile) × (get_elem? heap j ≡ some o) × (o.profile_id ≡ id))
        → (o : Profile) × (get_elem? (set heap i q) j ≡ some o) × (o.profile_id ≡ id)
    moved id j (o, at, named) =
        let there = get_elem?-set heap i j q p here in
        elim (Bool-cases (i == j)) [
          | inl same_place ↦
              (q, ground arith, ground (arith, ap (get_elem? heap) ((==_iff i j).0 same_place)))
          | inr other_place ↦ (o, ground arith, named)
        ]

    kept :
        (j : ℕ) (o : Profile)
        → ((j ≡ i) × (o ≡ q)) ⊎ (get_elem? heap j ≡ some o)
        → IsFollowed (length heap) j o.followers
    kept j o (inl (place, object)) = rw (place, object) fs
    kept j o (inr at) = r.followed j o at

Absent-of_below : (n : ℕ) (xs : List ℕ) → All (λ x. x < n) xs → Absent n xs
Absent-of_below n [] a = tt
Absent-of_below n (x ∷ xs) a = (omega arith, Absent-of_below n xs a.1)

pub append_cases {ℓ} :
    {A : Type ℓ} (xs : List A) (a o : A) (j : ℕ)
    → get_elem? (xs ++ a ∷ []) j ≡ some o
    → ((j ≡ length xs) × (o ≡ a)) ⊎ (get_elem? xs j ≡ some o)
append_cases [] a o zero e = inl (refl, ground arith)
append_cases [] a o (suc j) e = absurd (grind arith)
append_cases (x ∷ xs) a o zero e = inr e
append_cases (x ∷ xs) a o (suc j) e = elim (append_cases xs a o j e) [
  | inl (place, object) ↦ inl (ap suc place, object)
  | inr at ↦ inr at
]

-- A new profile under a name that is no key keeps the registry.
pub insert-IsRegistry :
    (heap : List Profile) (profiles : List (Str × ℕ)) (q : Profile)
    → find q.profile_id profiles ≡ none
    → q.followers ≡ []
    → IsRegistry heap profiles
    → IsRegistry (heap ++ q ∷ []) (insert q.profile_id (length heap) profiles)
insert-IsRegistry heap profiles q free alone r = record {
  sorted = insert-IsMap q.profile_id (length heap) profiles r.sorted;
  keyed = λ id j e. reached id j (Bool-cases (same q.profile_id id)) e;
  registered = λ j o e. found j o (append_cases heap q o j e);
  followed = λ j o e. rw (length-append heap (q ∷ [])) (kept j o (append_cases heap q o j e));
}
  where
    find_now :
        (id : Str)
        → find id (insert q.profile_id (length heap) profiles)
          ≡ (if same q.profile_id id then some (length heap) else find id profiles)
    find_now id = find-insert id q.profile_id (length heap) profiles free

    reached :
        (id : Str) (j : ℕ)
        → ((same q.profile_id id ≡ true) ⊎ (same q.profile_id id ≡ false))
        → find id (insert q.profile_id (length heap) profiles) ≡ some j
        → (o : Profile) × (get_elem? (heap ++ q ∷ []) j ≡ some o) × (o.profile_id ≡ id)
    reached id j (inl new) e =
        let place : j ≡ length heap = ground (arith, find_now id) in
        (q, rw place (get_elem?-length heap q), (same_iff q.profile_id id).0 new)
    reached id j (inr old) e =
        let (o, at, named) = r.keyed id j (ground (arith, find_now id)) in
        (o, get_elem?-append heap (q ∷ []) j at, named)

    found :
        (j : ℕ) (o : Profile)
        → ((j ≡ length heap) × (o ≡ q)) ⊎ (get_elem? heap j ≡ some o)
        → find o.profile_id (insert q.profile_id (length heap) profiles) ≡ some j
    found j o (inl (place, object)) =
        rw (place, object, find_now q.profile_id, same_refl q.profile_id)
    found j o (inr at) =
        ground
          (arith, find_now o.profile_id, r.registered j o at, same_iff q.profile_id o.profile_id)

    kept :
        (j : ℕ) (o : Profile)
        → ((j ≡ length heap) × (o ≡ q)) ⊎ (get_elem? heap j ≡ some o)
        → IsFollowed (length heap + length (q ∷ [])) j o.followers
    kept j o (inl (place, object)) =
        rw (place, object, alone) (record { valid = tt; distinct = tt; not_self = tt })
    kept j o (inr at) =
        let f = r.followed j o at in
        record {
          valid =
              All-mono (length heap) (length heap + length (q ∷ [])) o.followers (omega arith)
                f.valid;
          distinct = f.distinct;
          not_self = f.not_self;
        }

All-snoc : (n f : ℕ) (xs : List ℕ) → All (λ x. x < n) xs → f < n → All (λ x. x < n) (xs ++ f ∷ [])
All-snoc n f [] a h = (h, tt)
All-snoc n f (x ∷ xs) a h = (a.0, All-snoc n f xs a.1 h)

Absent-snoc : (i f : ℕ) (xs : List ℕ) → Absent i xs → f ≢ i → Absent i (xs ++ f ∷ [])
Absent-snoc i f [] a h = (h, tt)
Absent-snoc i f (x ∷ xs) a h = (a.0, Absent-snoc i f xs a.1 h)

Distinct-snoc : (f : ℕ) (xs : List ℕ) → Distinct xs → Absent f xs → Distinct (xs ++ f ∷ [])
Distinct-snoc f [] d a = (tt, tt)
Distinct-snoc f (x ∷ xs) d a =
    (Absent-snoc x f xs d.0 (λ e. a.0 (sym e)), Distinct-snoc f xs d.1 a.1)

-- One more follower, who is an object, not the profile itself and not there yet.
pub snoc-IsFollowed :
    (size i f : ℕ) (fs : List ℕ)
    → f < size
    → f ≢ i
    → Absent f fs
    → IsFollowed size i fs
    → IsFollowed size i (fs ++ f ∷ [])
snoc-IsFollowed size i f fs h ne new v = record {
  valid = All-snoc size f fs v.valid h;
  distinct = Distinct-snoc f fs v.distinct new;
  not_self = Absent-snoc i f fs v.not_self ne;
}
