-- ===== src/Server/Graph/Restore/Fill.antt =====
-- The document of `state.json` read back into a graph of names, entry by entry.
use twitter_like_client_serv.Base.{
  ◌≡◌, refl, sym, ap, ◌∙◌, subst, false, none, some, List, [], ◌∷◌, ◌++◌, append_assoc, append-nil,
  Str, same, same_iff, same_refl, arith, All, Bool-cases, inl, inr,
}
use twitter_like_client_serv.Base.Map.{find, IsMap, find-Above}
use twitter_like_client_serv.Server.Graph.{Graph, follow, is_member, add_name}
use twitter_like_client_serv.Server.Graph.Create.{register}

abbrev pub Entry : Type 0
Entry = Str × List Str

-- No name stands twice in the list.
abbrev pub NoneTwice : List Str → Type 0
NoneTwice [] = Unit {0}
NoneTwice (n ∷ ns) = (is_member n ns ≡ false) × NoneTwice ns

-- An entry of the document `all`: no follower twice, none is the name itself, and each is a key.
abbrev pub IsEntry : List Entry → Entry → Type 0
IsEntry all (id, ns) =
    NoneTwice ns
    × (is_member id ns ≡ false)
    × All (λ n. (ms : List Str) × (find n all ≡ some ms)) ns

-- The names of all entries, with no followers yet.
unfoldable pub opened : List Entry → Graph → Graph
opened [] g = g
opened ((id, ns) ∷ es) g = opened es (register id g)

unfoldable pub follow_all : Str → List Str → Graph → Graph
follow_all id [] g = g
follow_all id (n ∷ ns) g = follow_all id ns (follow id n g)

unfoldable pub fill : List Entry → Graph → Graph
fill [] g = g
fill ((id, ns) ∷ es) g = fill es (follow_all id ns g)

opened-known : (es : List Entry) (g : Graph) (j : Str) → g j ≡ some [] → opened es g j ≡ some []
unfolding opened register
opened-known [] g j e = e
opened-known ((id, ns) ∷ es) g j e =
    opened-known es (register id g) j (ground (arith, e, same_iff id j, ap g {x = id} {y = j}))

pub opened-key :
    (es : List Entry) (g : Graph) (j : Str) (ns : List Str)
    → find j es ≡ some ns
    → g j ≡ none
    → opened es g j ≡ some []
unfolding opened register find
opened-key [] g j ns f e = absurd (ground (arith, f))
opened-key ((id, ms) ∷ es) g j ns f e = elim (Bool-cases (same id j)) [
  | inl here ↦
      opened-known es (register id g) j
        (ground (arith, e, here, same_iff id j, ap g {x = id} {y = j}))
  | inr there ↦
      opened-key es (register id g) j ns (ground (arith, f, there)) (ground (arith, e, there))
]

pub opened-other : (es : List Entry) (g : Graph) (j : Str) → find j es ≡ none → opened es g j ≡ g j
unfolding opened register find
opened-other [] g j f = refl
opened-other ((id, ms) ∷ es) g j f = elim (Bool-cases (same id j)) [
  | inl here ↦ absurd (ground (arith, f, here))
  | inr there ↦ opened-other es (register id g) j (ground (arith, f, there)) ∙ ground (arith, there)
]

follow_all_other :
    (id : Str) (ns : List Str) (g : Graph) (j : Str)
    → same id j ≡ false
    → follow_all id ns g j ≡ g j
unfolding follow_all follow
follow_all_other id [] g j ne = refl
follow_all_other id (n ∷ ns) g j ne =
    follow_all_other id ns (follow id n g) j ne ∙ ground (arith, ne)

is_member-middle :
    (m n : Str) (xs ys : List Str) → is_member m (xs ++ n ∷ ys) ≡ false → same n m ≡ false
unfolding is_member
is_member-middle m n [] ys e = ground (arith, e)
is_member-middle m n (x ∷ xs) ys e = is_member-middle m n xs ys (ground (arith, e))

-- A name does not stand before its place.
NoneTwice-before :
    (ms : List Str) (n : Str) (ns : List Str) → NoneTwice (ms ++ n ∷ ns) → is_member n ms ≡ false
unfolding is_member
NoneTwice-before [] n ns h = refl
NoneTwice-before (m ∷ ms) n ns h = ground (
  arith,
  NoneTwice-before ms n ns h.1,
  is_member-middle m n ms ns h.0,
  same_iff m n,
  same_iff n m,
)

follow_all_self :
    (id : Str) (ns : List Str) (g : Graph) (ms : List Str)
    → g id ≡ some ms
    → NoneTwice (ms ++ ns)
    → is_member id ns ≡ false
    → follow_all id ns g id ≡ some (ms ++ ns)
unfolding follow_all
follow_all_self id [] g ms e h self = e ∙ ap some (sym (append-nil ms))
follow_all_self id (n ∷ ns) g ms e h self =
    follow_all_self id ns (follow id n g) (ms ++ n ∷ [])
      (unfold follow add_name is_member in
        ground (arith, e, same_refl id, NoneTwice-before ms n ns h, self))
      (subst NoneTwice (sym (append_assoc ms (n ∷ []) ns)) h)
      (unfold is_member in ground (arith, self))
    ∙ ap some (append_assoc ms (n ∷ []) ns)

pub fill-other : (es : List Entry) (g : Graph) (j : Str) → find j es ≡ none → fill es g j ≡ g j
unfolding fill find
fill-other [] g j f = refl
fill-other ((id, ns) ∷ es) g j f = elim (Bool-cases (same id j)) [
  | inl here ↦ absurd (ground (arith, f, here))
  | inr there ↦
      fill-other es (follow_all id ns g) j (ground (arith, f, there))
      ∙ follow_all_other id ns g j there
]

-- Each key has its followers after all entries have been read.
pub fill-key :
    (all es : List Entry) (g : Graph) (j : Str) (ns : List Str)
    → IsMap es
    → All (IsEntry all) es
    → ((k : Str) (ms : List Str) → find k es ≡ some ms → g k ≡ some [])
    → find j es ≡ some ns
    → fill es g j ≡ some ns
unfolding fill find
fill-key all [] g j ns m a empty f = absurd (ground (arith, f))
fill-key all ((id, ms) ∷ es) g j ns m ((twice, self, known), a) empty f =
    elim (Bool-cases (same id j)) [
      | inl here ↦
          subst (λ k. fill es (follow_all id ms g) k ≡ some ns) ((same_iff id j).0 here)
            (fill-other es (follow_all id ms g) id (find-Above id es m.0)
              ∙ follow_all_self id ms g [] (empty id ms (rw (same_refl id))) twice self
              ∙ ground (arith, f, here))
      | inr there ↦
          fill-key all es (follow_all id ms g) j ns m.1 a
            (λ k us e.
              follow_all_other id ms g k (key_after k us e) ∙ empty k us (rw (key_after k us e) e))
            (ground (arith, f, there))
    ]
  where
    key_after : (k : Str) (us : List Str) → find k es ≡ some us → same id k ≡ false
    key_after k us e = ground (
      arith,
      e,
      find-Above id es m.0,
      same_iff id k,
      ap (λ (i : Str). find i es) {x = id} {y = k},
    )
