-- ===== src/Base/Map.antt =====
-- `std::map<string, V>` as the list of its entries in the order of the keys, which is the order in
-- which a loop over the map meets them.
use mathlib.Core.Path.{◌≡◌, refl, ap}
use mathlib.Core.Bool.{true}
use mathlib.Core.Option.{Option, none, some}
use mathlib.Core.List.{List, [], ◌∷◌}
use native.Mathlib.Omega.{arith}
use twitter_like_client_serv.Base.Lists.{All}
use twitter_like_client_serv.Base.Tests.{if◌then◌else◌}
use twitter_like_client_serv.Base.Text.{
  Str, same, before, same_iff, same_refl, before_irrefl, before_trans, before_total,
}

module _ {ℓ} {V : Type ℓ} where
  -- `find`: `none` is `end()`.
  unfoldable pub find : Str → List (Str × V) → Option V
  find k [] = none
  find k ((j, v) ∷ m) = if same j k then some v else find k m

  -- `insert`, which leaves the entry of a key that is there.
  unfoldable pub insert : Str → V → List (Str × V) → List (Str × V)
  insert k v [] = (k, v) ∷ []
  insert k v ((j, w) ∷ m) =
      if same j k
      then (j, w) ∷ m
      else if before k j
      then (k, v) ∷ (j, w) ∷ m
      else (j, w) ∷ insert k v m

  -- Every key of the map comes after `k`.
  abbrev pub Above : Str → List (Str × V) → Type 0
  Above k [] = Unit {0}
  Above k ((j, v) ∷ m) = (before k j ≡ true) × Above k m

  -- What a `std::map` keeps: each key comes before all that stand behind it.
  abbrev pub IsMap : List (Str × V) → Type 0
  IsMap [] = Unit {0}
  IsMap ((j, v) ∷ m) = Above j m × IsMap m

  pub Above-trans : (i j : Str) (m : List (Str × V)) → before i j ≡ true → Above j m → Above i m
  Above-trans i j [] h a = tt
  Above-trans i j ((k, v) ∷ m) h a = (before_trans i j k h a.0, Above-trans i j m h a.1)

  pub find-Above : (k : Str) (m : List (Str × V)) → Above k m → find k m ≡ none
  unfolding find
  find-Above k [] a = refl
  find-Above k ((j, v) ∷ m) a =
      ground (arith, same_iff j k, find-Above k m a.1, before_irrefl k, a.0)

  pub insert-Above :
      (i k : Str) (v : V) (m : List (Str × V))
      → before i k ≡ true
      → Above i m
      → Above i (insert k v m)
  unfolding insert
  insert-Above i k v [] h a = (h, tt)
  insert-Above i k v ((j, w) ∷ m) h a = ground (arith, insert-Above i k v m h a.1)

  pub insert-IsMap : (k : Str) (v : V) (m : List (Str × V)) → IsMap m → IsMap (insert k v m)
  unfolding insert
  insert-IsMap k v [] s = (tt, tt)
  insert-IsMap k v ((j, w) ∷ m) s = ground (
    arith,
    insert-IsMap k v m s.1,
    before_total k j,
    same_iff j k,
    same_iff k j,
    insert-Above j k v m,
    Above-trans k j m,
  )

  -- A key that is not there is found afterwards with its value; no other key changes.
  pub find-insert :
      (j k : Str) (v : V) (m : List (Str × V))
      → find k m ≡ none
      → find j (insert k v m) ≡ (if same k j then some v else find j m)
  unfolding find insert
  find-insert j k v [] h = refl
  find-insert j k v ((i, w) ∷ m) h =
      ground (arith, find-insert j k v m, same_iff k j, same_iff i j, same_iff i k)

  -- What holds of each entry that can be found holds of all entries.
  pub All-entries {κ} :
      (P : Str × V → Type κ) (m : List (Str × V))
      → IsMap m
      → ((k : Str) (v : V) → find k m ≡ some v → P (k, v))
      → All P m
  unfolding find
  All-entries P [] s h = tt
  All-entries P ((j, v) ∷ m) s h = (
    h j v (rw (same_refl j)),
    All-entries P m s.1 (λ k u e. h k u (
        ground (
          arith,
          e,
          find-Above j m s.0,
          same_iff j k,
          ap (λ (i : Str). find i m) {x = j} {y = k},
        ))),
  )
