-- ===== src/Base/Text.antt =====
-- Texts as `std::string` holds them: lists of bytes. `same` is `operator==`, and `before` is
-- `operator<`, the order of the keys of a `std::map`.
use Prim.Native.Nat.{ℕ}
use Prim.Native.Char.{code}
use Prim.Native.String.{String}
use mathlib.Core.Path.{◌≡◌, refl}
use mathlib.Core.Logic.{◌↔◌, ◌⊎◌, inl, inr, ◌≢◌}
use mathlib.Core.Bool.{Bool, true, false, ◌&&◌, ◌||◌}
use mathlib.Core.List.{List, [], ◌∷◌}
use native.Mathlib.Omega.{arith}
use twitter_like_client_serv.Base.Tests.{ltb, ◌==◌, ==_iff, Bool-cases}

abbrev pub Str : Type 0
Str = List ℕ

abbrev pub codes : String → Str
codes String.[] = []
codes (String.◌∷◌ c s) = code c ∷ codes s

unfoldable pub same : Str → Str → Bool
same [] [] = true
same [] (b ∷ t) = false
same (a ∷ s) [] = false
same (a ∷ s) (b ∷ t) = a == b && same s t

unfoldable pub before : Str → Str → Bool
before s [] = false
before [] (b ∷ t) = true
before (a ∷ s) (b ∷ t) = ltb a b || (a == b && before s t)

pub same_iff : (s t : Str) → (same s t ≡ true) ↔ (s ≡ t)
unfolding same
same_iff [] [] = (λ _. refl, λ _. refl)
same_iff [] (b ∷ t) = (λ e. cc, λ e. cc)
same_iff (a ∷ s) [] = (λ e. cc, λ e. cc)
same_iff (a ∷ s) (b ∷ t) = ground (arith, same_iff s t, ==_iff a b)

pub same_refl : (s : Str) → same s s ≡ true
same_refl s = (same_iff s s).1 refl

pub same_cases : (s t : Str) → (s ≡ t) ⊎ ((same s t ≡ false) × (s ≢ t))
same_cases s t = elim (Bool-cases (same s t)) [
  | inl e ↦ inl ((same_iff s t).0 e)
  | inr e ↦ inr (e, λ q. ground (arith, same_iff s t))
]

pub before_irrefl : (s : Str) → before s s ≡ false
unfolding before
before_irrefl [] = refl
before_irrefl (a ∷ s) = ground (arith, before_irrefl s)

pub before_trans : (r s t : Str) → before r s ≡ true → before s t ≡ true → before r t ≡ true
unfolding before
before_trans r s [] p q = q
before_trans r [] (c ∷ t) p q = absurd (ground arith)
before_trans [] (b ∷ s) (c ∷ t) p q = refl
before_trans (a ∷ r) (b ∷ s) (c ∷ t) p q = ground (arith, before_trans r s t)

pub before_total : (s t : Str) → before s t ≡ false → same s t ≡ false → before t s ≡ true
unfolding before same
before_total [] [] p q = cc
before_total (a ∷ s) [] p q = refl
before_total [] (b ∷ t) p q = cc
before_total (a ∷ s) (b ∷ t) p q = ground (arith, before_total s t)
