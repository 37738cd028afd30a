-- ===== src/Server/ProfileAccessController/ReadersWriters/Counts.antt =====
-- Threads counted by where they stand.
use twitter_like_client_serv.Base.{
  ℕ, zero, suc, ◌+◌, ◌≤◌, ◌<◌, ◌≡◌, ◌≢◌, refl, ap, some, List, [], ◌∷◌, map, get_elem?, set, arith,
}
use native.Mathlib.Decide.{dec_lt}
use twitter_like_client_serv.Server.ProfileAccessController.ReadersWriters.{
  Pc, outside, count, idle, rouse,
}

module _ (w : Pc → ℕ) where
  pub count-set :
      (ps : List Pc) (i : ℕ) (p q : Pc)
      → get_elem? ps i ≡ some p
      → count w (set ps i q) + w p ≡ count w ps + w q
  unfolding count
  count-set [] i p q e = absurd (grind arith)
  count-set (r ∷ ps) zero p q e = ground (arith, e)
  count-set (r ∷ ps) (suc i) p q e = omega (arith, count-set ps i p q e)

  pub le-count : (ps : List Pc) (i : ℕ) (p : Pc) → get_elem? ps i ≡ some p → w p ≤ count w ps
  unfolding count
  le-count [] i p e = absurd (grind arith)
  le-count (r ∷ ps) zero p e = ground (arith, e)
  le-count (r ∷ ps) (suc i) p e = omega (arith, le-count ps i p e)

  pub add-le-count :
      (ps : List Pc) (i j : ℕ) (p q : Pc)
      → get_elem? ps i ≡ some p
      → get_elem? ps j ≡ some q
      → i ≢ j
      → w p + w q ≤ count w ps
  unfolding count
  add-le-count [] i j p q e d ne = absurd (grind arith)
  add-le-count (r ∷ ps) zero zero p q e d ne = absurd (ne refl)
  add-le-count (r ∷ ps) zero (suc j) p q e d ne = ground (arith, e, le-count ps j q d)
  add-le-count (r ∷ ps) (suc i) zero p q e d ne = ground (arith, d, le-count ps i p e)
  add-le-count (r ∷ ps) (suc i) (suc j) p q e d ne =
      omega (arith, add-le-count ps i j p q e d (λ k. ne (ap suc k)))

  pub count-rouse :
      ((p : Pc) → w (rouse p) ≡ w p) → (ps : List Pc) → count w (map rouse ps) ≡ count w ps
  unfolding count
  count-rouse h [] = refl
  count-rouse h (p ∷ ps) = omega (arith, h p, count-rouse h ps)

  pub count_zero : ((p : Pc) → w (rouse p) ≡ 0) → (ps : List Pc) → count w (map rouse ps) ≡ 0
  unfolding count
  count_zero h [] = refl
  count_zero h (p ∷ ps) = omega (arith, h p, count_zero h ps)

  pub count-idle : (n : ℕ) → w outside ≡ 0 → count w (idle n) ≡ 0
  unfolding count
  count-idle zero h = refl
  count-idle (suc n) h = omega (arith, h, count-idle n h)

-- A place that is counted has a thread.
unfoldable pub Counted : (Pc → ℕ) → List Pc → Type 0
Counted w ps = (i : ℕ) × (p : Pc) × (get_elem? ps i ≡ some p) × (0 < w p)

pub count-Counted : (w : Pc → ℕ) (ps : List Pc) → 0 < count w ps → Counted w ps
unfolding count Counted
count-Counted w [] h = absurd (omega arith)
count-Counted w (p ∷ ps) h = elim (dec_lt 0 (w p)) [
  | yes here ↦ (0, p, refl, here)
  | no other ↦ let (i, q, at, k) = count-Counted w ps (omega arith) in (suc i, q, at, k)
]
