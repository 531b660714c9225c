-- ===== src/Metering/Sums.antt =====
-- Sums over a dict whose keys are distinct.
use mlops_lite.Base.{
  Dict, total, some, [], ◌≡◌, none, arith, modify, ℕ, refl, lookup, ◌++◌, ◌==◌, ◌+◌, ◌∷◌, inr,
  ==_iff, subst, inl, Bool-cases, sym, Distinct, some_injective,
}

module _ {V : Type 0} where
  pub total-append :
      (f : V → ℕ) (k : ℕ) (v : V) (m : Dict V) → total f (m ++ (k, v) ∷ []) ≡ total f m + f v
  unfolding total
  total-append f k v [] = omega arith
  total-append f k v ((j, w) ∷ m) = ground (arith, total-append f k v m)

  pub total-modify_absent :
      (f : V → ℕ) (k : ℕ) (g : V → V) (m : Dict V)
      → lookup k m ≡ none
      → total f (modify k g m) ≡ total f m
  unfolding total modify lookup
  total-modify_absent f k g [] e = refl
  total-modify_absent f k g ((j, w) ∷ m) e = ground (arith, total-modify_absent f k g m)

  pub total-modify_at :
      (f : V → ℕ) (k : ℕ) (g : V → V) (m : Dict V) (v : V)
      → Distinct m
      → lookup k m ≡ some v
      → total f (modify k g m) + f v ≡ total f m + f (g v)
  unfolding total modify lookup Distinct
  total-modify_at f k g [] v d e = ground arith
  total-modify_at f k g ((j, w) ∷ m) v (n, d) e = elim (Bool-cases (j == k)) [
    | inl b ↦
        let same : w ≡ v = some_injective (rw (b, lookup) at e) in
        let absent =
          total-modify_absent f k g m (subst (λ x. lookup x m ≡ none) ((==_iff j k).0 b) n) in
        rw b (
          subst (λ x. f (g x) + total f (modify k g m) + f v ≡ f x + total f m + f (g v)) (sym same)
            (omega (arith, absent)))
    | inr b ↦ rw b (omega (arith, total-modify_at f k g m v d (rw (b, lookup) at e)))
  ]
