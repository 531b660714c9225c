-- ===== src/Base/Dicts.antt =====
-- Python's dict as an association list in insertion order, with numbers for its keys.
use Prim.Native.Nat.{ℕ, ◌+◌, ◌≤◌}
use mathlib.Core.Path.{◌≡◌, refl}
use mathlib.Core.List.{List, [], ◌∷◌}
use mathlib.Core.Option.{Option, none, some}
use native.Mathlib.Omega.{arith}
use mlops_lite.Base.Tests.{◌==◌, if◌then◌else◌}

abbrev pub Dict {ℓ} : Type ℓ → Type ℓ
Dict V = List (ℕ × V)

module _ {ℓ} {V : Type ℓ} where
  unfoldable pub lookup : ℕ → Dict V → Option V
  lookup k [] = none
  lookup k ((j, v) ∷ m) = if j == k then some v else lookup k m

  -- `del m[k]`, `m.pop(k, None)`.
  unfoldable pub erase : ℕ → Dict V → Dict V
  erase k [] = []
  erase k ((j, v) ∷ m) = let rest = erase k m in if j == k then rest else (j, v) ∷ rest

  -- `m[k] = v`: a known key keeps its place.
  unfoldable pub insert : ℕ → V → Dict V → Dict V
  unfolding erase
  insert k v [] = (k, v) ∷ []
  insert k v ((j, w) ∷ m) = if j == k then (k, v) ∷ erase k m else (j, w) ∷ insert k v m

  -- A write to fields of the object `m[k]`.
  unfoldable pub modify : ℕ → (V → V) → Dict V → Dict V
  modify k g [] = []
  modify k g ((j, v) ∷ m) = (j, if j == k then g v else v) ∷ modify k g m

  -- The same write to every object of the dict.
  unfoldable pub modify_all : (V → V) → Dict V → Dict V
  modify_all g [] = []
  modify_all g ((j, v) ∷ m) = (j, g v) ∷ modify_all g m

  -- `sum(f v for v in m.values())`.
  unfoldable pub total : (V → ℕ) → Dict V → ℕ
  total f [] = 0
  total f ((j, v) ∷ m) = f v + total f m

  -- `sum(f v for j, v in m.items() if j != k)`.
  unfoldable pub total_except : (V → ℕ) → ℕ → Dict V → ℕ
  total_except f k [] = 0
  total_except f k ((j, v) ∷ m) = (if j == k then 0 else f v) + total_except f k m

  pub lookup-erase :
      (k j : ℕ) (m : Dict V) → lookup j (erase k m) ≡ (if k == j then none else lookup j m)
  unfolding lookup erase
  lookup-erase k j [] = ground arith
  lookup-erase k j ((i, w) ∷ m) = ground (arith, lookup-erase k j m)

  pub lookup-insert :
      (key other : ℕ) (value : V) (m : Dict V)
      → lookup other (insert key value m) ≡ (if key == other then some value else lookup other m)
  unfolding lookup insert
  lookup-insert key other value [] = refl
  lookup-insert key other value ((i, w) ∷ m) =
      ground (arith, lookup-insert key other value m, lookup-erase key other m)

  pub lookup-modify :
      (k j : ℕ) (g : V → V) (m : Dict V)
      → lookup j (modify k g m)
        ≡ (if k == j then elim (lookup j m) [ none ↦ none | some v ↦ some (g v) ] else lookup j m)
  unfolding lookup modify
  lookup-modify k j g [] = ground arith
  lookup-modify k j g ((i, w) ∷ m) = ground (arith, lookup-modify k j g m)

  pub lookup-modify_all :
      (j : ℕ) (g : V → V) (m : Dict V)
      → lookup j (modify_all g m) ≡ elim (lookup j m) [ none ↦ none | some v ↦ some (g v) ]
  unfolding lookup modify_all
  lookup-modify_all j g [] = refl
  lookup-modify_all j g ((i, w) ∷ m) = ground (arith, lookup-modify_all j g m)

  pub total-erase : (f : V → ℕ) (k : ℕ) (m : Dict V) → total f (erase k m) ≡ total_except f k m
  unfolding total total_except erase
  total-erase f k [] = refl
  total-erase f k ((j, v) ∷ m) = ground (arith, total-erase f k m)

  pub total-insert :
      (f : V → ℕ) (k : ℕ) (v : V) (m : Dict V) → total f (insert k v m) ≡ total_except f k m + f v
  unfolding total total_except insert
  total-insert f k v [] = omega arith
  total-insert f k v ((j, w) ∷ m) = ground (arith, total-insert f k v m, total-erase f k m)

  pub total-modify :
      (f : V → ℕ) (k : ℕ) (g : V → V) (m : Dict V)
      → ((v : V) → f (g v) ≡ f v)
      → total f (modify k g m) ≡ total f m
  unfolding total modify
  total-modify f k g [] h = refl
  total-modify f k g ((j, v) ∷ m) h = ground (arith, total-modify f k g m h, h v)

  pub total-modify_all :
      (f : V → ℕ) (g : V → V) (m : Dict V)
      → ((v : V) → f (g v) ≡ f v)
      → total f (modify_all g m) ≡ total f m
  unfolding total modify_all
  total-modify_all f g [] h = refl
  total-modify_all f g ((j, v) ∷ m) h = ground (arith, total-modify_all f g m h, h v)

  abbrev pub value_or_zero : (V → ℕ) → Option V → ℕ
  value_or_zero f none = 0
  value_or_zero f (some v) = f v

  pub total_except-le :
      (f : V → ℕ) (k : ℕ) (m : Dict V)
      → total_except f k m + value_or_zero f (lookup k m) ≤ total f m
  unfolding total total_except lookup
  total_except-le f k [] = omega arith
  total_except-le f k ((j, v) ∷ m) = ground (arith, total_except-le f k m)
