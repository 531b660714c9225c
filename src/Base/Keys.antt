-- ===== src/Base/Keys.antt =====
-- Dicts whose keys are distinct.
use Prim.Native.Nat.{ℕ}
use mathlib.Core.Path.{◌≡◌, refl, subst}
use mathlib.Core.Logic.{inl, inr}
use mathlib.Core.Bool.{Bool, false}
use mathlib.Core.List.{List, [], ◌∷◌, ◌++◌, map}
use mathlib.Core.Option.{Option, none, some}
use native.Mathlib.Omega.{arith}
use mlops_lite.Base.Tests.{◌==◌, if◌then◌else◌, Bool-cases, ==_iff}
use mlops_lite.Base.Lists.{contains, select}
use mlops_lite.Base.Dicts.{
  Dict, lookup, insert, erase, modify, modify_all, lookup-insert, lookup-erase, lookup-modify,
  lookup-modify_all,
}

unfoldable pub Distinct {ℓ} : {V : Type ℓ} → Dict V → Type ℓ
Distinct [] = Unit
Distinct ((k, v) ∷ m) = (lookup k m ≡ none) × Distinct m

pub some_injective : {A : Type 0} {a b : A} → some a ≡ some b → a ≡ b
some_injective h = cc

module _ {V : Type 0} where
  pub lookup-append :
      (k j : ℕ) (v : V) (m : Dict V)
      → lookup j (m ++ (k, v) ∷ [])
        ≡ elim (lookup j m) [ none ↦ if k == j then some v else none | some w ↦ some w ]
  unfolding lookup
  lookup-append k j v [] = refl
  lookup-append k j v ((i, w) ∷ m) = ground (arith, lookup-append k j v m)

  pub append-Distinct :
      (k : ℕ) (v : V) (m : Dict V) → lookup k m ≡ none → Distinct m → Distinct (m ++ (k, v) ∷ [])
  unfolding Distinct lookup
  append-Distinct k v [] e d = (refl, tt)
  append-Distinct k v ((j, w) ∷ m) e (n, d) =
      (ground (arith, lookup-append k j v m), append-Distinct k v m (ground arith) d)

  pub modify-Distinct : (k : ℕ) (g : V → V) (m : Dict V) → Distinct m → Distinct (modify k g m)
  unfolding Distinct modify
  modify-Distinct k g [] d = d
  modify-Distinct k g ((j, w) ∷ m) (n, d) =
      (ground (arith, lookup-modify k j g m), modify-Distinct k g m d)

  pub modify_all-Distinct : (g : V → V) (m : Dict V) → Distinct m → Distinct (modify_all g m)
  unfolding Distinct modify_all
  modify_all-Distinct g [] d = d
  modify_all-Distinct g ((j, w) ∷ m) (n, d) =
      (ground (arith, lookup-modify_all j g m), modify_all-Distinct g m d)

  pub erase-Distinct : (k : ℕ) (m : Dict V) → Distinct m → Distinct (erase k m)
  unfolding Distinct erase
  erase-Distinct k [] d = d
  erase-Distinct k ((j, w) ∷ m) (n, d) = ground (arith, lookup-erase k j m, erase-Distinct k m d)

  pub insert-Distinct : (k : ℕ) (v : V) (m : Dict V) → Distinct m → Distinct (insert k v m)
  unfolding Distinct insert lookup
  insert-Distinct k v [] d = (refl, tt)
  insert-Distinct k v ((j, w) ∷ m) (n, d) = ground (
    arith,
    lookup-erase k k m,
    lookup-insert k j v m,
    erase-Distinct k m d,
    insert-Distinct k v m d,
  )

  -- `[k for k, v in m.items() if test v]`.
  abbrev pub keys_where : (V → Bool) → Dict V → List ℕ
  keys_where test m = map (λ (e : ℕ × V). e.0) (select (λ (e : ℕ × V). test e.1) m)

  abbrev pub meets : (V → Bool) → Option V → Bool
  meets test none = false
  meets test (some v) = test v

  keys_where-absent :
      (test : V → Bool) (k : ℕ) (m : Dict V)
      → lookup k m ≡ none
      → contains k (keys_where test m) ≡ false
  unfolding lookup
  keys_where-absent test k [] e = refl
  keys_where-absent test k ((j, w) ∷ m) e = ground (arith, keys_where-absent test k m)

  pub contains-keys_where :
      (test : V → Bool) (k : ℕ) (m : Dict V)
      → Distinct m
      → contains k (keys_where test m) ≡ meets test (lookup k m)
  unfolding lookup Distinct
  contains-keys_where test k [] d = refl
  contains-keys_where test k ((j, w) ∷ m) (n, d) =
      ground (arith, contains-keys_where test k m d, keys_where-absent test j m n)

  -- What holds of an inserted value and of the old ones holds of all.
  pub insert_cases {κ} :
      (P : ℕ → V → Type κ) (key other : ℕ) (v w : V) (m : Dict V)
      → P key v
      → (lookup other m ≡ some w → P other w)
      → lookup other (insert key v m) ≡ some w
      → P other w
  insert_cases P key other v w m new old e = elim (Bool-cases (key == other)) [
    | inl b ↦
        subst (P other) (some_injective (rw (lookup-insert key other v m, b) at e))
          (subst (λ i. P i v) ((==_iff key other).0 b) new)
    | inr b ↦ old (rw (lookup-insert key other v m, b) at e)
  ]
