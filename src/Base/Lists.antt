-- ===== src/Base/Lists.antt =====
-- Lists measured by native numbers, tests on lists, and predicates over them.
use Prim.Native.Nat.{ℕ, zero, suc, ◌-◌, ◌+◌, ◌≤◌, ◌<◌}
use mathlib.Core.Path.{◌≡◌, refl}
use mathlib.Core.Logic.{◌⊎◌, inl, inr, ◌≢◌}
use mathlib.Core.Bool.{Bool, true, false, ◌&&◌, ◌||◌}
use mathlib.Core.List.{List, [], ◌∷◌, ◌++◌}
use native.Mathlib.Omega.{arith}
use mlops_lite.Base.Tests.{◌==◌, if◌then◌else◌}

module _ {ℓ} {A : Type ℓ} where
  abbrev pub length : List A → ℕ
  length [] = 0
  length (x ∷ xs) = suc (length xs)

  pub length-append : (xs ys : List A) → length (xs ++ ys) ≡ length xs + length ys
  length-append [] ys = omega arith
  length-append (x ∷ xs) ys = omega (arith, length-append xs ys)

  abbrev pub take : ℕ → List A → List A
  take zero xs = []
  take (suc n) [] = []
  take (suc n) (x ∷ xs) = x ∷ take n xs

  abbrev pub drop : ℕ → List A → List A
  drop zero xs = xs
  drop (suc n) [] = []
  drop (suc n) (x ∷ xs) = drop n xs

  pub take-append_drop : (n : ℕ) (xs : List A) → take n xs ++ drop n xs ≡ xs
  take-append_drop zero xs = refl
  take-append_drop (suc n) [] = refl
  take-append_drop (suc n) (x ∷ xs) = cc (take-append_drop n xs)

  pub take_all : (n : ℕ) (xs : List A) → length xs ≤ n → take n xs ≡ xs
  take_all zero [] h = refl
  take_all zero (x ∷ xs) h = absurd (omega arith)
  take_all (suc n) [] h = refl
  take_all (suc n) (x ∷ xs) h = cc (take_all n xs (omega arith))

  pub length-drop : (n : ℕ) (xs : List A) → length (drop n xs) ≡ length xs - n
  length-drop zero xs = omega arith
  length-drop (suc n) [] = omega arith
  length-drop (suc n) (x ∷ xs) = omega (arith, length-drop n xs)

  abbrev pub All {κ} : (A → Type κ) → List A → Type κ
  All P [] = Unit
  All P (x ∷ xs) = P x × All P xs

  abbrev pub is_empty : List A → Bool
  is_empty [] = true
  is_empty (x ∷ xs) = false

  pub List-cases : (xs : List A) → (xs ≡ []) ⊎ (xs ≢ [])
  List-cases [] = inl refl
  List-cases (x ∷ xs) = inr (λ e. cc)

  -- A comprehension with a Boolean test, `[x for x in xs if test x]`.
  abbrev pub select : (A → Bool) → List A → List A
  select test [] = []
  select test (x ∷ xs) = let rest = select test xs in if test x then x ∷ rest else rest

  -- `sum(f x for x in xs)`.
  abbrev pub sum_of : (A → ℕ) → List A → ℕ
  sum_of f [] = 0
  sum_of f (x ∷ xs) = f x + sum_of f xs

  pub sum_of-append : (f : A → ℕ) (xs ys : List A) → sum_of f (xs ++ ys) ≡ sum_of f xs + sum_of f ys
  sum_of-append f [] ys = omega arith
  sum_of-append f (x ∷ xs) ys = omega (arith, sum_of-append f xs ys)

-- `a in xs`.
abbrev pub contains : ℕ → List ℕ → Bool
contains a [] = false
contains a (x ∷ xs) = (x == a) || contains a xs

-- `xs.discard(a)` and `xs.remove(a)` on a list whose items differ.
abbrev pub discard : ℕ → List ℕ → List ℕ
discard a [] = []
discard a (x ∷ xs) = let rest = discard a xs in if x == a then rest else x ∷ rest

pub contains-discard_ne :
    (a b : ℕ) (xs : List ℕ) → (a == b) ≡ false → contains b (discard a xs) ≡ contains b xs
contains-discard_ne a b [] h = refl
contains-discard_ne a b (x ∷ xs) h = ground (arith, contains-discard_ne a b xs h)

pub contains-discard_self : (a : ℕ) (xs : List ℕ) → contains a (discard a xs) ≡ false
contains-discard_self a [] = refl
contains-discard_self a (x ∷ xs) = ground (arith, contains-discard_self a xs)

-- A set of numbers from a counter, newest first: strictly falling, and below the counter.
abbrev pub Below : ℕ → List ℕ → Type 0
Below n [] = Unit {0}
Below n (x ∷ xs) = (x < n) × Below x xs

pub Below-mono : (m n : ℕ) (xs : List ℕ) → m ≤ n → Below m xs → Below n xs
Below-mono m n [] h b = tt
Below-mono m n (x ∷ xs) h b = (omega arith, b.1)

pub Below-discard : (n a : ℕ) (xs : List ℕ) → Below n xs → Below n (discard a xs)
Below-discard n a [] b = tt
Below-discard n a (x ∷ xs) b =
    ground (arith, Below-discard x a xs b.1, Below-mono x n (discard a xs))

pub contains_above : (n a : ℕ) (xs : List ℕ) → Below n xs → n ≤ a → contains a xs ≡ false
contains_above n a [] b h = refl
contains_above n a (x ∷ xs) b h = ground (arith, contains_above x a xs b.1)

pub discard_absent : (a : ℕ) (xs : List ℕ) → contains a xs ≡ false → discard a xs ≡ xs
discard_absent a [] h = refl
discard_absent a (x ∷ xs) h = ground (arith, discard_absent a xs)

pub length-discard :
    (n a : ℕ) (xs : List ℕ)
    → Below n xs
    → contains a xs ≡ true
    → suc (length (discard a xs)) ≡ length xs
length-discard n a [] b h = ground arith
length-discard n a (x ∷ xs) b h =
    ground (arith, length-discard x a xs b.1, contains_above x a xs b.1, discard_absent a xs)

-- `any(test(x) for x in xs)` and `all(test(x) for x in xs)`.
module _ {ℓ} {A : Type ℓ} where
  abbrev pub any : (A → Bool) → List A → Bool
  any test [] = false
  any test (x ∷ xs) = test x || any test xs

  abbrev pub every : (A → Bool) → List A → Bool
  every test [] = true
  every test (x ∷ xs) = test x && every test xs

  pub any-append :
      (test : A → Bool) (xs ys : List A) → any test (xs ++ ys) ≡ (any test xs || any test ys)
  any-append test [] ys = refl
  any-append test (x ∷ xs) ys = ground (arith, any-append test xs ys)

  pub every-append :
      (test : A → Bool) (xs ys : List A) → every test (xs ++ ys) ≡ (every test xs && every test ys)
  every-append test [] ys = refl
  every-append test (x ∷ xs) ys = ground (arith, every-append test xs ys)

  -- A selection keeps an item that passes it, and what holds of all.
  pub any-select :
      (test keep : A → Bool) (xs : List A)
      → ((x : A) → test x ≡ true → keep x ≡ true)
      → any test (select keep xs) ≡ any test xs
  any-select test keep [] h = refl
  any-select test keep (x ∷ xs) h = ground (arith, any-select test keep xs h, h x)

  pub every-select :
      (test keep : A → Bool) (xs : List A)
      → every test xs ≡ true
      → every test (select keep xs) ≡ true
  every-select test keep [] h = refl
  every-select test keep (x ∷ xs) h = ground (arith, every-select test keep xs)
