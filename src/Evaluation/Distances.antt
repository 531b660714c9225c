-- ===== src/Evaluation/Distances.antt =====
-- gateway/app/evaluation.py: _edit_distance gives the least number of edits.
use mlops_lite.Base.{
  ℕ, List, [], ◌∷◌, ◌≡◌, ◌≤◌, refl, ap, ◌∙◌, arith, length, leb, min, suc, ◌+◌, ◌==◌, if◌then◌else◌,
  subst, Bool-cases, inl, inr,
}
use mlops_lite.Evaluation.Metrics.{edit_distance, fill, first_row, last_cell, rows}

-- The edits that turn a sequence into another, with their number.
pub data Edits : List ℕ → List ℕ → ℕ → Type 0 where
  done : Edits [] [] 0
  keep : {x : ℕ} {a b : List ℕ} {n : ℕ} → Edits a b n → Edits (x ∷ a) (x ∷ b) n
  replace : {x y : ℕ} {a b : List ℕ} {n : ℕ} → Edits a b n → Edits (x ∷ a) (y ∷ b) (suc n)
  insert : {y : ℕ} {a b : List ℕ} {n : ℕ} → Edits a b n → Edits a (y ∷ b) (suc n)
  delete : {x : ℕ} {a b : List ℕ} {n : ℕ} → Edits a b n → Edits (x ∷ a) b (suc n)

-- The recursion that the table fills in.
abbrev cost : ℕ → ℕ → ℕ
cost x y = if x == y then 0 else 1

distance : List ℕ → List ℕ → ℕ
distance [] b = length b
distance (x ∷ a) [] = suc (length a)
distance (x ∷ a) (y ∷ b) =
    min (min (suc (distance a (y ∷ b))) (suc (distance (x ∷ a) b))) (distance a b + cost x y)

distance_nil : (a : List ℕ) → distance a [] ≡ length a
unfolding distance
distance_nil [] = refl
distance_nil (x ∷ a) = refl

-- The cells for the prefixes of a sequence, from one of them on. Prefixes are reversed.
cells : (a seen b : List ℕ) → List ℕ
cells a seen [] = distance a seen ∷ []
cells a seen (y ∷ b) = distance a seen ∷ cells a (y ∷ seen) b

abbrev rev_onto : List ℕ → List ℕ → List ℕ
rev_onto [] seen = seen
rev_onto (y ∷ b) seen = rev_onto b (y ∷ seen)

fill-cells :
    (x : ℕ) (a seen b : List ℕ)
    → distance (x ∷ a) seen ∷ fill x (cells a seen b) (distance (x ∷ a) seen) b
      ≡ cells (x ∷ a) seen b
unfolding fill cells distance
fill-cells x a seen [] = refl
fill-cells x a seen (y ∷ []) = refl
fill-cells x a seen (y ∷ z ∷ b) =
    ap (λ cs. distance (x ∷ a) seen ∷ cs) (fill-cells x a (y ∷ seen) (z ∷ b))

first_row-cells : (seen b : List ℕ) → first_row (length seen) b ≡ cells [] seen b
unfolding first_row cells distance
first_row-cells seen [] = refl
first_row-cells seen (y ∷ b) = ap (λ cs. length seen ∷ cs) (first_row-cells (y ∷ seen) b)

rows-cells :
    (a before b : List ℕ)
    → rows (suc (length before)) (cells before [] b) a b ≡ cells (rev_onto a before) [] b
unfolding rows distance
rows-cells [] before b = refl
rows-cells (x ∷ a) before b =
    ap (λ row. rows (suc (suc (length before))) row a b) (fill-cells x before [] b)
    ∙ rows-cells a (x ∷ before) b

last-cells : (a seen b : List ℕ) → last_cell (cells a seen b) ≡ distance a (rev_onto b seen)
unfolding cells
last-cells a seen [] = refl
last-cells a seen (y ∷ []) = refl
last-cells a seen (y ∷ z ∷ b) = last-cells a (y ∷ seen) (z ∷ b)

edit_distance-distance :
    (a b : List ℕ) → edit_distance a b ≡ distance (rev_onto a []) (rev_onto b [])
unfolding edit_distance
edit_distance-distance a b =
    ap (λ row. last_cell (rows 1 row a b)) (first_row-cells [] b)
    ∙ ap last_cell (rows-cells a [] b)
    ∙ last-cells (rev_onto a []) [] b

-- The recursion gives a number of edits that suffices, and the least one.
all_inserted : (b : List ℕ) → Edits [] b (length b)
all_inserted [] = done
all_inserted (y ∷ b) = insert (all_inserted b)

all_deleted : (a : List ℕ) → Edits a [] (length a)
all_deleted [] = done
all_deleted (x ∷ a) = delete (all_deleted a)

min_cases {ℓ} : (P : ℕ → Type ℓ) (m n : ℕ) → P m → P n → P (min m n)
min_cases P m n p q = elim (Bool-cases (leb m n)) [
  | inl e ↦ subst P (ground (arith, e)) p
  | inr e ↦ subst P (ground (arith, e)) q
]

diagonal : (x y n : ℕ) (a b : List ℕ) → Edits a b n → Edits (x ∷ a) (y ∷ b) (n + cost x y)
diagonal x y n a b e = elim (Bool-cases (x == y)) [
  | inl h ↦
      subst (λ z. Edits (x ∷ a) (z ∷ b) (n + cost x y)) (ground (arith, h))
        (subst (λ k. Edits (x ∷ a) (x ∷ b) k) (ground (arith, h)) (keep e))
  | inr h ↦ subst (λ k. Edits (x ∷ a) (y ∷ b) k) (ground (arith, h)) (replace e)
]

distance-Edits : (a b : List ℕ) → Edits a b (distance a b)
unfolding distance
distance-Edits [] b = all_inserted b
distance-Edits (x ∷ a) [] = all_deleted (x ∷ a)
distance-Edits (x ∷ a) (y ∷ b) =
    min_cases (Edits (x ∷ a) (y ∷ b)) _ _
      (min_cases (Edits (x ∷ a) (y ∷ b)) _ _ (delete (distance-Edits a (y ∷ b)))
        (insert (distance-Edits (x ∷ a) b)))
      (diagonal x y (distance a b) a b (distance-Edits a b))

distance_insert : (y : ℕ) (a b : List ℕ) → distance a (y ∷ b) ≤ suc (distance a b)
unfolding distance
distance_insert y [] b = omega arith
distance_insert y (x ∷ a) b = omega arith

distance_delete : (x : ℕ) (a b : List ℕ) → distance (x ∷ a) b ≤ suc (distance a b)
unfolding distance
distance_delete x a [] = rw (distance_nil a) (omega arith)
distance_delete x a (y ∷ b) = omega arith

distance-le : (a b : List ℕ) (n : ℕ) → Edits a b n → distance a b ≤ n
unfolding distance
distance-le _ _ _ done = omega arith
distance-le _ _ _ (keep {x} {a} {b} {n} e) = ground (arith, distance-le a b n e)
distance-le _ _ _ (replace {x} {y} {a} {b} {n} e) = ground (arith, distance-le a b n e)
distance-le _ _ _ (insert {y} {a} {b} {n} e) =
    omega (arith, distance_insert y a b, distance-le a b n e)
distance-le _ _ _ (delete {x} {a} {b} {n} e) =
    omega (arith, distance_delete x a b, distance-le a b n e)

-- Edits may be read from either end.
then_Edits :
    {a b : List ℕ} (c d : List ℕ) {m : ℕ} (n : ℕ)
    → Edits a b m
    → Edits c d n
    → Edits (rev_onto a c) (rev_onto b d) (m + n)
then_Edits c d n done f = subst (Edits c d) (omega arith) f
then_Edits c d n (keep {x} e) f = then_Edits (x ∷ c) (x ∷ d) n e (keep f)
then_Edits c d n (replace {x} {y} {a} {b} e) f =
    subst (Edits (rev_onto a (x ∷ c)) (rev_onto b (y ∷ d))) (omega arith)
      (then_Edits (x ∷ c) (y ∷ d) (suc n) e (replace f))
then_Edits c d n (insert {y} {a} {b} e) f =
    subst (Edits (rev_onto a c) (rev_onto b (y ∷ d))) (omega arith)
      (then_Edits c (y ∷ d) (suc n) e (insert f))
then_Edits c d n (delete {x} {a} {b} e) f =
    subst (Edits (rev_onto a (x ∷ c)) (rev_onto b d)) (omega arith)
      (then_Edits (x ∷ c) d (suc n) e (delete f))

abbrev rev : List ℕ → List ℕ
rev a = rev_onto a []

rev-Edits : {a b : List ℕ} {n : ℕ} → Edits a b n → Edits (rev a) (rev b) n
rev-Edits {a} {b} {n} e = subst (Edits (rev a) (rev b)) (omega arith) (then_Edits [] [] 0 e done)

rev_onto_twice : (a c : List ℕ) → rev (rev_onto a c) ≡ rev_onto c a
rev_onto_twice [] c = refl
rev_onto_twice (x ∷ a) c = rev_onto_twice a (x ∷ c)

unrev-Edits : (a b : List ℕ) (n : ℕ) → Edits (rev a) (rev b) n → Edits a b n
unrev-Edits a b n e =
    subst (λ c. Edits c b n) (rev_onto_twice a [])
      (subst (λ d. Edits (rev (rev a)) d n) (rev_onto_twice b []) (rev-Edits e))

-- The table gives the Levenshtein distance: so many insertions, deletions and replacements of a token
-- turn the one sequence into the other, and no fewer do.
pub edit_distance_lem :
    (a b : List ℕ) → Edits a b (edit_distance a b) × ((n : ℕ) → Edits a b n → edit_distance a b ≤ n)
edit_distance_lem a b = rw (edit_distance-distance a b) (
  unrev-Edits a b _ (distance-Edits (rev a) (rev b)),
  λ n e. distance-le (rev a) (rev b) n (rev-Edits e),
)
