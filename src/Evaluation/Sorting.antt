-- ===== src/Evaluation/Sorting.antt =====
-- gateway/app/shadow.py: the sort by time of the pairs that a replay joins.
use mlops_lite.Base.{
  ℕ, Bool, true, List, [], ◌∷◌, ◌≡◌, ◌≤◌, refl, arith, if◌then◌else◌, ◌+◌, every, leb, ◌&&◌, ◌∙◌,
  Bool-cases, inl, inr,
}
use mlops_lite.Evaluation.Shadows.{Pair, insert_pair, sort_pairs}

every-insert_pair :
    (test : Pair → Bool) (p : Pair) (ps : List Pair)
    → every test (insert_pair p ps) ≡ (test p && every test ps)
unfolding insert_pair
every-insert_pair test p [] = ground arith
every-insert_pair test p (q ∷ qs) = ground (arith, every-insert_pair test p qs)

pub every-sort_pairs :
    (test : Pair → Bool) (ps : List Pair) → every test (sort_pairs ps) ≡ every test ps
unfolding sort_pairs
every-sort_pairs test [] = refl
every-sort_pairs test (p ∷ ps) =
    every-insert_pair test p (sort_pairs ps) ∙ ground (arith, every-sort_pairs test ps)

-- Oldest first.
abbrev pub not_before : ℕ → Pair → Bool
not_before t p = leb t p.ts

abbrev pub Aging : List Pair → Type 0
Aging [] = Unit
Aging (p ∷ ps) = (every (not_before p.ts) ps ≡ true) × Aging ps

every-not_before :
    (s t : ℕ) (ps : List Pair)
    → s ≤ t
    → every (not_before t) ps ≡ true
    → every (not_before s) ps ≡ true
every-not_before s t [] h e = refl
every-not_before s t (p ∷ ps) h e = ground (arith, every-not_before s t ps h)

insert_pair-Aging : (p : Pair) (ps : List Pair) → Aging ps → Aging (insert_pair p ps)
unfolding insert_pair
insert_pair-Aging p [] a = (refl, tt)
insert_pair-Aging p (q ∷ qs) (b, a) = elim (Bool-cases (leb p.ts q.ts)) [
  | inl e ↦ ground (arith, e, b, a, every-not_before p.ts q.ts qs)
  | inr e ↦ ground (arith, e, b, every-insert_pair (not_before q.ts) p qs, insert_pair-Aging p qs a)
]

pub sort_pairs-Aging : (ps : List Pair) → Aging (sort_pairs ps)
unfolding sort_pairs
sort_pairs-Aging [] = tt
sort_pairs-Aging (p ∷ ps) = insert_pair-Aging p (sort_pairs ps) (sort_pairs-Aging ps)

-- The members of a list that pass a test, counted.
abbrev pub tally {ℓ} : {A : Type ℓ} → (A → Bool) → List A → ℕ
tally test [] = 0
tally test (x ∷ xs) = (if test x then 1 else 0) + tally test xs

tally-insert_pair :
    (test : Pair → Bool) (p : Pair) (ps : List Pair)
    → tally test (insert_pair p ps) ≡ (if test p then 1 else 0) + tally test ps
unfolding insert_pair
tally-insert_pair test p [] = refl
tally-insert_pair test p (q ∷ qs) = ground (arith, tally-insert_pair test p qs)

pub tally-sort_pairs :
    (test : Pair → Bool) (ps : List Pair) → tally test (sort_pairs ps) ≡ tally test ps
unfolding sort_pairs
tally-sort_pairs test [] = refl
tally-sort_pairs test (p ∷ ps) =
    tally-insert_pair test p (sort_pairs ps) ∙ omega (arith, tally-sort_pairs test ps)
