-- ===== src/Evaluation/Metrics.antt =====
-- gateway/app/evaluation.py: the scorers that count. Tokens, labels and ids are numbers; a score is kept
-- as its two counts, none where the code raises. The normalization of an answer is an argument.
use mlops_lite.Base.{
  ℕ, Bool, true, false, Option, none, some, List, [], ◌∷◌, contains, length, take, min, suc, ◌+◌,
  ◌==◌, ◌&&◌, ◌||◌, not, is_empty, if◌then◌else◌,
}

-- One row of _edit_distance, after its first cell: `above` is the row before from the cell to the left
-- on, `left` the cell to the left.
unfoldable pub fill : (token : ℕ) → (above : List ℕ) → (left : ℕ) → List ℕ → List ℕ
fill x (p ∷ q ∷ above) left (y ∷ ys) =
    let cell = min (min (suc q) (suc left)) (p + (if x == y then 0 else 1)) in
    cell ∷ fill x (q ∷ above) cell ys
fill x above left ys = []

unfoldable pub rows : (i : ℕ) → (above : List ℕ) → (a b : List ℕ) → List ℕ
rows i above [] b = above
rows i above (x ∷ xs) b = rows (suc i) (i ∷ fill x above i b) xs b

unfoldable pub first_row : (from : ℕ) → List ℕ → List ℕ
first_row from [] = from ∷ []
first_row from (y ∷ ys) = from ∷ first_row (suc from) ys

abbrev pub last_cell : List ℕ → ℕ
last_cell [] = 0
last_cell (c ∷ []) = c
last_cell (c ∷ d ∷ cs) = last_cell (d ∷ cs)

unfoldable pub edit_distance : (a b : List ℕ) → ℕ
edit_distance a b = last_cell (rows 1 (first_row 0 b) a b)

-- wer: the edits and the words of the references, pair by pair.
unfoldable pub word_errors : List (List ℕ × List ℕ) → ℕ × ℕ
word_errors [] = (0, 0)
word_errors ((h, r) ∷ pairs) =
    let rest = word_errors pairs in (edit_distance h r + rest.0, length r + rest.1)

unfoldable pub wer : List (List ℕ × List ℕ) → Option (ℕ × ℕ)
wer pairs = let total = word_errors pairs in if total.1 == 0 then none else some total

-- _contains_subsequence: a start at each place.
unfoldable pub is_prefix : (needle haystack : List ℕ) → Bool
is_prefix [] hs = true
is_prefix (n ∷ ns) [] = false
is_prefix (n ∷ ns) (h ∷ hs) = (h == n) && is_prefix ns hs

unfoldable pub occurs : (needle haystack : List ℕ) → Bool
occurs needle [] = is_prefix needle []
occurs needle (h ∷ hs) = is_prefix needle (h ∷ hs) || occurs needle hs

unfoldable pub contains_subsequence : (haystack needle : List ℕ) → Bool
contains_subsequence haystack needle = not (is_empty needle) && occurs needle haystack

-- task_accuracy, accuracy and recall_at_k: the hits and the number of items.
unfoldable pub count_hits {ℓ} : {A : Type ℓ} → (A → Bool) → List A → ℕ
count_hits hit [] = 0
count_hits hit (x ∷ xs) = (if hit x then 1 else 0) + count_hits hit xs

unfoldable pub fraction {ℓ} : {A : Type ℓ} → (A → Bool) → List A → Option (ℕ × ℕ)
fraction hit [] = none
fraction hit (x ∷ xs) = some (count_hits hit (x ∷ xs), length (x ∷ xs))

-- A normalized text, 0 if it is empty, with its tokens.
abbrev pub answers : ℕ × List ℕ → ℕ × List ℕ → Bool
answers (p, ps) (r, rs) = not (r == 0) && ((p == r) || contains_subsequence ps rs)

unfoldable pub task_accuracy :
    {A : Type 0} → (norm : A → ℕ × List ℕ) → List (A × A) → Option (ℕ × ℕ)
task_accuracy norm pairs = fraction (λ pair. answers (norm pair.0) (norm pair.1)) pairs

unfoldable pub accuracy : List (ℕ × ℕ) → Option (ℕ × ℕ)
accuracy pairs = fraction (λ pair. pair.0 == pair.1) pairs

unfoldable pub recall_at_k : (k : ℕ) → List (List ℕ × ℕ) → Option (ℕ × ℕ)
recall_at_k k queries = fraction (λ q. contains q.1 (take k q.0)) queries
