-- ===== src/Evaluation/Joining.antt =====
-- gateway/app/shadow.py: what is in the window of a replay, and the symmetry of its verdict.
use mlops_lite.Evaluation.Sorting.{
  every-sort_pairs, Aging, sort_pairs-Aging, tally, tally-sort_pairs,
}
use mlops_lite.Base.{
  ℕ, Bool, true, false, Option, none, some, List, Dict, [], ◌∷◌, ◌++◌, ◌≡◌, ◌≢◌, ◌≤◌, refl, arith,
  lookup, length, take, is_some, if◌then◌else◌, ◌+◌, ◌⊎◌, every, leb, ◌-◌, ◌==◌, ◌&&◌, ◌∙◌, sym,
  subst, length-drop, take-append_drop, same_option, Option-cases, Bool-cases, inl, inr, zero, suc,
  choice_cases,
}
use mlops_lite.Evaluation.Gating.{Direction}
use mlops_lite.Evaluation.Shadows.{
  Captured, or_time, Champion, Pair, Prediction, join_each, join_window, joined_with, serves,
  sort_pairs, winner_of, with_pair,
}
use mlops_lite.Policies.State.{Winner, challenger, champion, tie}

-- The pair has the label of its id, and the prediction that this champion logged for it.
abbrev pub answered_by : Champion → Option Prediction → Pair → Bool
answered_by c none p = false
answered_by c (some q) p = serves c q && same_option q.prediction (some p.champion_prediction)

abbrev pub is_scorable : Champion → Dict Prediction → Dict ℕ → Pair → Bool
is_scorable c predictions labels p =
    same_option (lookup p.prediction_id labels) (some p.label)
    && answered_by c (lookup p.prediction_id predictions) p

joined-scorable :
    (c : Champion) (predictions : Dict Prediction) (labels : Dict ℕ) (r : Captured) (ps : List Pair)
    → every (is_scorable c predictions labels) ps ≡ true
    → every
        (is_scorable c predictions labels)
        (with_pair (joined_with c labels r (lookup r.prediction_id predictions)) ps)
      ≡ true
joined-scorable c predictions labels r ps h =
    elim (Option-cases (lookup r.prediction_id predictions)) [
      | inl e ↦ ground (arith, e, h)
      | inr (q, e) ↦ elim (Option-cases q.prediction) [
        | inl f ↦ ground (arith, e, f, h)
        | inr (y, f) ↦ elim (Option-cases (lookup r.prediction_id labels)) [
          | inl g ↦ ground (arith, e, f, g, h)
          | inr (l, g) ↦ ground (arith, e, f, g, h)
        ]
      ]
    ]

join_each-scorable :
    (c : Champion) (predictions : Dict Prediction) (labels : Dict ℕ) (rs : List Captured)
    → every (is_scorable c predictions labels) (join_each c predictions labels rs) ≡ true
unfolding join_each
join_each-scorable c predictions labels [] = refl
join_each-scorable c predictions labels (r ∷ rs) =
    joined-scorable c predictions labels r _ (join_each-scorable c predictions labels rs)

-- A captured input can be compared: its id has a label, and a prediction with a value that this champion
-- logged. The test is on the id, the input and the time of the pair.
abbrev pub is_comparable :
    (test : ℕ → ℕ → ℕ → Bool) → Champion → Dict Prediction → Dict ℕ → Captured → Bool
is_comparable test c predictions labels r = elim (lookup r.prediction_id predictions) [
  | none ↦ false
  | some q ↦
      serves c q
      && (is_some q.prediction
          && (is_some (lookup r.prediction_id labels)
              && test r.prediction_id r.input (or_time r.captured_at q.predicted_at)))
]

abbrev pub of_pair : (test : ℕ → ℕ → ℕ → Bool) → Pair → Bool
of_pair test p = test p.prediction_id p.input p.ts

joined-tally :
    (test : ℕ → ℕ → ℕ → Bool) (c : Champion) (predictions : Dict Prediction) (labels : Dict ℕ)
    (r : Captured) (ps : List Pair)
    → tally
        (of_pair test)
        (with_pair (joined_with c labels r (lookup r.prediction_id predictions)) ps)
      ≡ (if is_comparable test c predictions labels r then 1 else 0) + tally (of_pair test) ps
joined-tally test c predictions labels r ps =
    elim (Option-cases (lookup r.prediction_id predictions)) [
      | inl e ↦ ground (arith, e)
      | inr (q, e) ↦ elim (Option-cases q.prediction) [
        | inl f ↦ ground (arith, e, f)
        | inr (y, f) ↦ elim (Option-cases (lookup r.prediction_id labels)) [
          | inl g ↦ ground (arith, e, f, g)
          | inr (l, g) ↦ ground (arith, e, f, g)
        ]
      ]
    ]

join_each-tally :
    (test : ℕ → ℕ → ℕ → Bool) (c : Champion) (predictions : Dict Prediction) (labels : Dict ℕ)
    (rs : List Captured)
    → tally (of_pair test) (join_each c predictions labels rs)
      ≡ tally (is_comparable test c predictions labels) rs
unfolding join_each
join_each-tally test c predictions labels [] = refl
join_each-tally test c predictions labels (r ∷ rs) =
    joined-tally test c predictions labels r (join_each c predictions labels rs)
    ∙ omega (arith, join_each-tally test c predictions labels rs)

-- With some older ones before it, the window is the list, oldest first, of the pairs of just the captured
-- inputs that can be compared, each as often as it was captured and with its label and prediction; and
-- nothing is older unless the window is full.
abbrev pub IsNewest :
    Champion
    → Dict Prediction
    → Dict ℕ
    → List Captured
    → (window_n : ℕ) → (window : List Pair) → Type 0
IsNewest c predictions labels rs window_n window =
    (older : List Pair) × ((test : ℕ → ℕ → ℕ → Bool)
      → tally (of_pair test) (older ++ window) ≡ tally (is_comparable test c predictions labels) rs)
    × (every (is_scorable c predictions labels) (older ++ window) ≡ true)
    × Aging (older ++ window)
    × (length window ≤ window_n)
    × ((length window ≡ window_n) ⊎ (older ≡ []))

take-zero : {A : Type 0} (n : ℕ) (xs : List A) → n ≡ 0 → take n xs ≡ []
take-zero zero xs h = refl
take-zero (suc n) xs h = absurd (omega arith)

-- The window of a replay holds the newest of the captured inputs that can be compared: those whose id has
-- a label and a prediction that the champion logged under that version, name and modality. It holds
-- `window_n` of them, or all if there are not so many, oldest first, each with its input, its label and
-- that prediction; and each that is left out is no newer than any that it holds.
pub join_window_lem :
    (c : Champion) (predictions : Dict Prediction) (labels : Dict ℕ) (rs : List Captured)
    (window_n : ℕ)
    → window_n ≢ 0
    → IsNewest c predictions labels rs window_n (join_window c predictions labels rs window_n)
unfolding join_window
join_window_lem c predictions labels rs window_n n =
    let pairs = sort_pairs (join_each c predictions labels rs) in
    let skipped = length pairs - window_n in
    let whole = take-append_drop skipped pairs in
    let size = length-drop skipped pairs in
    choice_cases (IsNewest c predictions labels rs window_n) (window_n == 0)
      (λ none_asked. absurd (n (ground (arith, none_asked))))
      (λ _. (
        take skipped pairs,
        (λ test. rw whole (
            tally-sort_pairs (of_pair test) (join_each c predictions labels rs)
            ∙ join_each-tally test c predictions labels rs)),
        rw whole (
            every-sort_pairs (is_scorable c predictions labels) _
            ∙ join_each-scorable c predictions labels rs),
        subst Aging (sym whole) (sort_pairs-Aging _),
        rw size (omega arith),
        elim (Bool-cases (leb (length pairs) window_n)) [
          | inl e ↦ inr (take-zero skipped pairs (ground (arith, e)))
          | inr e ↦ inl (rw size (ground (arith, e)))
        ],
      ))

abbrev pub flipped : Winner → Winner
flipped challenger = champion
flipped champion = challenger
flipped tie = tie

-- The verdict of a replay does not depend on the roles: with the values exchanged the other side wins.
pub winner_of-flipped : (d : Direction) (a b : ℕ) → winner_of d b a ≡ flipped (winner_of d a b)
unfolding winner_of
winner_of-flipped d a b = ground arith
