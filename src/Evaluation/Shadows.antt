-- ===== src/Evaluation/Shadows.antt =====
-- gateway/app/shadow.py: join_window and build_verdict; gateway/app/quality.py: score_window and
-- evaluate_quality. Values are in millionths.
use mlops_lite.Base.{
  ℕ, Bool, true, Option, none, some, List, Dict, [], ◌∷◌, lookup, length, drop, map, ltb, leb, ◌-◌,
  ◌==◌, ◌&&◌, if◌then◌else◌,
}
use mlops_lite.Evaluation.Gating.{Direction, is_breach, is_higher}
use mlops_lite.Policies.State.{Winner, challenger, champion, tie}

-- A captured input, and a logged prediction of the champion.
pub record Captured : Type 0 where
  pub prediction_id : ℕ
  pub input : ℕ
  pub captured_at : Option ℕ

pub record Prediction : Type 0 where
  pub model_name : ℕ
  pub model_version : ℕ
  pub modality : ℕ
  pub prediction : Option ℕ
  pub predicted_at : ℕ

pub record Pair : Type 0 where
  pub prediction_id : ℕ
  pub input : ℕ
  pub label : ℕ
  pub champion_prediction : ℕ
  pub ts : ℕ

-- The champion whose window is joined; a name of none is not compared.
pub record Champion : Type 0 where
  pub name : Option ℕ
  pub version : ℕ
  pub modality : ℕ

abbrev pub is_named : Option ℕ → ℕ → Bool
is_named none n = true
is_named (some m) n = n == m

-- The modalities by their two names: llm and text-generation, vision and image-classification.
abbrev pub normalize_modality : ℕ → ℕ
normalize_modality m = if m == 1 then 6 else if m == 2 then 7 else m

abbrev pub serves : Champion → Prediction → Bool
serves c p =
    (p.model_version == c.version)
    && (is_named c.name p.model_name
        && (normalize_modality p.modality == normalize_modality c.modality))

abbrev pub or_time : Option ℕ → ℕ → ℕ
or_time none t = t
or_time (some s) t = s

abbrev pub pair_of : Captured → Prediction → (shown : Option ℕ) → (label : Option ℕ) → Option Pair
pair_of r p (some y) (some l) = some (record {
  prediction_id = r.prediction_id;
  input = r.input;
  label = l;
  champion_prediction = y;
  ts = or_time r.captured_at p.predicted_at;
})
pair_of r p _ _ = none

abbrev pub joined_with : Champion → Dict ℕ → Captured → Option Prediction → Option Pair
joined_with c labels r none = none
joined_with c labels r (some p) =
    if serves c p then pair_of r p p.prediction (lookup r.prediction_id labels) else none

abbrev pub with_pair : Option Pair → List Pair → List Pair
with_pair none ps = ps
with_pair (some p) ps = p ∷ ps

-- The loop.
unfoldable pub join_each : Champion → Dict Prediction → Dict ℕ → List Captured → List Pair
join_each c predictions labels [] = []
join_each c predictions labels (r ∷ rs) =
    with_pair (joined_with c labels r (lookup r.prediction_id predictions))
      (join_each c predictions labels rs)

-- A stable sort by time.
unfoldable pub insert_pair : Pair → List Pair → List Pair
insert_pair p [] = p ∷ []
insert_pair p (q ∷ qs) =
    let rest = insert_pair p qs in if leb p.ts q.ts then p ∷ q ∷ qs else q ∷ rest

unfoldable pub sort_pairs : List Pair → List Pair
sort_pairs [] = []
sort_pairs (p ∷ ps) = insert_pair p (sort_pairs ps)

-- `xs[-n:]`
abbrev pub last_of {ℓ} : {A : Type ℓ} → (n : ℕ) → List A → List A
last_of n xs = drop (length xs - n) xs

unfoldable pub join_window :
    Champion → Dict Prediction → Dict ℕ → List Captured → (window_n : ℕ) → List Pair
join_window c predictions labels rs window_n =
    let pairs = sort_pairs (join_each c predictions labels rs) in
    if window_n == 0 then pairs else last_of window_n pairs

-- The winner, by the direction of the metric.
unfoldable pub winner_of : Direction → (champion_value challenger_value : ℕ) → Winner
winner_of d a b =
    if a == b
    then tie
    else if is_higher d
    then if ltb a b then challenger else champion
    else if ltb a b
    then champion
    else challenger

abbrev pub winner_if : Direction → (champion_value challenger_value : Option ℕ) → Option Winner
winner_if d (some a) (some b) = some (winner_of d a b)
winner_if d _ _ = none

abbrev pub zip_with {ℓ} : {A B C : Type ℓ} → (A → B → C) → List A → List B → List C
zip_with f (x ∷ xs) (y ∷ ys) = f x y ∷ zip_with f xs ys
zip_with f _ _ = []

-- build_verdict, with the score of the modality's metric, which raises on an empty window.
unfoldable pub build_verdict :
    Direction
    → (score : List (ℕ × ℕ) → Option ℕ) → List Pair
    → (predictions : List ℕ) → Option Winner
build_verdict d score pairs predictions =
    if length predictions == length pairs
    then winner_if d (score (map (λ (p : Pair). (p.champion_prediction, p.label)) pairs))
        (score (zip_with (λ y (p : Pair). (y, p.label)) predictions pairs))
    else none

-- score_window: the value, none if there are too few pairs; an exception is none outside.
unfoldable pub score_window :
    (score : List (ℕ × ℕ) → Option ℕ) → (window_n min_pairs : ℕ) → List (ℕ × ℕ) → Option (Option ℕ)
score_window score window_n min_pairs pairs =
    let window = last_of window_n pairs in
    if window_n == 0
    then none
    else if ltb (length window) min_pairs
    then some none
    else (elim (score window) [ none ↦ none | some v ↦ some (some v) ])

-- evaluate_quality: whether the window is a breach.
unfoldable pub evaluate_quality :
    (score : List (ℕ × ℕ) → Option ℕ)
    → Direction
    → (baseline : Option ℕ) → (window_n min_pairs drop : ℕ) → List (ℕ × ℕ)
    → Option Bool
evaluate_quality score d baseline window_n min_pairs drop_pct pairs =
    elim (score_window score window_n min_pairs pairs) [
      | none ↦ none
      | some v ↦ some (is_breach v baseline d drop_pct)
    ]
