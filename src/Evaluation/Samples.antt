-- ===== src/Evaluation/Samples.antt =====
-- Two versions of a model and a window of a replay, at which the theorems on evaluation apply.
use mlops_lite.Base.{
  ℕ, List, Dict, Option, ◌∷◌, [], ◌≡◌, ◌≢◌, ◌≤◌, ◌↔◌, refl, none, some, true, false, arith, ◌==◌,
  if◌then◌else◌,
}
use mlops_lite.Evaluation.Distances.{Edits, edit_distance_lem}
use mlops_lite.Evaluation.Gating.{
  EvalResult, GateConfig, Tags, compute_verdict, direction_for, direction_of, other, lower, judged,
  is_breach, wer_name,
}
use mlops_lite.Evaluation.Joining.{IsNewest, join_window_lem}
use mlops_lite.Evaluation.Metrics.{edit_distance, fill, first_row, rows}
use mlops_lite.Evaluation.Shadows.{Captured, Champion, Prediction, join_window}
use mlops_lite.Evaluation.Verdicts.{is_breach-judged, with_value}
use mlops_lite.Policies.State.{blocked, pass}

-- "the cat sat on it" and "a cat sat there on".
abbrev heard : List ℕ
heard = 1 ∷ 2 ∷ 3 ∷ 4 ∷ 5 ∷ []

abbrev spoken : List ℕ
spoken = 6 ∷ 2 ∷ 3 ∷ 7 ∷ 4 ∷ []

edit_distance_three : edit_distance heard spoken ≡ 3
unfolding edit_distance rows fill first_row
edit_distance_three = refl

edit_distance_example :
    Edits heard spoken (edit_distance heard spoken)
    × ((n : ℕ) → Edits heard spoken n → edit_distance heard spoken ≤ n)
edit_distance_example = edit_distance_lem heard spoken

abbrev config : GateConfig
config = record { warn_only = false; tolerance = 20000; blocks_missing = false }

-- Version 3 with its word error rate, and version 4 without a result.
abbrev tags : ℕ → Option Tags
tags v =
    if v == 3
    then some (record {
      metric_tag = some wer_name;
      value_tag = some 150000;
      direction_tag = none;
      modality_tag = some 8;
    })
    else none

abbrev serving_result : EvalResult
serving_result = record { metric = wer_name; value = 150000; direction = none; modality = some 8 }

abbrev new_result : EvalResult
new_result = with_value 151000 serving_result

passes : compute_verdict config false true (some new_result) (some serving_result) ≡ pass
unfolding compute_verdict judged direction_for
passes = refl

lower_direction : direction_of new_result ≡ lower
unfolding direction_for
lower_direction = refl

known_direction : direction_of new_result ≢ other
known_direction = rw lower_direction (λ e. cc)

agree_example :
    (is_breach (some 151000) (some 150000) (direction_of new_result) 20000 ≡ true)
    ↔ (compute_verdict config false true (some new_result) (some serving_result) ≡ blocked)
agree_example = is_breach-judged 20000 false new_result serving_result refl known_direction

abbrev served : Champion
served = record { name = some 1; version = 3; modality = 1 }

abbrev logged : (version answer : ℕ) → Prediction
logged version answer = record {
  model_name = 1;
  model_version = version;
  modality = 6;
  prediction = some answer;
  predicted_at = 50;
}

abbrev predictions : Dict Prediction
predictions = (11, logged 3 70) ∷ (12, logged 2 71) ∷ (13, logged 3 72) ∷ []

abbrev labels : Dict ℕ
labels = (11, 70) ∷ (12, 71) ∷ (13, 74) ∷ []

abbrev captured : List Captured
captured =
    record { prediction_id = 13; input = 5; captured_at = some 60 }
    ∷ record { prediction_id = 12; input = 6; captured_at = some 55 }
    ∷ record { prediction_id = 11; input = 7; captured_at = none }
    ∷ []

join_window_example :
    IsNewest served predictions labels captured 1 (join_window served predictions labels captured 1)
join_window_example = join_window_lem served predictions labels captured 1 (λ e. omega arith)
