-- ===== src/Evaluation/Gating.antt =====
-- gateway/app/evaluation.py: the gate (compute_verdict, read_eval, gate), and is_breach of
-- gateway/app/quality.py. Values and the tolerance are in millionths and not negative, as those of the
-- metrics are; `cand < inc - margin` is written without a difference.
use mlops_lite.Base.{
  ℕ, Bool, true, false, Option, none, some, ltb, not, ◌+◌, ◌*◌, ◌&&◌, ◌||◌, ◌==◌, same_option,
  if◌then◌else◌,
}
use mlops_lite.Policies.State.{Gate, blocked, pass, warn}

-- A direction is a text, so it may be another one.
pub data Direction : Type 0 where
  higher lower other : Direction

abbrev pub is_higher : Direction → Bool
is_higher higher = true
is_higher _ = false

abbrev pub is_lower : Direction → Bool
is_lower lower = true
is_lower _ = false

-- The names of the metrics.
abbrev pub task_accuracy_name : ℕ
task_accuracy_name = 1

abbrev pub accuracy_name : ℕ
accuracy_name = 2

abbrev pub wer_name : ℕ
wer_name = 3

abbrev pub recall_name : ℕ
recall_name = 4

abbrev pub auc_name : ℕ
auc_name = 5

abbrev pub perplexity_name : ℕ
perplexity_name = 6

unfoldable pub direction_for : ℕ → Option Direction
direction_for m =
    if m == perplexity_name || m == wer_name
    then some lower
    else if m == task_accuracy_name || (m == accuracy_name || (m == recall_name || m == auc_name))
    then some higher
    else none

-- A logged result. The tag of the direction may be missing.
pub record EvalResult : Type 0 where
  pub metric : ℕ
  pub value : ℕ
  pub direction : Option Direction
  pub modality : Option ℕ

abbrev pub or_known : Option Direction → Option Direction → Direction
or_known (some d) known = d
or_known none (some d) = d
or_known none none = higher

abbrev pub direction_of : EvalResult → Direction
direction_of e = or_known e.direction (direction_for e.metric)

-- read_eval, with the tags of the version: its direction is always filled in.
pub record Tags : Type 0 where
  pub metric_tag : Option ℕ
  pub value_tag : Option ℕ
  pub direction_tag : Option Direction
  pub modality_tag : Option ℕ

abbrev pub result_of : (metric value : Option ℕ) → Tags → Option EvalResult
result_of (some m) (some v) t = some (record {
  metric = m;
  value = v;
  direction = some (or_known t.direction_tag (direction_for m));
  modality = t.modality_tag;
})
result_of _ _ t = none

unfoldable pub read_eval : Option Tags → Option EvalResult
read_eval none = none
read_eval (some t) = result_of t.metric_tag t.value_tag t

pub record GateConfig : Type 0 where
  pub warn_only : Bool
  pub tolerance : ℕ
  pub blocks_missing : Bool

abbrev pub unit : ℕ
unit = 1000000

-- `cand < inc - margin` and `cand > inc + margin`, in units of the unit.
abbrev pub falls : (tolerance value baseline : ℕ) → Bool
falls tolerance value baseline = ltb (value * unit + tolerance * baseline) (baseline * unit)

abbrev pub rises : (tolerance value baseline : ℕ) → Bool
rises tolerance value baseline = ltb (baseline * unit + tolerance * baseline) (value * unit)

abbrev pub regressed : (tolerance : ℕ) → Direction → (candidate incumbent : ℕ) → Bool
regressed tolerance d candidate incumbent =
    if is_higher d then falls tolerance candidate incumbent else rises tolerance candidate incumbent

-- The verdict without its reason.
abbrev pub missing : GateConfig → (override : Bool) → Gate
missing g override = if g.blocks_missing && not override then blocked else warn

abbrev pub alike : EvalResult → EvalResult → Bool
alike c i = (c.metric == i.metric) && same_option c.modality i.modality

unfoldable pub judged : GateConfig → (override : Bool) → EvalResult → EvalResult → Gate
judged g override c i =
    if not (alike c i)
    then if override then warn else blocked
    else if not (regressed g.tolerance (direction_of c) c.value i.value)
    then pass
    else if override
    then warn
    else if g.warn_only
    then warn
    else blocked

unfoldable pub compute_verdict :
    GateConfig → (override present : Bool) → (candidate incumbent : Option EvalResult) → Gate
compute_verdict g override false candidate incumbent = pass
compute_verdict g override true none incumbent = missing g override
compute_verdict g override true (some c) none = missing g override
compute_verdict g override true (some c) (some i) = judged g override c i

-- gate, with the version that serves and the tags of a version.
unfoldable pub gate :
    GateConfig → (override : Bool) → (serving : Option ℕ) → (ℕ → Option Tags) → (version : ℕ) → Gate
gate g override none tags version = compute_verdict g override false (read_eval (tags version)) none
gate g override (some s) tags version =
    if s == version
    then compute_verdict g override false (read_eval (tags version)) none
    else compute_verdict g override true (read_eval (tags version)) (read_eval (tags s))

-- is_breach of gateway/app/quality.py.
unfoldable pub is_breach : (value baseline : Option ℕ) → Direction → (drop : ℕ) → Bool
is_breach (some v) (some b) d drop = if is_lower d then rises drop v b else falls drop v b
is_breach _ _ d drop = false
