-- ===== src/Policies/State.antt =====
-- gateway/app/scheduler.py: the state of one policy and what a tick reports. The names of models, runs,
-- versions and monitors are numbers, and times are ticks.
use mlops_lite.Base.{ℕ, Bool, Option, List, Reply, commits, inl, inr, refl, ◌≡◌, ◌⊎◌, if◌then◌else◌}

pub data Mode : Type 0 where
  manual suggest auto_on_green : Mode

-- A policy. Its dataset is a pinned version, or the latest if there is none.
pub record Policy : Type 0 where
  pub model_name : ℕ
  pub enabled : Bool
  pub monitors : List ℕ
  pub check_interval : ℕ
  pub pinned : Option ℕ
  pub promotion_mode : Mode

pub record Breach : Type 0 where
  pub signal : ℕ
  pub score : ℕ
  pub at : ℕ

-- A parked retrain.
pub record Pending : Type 0 where
  pub breach : Breach
  pub attempts : ℕ
  pub next_attempt_at : ℕ
  pub landed : Bool

pub record Watch : Type 0 where
  pub run_id : ℕ
  pub launched_at : ℕ
  pub unknown_since : Option ℕ

-- The verdicts of the gate and of a shadow window.
pub data Gate : Type 0 where
  pass warn blocked : Gate

pub data Winner : Type 0 where
  challenger tie champion : Winner

pub record Candidate : Type 0 where
  pub version : ℕ
  pub gate_verdict : Gate
  pub shadow_verdict : Option Winner
  pub at : ℕ

pub data Checked : Type 0 where
  check_error : Checked
  checked : (breached : Bool) (score : ℕ) → Checked

pub record Status : Type 0 where
  pub watch : Option Watch
  pub last_check_at : ℕ
  pub next_due_at : ℕ
  pub results : List (ℕ × Checked)
  pub last_candidate : Option Candidate

pub data SuggestionState : Type 0 where
  open_suggestion auto_promoted : SuggestionState

pub record Suggestion : Type 0 where
  pub version : ℕ
  pub gate_verdict : Gate
  pub shadow_verdict : Option Winner
  pub state : SuggestionState

-- The row of the policy, its suggestions, the alias of its model in the registry, and the stamp of the
-- cooldown, which all policies share.
pub record World : Type 0 where
  pub pending : Option Pending
  pub status : Status
  pub suggestions : List Suggestion
  pub serving : Option ℕ
  pub stamp : ℕ

pub data Action : Type 0 where
  retry_parked : (attempts : ℕ) → Action
  retry_deferred_store_error retry_failed : Action
  retrain_launched : (run_id : Option ℕ) → Action
  check_done : (breached : Bool) → Action
  breach_deferred_watch breach_superseded_pending breach_in_cooldown : Action
  retrain_park_failed retrain_parked retrain_failed : Action
  watch_unpollable watch_expired_unknown : (run_id : ℕ) → Action
  watched_run_failed watched_run_no_version : Action
  run_succeeded_manual candidate_not_green : (version : ℕ) → Action
  auto_promoted auto_promote_refused suggested : (version : ℕ) → Action
  policy_error list_error : Action

-- How a step of the tick ends: with an exception, or with its actions.
pub data Ended : Type 0 where
  raised : Ended
  acted : List Action → Ended

pub Ended-cases : (x : Ended) → (x ≡ raised) ⊎ ((xs : List Action) × (x ≡ acted xs))
Ended-cases raised = inl refl
Ended-cases (acted xs) = inr (xs, refl)

pub record Config : Type 0 where
  pub backoff_base : ℕ
  pub backoff_max : ℕ
  pub cooldown : ℕ
  pub watch_unknown_timeout : ℕ

-- save_pending, clear_pending and save_status: the write, if the transaction took place.
abbrev pub put_pending : Reply → Option Pending → World → World
put_pending reply q w = record w { pending = if commits reply then q else w.pending }

abbrev pub save_status : Reply → Status → World → World
save_status reply s w = record w { status = if commits reply then s else w.status }
