-- ===== src/Policies/Samples.antt =====
-- A policy whose retrain is parked, at which the theorems on the scheduler apply.
use mlops_lite.Base.{
  ℕ, ◌∷◌, [], ◌≡◌, refl, none, some, true, false, returns, List, every, arith, leb, ◌+◌, Option,
}
use mlops_lite.Policies.Breaches.{
  BreachAnswers, CheckAnswers, handle_breach, run_due_checks, on_checked, first_breach,
}
use mlops_lite.Policies.Cooldown.{try_reserve_retrain}
use mlops_lite.Policies.Green.{is_green_suggestion, run-green}
use mlops_lite.Policies.Launching.{LaunchAnswers, Trainer, listed, refuses, takes}
use mlops_lite.Policies.Promoting.{Moved, tick_policy-promotes}
use mlops_lite.Policies.Retries.{RetryAnswers, retry_pending, retry_park}
use mlops_lite.Policies.State.{
  Breach, Config, Pending, Policy, Status, Watch, World, auto_on_green, checked, pass,
}
use mlops_lite.Policies.Tick.{Answers, Event, others, run, tick_policy, ticks}
use mlops_lite.Policies.Unanswered.{outlasts, unanswered-bound}
use mlops_lite.Policies.Watches.{
  Run, WatchAnswers, completed, promoted, unknown, poll_watch, poll_watched, on_unknown,
}
use mlops_lite.Policies.Windows.{Call, calls, notes, releases, reserves, try_reserve_retrain-window}

abbrev config : Config
config = record {
  backoff_base = 60;
  backoff_max = 1800;
  cooldown = 3600;
  watch_unknown_timeout = 3600;
}

abbrev policy : Policy
policy = record {
  model_name = 1;
  enabled = true;
  monitors = 8 ∷ 9 ∷ [];
  check_interval = 900;
  pinned = none;
  promotion_mode = auto_on_green;
}

abbrev breach : Breach
breach = record { signal = 8; score = 4; at = 900 }

abbrev park : ℕ → Pending
park attempts = record {
  breach = breach;
  attempts = attempts;
  next_attempt_at = 1000;
  landed = false;
}

abbrev status : Option Watch → Status
status watch = record {
  watch = watch;
  last_check_at = 0;
  next_due_at = 900;
  results = [];
  last_candidate = none;
}

abbrev world : Option Pending → Option Watch → World
world pending watch = record {
  pending = pending;
  status = status watch;
  suggestions = [];
  serving = some 2;
  stamp = 0;
}

abbrev launching : Trainer → LaunchAnswers
launching trainer = record {
  listing = listed ((5, 10) ∷ (6, 20) ∷ []);
  trainer = λ version. trainer;
  meanwhile = λ stamp. stamp;
  reads_status = true;
  saves_watch = returns;
  launched_at = 1001;
}

abbrev retrying : Trainer → RetryAnswers
retrying trainer = record {
  reads_pending = true;
  saves = returns;
  clears = returns;
  saves_landed = returns;
  noted_at = 2000;
  launching = launching trainer;
}

abbrev breaching : Trainer → BreachAnswers
breaching trainer = record {
  reads_status = true;
  reads_pending = true;
  saves = returns;
  reserved_at = 5000;
  launching = launching trainer;
}

abbrev checking : Trainer → CheckAnswers
checking trainer = record {
  reads_status = true;
  checks = λ monitor. checked true monitor;
  saves = returns;
  breaching = breaching trainer;
}

abbrev watching : Run → WatchAnswers
watching run = record {
  reads_status = true;
  run = run;
  saves = returns;
  gate = some pass;
  shadow = some none;
  promotion = promoted;
  suggests = returns;
}

abbrev answers : Trainer → Run → Answers
answers trainer run = record {
  retrying = retrying trainer;
  checking = checking trainer;
  watching = watching run;
}

-- The trainer is busy, then takes the run, which ends well.
abbrev history : List Event
history =
    ticks policy 1000 (answers refuses unknown)
    ∷ others 1500
    ∷ ticks policy 2000 (answers (takes (some 70)) unknown)
    ∷ ticks policy 3000 (answers refuses (completed (some 3)))
    ∷ []

run-green_example :
    every is_green_suggestion (run config history (world (some (park 1)) none)).suggestions ≡ true
run-green_example = run-green config history (world (some (park 1)) none) refl

abbrev watch : Watch
watch = record { run_id = 70; launched_at = 1001; unknown_since = none }

promotes_example :
    Moved policy
      (watching (completed (some 3)))
      (some 2)
      (tick_policy config policy 3000
        (answers refuses (completed (some 3)))
        (world none (some watch))).1.serving
promotes_example =
    tick_policy-promotes config policy 3000 (answers refuses (completed (some 3)))
      (world none (some watch))

-- Two polls without an answer, an hour apart.
lost_ticks-outlasts :
    outlasts config policy
      ((2000, answers refuses unknown) ∷ (5600, answers refuses unknown) ∷ [])
      (world none (some watch))
    ≡ true
unfolding outlasts tick_policy retry_pending retry_park run_due_checks on_checked handle_breach
    first_breach poll_watch poll_watched on_unknown
lost_ticks-outlasts = refl

unanswered_example :
    every (λ (x : ℕ × Answers). leb x.0 (2000 + 3600)) ((5600, answers refuses unknown) ∷ []) ≡ true
unanswered_example =
    unanswered-bound config policy 2000 (answers refuses unknown)
      ((5600, answers refuses unknown) ∷ []) watch (world none (some watch)) refl refl refl
      (refl, refl) lost_ticks-outlasts

abbrev busy_triggers : List Call
busy_triggers = reserves 60 ∷ releases (some 20) ∷ notes 70 ∷ []

reserved_first : (try_reserve_retrain 50 3600 0).0 ≡ some 50
unfolding try_reserve_retrain
reserved_first = refl

window_example :
    (try_reserve_retrain 3000 3600 (calls 3600 busy_triggers (try_reserve_retrain 50 3600 0).1)).0
    ≡ none
window_example =
    try_reserve_retrain-window 3600 50 0 busy_triggers 3000 (omega arith) reserved_first refl
      (omega arith)
