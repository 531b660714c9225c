-- ===== src/Policies/Tick.antt =====
-- gateway/app/scheduler.py: tick for one policy, and histories of its ticks.
use mlops_lite.Base.{ℕ, List, [], ◌∷◌, ◌++◌, if◌then◌else◌, choice_cases}
use mlops_lite.Policies.Breaches.{CheckAnswers, run_due_checks}
use mlops_lite.Policies.Retries.{RetryAnswers, retry_pending}
use mlops_lite.Policies.State.{Action, Config, Ended, Policy, World, acted, policy_error, raised}
use mlops_lite.Policies.Watches.{WatchAnswers, poll_watch}

pub record Answers : Type 0 where
  pub retrying : RetryAnswers
  pub checking : CheckAnswers
  pub watching : WatchAnswers

-- One step after the actions so far, and what comes after it; an exception ends the policy's tick.
abbrev pub and_then : Ended × World → (World → List Action × World) → List Action × World
and_then (raised, w) rest = (policy_error ∷ [], w)
and_then (acted xs, w) rest = (xs ++ (rest w).0, (rest w).1)

abbrev pub nothing : World → List Action × World
nothing w = ([], w)

-- The loop's body.
unfoldable pub tick_policy : Config → Policy → (now : ℕ) → Answers → World → List Action × World
tick_policy c p now a w =
    if p.enabled
    then and_then (retry_pending c p now a.retrying w) (λ u.
      and_then (run_due_checks c p now a.checking u)
        (λ v. and_then (poll_watch c p now a.watching v) nothing))
    else ([], w)

pub and_then_cases {ℓ} :
    (P : World → Type ℓ) (x : Ended × World) (rest : World → List Action × World)
    → P x.1
    → ((u : World) → P u → P (rest u).1)
    → P (and_then x rest).1
and_then_cases P (raised, w) rest h f = h
and_then_cases P (acted xs, w) rest h f = f w h

-- What each of the three steps keeps, the tick keeps.
pub tick_cases {ℓ} :
    (P : World → Type ℓ) (c : Config) (p : Policy) (now : ℕ) (a : Answers) (w : World)
    → ((u : World) → P u → P (retry_pending c p now a.retrying u).1)
    → ((u : World) → P u → P (run_due_checks c p now a.checking u).1)
    → ((u : World) → P u → P (poll_watch c p now a.watching u).1)
    → P w
    → P (tick_policy c p now a w).1
unfolding tick_policy
tick_cases P c p now a w f g k h =
    choice_cases (λ (x : List Action × World). P x.1) p.enabled
      (λ _. and_then_cases P (retry_pending c p now a.retrying w) _ (f w h) (λ u hu.
        and_then_cases P (run_due_checks c p now a.checking u) _ (g u hu) (λ v hv.
          and_then_cases P (poll_watch c p now a.watching v) nothing (k v hv) (λ z hz. hz))))
      (λ _. h)

-- A tick, with the policy as it is declared then; or a change of the stamp by another policy or by an
-- HTTP trigger.
pub data Event : Type 0 where
  ticks : Policy → (now : ℕ) → Answers → Event
  others : (stamp : ℕ) → Event

unfoldable pub step : Config → Event → World → World
step c (ticks p now a) w = (tick_policy c p now a w).1
step c (others stamp) w = record w { stamp = stamp }

unfoldable pub run : Config → List Event → World → World
run c [] w = w
run c (x ∷ xs) w = run c xs (step c x w)
