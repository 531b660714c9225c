-- ===== src/Policies/Fleet.antt =====
-- gateway/app/scheduler.py: tick for all policies, which share the stamp of the cooldown.
use mlops_lite.Base.{ℕ, Bool, [], ◌∷◌, ◌++◌, List, Dict, if◌then◌else◌}
use mlops_lite.Policies.State.{Action, Config, Policy, World, list_error}
use mlops_lite.Policies.Tick.{Answers, tick_policy}

-- A row of the table, under the name of its model. The stamp of its state is the shared one.
pub record Declared : Type 0 where
  pub policy : Policy
  pub world : World

abbrev pub at_stamp : (stamp : ℕ) → World → World
at_stamp stamp w = record w { stamp = stamp }

-- The loop, with the stamp as the policy before left it. The handler of its exceptions is in the body:
-- `and_then` of Tick makes the action policy_error of an exception.
unfoldable pub tick_each :
    Config
    → (now : ℕ) → (ℕ → Answers)
    → Dict Declared
    → (stamp : ℕ) → List Action × (Dict Declared × ℕ)
tick_each c now answers [] stamp = ([], ([], stamp))
tick_each c now answers ((k, d) ∷ ds) stamp =
    let done = tick_policy c d.policy now (answers k) (at_stamp stamp d.world) in
    let rest = tick_each c now answers ds done.1.stamp in
    (done.0 ++ rest.0, ((k, record d { world = done.1 }) ∷ rest.1.0, rest.1.1))

unfoldable pub tick :
    Config
    → (now : ℕ) → (lists : Bool) → (ℕ → Answers)
    → Dict Declared
    → (stamp : ℕ) → List Action × (Dict Declared × ℕ)
tick c now lists answers ds stamp =
    if lists then tick_each c now answers ds stamp else (list_error ∷ [], (ds, stamp))
