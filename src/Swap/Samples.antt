-- ===== src/Swap/Samples.antt =====
-- Two engines and a swap between them, at which the theorems on swaps apply.
use mlops_lite.Base.{ℕ, Option, ◌∷◌, some, true, [], none, false}
use mlops_lite.Engine.Runtime.{Runtime, ChildAnswers, LoadAnswers}
use mlops_lite.Slot.State.{serving}
use mlops_lite.Swap.Refusals.{preempt_for_lem, Spares}
use mlops_lite.Swap.Transaction.{SwapAnswers, preempt_for, Manager}

abbrev engine : (id : ℕ) → Option ℕ → Runtime
engine id child = record {
  engine_id = id;
  gpu = true;
  kind = serving;
  enabled = true;
  wedged = false;
  child = child;
  last_used = none;
  is_loading = false;
  idle_timeout = 300;
  ready_rounds = 2;
}

abbrev manager : Manager
manager = record {
  slot = record {
    holder =
        some
          (record { tenant = 3; kind = serving; est = 500; child_pid = some 77; acquired_at = 1 });
    swap_target = none;
    budget = 1000;
  };
  runtimes = (3, engine 3 (some 77)) ∷ (4, engine 4 none) ∷ [];
}

abbrev gone : ChildAnswers
gone = record { alive = false; terminated = true; killed = true }

abbrev loads_as : (pid : ℕ) → LoadAnswers
loads_as pid = record {
  first = gone;
  ready = false;
  available = true;
  reap = gone;
  est = 500;
  now = 9;
  free = none;
  spawned = some pid;
  probe = λ _. record { ready = true; exited = false };
  cleanup = gone;
}

abbrev answers : SwapAnswers
answers = record {
  batch_active = false;
  available = true;
  unload_acquired = true;
  unloading = record { alive = true; terminated = true; killed = true };
  loading_target = loads_as 88;
  loading_holder = loads_as 99;
}

preempt_for-Spares_example : Spares 4 answers manager (preempt_for 4 answers manager)
preempt_for-Spares_example = preempt_for_lem 4 answers manager
