-- ===== src/Engine/Samples.antt =====
-- A concrete engine, at which the theorems on it apply.
use mlops_lite.Base.{[], ◌∷◌, true, false, none, some, refl}
use mlops_lite.Engine.Consistency.{events, unloads, loads, events-IsConsistent, IsConsistent}
use mlops_lite.Engine.Runtime.{Runtime, ChildAnswers, LoadAnswers}
use mlops_lite.Slot.State.{Slot, serving}

abbrev llm : Runtime
llm = record {
  engine_id = 3;
  gpu = true;
  kind = serving;
  enabled = true;
  wedged = false;
  child = none;
  last_used = none;
  is_loading = false;
  idle_timeout = 300;
  ready_rounds = 2;
}

abbrev empty_slot : Slot
empty_slot = record { holder = none; swap_target = none; budget = 1000 }

abbrev gone : ChildAnswers
gone = record { alive = false; terminated = true; killed = true }

-- A load that spawns a child, which exits before it is ready.
abbrev crashing : LoadAnswers
crashing = record {
  first = gone;
  ready = false;
  available = true;
  reap = gone;
  est = 500;
  now = 9;
  free = none;
  spawned = some 77;
  probe = λ _. record { ready = false; exited = true };
  cleanup = gone;
}

events_example :
    IsConsistent
      (events (loads crashing ∷ unloads true gone ∷ []) llm empty_slot).0
      (events (loads crashing ∷ unloads true gone ∷ []) llm empty_slot).1
events_example = events-IsConsistent (loads crashing ∷ unloads true gone ∷ []) llm empty_slot refl
