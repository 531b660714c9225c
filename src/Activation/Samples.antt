-- ===== src/Activation/Samples.antt =====
-- A concrete activation, at which the theorems on it apply.
use mlops_lite.Base.{
  [], lookup, ◌∷◌, modify, true, total, false, none, insert, some, arith, Bool, erase, refl,
}
use mlops_lite.Activation.GoLive.{resolved, Request, answered, Registry}
use mlops_lite.Activation.History.{events, submits, events-IsSingle, runs}
use mlops_lite.Activation.Outcomes.{Shows, outcome_from}
use mlops_lite.Activation.Recovery.{
  Returns, run-crashed, SameEnd, after_commit, crashed, run-IsFounded, IsFounded,
}
use mlops_lite.Activation.Runs.{run_lem}
use mlops_lite.Activation.Service.{run, ReloadStatus, Identity, swapped, Answers, new_operation}
use mlops_lite.Activation.Single.{IsUnique, IsSingle}
use mlops_lite.Activation.Store.{
  Store, reloading, Operation, prepared, cas_activation, create_activation, moved, any_nonterminal,
  newest,
}

abbrev start : Store
start = record { rows = []; pointer = some 1 }

-- Model 2 at version 5 is to replace model 1.
abbrev requested : Operation
requested = new_operation 40 9 2 5 (some 1) true

abbrev table : Store
table = record { rows = (40, requested) ∷ []; pointer = some 1 }

abbrev answers_with : ReloadStatus → Bool → Identity → Answers
answers_with status u ident = record {
  pointer_ok = true;
  pointer_lost = false;
  reply = λ _. record { status = status; is_unresolvable = u };
  resident = ident;
  restore_ok = true;
  restore_lost = false;
}

abbrev old : Identity
old = record { serving_model = some 1; serving_version = some 4 }

abbrev new : Identity
new = record { serving_model = some 2; serving_version = some 5 }

program : Unit {0}
unfolding lookup erase insert modify total any_nonterminal create_activation newest cas_activation
    IsUnique
program = tt

run-outcome_example :
    Shows 40
      (run 5 true (answers_with swapped false new) 40 table)
      (outcome_from prepared 5 true (answers_with swapped false new) requested (some 1))
unfolding program
run-outcome_example =
    run_lem 40 5 true (answers_with swapped false new) requested table (refl, refl)

run-IsFounded_example :
    Returns
      (λ op' p. IsFounded op'.state (answers_with swapped false new) requested (some 1) p)
      (run 5 true (answers_with swapped false new) 40 table)
unfolding program
run-IsFounded_example =
    run-IsFounded 40 5 true (answers_with swapped false new) requested table (refl, refl) refl

run-crashed_example :
    SameEnd
      (run 5 true
        (answers_with swapped false new)
        40
        (crashed after_commit (answers_with swapped false new) 40 requested table))
      (run 5 true (answers_with swapped false new) 40 table)
unfolding program
run-crashed_example =
    run-crashed after_commit 40 5 true (answers_with swapped false new) requested table (refl, refl)
      refl refl

abbrev waiting : Operation
waiting = moved reloading none false requested

abbrev waiting_table : Store
waiting_table = record { rows = (40, waiting) ∷ []; pointer = some 2 }

events-IsSingle_example : IsSingle (
    events 5
      (submits 40 9 2 5 (some 1) true
        ∷ submits 41 8 3 1 none false
        ∷ runs true (answers_with swapped false new) 40
        ∷ [])
      start)
unfolding program
events-IsSingle_example =
    events-IsSingle 5
      (submits 40 9 2 5 (some 1) true
        ∷ submits 41 8 3 1 none false
        ∷ runs true (answers_with swapped false new) 40
        ∷ [])
      start (refl, omega arith)

abbrev request : Request
request = record { name = 2; version = 5; preempt = true; id = 40; key = 9 }

abbrev registry : Registry
registry = record {
  versions = some (4 ∷ 5 ∷ []);
  target = resolved;
  promoting = answered (some true);
  activating = answers_with swapped false new;
}
