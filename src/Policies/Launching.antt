-- ===== src/Policies/Launching.antt =====
-- gateway/app/scheduler.py: _launch, with resolve_dataset_version of gateway/app/policies.py.
use mlops_lite.Base.{
  ℕ, Bool, Option, none, some, List, [], ◌∷◌, Reply, commits, ltb, ◌&&◌, if◌then◌else◌,
}
use mlops_lite.Policies.State.{Watch, World}

-- The versions of the dataset with the times of their registration, 0 where a manifest is missing or
-- has none. The listing may fail, and so may the read of a manifest: both are failures of the store.
pub data Listing : Type 0 where
  unlisted unreadable : Listing
  listed : List (ℕ × ℕ) → Listing

pub data Dataset : Type 0 where
  found : (version : ℕ) → Dataset
  store_down unregistered : Dataset

-- The loop over the versions, from the best one so far.
unfoldable pub newest : Option (ℕ × ℕ) → List (ℕ × ℕ) → Option (ℕ × ℕ)
newest best [] = best
newest none (v ∷ vs) = newest (some v) vs
newest (some b) (v ∷ vs) = if ltb (b.1) (v.1) then newest (some v) vs else newest (some b) vs

abbrev pub best_version : Option (ℕ × ℕ) → Dataset
best_version none = unregistered
best_version (some b) = found (b.0)

unfoldable pub resolve_dataset_version : (pinned : Option ℕ) → Listing → Dataset
resolve_dataset_version (some v) l = found v
resolve_dataset_version none unlisted = store_down
resolve_dataset_version none unreadable = store_down
resolve_dataset_version none (listed vs) = best_version (newest none vs)

-- What the trainer answers: 409, another failure, or a run.
pub data Trainer : Type 0 where
  refuses fails : Trainer
  takes : (run_id : Option ℕ) → Trainer

-- What a launch meets, and what other triggers make of the stamp while the trainer is asked.
pub record LaunchAnswers : Type 0 where
  pub listing : Listing
  pub trainer : (version : ℕ) → Trainer
  pub meanwhile : (stamp : ℕ) → ℕ
  pub reads_status : Bool
  pub saves_watch : Reply
  pub launched_at : ℕ

pub data Launched : Type 0 where
  busy store_error failed : Launched
  launched : (run_id : Option ℕ) → Launched

-- The watch is written at best effort.
unfoldable pub persist_watch : LaunchAnswers → Option ℕ → World → World
persist_watch a none w = w
persist_watch a (some run) w =
    if a.reads_status && commits a.saves_watch
    then (let watch : Watch = record {
      run_id = run;
      launched_at = a.launched_at;
      unknown_since = none;
    } in
        record w { status = record w.status { watch = some watch } })
    else w

abbrev pub outcome_of : LaunchAnswers → Trainer → World → Launched × World
outcome_of a refuses w = (busy, w)
outcome_of a fails w = (failed, w)
outcome_of a (takes run) w = (launched run, persist_watch a run w)

unfoldable pub launch_on : Dataset → LaunchAnswers → World → Launched × World
launch_on (found v) a w = outcome_of a (a.trainer v) (record w { stamp = a.meanwhile w.stamp })
launch_on store_down a w = (store_error, w)
launch_on unregistered a w = (failed, w)

abbrev pub launch : (pinned : Option ℕ) → LaunchAnswers → World → Launched × World
launch pinned a w = launch_on (resolve_dataset_version pinned a.listing) a w
