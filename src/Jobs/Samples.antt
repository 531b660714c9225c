-- ===== src/Jobs/Samples.antt =====
-- A manager with a running fine-tune, at which the theorems on jobs apply.
use mlops_lite.Jobs.Journal
use mlops_lite.Jobs.Paging
use mlops_lite.Jobs.Rows
use mlops_lite.Jobs.Restarts
use mlops_lite.Jobs.Workers
use mlops_lite.Slot.State
use mlops_lite.Base.{
  ◌≡◌, refl, [], ◌∷◌, List, some, none, returns, raises_before, raises_after, lookup, map, true,
  if◌then◌else◌, ◌==◌, arith, insert, modify, ◌≢◌, length, ◌<◌, false,
}
use mlops_lite.Jobs.Journal.{
  Journal, write, transition, submit, updated, extra_of, modify_each, mark_interrupted, hydrate,
}
use mlops_lite.Jobs.Kinds.{
  finetune, batch, new_record, validated, needs_gpu, Request, dataset_name, dataset_version,
  output_name, idempotency_key,
}
use mlops_lite.Jobs.Lease.{IsLeased}
use mlops_lite.Jobs.Manager.{
  Config, Manager, Readings, submit_job, worker_start, duplicate, submit_valid, within_window,
  admit, launch, pruned,
}
use mlops_lite.Jobs.Paging.{
  Filters, Entry, list_jobs, as_entry, as_entries, sort_by, insert_by, read, page_of,
  checksum_state, values,
}
use mlops_lite.Jobs.Reading.{read_pages, read_pages-all, filtered, Apart}
use mlops_lite.Jobs.Restarts.{restart-run, restart, resumed, AllSound, empty, transitions}
use mlops_lite.Jobs.Rows.{
  IsWhole, JobRecord, queued, running, succeeded, interrupted, val, null, job_split,
  mark_jobs_interrupted, job_row_to_record, interrupt_row,
}
use mlops_lite.Jobs.Workers.{
  run-IsLeased, submit_job_lem, worker_start-dead, Answered, others, spawns, starts, finishes,
}
use mlops_lite.Slot.Laws.{acquires}

abbrev seven : JobRecord
seven = new_record finetune 7 2 9 100

abbrev eight : JobRecord
eight = new_record batch 8 5 9 130

seven-IsWhole : IsWhole 7 seven
unfolding new_record
seven-IsWhole = record { named = refl; kinded = refl; typed = refl; asked = refl; stated = refl }

eight-IsWhole : IsWhole 8 eight
unfolding new_record
eight-IsWhole = record { named = refl; kinded = refl; typed = refl; asked = refl; stated = refl }

-- One job runs to its end, an upsert is lost on the way, and the next job starts.
abbrev history : List Restarts.Event
history =
    Restarts.submits seven returns
    ∷ Restarts.transitions 7 running null (val 101) null null [] returns
    ∷ Restarts.transitions 7 succeeded null null (val 120) (val 3) [] returns
    ∷ Restarts.submits eight raises_before
    ∷ Restarts.submits eight returns
    ∷ Restarts.transitions 8 running null (val 131) null null [] returns
    ∷ []

two_nonzero : running ≢ 0
two_nonzero h = omega arith

five_nonzero : succeeded ≢ 0
five_nonzero h = omega arith

history-AllSound : AllSound history empty
unfolding AllSound Restarts.step submit transition write new_record lookup insert
history-AllSound = (
  (seven-IsWhole, refl),
  (
    (refl, two_nonzero, refl),
    (
      (refl, five_nonzero, refl),
      ((eight-IsWhole, refl), ((eight-IsWhole, refl), ((refl, two_nonzero, refl), tt))),
    ),
  ),
)

restart-run_example :
    lookup 8 (restart 1 200 returns (Restarts.run history empty)).jobs
    ≡ resumed 1 200 (lookup 8 (Restarts.run history empty).jobs)
restart-run_example = restart-run history 1 200 8 history-AllSound

-- What the restart made of the two states.
restarted_states :
    map (λ r. r 4) (Paging.values (restart 1 200 returns (Restarts.run history empty)).jobs)
    ≡ val succeeded ∷ val interrupted ∷ []
unfolding restart Restarts.run Restarts.step submit transition write new_record job_split updated
    extra_of Journal.mark_interrupted Journal.hydrate Journal.modify_each Rows.mark_jobs_interrupted
    Rows.interrupt_row Rows.job_row_to_record insert modify
restarted_states = refl

abbrev journal : Journal
journal = record {
  jobs = (7, seven) ∷ (8, eight) ∷ [];
  rows = (7, job_split seven) ∷ (8, job_split eight) ∷ [];
}

abbrev no_filter : Filters
no_filter = record { job = none; engine = none; of_transitions = true; since = 0; until = none }

journal-Apart : Apart (map as_entry (list_jobs none journal))
unfolding list_jobs sort_by insert_by as_entry new_record
journal-Apart = (refl, (refl, tt))

journal_pages : length (filtered no_filter journal) < 3
unfolding list_jobs as_entries sort_by insert_by as_entry new_record
journal_pages = omega arith

read_pages-all_example : read_pages 3 none (some 1) no_filter journal ≡ filtered no_filter journal
read_pages-all_example = read_pages-all 3 (some 1) no_filter journal journal-Apart journal_pages

abbrev config : Config
config = record { tenant = 1; est = 2; window = 900; lower = λ text. text }

abbrev slot : State.Slot
slot = record { holder = none; swap_target = none; budget = 1000 }

abbrev manager : Manager
manager = record {
  slot = slot;
  journal = record { jobs = []; rows = [] };
  active = none;
  gpu_batch_active = false;
  lease_held = false;
  children = [];
  run_keys = [];
}

manager-IsLeased : IsLeased config manager
manager-IsLeased = record { leased = refl; idle = refl }

abbrev readings : Readings
readings = record {
  deduped_at = 100;
  acquired_at = 100;
  stamped_at = 100;
  pruned_at = 100;
  free = some 5;
  uuid = 7;
  body = 9;
  reply = returns;
  starts = true;
}

-- A request with the key 40.
abbrev launch_request : Request
launch_request field =
    if field == dataset_name
    then val 50
    else if field == dataset_version
    then val 51
    else if field == output_name
    then val 52
    else if field == idempotency_key
    then val 40
    else null

-- The job starts, another tenant is refused, the job ends, and the other takes the slot.
abbrev shift : List Workers.Event
shift =
    Workers.submits (some finetune) launch_request readings
    ∷ Workers.starts 7 101 returns
    ∷ Workers.others 2 (acquires State.serving 3 102 (some 5))
    ∷ Workers.spawns 7 4000
    ∷ Workers.finishes 7 succeeded 120 (val 3) [] raises_after
    ∷ Workers.others 2 (acquires State.serving 3 121 (some 5))
    ∷ Workers.submits (some finetune) launch_request readings
    ∷ []

run-IsLeased_example : IsLeased config (Workers.run config shift manager)
run-IsLeased_example = run-IsLeased config shift manager manager-IsLeased

submit_job_example :
    let (answer, t) = submit_job config (some finetune) launch_request readings manager in
    Answered config answer manager t
submit_job_example =
    submit_job_lem config (some finetune) launch_request readings manager manager-IsLeased

abbrev launched : Manager
launched = (submit_job config (some finetune) launch_request readings manager).1

abbrev queued_job : JobRecord
queued_job = new_record finetune 7 1 9 100

launched_job : lookup 7 launched.journal.jobs ≡ some queued_job
unfolding submit_job validated submit_valid within_window admit needs_gpu State.acquire launch
    submit write new_record insert lookup State.fits
launched_job = refl

launched_key : lookup 40 launched.run_keys ≡ some 7
unfolding submit_job validated submit_valid within_window admit needs_gpu State.acquire launch
    submit write new_record pruned insert lookup State.fits
launched_key = refl

queued_state : queued_job 4 ≡ val queued
unfolding new_record
queued_state = refl

valid_request : validated config.lower finetune launch_request ≡ some 1
unfolding validated
valid_request = refl

worker_start-dead_example :
    let t = (worker_start config 7 101 raises_before launched).1 in
    (t.active ≡ none)
    × (submit_job config (some finetune) launch_request readings t ≡ (duplicate 7 (val queued), t))
worker_start-dead_example =
    worker_start-dead config 7 101 40 1 finetune launch_request readings queued_job launched
      launched_job queued_state launched_key refl valid_request
