-- ===== src/Lib.antt =====
-- A verification library for mlops-lite, a platform that trains, promotes and serves models on one
-- machine with one GPU.
--
-- The parts and how they interact. The gateway decides which model is served: a promotion moves the
-- registry's alias and then drives an activation, a record in the database that a restart resumes. The
-- host agent owns the GPU: engines start and stop child processes, and what may use the memory is
-- decided by one of two admission schemes, a slot with one holder, or a coordinator that shares the
-- memory between several models. A swap replaces the engine in the slot. Metering reserves GPU-seconds
-- against a tenant's quota before work runs and charges what it used after; the gateway writes each
-- charge to a file first, which a restart replays. Training, tuning, batch and replay jobs run one at a
-- time on the agent, which keeps their records in a table and reads them back when it starts. A
-- scheduler in the gateway checks each model by its policy, has it retrained on a breach, and suggests
-- or promotes the new version.
--
-- Base: the shared names; Boolean tests, lists and dicts over the native natural numbers. A dict is
--   an association list in insertion order (Keys has the lemmas on distinct keys), an identifier
--   that is only compared is a number, and an `if` of the source is the `if` of Base.Tests. Replies
--   has what a call of the store can come to: it raises before its transaction or after it, or
--   returns.
-- Coordinator: hostagent/coordinator.py and hostagent/gpuconfig.py, for several models on the GPU.
--   Config is CoordinatorConfig. State is the state of Coordinator with ResidentModel, Reservation,
--   Waiter and Claim, and the sums it derives (_accounted, _unmaterialized, usable_capacity). Claims
--   is _grant_claim, _release_claim and Claim.release. Victims is _select_victims. Stage1 is _stage1.
--   Loading has the critical sections of _stage3 (reconcile, commit), Handoff those of _rollback
--   (reclaim), _load_failed, _dispose and _await_load (finish_wait). Eviction has those of evict,
--   forget, admit_job, _drain_serving_set and end_job, and set_child of hostagent/coordadmission.py.
--   The lock is held for one section at a time, so Sections runs any sequence of sections: that is
--   every interleaving of the threads. Branches, Bounds, Selection, Exclusive, Barrier, Balance,
--   Counting, Admitting, Disposing, Draining, Release, Histories and Refusals have the proofs.
-- Lanes: hostagent/scheduler.py, which lets requests and queued jobs into the coordinator. State is
--   Scheduler (note_job_queued, note_job_started, _compute_drain_mode, admit_serving, admit_head_job,
--   end_job). Calls has the histories of its calls, one call at a time, and Starvation their proofs.
--   Overlap takes admit_serving apart into its two sections, so that requests overlap, with its proofs.
-- Slot: hostagent/admission.py. State is Admission (begin_swap, end_swap, retarget_swap, acquire,
--   set_child, release) and the cache of GpuReader. Laws has the proofs.
-- Engine: hostagent/lifecycle.py. Runtime is EngineRuntime (ensure_loaded, _spawn_and_wait, unload,
--   _teardown, idle_reap) on a slot. Consistency and Reservation have the proofs.
-- Swap: hostagent/swap.py. Transaction is preempt_for on a slot and the engines' runtimes. Laws and
--   Refusals have the proofs.
-- Activation: gateway/app/activation.py, gateway/app/promotion.py and
--   platformlib/storeimpl/activations.py. Store is the table with its compare-and-set and its unique
--   indexes, and the pointer of the served model. Service is ActivationService (submit,
--   assert_no_conflict, run and its steps, reconcile_all), and Requests has activate and _view. GoLive
--   is go_live. Outcomes describes a run without the table, and Steps, Runs, Recovery, Passes, Single,
--   History and Preflight have the proofs.
-- Metering: platformlib/storeimpl/metering.py. Books has the quotas, the reservations and the
--   ledger with reserve, settle, release, sweep_stale_reservations, consumption and reconciliation,
--   a transaction being a step. Sums, Reconciliation, Histories and Budgets have the proofs.
-- Outbox: gateway/app/metering.py on the books of Metering. File is the file of settlements
--   (_wal_append, _wal_entries, _wal_compact) with what a crash leaves of a line. Service has
--   reserve_or_refuse, settle, release, sweep_orphaned_reservations and replay_outbox. Lines,
--   Accounts, Owed, Replay, Once and Reports have the proofs; in Owed the events of the log and of
--   the store come in any order.
-- Jobs: hostagent/jobs.py, hostagent/journal.py, hostagent/journalread.py and
--   platformlib/storeimpl/jobs.py. Rows is a record and its row (_job_split, _job_row_to_record,
--   mark_jobs_interrupted). Journal is Journal (submit, transition, _hydrate, mark_interrupted,
--   active_count). Paging is the paged read (_as_entries, _checksum_state, read) with Journal.jobs.
--   Kinds has the kinds and the checks of a request; Manager is JobManager (submit, _worker, _release,
--   cancel) on the slot of Slot. Durable, Restarts, Pages, Reading, Lease and Workers have the proofs.
-- Policies: gateway/app/scheduler.py, with the cooldown of gateway/app/quality.py. Cooldown is
--   in_cooldown, note_retrain, try_reserve_retrain and release_retrain. State is the row of a
--   policy and the actions of a tick. Launching is _launch with resolve_dataset_version of
--   gateway/app/policies.py, Retries _retry_pending, Breaches _run_due_checks and _handle_breach,
--   Watches _poll_watch with create_suggestion, Tick the body of the loop of tick, and Fleet the
--   loop. Parks, Dropping, Reserving, Green, Promoting, Unanswered and Windows have the proofs;
--   between the ticks of a policy, other triggers and policies may change the shared stamp in any
--   way.
-- Evaluation: gateway/app/evaluation.py, gateway/app/shadow.py and the windows of
--   gateway/app/quality.py. Metrics has the scorers that count (_edit_distance, wer, task_accuracy,
--   accuracy, recall_at_k), as pairs of counts where the code divides. Gating is compute_verdict,
--   read_eval and gate, with is_breach. Shadows is join_window and build_verdict, with score_window
--   and evaluate_quality. Distances, Verdicts, Sorting and Joining have the proofs. The gate and
--   the winner are those that Policies takes.
--
-- What stands for the outside. The probe of the GPU, the clocks, the child processes, the adapters,
-- the registry, the agent's replies and the success of a write are arguments, one for each time
-- that the code asks. A method that raises returns a value of a sum type, and where a write may be
-- made and then raise (a settlement, the pointer, the alias, the log), that is one of the answers.
-- Memory is counted in whole units and time in ticks where the code has floats (milliseconds in the
-- paged read), so rounding is not covered (the overflow of the backoff is); a value of a metric is
-- a natural number of millionths, so a negative one is not covered; subtraction stops at 0 only
-- where the code takes a maximum with 0 or where the minuend is at least as large.
--
-- Bounds and fuel. No function of the code runs on fuel here; a client that reads page after page
-- does, with one page more than there are entries, which is enough. The rounds of _spawn_and_wait
-- are the bound of the code, the polling of evict is one round to a section, and every other loop
-- follows a list.
--
-- Not modelled: the drivers around the sections (admit_serving, _evict_all) and the rest of
-- coordadmission.py; reload_serving_llm; the default seams of the policy scheduler, AUC and
-- perplexity, the runners of the jobs, the ring of admission decisions, the resolution of the
-- served model and the other repositories of the store; the HTTP routers, the console, the
-- adapters, the scripts and the infrastructure. Messages, metrics and log records are left out,
-- except for the labels of go_live and the context of a refusal.
pub mod Base
pub mod Coordinator
pub mod Slot
pub mod Engine
pub mod Swap
pub mod Activation
pub mod Metering
pub mod Lanes
pub mod Outbox
pub mod Jobs
pub mod Policies
pub mod Evaluation
