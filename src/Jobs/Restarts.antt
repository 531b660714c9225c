-- ===== src/Jobs/Restarts.antt =====
-- hostagent/journal.py: what a restart of the agent reads back.
use mlops_lite.Base.{
  ℕ, is_some, lookup, ◌≡◌, inr, ◌≢◌, Distinct, [], Reply, inl, Dict, Option-cases, none, ◌∙◌, some,
  List, ◌∷◌, refl, returns, is_answered, commits, arith, sym, if◌then◌else◌, Option, true,
}
use mlops_lite.Jobs.Durable.{
  write-IsDurable, updated-IsWhole, mark_interrupted-IsDurable, IsDurable, lookup-hydrate, IsClean,
  marked-lookup,
}
use mlops_lite.Jobs.Journal.{Journal, transition, submit, mark_interrupted, hydrate, interrupt}
use mlops_lite.Jobs.Rows.{
  mark_jobs_interrupted, state, JobRecord, is_active, Value, IsWhole, id_of, job_row_to_record, val,
  Row,
}

-- A call of the journal, or a restart of the agent: hydration, then mark_interrupted.
pub data Event : Type 0 where
  submits : JobRecord → Reply → Event
  transitions :
      (id to : ℕ) (why started ended outcome : Value) (fields : Dict Value) → Reply → Event
  restarts : (why now : ℕ) → Reply → Event

unfoldable pub restart : (why now : ℕ) → Reply → Journal → Journal
restart why now reply j =
    (mark_interrupted why now reply (record { jobs = hydrate j.rows; rows = j.rows })).1

unfoldable pub step : Event → Journal → Journal
step (submits r reply) j = (submit r reply j).1
step (transitions id to why started ended outcome fields reply) j =
    (transition id to why started ended outcome fields reply j).1
step (restarts why now reply) j = restart why now reply j

unfoldable pub run : List Event → Journal → Journal
run [] j = j
run (x ∷ xs) j = run xs (step x j)

abbrev pub empty : Journal
empty = record { jobs = []; rows = [] }

-- The call of the store raised before its transaction or returned: no reply was lost.
abbrev pub IsKept : Reply → Type 0
IsKept reply = commits reply ≡ is_answered reply

-- A submitted record is whole, and only a job that the cache knows changes its state.
abbrev pub IsSound : Event → Journal → Type 0
IsSound (submits r reply) j = IsWhole (id_of r) r × IsKept reply
IsSound (transitions id to _ _ _ _ _ reply) j =
    (is_some (lookup id j.jobs) ≡ true) × (to ≢ 0) × IsKept reply
IsSound (restarts why now reply) j = IsKept reply

unfoldable pub AllSound : List Event → Journal → Type 0
AllSound [] j = Unit
AllSound (x ∷ xs) j = IsSound x j × AllSound xs (step x j)

hydrate-IsDurable :
    (j : Journal) → IsDurable j → IsDurable (record { jobs = hydrate j.rows; rows = j.rows })
hydrate-IsDurable j d = record {
  distinct = d.distinct;
  same = λ id. lookup-hydrate id j.rows;
  whole = λ id r e. d.whole id r (d.same id ∙ sym (lookup-hydrate id j.rows) ∙ e);
  clean = d.clean;
}

step-IsDurable : (x : Event) (j : Journal) → IsSound x j → IsDurable j → IsDurable (step x j)
unfolding step submit transition restart
step-IsDurable (submits r reply) j (w, kept) d = write-IsDurable (id_of r) r reply j kept w d
step-IsDurable (transitions id to why started ended outcome fields reply) j (known, to_some, kept)
      d =
    elim (Option-cases (lookup id j.jobs)) [
      | inl e ↦ ground (arith, e)
      | inr (r, e) ↦
          write-IsDurable id _ reply j kept
            (updated-IsWhole id to _ _ to_some (rw e (d.whole id r e))) d
    ]
step-IsDurable (restarts why now reply) j kept d =
    mark_interrupted-IsDurable why now reply _ kept (hydrate-IsDurable j d)

run-IsDurable : (xs : List Event) (j : Journal) → AllSound xs j → IsDurable j → IsDurable (run xs j)
unfolding run AllSound
run-IsDurable [] j s d = d
run-IsDurable (x ∷ xs) j (s, ss) d = run-IsDurable xs (step x j) ss (step-IsDurable x j s d)

empty-IsDurable : IsDurable empty
unfolding lookup Distinct
empty-IsDurable = record {
  distinct = tt;
  same = λ id. refl;
  whole = λ id r e. cc;
  clean = λ id row e. cc;
}

-- What a restart makes of a record: one that was queued or running is interrupted.
abbrev pub resumed : (why now : ℕ) → Option JobRecord → Option JobRecord
resumed why now none = none
resumed why now (some r) = some (if is_active (r state) then interrupt why now r else r)

row-state :
    (id : ℕ) (row : Row) → IsClean row → job_row_to_record id row state ≡ val row.state_column
unfolding job_row_to_record
row-state id row c = ground (arith, c state refl)

restart-lookup :
    (why now id : ℕ) (j : Journal)
    → IsDurable j
    → lookup id (restart why now returns j).jobs ≡ resumed why now (lookup id j.jobs)
unfolding restart mark_interrupted mark_jobs_interrupted
restart-lookup why now id j d =
    marked-lookup why now id (record { jobs = hydrate j.rows; rows = j.rows }) d.distinct
    ∙ (elim (Option-cases (lookup id j.rows)) [
      | inl e ↦ ground (arith, e, d.same id, lookup-hydrate id j.rows)
      | inr (row, e) ↦
          ground
            (arith, e, d.same id, lookup-hydrate id j.rows, row-state id row (d.clean id row e))
    ])

-- A restart reads the journal back: after any history of submissions, changes of state and earlier
-- restarts in which no reply of the store was lost, every record that the cache had is in the new
-- cache with every field as it was, except that a queued or running job is interrupted, and no other
-- record is.
pub restart-run :
    (xs : List Event) (why now id : ℕ)
    → AllSound xs empty
    → lookup id (restart why now returns (run xs empty)).jobs
      ≡ resumed why now (lookup id (run xs empty).jobs)
restart-run xs why now id s =
    restart-lookup why now id (run xs empty) (run-IsDurable xs empty s empty-IsDurable)
