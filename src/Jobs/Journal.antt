-- ===== src/Jobs/Journal.antt =====
-- hostagent/journal.py: Journal, on the table of the store. A write goes to the store first.
use mlops_lite.Base.{
  ℕ, none, Bool, leb, insert, some, Dict, [], modify, if◌then◌else◌, is_answered, commits, ◌∷◌,
  Reply, ◌==◌, Option, ◌+◌, lookup, List,
}
use mlops_lite.Jobs.Rows.{
  JobRecord, mark_jobs_interrupted, submitted_at, result, state, reason, interrupted, ended_at,
  job_split, job_row_to_record, job_id, is_active, started_at, id_of, Value, Row, null, val,
}

pub record Journal : Type 0 where
  pub jobs : Dict JobRecord
  pub rows : Dict Row

-- _hydrate: the dict of what list_jobs gives, whose order it does not keep.
unfoldable pub hydrate : Dict Row → Dict JobRecord
hydrate [] = []
hydrate ((id, row) ∷ rows) = (id, job_row_to_record id row) ∷ hydrate rows

-- The upsert, and the cache after it if the call returned.
unfoldable pub write : (id : ℕ) → JobRecord → Reply → Journal → Bool × Journal
write id r reply j = (
  is_answered reply,
  record {
    jobs = if is_answered reply then insert id r j.jobs else j.jobs;
    rows = if commits reply then insert id (job_split r) j.rows else j.rows;
  },
)

unfoldable pub submit : JobRecord → Reply → Journal → Bool × Journal
submit r reply j = write (id_of r) r reply j

-- The fields that a transition does not touch, and `state`, which it sets itself.
abbrev pub is_fixed : ℕ → Bool
is_fixed field = leb field submitted_at

abbrev pub put : ℕ → Value → Dict Value → Dict Value
put field null extra = extra
put field (val v) extra = insert field (val v) extra

-- `fields`, and over it the arguments that are not None.
unfoldable pub extra_of : (why started ended outcome : Value) → (fields : Dict Value) → Dict Value
extra_of why started ended outcome fields =
    put result outcome (put ended_at ended (put started_at started (put reason why fields)))

abbrev pub value_or : Option Value → Value → Value
value_or none v = v
value_or (some w) v = w

unfoldable pub updated : (to : ℕ) → (extra : Dict Value) → JobRecord → JobRecord
updated to extra r field =
    if field == state
    then val to
    else if is_fixed field
    then r field
    else value_or (lookup field extra) (r field)

abbrev pub or_bare : (id : ℕ) → Option JobRecord → JobRecord
or_bare id none = λ field. if field == job_id then val id else null
or_bare id (some r) = r

unfoldable pub transition :
    (id to : ℕ)
    → (why started ended outcome : Value) → (fields : Dict Value) → Reply
    → Journal
    → Bool × Journal
transition id to why started ended outcome fields reply j =
    write id
      (updated to (extra_of why started ended outcome fields) (or_bare id (lookup id j.jobs))) reply
      j

-- What mark_interrupted does to a record of the cache.
abbrev pub interrupt : (why now : ℕ) → JobRecord → JobRecord
interrupt why now r field =
    if field == state
    then val interrupted
    else if field == reason
    then val why
    else if field == ended_at
    then val now
    else r field

unfoldable pub modify_each : List ℕ → (JobRecord → JobRecord) → Dict JobRecord → Dict JobRecord
modify_each [] g jobs = jobs
modify_each (id ∷ ids) g jobs = modify_each ids g (modify id g jobs)

unfoldable pub mark_interrupted : (why now : ℕ) → Reply → Journal → Bool × Journal
mark_interrupted why now reply j =
    let flipped = mark_jobs_interrupted why now j.rows in
    (
      is_answered reply,
      record {
        jobs =
            if is_answered reply then modify_each flipped.0 (interrupt why now) j.jobs else j.jobs;
        rows = if commits reply then flipped.1 else j.rows;
      },
    )

-- active_count.
unfoldable pub active_count : Dict JobRecord → ℕ
active_count [] = 0
active_count ((id, r) ∷ jobs) = (if is_active (r state) then 1 else 0) + active_count jobs
