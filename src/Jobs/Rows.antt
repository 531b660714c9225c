-- ===== src/Jobs/Rows.antt =====
-- platformlib/storeimpl/jobs.py: a record of a job and its row in the table. A record is read by
-- `.get` only, so it is a function from the names of the fields, null for a missing one. A name and a
-- text are numbers, 0 the empty text; times are ticks, which the conversions of the columns keep.
use mlops_lite.Base.{
  ℕ, Bool, true, false, ◌==◌, leb, if◌then◌else◌, ◌≡◌, Dict, modify_all, keys_where, List, arith,
}

pub data Value : Type 0 where
  null : Value
  val : ℕ → Value

abbrev pub JobRecord : Type 0
JobRecord = (field : ℕ) → Value

-- The names of the fields that have a column, and of two others.
abbrev pub job_id : ℕ
job_id = 0

abbrev pub kind : ℕ
kind = 1

abbrev pub modality : ℕ
modality = 2

abbrev pub request : ℕ
request = 3

abbrev pub state : ℕ
state = 4

abbrev pub submitted_at : ℕ
submitted_at = 5

abbrev pub started_at : ℕ
started_at = 6

abbrev pub ended_at : ℕ
ended_at = 7

abbrev pub reason : ℕ
reason = 8

abbrev pub result : ℕ
result = 9

-- _JOB_RESERVED
abbrev pub is_reserved : ℕ → Bool
is_reserved field = leb field ended_at

-- The states, as texts.
abbrev pub queued : ℕ
queued = 1

abbrev pub running : ℕ
running = 2

abbrev pub interrupted : ℕ
interrupted = 3

abbrev pub failed : ℕ
failed = 4

abbrev pub succeeded : ℕ
succeeded = 5

abbrev pub cancelled : ℕ
cancelled = 6

abbrev pub completed : ℕ
completed = 7

abbrev pub is_active : Value → Bool
is_active null = false
is_active (val s) = if s == queued then true else s == running

-- A row: the columns, and the jsonb of all other fields.
pub record Row : Type 0 where
  pub kind_column : ℕ
  pub modality_column : ℕ
  pub request_column : ℕ
  pub state_column : ℕ
  pub submitted_column : Value
  pub started_column : Value
  pub ended_column : Value
  pub result_column : JobRecord

-- `value or default`
abbrev pub or_else : Value → ℕ → ℕ
or_else null default = default
or_else (val n) default = if n == 0 then default else n

abbrev pub id_of : JobRecord → ℕ
id_of r = or_else (r job_id) 0

unfoldable pub job_split : JobRecord → Row
job_split r = record {
  kind_column = or_else (r kind) 0;
  modality_column = or_else (r modality) 0;
  request_column = or_else (r request) 0;
  state_column = or_else (r state) queued;
  submitted_column = r submitted_at;
  started_column = r started_at;
  ended_column = r ended_at;
  result_column = λ field. if is_reserved field then null else r field;
}

-- A field that the jsonb has stands over the columns.
abbrev pub overlaid : Value → Value → Value
overlaid null column = column
overlaid (val n) column = val n

abbrev pub columns : (id : ℕ) → Row → JobRecord
columns id row field =
    if field == job_id
    then val id
    else if field == kind
    then val row.kind_column
    else if field == modality
    then val row.modality_column
    else if field == request
    then val row.request_column
    else if field == state
    then val row.state_column
    else if field == submitted_at
    then row.submitted_column
    else if field == started_at
    then row.started_column
    else if field == ended_at
    then row.ended_column
    else null

unfoldable pub job_row_to_record : (id : ℕ) → Row → JobRecord
job_row_to_record id row field = overlaid (row.result_column field) (columns id row field)

-- mark_jobs_interrupted: what the UPDATE sets, and the ids that it returns.
unfoldable pub interrupt_row : (why now : ℕ) → Row → Row
interrupt_row why now row =
    if is_active (val row.state_column)
    then record row {
      state_column = interrupted;
      ended_column = val now;
      result_column = λ field. if field == reason then val why else row.result_column field;
    }
    else row

unfoldable pub mark_jobs_interrupted : (why now : ℕ) → Dict Row → List ℕ × Dict Row
mark_jobs_interrupted why now rows = (
  keys_where (λ row. is_active (val row.state_column)) rows,
  modify_all (interrupt_row why now) rows,
)

-- What every record of the agent has: the fields of submit, none of them empty.
pub record IsWhole (id : ℕ) (r : JobRecord) : Type 0 where
  pub named : r job_id ≡ val id
  pub kinded : val (or_else (r kind) 0) ≡ r kind
  pub typed : val (or_else (r modality) 0) ≡ r modality
  pub asked : val (or_else (r request) 0) ≡ r request
  pub stated : val (or_else (r state) queued) ≡ r state

-- A record that went through the table reads as it was, field by field.
pub job_row_to_record-job_split :
    (id : ℕ) (r : JobRecord)
    → IsWhole id r
    → (field : ℕ) → job_row_to_record id (job_split r) field ≡ r field
unfolding job_row_to_record job_split
job_row_to_record-job_split id r w field = ground arith
