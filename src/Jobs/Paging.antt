-- ===== src/Jobs/Paging.antt =====
-- hostagent/journalread.py: the paged read of the journal, with Journal.jobs. Times are milliseconds;
-- a cursor is the number in it, none if there is none or it is malformed.
use mlops_lite.Base.{
  ℕ, map, min, ◌||◌, leb, max, take, ◌&&◌, Bool, ltb, ◌∷◌, [], length, none, select, Option, some,
  false, if◌then◌else◌, true, ◌==◌, List, Dict,
}
use mlops_lite.Jobs.Journal.{Journal}
use mlops_lite.Jobs.Rows.{
  state, modality, val, or_else, succeeded, null, running, started_at, submitted_at, job_id, kind,
  failed, JobRecord, ended_at, cancelled, interrupted, Value,
}

-- The list of the records, and a stable sort with the largest key first.
abbrev pub values : Dict JobRecord → List JobRecord
values [] = []
values ((id, r) ∷ jobs) = r ∷ values jobs

unfoldable pub insert_by {ℓ} : {A : Type ℓ} → (A → ℕ) → A → List A → List A
insert_by key x [] = x ∷ []
insert_by key x (y ∷ ys) =
    let rest = insert_by key x ys in if leb (key y) (key x) then x ∷ y ∷ ys else y ∷ rest

unfoldable pub sort_by {ℓ} : {A : Type ℓ} → (A → ℕ) → List A → List A
sort_by key [] = []
sort_by key (x ∷ xs) = insert_by key x (sort_by key xs)

-- Journal.jobs, for one kind or for all.
abbrev pub is_kind : Option ℕ → JobRecord → Bool
is_kind none r = true
is_kind (some k) r = or_else (r kind) 0 == k

unfoldable pub list_jobs : Option ℕ → Journal → List JobRecord
list_jobs k j = sort_by (λ r. or_else (r submitted_at) 0) (select (is_kind k) (values j.jobs))

pub data Checksum : Type 0 where
  torn ok : Checksum

abbrev pub is_absent : Value → Bool
is_absent v = or_else v 0 == 0

abbrev pub needs_start : Value → Bool
needs_start null = false
needs_start (val s) =
    s == running || (s == succeeded || (s == failed || (s == cancelled || s == interrupted)))

abbrev pub needs_end : Value → Bool
needs_end null = false
needs_end (val s) = s == succeeded || (s == failed || s == cancelled)

unfoldable pub checksum_state : JobRecord → Checksum
checksum_state r =
    if needs_start (r state) && is_absent (r started_at)
    then torn
    else if needs_end (r state) && is_absent (r ended_at)
    then torn
    else ok

-- An entry of the journal. Its event type is always `transition`; the fields that are only copied
-- from the record are left out.
pub record Entry : Type 0 where
  pub sequence : ℕ
  pub job : Value
  pub engine : Value
  pub checksum : Checksum

unfoldable pub as_entry : JobRecord → Entry
as_entry r = record {
  sequence = or_else (r ended_at) (or_else (r started_at) (or_else (r submitted_at) 0));
  job = r job_id;
  engine = r modality;
  checksum = checksum_state r;
}

unfoldable pub as_entries : List JobRecord → List Entry
as_entries rs = sort_by (λ (e : Entry). e.sequence) (map as_entry rs)

-- The filters of a read; `of_transitions` is false for an event type other than that.
pub record Filters : Type 0 where
  pub job : Option ℕ
  pub engine : Option ℕ
  pub of_transitions : Bool
  pub since : ℕ
  pub until : Option ℕ

abbrev pub matches : Option ℕ → Value → Bool
matches none v = true
matches (some n) null = false
matches (some n) (val m) = m == n

abbrev pub before : Option ℕ → ℕ → Bool
before none t = true
before (some u) t = leb t u

abbrev pub passes : Filters → Entry → Bool
passes f e =
    matches f.job e.job
    && (matches f.engine e.engine
        && (f.of_transitions && (leb f.since e.sequence && before f.until e.sequence)))

-- `e["sequence"] < after`
abbrev pub comes_after : Option ℕ → Entry → Bool
comes_after none e = true
comes_after (some c) e = ltb e.sequence c

abbrev pub max_limit : ℕ
max_limit = 500

-- The default for a limit that is no number, and both bounds.
abbrev pub clamped : Option ℕ → ℕ
clamped none = 100
clamped (some n) = max 1 (min n max_limit)

abbrev pub last_sequence : List Entry → Option ℕ
last_sequence [] = none
last_sequence (e ∷ []) = some e.sequence
last_sequence (e ∷ d ∷ es) = last_sequence (d ∷ es)

pub record Page : Type 0 where
  pub shown : List Entry
  pub next_cursor : Option ℕ
  pub has_more : Bool

-- The page of the entries that pass the filters.
unfoldable pub page_of : (limit : ℕ) → Option ℕ → List Entry → Page
page_of limit cursor es =
    let rest = select (comes_after cursor) es in
    let more = ltb limit (length rest) in
    record {
      shown = take limit rest;
      next_cursor = if more then last_sequence (take limit rest) else none;
      has_more = more;
    }

unfoldable pub read : Option ℕ → (limit : Option ℕ) → Filters → Journal → Page
read cursor limit f j =
    page_of (clamped limit) cursor (select (passes f) (as_entries (list_jobs none j)))
