-- ===== src/Jobs/Kinds.antt =====
-- hostagent/jobs.py: the kinds of jobs, the checks of a request and the record of a new job. A request
-- is read by `.get`; texts are numbers, and `lower` is Python's.
use mlops_lite.Base.{
  ℕ, if◌then◌else◌, none, ◌∷◌, contains, Bool, ◌++◌, some, not, ◌==◌, false, Option, List, ◌&&◌,
  every, [], true,
}
use mlops_lite.Jobs.Rows.{
  kind, val, Value, JobRecord, request, state, submitted_at, queued, null, or_else, modality,
  job_id,
}

pub data Kind : Type 0 where
  finetune hpo batch shadow : Kind

abbrev pub Request : Type 0
Request = (field : ℕ) → Value

-- The fields of a request, beside `modality`: the required ones, and the key.
abbrev pub dataset_name : ℕ
dataset_name = 20

abbrev pub dataset_version : ℕ
dataset_version = 21

abbrev pub output_name : ℕ
output_name = 22

abbrev pub model : ℕ
model = 23

abbrev pub name : ℕ
name = 24

abbrev pub challenger : ℕ
challenger = 25

abbrev pub champion_version : ℕ
champion_version = 26

abbrev pub shadow_id : ℕ
shadow_id = 27

abbrev pub idempotency_key : ℕ
idempotency_key = 28

-- The modalities: llm, vision, embeddings, asr, tabular, and the two registry names.
abbrev pub llm : ℕ
llm = 1

abbrev pub trainable : List ℕ
trainable = 1 ∷ 2 ∷ 3 ∷ 4 ∷ []

abbrev pub cpu_trainable : List ℕ
cpu_trainable = 5 ∷ []

abbrev pub gpu_batch : List ℕ
gpu_batch = 1 ∷ 2 ∷ 4 ∷ []

abbrev pub batchable : List ℕ
batchable = 1 ∷ 6 ∷ 2 ∷ 7 ∷ 5 ∷ []

abbrev pub required : Kind → List ℕ
required batch = dataset_name ∷ dataset_version ∷ model ∷ []
required shadow = name ∷ challenger ∷ champion_version ∷ modality ∷ shadow_id ∷ []
required _ = dataset_name ∷ dataset_version ∷ output_name ∷ []

abbrev pub modality_set : Kind → Option (List ℕ)
modality_set finetune = some (trainable ++ cpu_trainable)
modality_set hpo = some trainable
modality_set batch = some batchable
modality_set shadow = none

abbrev pub takes_gpu : Kind → Bool
takes_gpu batch = false
takes_gpu _ = true

abbrev pub code : Kind → ℕ
code finetune = 1
code hpo = 2
code batch = 3
code shadow = 4

-- The legacy key of the id: run_id, study_id, batch_id or shadow_id.
abbrev pub id_key : Kind → ℕ
id_key finetune = 30
id_key hpo = 31
id_key batch = 32
id_key shadow = shadow_id

-- _needs_gpu and _is_gpu_batch
unfoldable pub needs_gpu : Kind → (modality : ℕ) → Bool
needs_gpu k m = takes_gpu k && not (contains m cpu_trainable)

abbrev pub canonical : ℕ → ℕ
canonical m = if m == 6 then 1 else if m == 7 then 2 else m

unfoldable pub is_gpu_batch : (modality : ℕ) → Bool
is_gpu_batch m = contains (canonical m) gpu_batch

abbrev pub is_present : Request → ℕ → Bool
is_present req field = not (or_else (req field) 0 == 0)

-- The validation: the modality of a good request.
unfoldable pub validated : (lower : ℕ → ℕ) → Kind → Request → Option ℕ
validated lower k req =
    if every (is_present req) (required k)
    then (elim (modality_set k) [
      | none ↦ some (or_else (req modality) 0)
      | some set ↦
          let m = lower (or_else (req modality) llm) in if contains m set then some m else none
    ])
    else none

-- The record of a new job, with the request as one value. The fields of `extra` are null.
unfoldable pub new_record : Kind → (id modality body now : ℕ) → JobRecord
new_record k id m body now field =
    if field == job_id
    then val id
    else if field == kind
    then val (code k)
    else if field == modality
    then val m
    else if field == request
    then val body
    else if field == state
    then val queued
    else if field == submitted_at
    then val now
    else if field == id_key k
    then val id
    else null
