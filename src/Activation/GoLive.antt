-- ===== src/Activation/GoLive.antt =====
-- gateway/app/promotion.py: go_live. What the registry answers is an argument; its alias moves when it
-- says that it promoted, and may have moved when it raises. The bodies of the responses are left out.
use mlops_lite.Base.{
  if◌then◌else◌, [], some, none, ◌≡◌, List, contains, ◌&&◌, Option, is_some, true, ◌∷◌, ◌⊎◌, Bool,
  ℕ, false,
}
use mlops_lite.Activation.Service.{conflicts, Answers}
use mlops_lite.Activation.Requests.{activate, viewed, interrupted, conflicting, Activated}
use mlops_lite.Activation.Store.{Store}

pub record World : Type 0 where
  pub alias : Option ℕ
  pub store : Store

-- llm_target_info: no language model, an error of the lookup, one that it names, or a target.
pub data TargetInfo : Type 0 where
  no_llm lookup_failed unresolved resolved : TargetInfo

-- promote: it raises, before the alias moved or after it, or its answer has an entry `promoted` or has
-- none.
pub data PromoteReply : Type 0 where
  promote_failed : (moved : Bool) → PromoteReply
  answered : Option Bool → PromoteReply

pub record Request : Type 0 where
  pub name : ℕ
  pub version : ℕ
  pub preempt : Bool
  pub id : ℕ
  pub key : ℕ

pub record Registry : Type 0 where
  pub versions : Option (List ℕ)
  pub target : TargetInfo
  pub promoting : PromoteReply
  pub activating : Answers

pub data Verdict : Type 0 where
  not_found turned_down in_conflict blocked promoted failed : Verdict

-- The REGISTRY_OPS labels.
pub data Label : Type 0 where
  refused_label conflict_label blocked_label ok_label unresolvable_label error_label : Label

abbrev pub http_status : Verdict → ℕ
http_status not_found = 404
http_status turned_down = 409
http_status in_conflict = 409
http_status blocked = 200
http_status promoted = 200
http_status failed = 502

abbrev pub Result : Type 0
Result = (Verdict × List Label) × World

abbrev pub is_llm : TargetInfo → Bool
is_llm resolved = true
is_llm _ = false

-- The labels after an activation: `rolled_back` is in the answer when it is not None.
unfoldable pub activated : World → Activated × Store → Result
activated w (conflicting, s) =
    ((in_conflict, ok_label ∷ conflict_label ∷ []), record w { store = s })
activated w (interrupted, s) = ((promoted, ok_label ∷ []), record w { store = s })
activated w (viewed v, s) = (
  (
    promoted,
    if is_some v.shown_rolled_back then ok_label ∷ unresolvable_label ∷ [] else ok_label ∷ [],
  ),
  record w { store = s },
)

-- Step 5, when the alias has moved.
unfoldable pub go_active :
    (max_attempts : ℕ) → Request → Registry → (says_promoted : Bool) → World → Result
go_active max_attempts q r says_promoted w =
    if is_llm r.target && says_promoted
    then activated w (
        activate max_attempts q.id q.key q.name q.version w.store.pointer q.preempt r.activating
          w.store)
    else ((promoted, ok_label ∷ []), w)

-- Step 4.
unfoldable pub promote : (max_attempts : ℕ) → Request → Registry → PromoteReply → World → Result
promote max_attempts q r (promote_failed moved) w =
    ((failed, error_label ∷ []), if moved then record w { alias = some q.version } else w)
promote max_attempts q r (answered (some false)) w = ((blocked, blocked_label ∷ []), w)
promote max_attempts q r (answered (some true)) w =
    go_active max_attempts q r true (record w { alias = some q.version })
promote max_attempts q r (answered none) w =
    go_active max_attempts q r false (record w { alias = some q.version })

-- Steps 2 and 3.
unfoldable pub check_target : (max_attempts : ℕ) → Request → Registry → TargetInfo → World → Result
check_target max_attempts q r lookup_failed w = ((failed, []), w)
check_target max_attempts q r unresolved w = ((turned_down, refused_label ∷ []), w)
check_target max_attempts q r no_llm w = promote max_attempts q r r.promoting w
check_target max_attempts q r resolved w =
    if conflicts q.name q.version w.store
    then ((in_conflict, conflict_label ∷ []), w)
    else promote max_attempts q r r.promoting w

-- Step 1.
unfoldable pub check_version :
    (max_attempts : ℕ) → Request → Registry → Option (List ℕ) → World → Result
check_version max_attempts q r none w = ((failed, []), w)
check_version max_attempts q r (some versions) w =
    if contains q.version versions
    then check_target max_attempts q r r.target w
    else ((not_found, []), w)

unfoldable pub go_live : (max_attempts : ℕ) → Request → Registry → World → Result
go_live max_attempts q r w = check_version max_attempts q r r.versions w

abbrev pub first_is_ok : List Label → Bool
first_is_ok (ok_label ∷ labels) = true
first_is_ok _ = false

-- An error of the promotion, after the alias moved.
abbrev pub IsHalfway : ℕ → World → Result → Type 0
IsHalfway version w (said, w') =
    (said ≡ (failed, error_label ∷ [])) × (w' ≡ record w { alias = some version })

-- The alias names the new version and `ok` is the first label, or all is as it was; an error of the
-- promotion leaves the alias either way.
abbrev pub IsOrdered : ℕ → World → Result → Type 0
IsOrdered version w ((verdict, labels), w') =
    ((first_is_ok labels ≡ true) × (w'.alias ≡ some version))
    ⊎ ((first_is_ok labels ≡ false) × ((w' ≡ w) ⊎ IsHalfway version w ((verdict, labels), w')))
