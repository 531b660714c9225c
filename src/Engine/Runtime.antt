-- ===== src/Engine/Runtime.antt =====
-- hostagent/lifecycle.py: EngineRuntime. What the adapter, the child and the clock answer is an
-- argument of each method, one answer for each time that the code asks.
use mlops_lite.Base.{
  ◌-◌, is_some, true, not, ◌&&◌, if◌then◌else◌, ◌+◌, false, ltb, Bool, suc, ℕ, ◌||◌, Option, none,
  zero, some,
}
use mlops_lite.Slot.State.{Slot, Kind, ok, raise, Refusal, acquire, set_child, release}

pub record Runtime : Type 0 where
  pub engine_id : ℕ
  pub gpu : Bool
  pub kind : Kind
  pub enabled : Bool
  pub wedged : Bool
  pub child : Option ℕ
  pub last_used : Option ℕ
  pub is_loading : Bool
  pub idle_timeout : ℕ
  pub ready_rounds : ℕ

-- `child.poll() is None`, and whether the child is gone after terminate and after kill.
pub record ChildAnswers : Type 0 where
  pub alive : Bool
  pub terminated : Bool
  pub killed : Bool

pub data Status : Type 0 where
  idle unloaded busy : Status

abbrev pub is_free : Status → Bool
is_free busy = false
is_free _ = true

-- `_resident()`, for one answer of poll.
abbrev pub is_live : Option ℕ → (alive : Bool) → Bool
is_live none alive = false
is_live (some pid) alive = alive

abbrev pub let_go : Runtime → Runtime
let_go rt = record rt { child = none; wedged = false }

unfoldable pub give_up_slot : Runtime → Slot → Slot
give_up_slot rt s = if rt.gpu then release rt.engine_id s else s

-- _teardown
unfoldable pub teardown : ChildAnswers → Runtime → Slot → Status × Runtime × Slot
teardown c rt s =
    if not (is_live rt.child c.alive)
    then (idle, let_go rt, give_up_slot rt s)
    else if c.terminated || c.killed
    then (unloaded, let_go rt, give_up_slot rt s)
    else (busy, record rt { wedged = true }, s)

-- unload, with whether the runtime's lock was acquired in time.
unfoldable pub unload : (acquired : Bool) → ChildAnswers → Runtime → Slot → Status × Runtime × Slot
unload acquired c rt s = if not acquired && rt.is_loading then (busy, rt, s) else teardown c rt s

pub data Load : Type 0 where
  loaded : Load
  refused : Refusal → Load
  engine_error : Load

pub record Probe : Type 0 where
  pub ready : Bool
  pub exited : Bool

-- The loop of _spawn_and_wait: true when the child became ready within its rounds.
unfoldable pub wait_ready : (rounds round : ℕ) → (ℕ → Probe) → Bool
wait_ready zero round probe = false
wait_ready (suc rounds) round probe =
    let rest = wait_ready rounds (round + 1) probe in
    if (probe round).ready then true else if (probe round).exited then false else rest

pub record LoadAnswers : Type 0 where
  pub first : ChildAnswers
  pub ready : Bool
  pub available : Bool
  pub reap : ChildAnswers
  pub est : ℕ
  pub now : ℕ
  pub free : Option ℕ
  pub spawned : Option ℕ
  pub probe : ℕ → Probe
  pub cleanup : ChildAnswers

-- The slot after `set_child`, for a GPU engine.
abbrev pub note_child : Runtime → (pid : ℕ) → Slot → Slot
note_child rt pid s = if rt.gpu then set_child rt.engine_id pid s else s

-- `unload(drain_timeout_s=0)` under the lock, and the failure that is raised again.
unfoldable pub clean_up : ChildAnswers → Runtime → Slot → Load × Runtime × Slot
clean_up c rt s = let (_, rt', s') = unload true c rt s in (engine_error, rt', s')

-- The `try` of ensure_loaded: spawn, wait, and clean up after a failure.
unfoldable pub spawn_and_wait : LoadAnswers → Runtime → Slot → Load × Runtime × Slot
spawn_and_wait a rt s = elim a.spawned [
  | none ↦ clean_up a.cleanup rt s
  | some pid ↦
      let started = record rt { child = some pid } in
      let noted = note_child rt pid s in
      if wait_ready rt.ready_rounds 0 a.probe
      then (loaded, record started { last_used = some a.now }, noted)
      else clean_up a.cleanup started noted
]

-- The admission of a GPU engine, then the spawn.
unfoldable pub admit : LoadAnswers → Runtime → Slot → Load × Runtime × Slot
admit a rt s =
    if rt.gpu
    then elim (acquire rt.engine_id rt.kind a.est a.now a.free s).0 [
      | ok _ ↦ spawn_and_wait a rt (acquire rt.engine_id rt.kind a.est a.now a.free s).1
      | raise e ↦ (refused e, rt, s)
    ]
    else spawn_and_wait a rt s

-- A child that is up but not ready is reaped first; one that survives leaves the engine wedged.
unfoldable pub reap_then_admit : LoadAnswers → Runtime → Slot → Load × Runtime × Slot
reap_then_admit a rt s =
    let (_, rt', s') = unload true a.reap rt s in
    if is_live rt.child a.first.alive
    then (if rt'.wedged then (engine_error, rt', s') else admit a rt' s')
    else admit a rt s

-- ensure_loaded. `_loading` is down again on every way out.
unfoldable pub ensure_loaded : LoadAnswers → Runtime → Slot → Load × Runtime × Slot
ensure_loaded a rt s =
    if not rt.enabled || rt.wedged
    then (engine_error, rt, s)
    else if is_live rt.child a.first.alive && a.ready
    then (loaded, record rt { last_used = some a.now }, s)
    else if not a.available
    then (engine_error, rt, s)
    else reap_then_admit a rt s

abbrev pub is_idle : Option ℕ → (now timeout : ℕ) → Bool
is_idle none now timeout = false
is_idle (some t) now timeout = ltb timeout (now - t)

-- idle_reap, with one answer of poll for its tests.
unfoldable pub idle_reap : (now : ℕ) → ChildAnswers → Runtime → Slot → Bool × Runtime × Slot
idle_reap now c rt s =
    let (_, rt', s') = teardown c rt s in
    let (_, rt'', s'') = unload true c rt s in
    if is_some rt.child && not c.alive
    then (true, rt', s')
    else if not (is_live rt.child c.alive)
    then (false, rt, s)
    else if is_idle rt.last_used now rt.idle_timeout
    then (true, rt'', s'')
    else (false, rt, s)
