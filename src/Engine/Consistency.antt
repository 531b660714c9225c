-- ===== src/Engine/Consistency.antt =====
-- hostagent/lifecycle.py: the engine's child and the slot, through the methods of EngineRuntime.
use mlops_lite.Base.{
  arith, inl, is_some, true, Bool-cases, not, ◌&&◌, false, inr, Bool, some, ◌≡◌, Option,
  if◌then◌else◌, ℕ, ◌||◌, List, Option-cases, none, ◌∷◌, [], choice_cases,
}
use mlops_lite.Engine.Runtime.{
  Load, teardown, give_up_slot, Runtime, ChildAnswers, unload, spawn_and_wait, LoadAnswers,
  clean_up, is_free, note_child, reap_then_admit, is_idle, is_live, admit, wait_ready, idle_reap,
  ensure_loaded,
}
use mlops_lite.Slot.State.{ok, Kind, set_child, acquire, release, Answer-cases, Slot, Holder, holds}

-- The slot names a GPU engine just when the engine has a child.
abbrev pub IsConsistent : Runtime → Slot → Type 0
IsConsistent rt s =
    (if rt.gpu then holds s.holder rt.engine_id else is_some rt.child) ≡ is_some rt.child

teardown-IsConsistent :
    (c : ChildAnswers) (rt : Runtime) (s : Slot)
    → IsConsistent rt s
    → IsConsistent (teardown c rt s).1 (teardown c rt s).2
unfolding teardown give_up_slot release
teardown-IsConsistent c rt s v = ground arith

unload-IsConsistent :
    (acquired : Bool) (c : ChildAnswers) (rt : Runtime) (s : Slot)
    → IsConsistent rt s
    → IsConsistent (unload acquired c rt s).1 (unload acquired c rt s).2
unfolding unload
unload-IsConsistent acquired c rt s v = elim (Bool-cases (not acquired && rt.is_loading)) [
  | inl b ↦ rw b v
  | inr b ↦ rw b (teardown-IsConsistent c rt s v)
]

clean_up-IsConsistent :
    (c : ChildAnswers) (rt : Runtime) (s : Slot)
    → IsConsistent rt s
    → IsConsistent (clean_up c rt s).1 (clean_up c rt s).2
unfolding clean_up
clean_up-IsConsistent c rt s v = unload-IsConsistent true c rt s v

set_child-holds :
    (tenant pid id : ℕ) (s : Slot) → holds (set_child tenant pid s).holder id ≡ holds s.holder id
unfolding set_child
set_child-holds tenant pid id s = ground arith

acquire-holds :
    (tenant : ℕ) (kind : Kind) (est now : ℕ) (free : Option ℕ) (s : Slot) (h : Holder)
    → (acquire tenant kind est now free s).0 ≡ ok h
    → holds (acquire tenant kind est now free s).1.holder tenant ≡ true
unfolding acquire
acquire-holds tenant kind est now free s h e = ground arith

-- The slot names the engine, if it is a GPU engine.
abbrev IsHeld : Runtime → Slot → Type 0
IsHeld rt s = (if rt.gpu then holds s.holder rt.engine_id else true) ≡ true

clean_up-IsHeld :
    (c : ChildAnswers) (rt : Runtime) (s : Slot)
    → IsHeld rt s
    → IsConsistent (clean_up c rt s).1 (clean_up c rt s).2
unfolding clean_up unload teardown give_up_slot release
clean_up-IsHeld c rt s v = ground arith

spawn_and_wait-IsConsistent :
    (a : LoadAnswers) (rt : Runtime) (s : Slot)
    → IsHeld rt s
    → IsConsistent (spawn_and_wait a rt s).1 (spawn_and_wait a rt s).2
unfolding spawn_and_wait
spawn_and_wait-IsConsistent a rt s v = elim (Option-cases a.spawned) [
  | inl e ↦ rw (e, spawn_and_wait) (clean_up-IsHeld a.cleanup rt s v)
  | inr (pid, e) ↦
      let started = record rt { child = some pid } in
      let kept : IsHeld started (note_child rt pid s) =
        ground (arith, set_child-holds rt.engine_id pid rt.engine_id s) in
      elim (Bool-cases (wait_ready rt.ready_rounds 0 a.probe)) [
        | inl b ↦ rw (e, spawn_and_wait) (rw b (ground arith))
        | inr b ↦ rw (e, spawn_and_wait) (rw b (clean_up-IsHeld a.cleanup started _ kept))
      ]
]

admit-IsConsistent :
    (a : LoadAnswers) (rt : Runtime) (s : Slot)
    → IsConsistent rt s
    → IsConsistent (admit a rt s).1 (admit a rt s).2
unfolding admit
admit-IsConsistent a rt s v =
    choice_cases {A = Load × Runtime × Slot} (λ x. IsConsistent x.1 x.2) rt.gpu
      (λ g. elim (Answer-cases (acquire rt.engine_id rt.kind a.est a.now a.free s).0) [
        | inr (e, r) ↦ simp (r, v)
        | inl (h, r) ↦
            let got = acquire-holds rt.engine_id rt.kind a.est a.now a.free s h r in
            rw r (spawn_and_wait-IsConsistent a rt _ (ground arith))
      ])
      (λ g. spawn_and_wait-IsConsistent a rt s (ground arith))

reap_then_admit-IsConsistent :
    (a : LoadAnswers) (rt : Runtime) (s : Slot)
    → IsConsistent rt s
    → IsConsistent (reap_then_admit a rt s).1 (reap_then_admit a rt s).2
unfolding reap_then_admit
reap_then_admit-IsConsistent a rt s v =
    let after = unload-IsConsistent true a.reap rt s v in
    elim (Bool-cases (is_live rt.child a.first.alive)) [
      | inr b ↦ rw b (admit-IsConsistent a rt s v)
      | inl b ↦ elim (Bool-cases (unload true a.reap rt s).1.wedged) [
        | inl w ↦ rw b (rw w after)
        | inr w ↦ rw b (rw w (admit-IsConsistent a _ _ after))
      ]
    ]

ensure_loaded-IsConsistent :
    (a : LoadAnswers) (rt : Runtime) (s : Slot)
    → IsConsistent rt s
    → IsConsistent (ensure_loaded a rt s).1 (ensure_loaded a rt s).2
unfolding ensure_loaded
ensure_loaded-IsConsistent a rt s v = elim (Bool-cases (not rt.enabled || rt.wedged)) [
  | inl b ↦ rw b v
  | inr b ↦ elim (Bool-cases (is_live rt.child a.first.alive && a.ready)) [
    | inl l ↦ rw b (rw l v)
    | inr l ↦ elim (Bool-cases (not a.available)) [
      | inl n ↦ rw b (rw l (rw n v))
      | inr n ↦ rw b (rw l (rw n (reap_then_admit-IsConsistent a rt s v)))
    ]
  ]
]

idle_reap-IsConsistent :
    (now : ℕ) (c : ChildAnswers) (rt : Runtime) (s : Slot)
    → IsConsistent rt s
    → IsConsistent (idle_reap now c rt s).1 (idle_reap now c rt s).2
unfolding idle_reap
idle_reap-IsConsistent now c rt s v = elim (Bool-cases (is_some rt.child && not c.alive)) [
  | inl b ↦ rw b (teardown-IsConsistent c rt s v)
  | inr b ↦ elim (Bool-cases (not (is_live rt.child c.alive))) [
    | inl l ↦ rw b (rw l v)
    | inr l ↦ elim (Bool-cases (is_idle rt.last_used now rt.idle_timeout)) [
      | inl i ↦ rw b (rw l (rw i (unload-IsConsistent true c rt s v)))
      | inr i ↦ rw b (rw l (rw i v))
    ]
  ]
]

-- The methods of an engine, as the other threads call them.
pub data Event : Type 0 where
  loads : LoadAnswers → Event
  unloads : (acquired : Bool) → ChildAnswers → Event
  reaps : (now : ℕ) → ChildAnswers → Event

unfoldable pub event : Event → Runtime → Slot → Runtime × Slot
event (loads a) rt s = let (_, rt', s') = ensure_loaded a rt s in (rt', s')
event (unloads acquired c) rt s = let (_, rt', s') = unload acquired c rt s in (rt', s')
event (reaps now c) rt s = let (_, rt', s') = idle_reap now c rt s in (rt', s')

unfoldable pub events : List Event → Runtime → Slot → Runtime × Slot
events [] rt s = (rt, s)
events (x ∷ xs) rt s = let (rt', s') = event x rt s in events xs rt' s'

-- Whatever the adapter and the child do (a spawn that fails, a child that dies, never becomes ready
-- or survives the kill), after every load, unload and reap a GPU engine holds the slot exactly if it
-- has a child: no failure leaks the slot, and none frees it under a child that is still there.
pub events-IsConsistent :
    (xs : List Event) (rt : Runtime) (s : Slot)
    → IsConsistent rt s
    → IsConsistent (events xs rt s).0 (events xs rt s).1
unfolding events event
events-IsConsistent [] rt s v = v
events-IsConsistent (loads a ∷ xs) rt s v =
    events-IsConsistent xs _ _ (ensure_loaded-IsConsistent a rt s v)
events-IsConsistent (unloads acquired c ∷ xs) rt s v =
    events-IsConsistent xs _ _ (unload-IsConsistent acquired c rt s v)
events-IsConsistent (reaps now c ∷ xs) rt s v =
    events-IsConsistent xs _ _ (idle_reap-IsConsistent now c rt s v)

-- What an unload reports is so: with `idle` or `unloaded` the engine has no child, is not wedged and
-- does not hold the slot; with `busy` neither the child nor the slot has changed.
pub unload_lem :
    (acquired : Bool) (c : ChildAnswers) (rt : Runtime) (s : Slot)
    → let (status, rt', s') = unload acquired c rt s in
      if is_free status
      then (rt'.child ≡ none)
        × (rt'.wedged ≡ false)
        × ((if rt.gpu then holds s'.holder rt.engine_id else false) ≡ false)
      else (rt'.child ≡ rt.child) × (s' ≡ s)
unfolding unload teardown give_up_slot release
unload_lem acquired c rt s = ground arith
