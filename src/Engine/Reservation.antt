-- ===== src/Engine/Reservation.antt =====
-- hostagent/lifecycle.py: the swap reservation of hostagent/admission.py, through the methods of
-- EngineRuntime.
use mlops_lite.Base.{
  ◌≡◌, ◌∙◌, Option-cases, Bool, not, Option, inl, arith, some, true, inr, choice_cases, ◌&&◌, ◌||◌,
  ℕ, refl,
}
use mlops_lite.Engine.Runtime.{
  unload, ChildAnswers, LoadAnswers, wait_ready, Runtime, reap_then_admit, teardown, Load, admit,
  Status, ensure_loaded, note_child, clean_up, is_live, give_up_slot, spawn_and_wait,
}
use mlops_lite.Slot.State.{Slot, Kind, Answer-cases, acquire, release, set_child}

acquire-swap_target :
    (tenant : ℕ) (kind : Kind) (est now : ℕ) (free : Option ℕ) (s : Slot)
    → (acquire tenant kind est now free s).1.swap_target ≡ s.swap_target
unfolding acquire
acquire-swap_target tenant kind est now free s = ground arith

teardown-swap_target :
    (c : ChildAnswers) (rt : Runtime) (s : Slot) → (teardown c rt s).2.swap_target ≡ s.swap_target
unfolding teardown give_up_slot release
teardown-swap_target c rt s = ground arith

pub unload-swap_target :
    (acquired : Bool) (c : ChildAnswers) (rt : Runtime) (s : Slot)
    → (unload acquired c rt s).2.swap_target ≡ s.swap_target
unfolding unload
unload-swap_target acquired c rt s =
    choice_cases {A = Status × Runtime × Slot} (λ x. x.2.swap_target ≡ s.swap_target)
      (not acquired && rt.is_loading) (λ k. refl) (λ k. teardown-swap_target c rt s)

note_child-swap_target :
    (rt : Runtime) (pid : ℕ) (s : Slot) → (note_child rt pid s).swap_target ≡ s.swap_target
unfolding set_child
note_child-swap_target rt pid s = ground arith

spawn_and_wait-swap_target :
    (a : LoadAnswers) (rt : Runtime) (s : Slot)
    → (spawn_and_wait a rt s).2.swap_target ≡ s.swap_target
unfolding spawn_and_wait clean_up
spawn_and_wait-swap_target a rt s = elim (Option-cases a.spawned) [
  | inl e ↦ rw (e, spawn_and_wait) (unload-swap_target true a.cleanup rt s)
  | inr (pid, e) ↦
      rw (e, spawn_and_wait)
        (choice_cases {A = Load × Runtime × Slot} (λ x. x.2.swap_target ≡ s.swap_target)
          (wait_ready rt.ready_rounds 0 a.probe) (λ k. note_child-swap_target rt pid s)
          (λ k.
            unload-swap_target true a.cleanup (record rt { child = some pid }) (note_child rt pid s)
            ∙ note_child-swap_target rt pid s))
]

admit-swap_target :
    (a : LoadAnswers) (rt : Runtime) (s : Slot) → (admit a rt s).2.swap_target ≡ s.swap_target
unfolding admit
admit-swap_target a rt s =
    choice_cases {A = Load × Runtime × Slot} (λ x. x.2.swap_target ≡ s.swap_target) rt.gpu
      (λ g. elim (Answer-cases (acquire rt.engine_id rt.kind a.est a.now a.free s).0) [
        | inr (e, r) ↦ rw r refl
        | inl (h, r) ↦ rw r (
            spawn_and_wait-swap_target a rt _
            ∙ acquire-swap_target rt.engine_id rt.kind a.est a.now a.free s)
      ])
      (λ g. spawn_and_wait-swap_target a rt s)

reap_then_admit-swap_target :
    (a : LoadAnswers) (rt : Runtime) (s : Slot)
    → (reap_then_admit a rt s).2.swap_target ≡ s.swap_target
unfolding reap_then_admit
reap_then_admit-swap_target a rt s =
    let reaped = unload-swap_target true a.reap rt s in
    choice_cases {A = Load × Runtime × Slot} (λ x. x.2.swap_target ≡ s.swap_target)
      (is_live rt.child a.first.alive)
      (λ k.
        choice_cases {A = Load × Runtime × Slot} (λ x. x.2.swap_target ≡ s.swap_target)
          (unload true a.reap rt s).1.wedged (λ w. reaped) (λ w. admit-swap_target a _ _ ∙ reaped))
      (λ k. admit-swap_target a rt s)

pub ensure_loaded-swap_target :
    (a : LoadAnswers) (rt : Runtime) (s : Slot)
    → (ensure_loaded a rt s).2.swap_target ≡ s.swap_target
unfolding ensure_loaded
ensure_loaded-swap_target a rt s =
    choice_cases {A = Load × Runtime × Slot} (λ x. x.2.swap_target ≡ s.swap_target)
      (not rt.enabled || rt.wedged) (λ k. refl)
      (λ k.
        choice_cases {A = Load × Runtime × Slot} (λ x. x.2.swap_target ≡ s.swap_target)
          (is_live rt.child a.first.alive && a.ready) (λ _. refl)
          (λ _.
            choice_cases {A = Load × Runtime × Slot} (λ x. x.2.swap_target ≡ s.swap_target)
              (not a.available) (λ _. refl) (λ _. reap_then_admit-swap_target a rt s)))
