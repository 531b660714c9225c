-- ===== src/Swap/Laws.antt =====
-- hostagent/swap.py: the reservation of preempt_for, on each of its paths.
use mlops_lite.Base.{
  ◌≡◌, none, some, ◌⊎◌, ℕ, ◌∙◌, arith, Option-cases, ◌||◌, inr, lookup, ◌==◌, not, choice_cases,
  inl, refl, subst, Option, sym,
}
use mlops_lite.Engine.Reservation.{ensure_loaded-swap_target, unload-swap_target}
use mlops_lite.Engine.Runtime.{
  Runtime, LoadAnswers, Load, loaded, refused, engine_error, unload, is_free,
}
use mlops_lite.Slot.State.{
  ok, raise, held, swap_reservation, Slot, Holder, begin_swap, end_swap, retarget_swap,
}
use mlops_lite.Swap.Transaction.{
  SwapAnswers, Preempt, load_in_place, Manager, load_engine, restore_holder, kept_or_failed,
  preempt_for, evict_holder, with_slot, is_job, displace, transaction, swapped_or_restored,
  reserve_and_swap, take_over, end_transaction, under_reservation, against,
}

load_engine-swap_target :
    (id : ℕ) (rt : Runtime) (a : LoadAnswers) (m : Manager)
    → (load_engine id rt a m).1.slot.swap_target ≡ m.slot.swap_target
unfolding load_engine
load_engine-swap_target id rt a m = ensure_loaded-swap_target a rt m.slot

-- The reservation is the target's, or there is none.
abbrev IsEnding : ℕ → Preempt × Manager → Type 0
IsEnding target (result, m) = (m.slot.swap_target ≡ some target) ⊎ (m.slot.swap_target ≡ none)

kept_or_failed-IsEnding :
    (target : ℕ) (x : Load × Manager)
    → x.1.slot.swap_target ≡ some target
    → IsEnding target (kept_or_failed x)
unfolding kept_or_failed
kept_or_failed-IsEnding target (loaded, m) e = inl e
kept_or_failed-IsEnding target (refused r, m) e = inl e
kept_or_failed-IsEnding target (engine_error, m) e = inl e

retarget_swap-swap_target :
    (old new : ℕ) (s : Slot)
    → s.swap_target ≡ some old
    → (retarget_swap old new s).swap_target ≡ some new
unfolding retarget_swap
retarget_swap-swap_target old new s e = ground arith

end_swap-swap_target :
    (target : ℕ) (s : Slot)
    → (s.swap_target ≡ some target) ⊎ (s.swap_target ≡ none)
    → (end_swap target s).swap_target ≡ none
unfolding end_swap
end_swap-swap_target target s (inl e) = ground arith
end_swap-swap_target target s (inr e) = ground arith

restore_holder-IsEnding :
    (target : ℕ) (h : Holder) (rt : Runtime) (failure : Load) (a : SwapAnswers) (m : Manager)
    → m.slot.swap_target ≡ some target
    → IsEnding target (restore_holder target h rt failure a m)
unfolding restore_holder
restore_holder-IsEnding target h rt failure a m e = inr (
    end_swap-swap_target h.tenant _ (
      inl (
        load_engine-swap_target h.tenant rt a.loading_holder
          (with_slot (retarget_swap target h.tenant m.slot) m)
        ∙ retarget_swap-swap_target target h.tenant m.slot e)))

swapped_or_restored-IsEnding :
    (target : ℕ) (h : Holder) (rt : Runtime) (a : SwapAnswers) (x : Load × Manager)
    → x.1.slot.swap_target ≡ some target
    → IsEnding target (swapped_or_restored target h rt a x)
unfolding swapped_or_restored
swapped_or_restored-IsEnding target h rt a (loaded, m) e = inl e
swapped_or_restored-IsEnding target h rt a (refused r, m) e =
    restore_holder-IsEnding target h rt (refused r) a m e
swapped_or_restored-IsEnding target h rt a (engine_error, m) e =
    restore_holder-IsEnding target h rt engine_error a m e

evict_holder-IsEnding :
    (target : ℕ) (rt : Runtime) (h : Holder) (holder_rt : Runtime) (a : SwapAnswers) (m : Manager)
    → m.slot.swap_target ≡ some target
    → IsEnding target (evict_holder target rt h holder_rt a m)
unfolding evict_holder take_over
evict_holder-IsEnding target rt h holder_rt a m e =
    let left = unload-swap_target a.unload_acquired a.unloading holder_rt m.slot ∙ e in
    choice_cases {A = Preempt × Manager} (IsEnding target)
      (is_free (unload a.unload_acquired a.unloading holder_rt m.slot).0)
      (λ k.
        swapped_or_restored-IsEnding target h _ a _
          (load_engine-swap_target target rt a.loading_target _ ∙ left))
      (λ k. inl left)

displace-IsEnding :
    (target : ℕ) (rt : Runtime) (h : Holder) (a : SwapAnswers) (m : Manager)
    → m.slot.swap_target ≡ some target
    → IsEnding target (displace target rt h a m)
unfolding displace
displace-IsEnding target rt h a m e =
    choice_cases {A = Preempt × Manager} (IsEnding target) (is_job h.kind || a.batch_active)
      (λ k. inl e)
      (λ k. elim (Option-cases (lookup h.tenant m.runtimes)) [
        | inl n ↦ rw n (inl e)
        | inr (holder_rt, n) ↦ rw n (
            choice_cases {A = Preempt × Manager} (IsEnding target)
              (not rt.enabled || (rt.wedged || not a.available)) (λ k. inl e)
              (λ k. evict_holder-IsEnding target rt h holder_rt a m e))
      ])

against-IsEnding :
    (target : ℕ) (rt : Runtime) (a : SwapAnswers) (m : Manager) (o : Option Holder)
    → m.slot.swap_target ≡ some target
    → IsEnding target (against target rt a m o)
unfolding against load_in_place
against-IsEnding target rt a m none e =
    kept_or_failed-IsEnding target _ (load_engine-swap_target target rt a.loading_target m ∙ e)
against-IsEnding target rt a m (some h) e =
    choice_cases {A = Preempt × Manager} (IsEnding target) (h.tenant == target)
      (λ k.
        kept_or_failed-IsEnding target _ (load_engine-swap_target target rt a.loading_target m ∙ e))
      (λ k. displace-IsEnding target rt h a m e)

-- The two answers of begin_swap.
pub begin_swap-cases :
    (target : ℕ) (s : Slot)
    → ((s.swap_target ≡ none)
        × (begin_swap target s ≡ (ok tt, record s { swap_target = some target })))
      ⊎ ((t : ℕ) × (begin_swap target s ≡ (raise (held t swap_reservation), s)))
unfolding begin_swap
begin_swap-cases target s = elim (Option-cases s.swap_target) [
  | inl n ↦ inl (n, ground arith)
  | inr (t, n) ↦ inr (t, ground arith)
]

reserve_and_swap-swap_target :
    (target : ℕ) (rt : Runtime) (a : SwapAnswers) (m : Manager)
    → (reserve_and_swap target rt a m).1.slot.swap_target ≡ m.slot.swap_target
unfolding reserve_and_swap under_reservation end_transaction transaction
reserve_and_swap-swap_target target rt a m = elim (begin_swap-cases target m.slot) [
  | inr (t, b) ↦
      subst (λ x. (under_reservation target rt a m x).1.slot.swap_target ≡ m.slot.swap_target)
        (sym b) refl
  | inl (n, b) ↦
      subst (λ x. (under_reservation target rt a m x).1.slot.swap_target ≡ m.slot.swap_target)
        (sym b)
        (end_swap-swap_target target _ (
            against-IsEnding target rt a (with_slot (record m.slot { swap_target = some target }) m)
              m.slot.holder refl)
          ∙ sym n)
]

-- Whatever the engines answer, a swap leaves the reservation as it found it: on every path, the
-- rollback included, the reservation that it made is gone, and another swap's is untouched.
pub preempt_for-swap_target :
    (target : ℕ) (a : SwapAnswers) (m : Manager)
    → (preempt_for target a m).1.slot.swap_target ≡ m.slot.swap_target
unfolding preempt_for
preempt_for-swap_target target a m = elim (Option-cases (lookup target m.runtimes)) [
  | inl n ↦ rw (n, preempt_for) refl
  | inr (rt, n) ↦ rw (n, preempt_for) (reserve_and_swap-swap_target target rt a m)
]
