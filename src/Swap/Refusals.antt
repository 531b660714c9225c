-- ===== src/Swap/Refusals.antt =====
-- hostagent/swap.py: the refusals of preempt_for, and whom it evicts.
use mlops_lite.Base.{
  Option-cases, some, refl, ◌⊎◌, lookup-modify, true, inl, arith, ◌≡◌, not, lookup, choice_cases,
  none, inr, ◌||◌, ◌==◌, false, ℕ, ◌∙◌, subst, Option, ap, sym,
}
use mlops_lite.Engine.Runtime.{
  Runtime, Load, LoadAnswers, ensure_loaded, loaded, refused, engine_error, unload, is_free,
}
use mlops_lite.Slot.State.{Slot, Holder, end_swap}
use mlops_lite.Swap.Laws.{begin_swap-cases}
use mlops_lite.Swap.Transaction.{
  end_transaction, Manager, swap_error, Preempt, load_error, is_job, transaction, preempt_refused,
  swapped_or_restored, reserve_and_swap, swapped, restore_holder, kept_or_failed, load_in_place,
  load_engine, with_slot, kept, preempt_for, SwapAnswers, evict_holder, take_over, displace,
  under_reservation, against,
}

-- The target displaces no other engine: the slot is free, or its own.
abbrev pub IsInPlace : ℕ → Manager → Type 0
IsInPlace target m =
    (m.slot.holder ≡ none) ⊎ ((h : Holder) × (m.slot.holder ≡ some h) × (h.tenant ≡ target))

-- The holder is no job and driven by no batch, and the target is an engine that could be loaded.
abbrev pub IsFairTo : ℕ → SwapAnswers → Manager → Holder → Type 0
IsFairTo target a m h =
    (m.slot.holder ≡ some h)
    × (is_job h.kind ≡ false)
    × (a.batch_active ≡ false)
    × (a.available ≡ true)
    × ((rt : Runtime) × (lookup target m.runtimes ≡ some rt)
        × (rt.enabled ≡ true)
        × (rt.wedged ≡ false))

abbrev pub MayEvict : ℕ → SwapAnswers → Manager → Type 0
MayEvict target a m = (h : Holder) × IsFairTo target a m h

-- Only the runtime of the target was touched.
abbrev pub KeepsOthers : ℕ → Manager → Manager → Type 0
KeepsOthers target m m' =
    (k : ℕ) → (target == k) ≡ false → lookup k m'.runtimes ≡ lookup k m.runtimes

-- What each end of a swap from m says.
abbrev pub Spares : ℕ → SwapAnswers → Manager → Preempt × Manager → Type 0
Spares target a m (kept, m') = IsInPlace target m × KeepsOthers target m m'
Spares target a m (preempt_refused, m') = m' ≡ m
Spares target a m (swap_error, m') = MayEvict target a m
Spares target a m (load_error e, m') =
    (IsInPlace target m × KeepsOthers target m m') ⊎ MayEvict target a m
Spares target a m (swapped id, m') = (h : Holder) × (h.tenant ≡ id) × IsFairTo target a m h

kept_or_failed-Spares :
    (target : ℕ) (a : SwapAnswers) (m : Manager) (x : Load × Manager)
    → IsInPlace target m
    → KeepsOthers target m x.1
    → Spares target a m (kept_or_failed x)
unfolding kept_or_failed
kept_or_failed-Spares target a m (loaded, m') p o = (p, o)
kept_or_failed-Spares target a m (refused r, m') p o = inl (p, o)
kept_or_failed-Spares target a m (engine_error, m') p o = inl (p, o)

load_engine-KeepsOthers :
    (id : ℕ) (rt : Runtime) (a : LoadAnswers) (m : Manager)
    → KeepsOthers id m (load_engine id rt a m).1
unfolding load_engine
load_engine-KeepsOthers id rt a m k other =
    ground (arith, lookup-modify id k (λ _. (ensure_loaded a rt m.slot).1) m.runtimes)

swapped_or_restored-Spares :
    (target : ℕ) (h : Holder) (rt : Runtime) (a : SwapAnswers) (m : Manager) (x : Load × Manager)
    → IsFairTo target a m h
    → Spares target a m (swapped_or_restored target h rt a x)
unfolding swapped_or_restored restore_holder
swapped_or_restored-Spares target h rt a m (loaded, m') fair = (h, refl, fair)
swapped_or_restored-Spares target h rt a m (refused r, m') fair = inr (h, fair)
swapped_or_restored-Spares target h rt a m (engine_error, m') fair = inr (h, fair)

displace-Spares :
    (target : ℕ) (rt : Runtime) (h : Holder) (a : SwapAnswers) (m : Manager)
    → m.slot.holder ≡ some h
    → lookup target m.runtimes ≡ some rt
    → Spares target a m (displace target rt h a m)
unfolding displace evict_holder take_over
displace-Spares target rt h a m e known =
    choice_cases {A = Preempt × Manager} (Spares target a m) (is_job h.kind || a.batch_active)
      (λ k. refl)
      (λ k. elim (Option-cases (lookup h.tenant m.runtimes)) [
        | inl n ↦ rw n refl
        | inr (holder_rt, n) ↦ rw n (
            choice_cases {A = Preempt × Manager} (Spares target a m)
              (not rt.enabled || (rt.wedged || not a.available)) (λ _. refl)
              (λ able.
                let fair : IsFairTo target a m h = (
                  e,
                  ground arith,
                  ground arith,
                  ground arith,
                  (rt, known, ground arith, ground arith),
                ) in
                choice_cases {A = Preempt × Manager} (Spares target a m)
                  (is_free (unload a.unload_acquired a.unloading holder_rt m.slot).0)
                  (λ _. swapped_or_restored-Spares target h _ a m _ fair) (λ _. (h, fair))))
      ])

against-Spares :
    (target : ℕ) (rt : Runtime) (a : SwapAnswers) (m : Manager) (o : Option Holder)
    → m.slot.holder ≡ o
    → lookup target m.runtimes ≡ some rt
    → Spares target a m (against target rt a m o)
unfolding against load_in_place
against-Spares target rt a m none e known =
    kept_or_failed-Spares target a m _ (inl e)
      (load_engine-KeepsOthers target rt a.loading_target m)
against-Spares target rt a m (some h) e known =
    choice_cases {A = Preempt × Manager} (Spares target a m) (h.tenant == target)
      (λ k.
        kept_or_failed-Spares target a m _ (inr (h, e, ground arith))
          (load_engine-KeepsOthers target rt a.loading_target m))
      (λ k. displace-Spares target rt h a m e known)

-- The reservation made for the transaction, and its end.
abbrev reserved : ℕ → Manager → Manager
reserved target m = with_slot (record m.slot { swap_target = some target }) m

end_swap_own :
    (target : ℕ) (s : Slot)
    → s.swap_target ≡ none
    → end_swap target (record s { swap_target = some target }) ≡ s
unfolding end_swap
end_swap_own target s n = ground arith

end_transaction-Spares :
    (target : ℕ) (a : SwapAnswers) (m : Manager) (x : Preempt × Manager)
    → m.slot.swap_target ≡ none
    → Spares target a (reserved target m) x
    → Spares target a m (end_transaction target x)
unfolding end_transaction
end_transaction-Spares target a m (kept, m') n v = v
end_transaction-Spares target a m (preempt_refused, m') n v =
    ap (λ t. with_slot (end_swap target t.slot) t) v
    ∙ ap (λ k. with_slot k m) (end_swap_own target m.slot n)
end_transaction-Spares target a m (swap_error, m') n v = v
end_transaction-Spares target a m (load_error e, m') n v = v
end_transaction-Spares target a m (swapped id, m') n v = v

reserve_and_swap-Spares :
    (target : ℕ) (rt : Runtime) (a : SwapAnswers) (m : Manager)
    → lookup target m.runtimes ≡ some rt
    → Spares target a m (reserve_and_swap target rt a m)
unfolding reserve_and_swap under_reservation transaction
reserve_and_swap-Spares target rt a m known = elim (begin_swap-cases target m.slot) [
  | inr (t, b) ↦ subst (λ x. Spares target a m (under_reservation target rt a m x)) (sym b) refl
  | inl (n, b) ↦
      subst (λ x. Spares target a m (under_reservation target rt a m x)) (sym b)
        (end_transaction-Spares target a m _ n
          (against-Spares target rt a (reserved target m) m.slot.holder refl known))
]

-- A swap that is refused changes nothing. One that is kept finds the slot free or with the target, and
-- touches no other engine. Every other end is like that too, or its holder was no job, no batch was
-- driving it, and the target was an engine that is enabled, not wedged and available: so a job is never
-- preempted, and no engine loses its place to one that the checks rule out.
pub preempt_for_lem :
    (target : ℕ) (a : SwapAnswers) (m : Manager) → Spares target a m (preempt_for target a m)
unfolding preempt_for
preempt_for_lem target a m = elim (Option-cases (lookup target m.runtimes)) [
  | inl n ↦ rw (n, preempt_for) refl
  | inr (rt, n) ↦ rw (n, preempt_for) (reserve_and_swap-Spares target rt a m n)
]
