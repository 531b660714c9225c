-- ===== src/Swap/Transaction.antt =====
-- hostagent/swap.py: preempt_for. What the engines' children and the probes answer is an argument.
use mlops_lite.Base.{
  ℕ, Dict, modify, lookup, if◌then◌else◌, not, ◌||◌, some, none, Bool, false, ◌==◌, true, Option,
}
use mlops_lite.Engine.Runtime.{
  Runtime, ChildAnswers, LoadAnswers, Load, loaded, refused, engine_error, ensure_loaded, unload,
  is_free,
}
use mlops_lite.Slot.State.{
  Answer, Slot, Holder, Kind, job, ok, raise, begin_swap, end_swap, retarget_swap,
}

pub record Manager : Type 0 where
  pub slot : Slot
  pub runtimes : Dict Runtime

pub record SwapAnswers : Type 0 where
  pub batch_active : Bool
  pub available : Bool
  pub unload_acquired : Bool
  pub unloading : ChildAnswers
  pub loading_target : LoadAnswers
  pub loading_holder : LoadAnswers

pub data Preempt : Type 0 where
  kept : Preempt
  swapped : (evicted : ℕ) → Preempt
  preempt_refused : Preempt
  swap_error : Preempt
  load_error : Load → Preempt

abbrev pub is_job : Kind → Bool
is_job job = true
is_job _ = false

abbrev pub with_slot : Slot → Manager → Manager
with_slot s m = record m { slot = s }

abbrev pub with_runtime : Runtime → Slot → ℕ → Manager → Manager
with_runtime rt s id m = record { slot = s; runtimes = modify id (λ _. rt) m.runtimes }

-- `runtime.ensure_loaded()`
unfoldable pub load_engine : ℕ → Runtime → LoadAnswers → Manager → Load × Manager
load_engine id rt a m =
    let (result, rt', s') = ensure_loaded a rt m.slot in (result, with_runtime rt' s' id m)

-- The load of an engine that displaces none.
unfoldable pub kept_or_failed : Load × Manager → Preempt × Manager
kept_or_failed (loaded, m) = (kept, m)
kept_or_failed (refused e, m) = (load_error (refused e), m)
kept_or_failed (engine_error, m) = (load_error engine_error, m)

unfoldable pub load_in_place : ℕ → Runtime → LoadAnswers → Manager → Preempt × Manager
load_in_place id rt a m = kept_or_failed (load_engine id rt a m)

-- The `except` of the target's load: the reservation passes to the holder, which is loaded again.
unfoldable pub restore_holder :
    (target : ℕ) → Holder → Runtime → Load → SwapAnswers → Manager → Preempt × Manager
restore_holder target h rt failure a m =
    let handed = with_slot (retarget_swap target h.tenant m.slot) m in
    let (_, m') = load_engine h.tenant rt a.loading_holder handed in
    (load_error failure, with_slot (end_swap h.tenant m'.slot) m')

-- The load of the target in the place of the holder, whose runtime is as the unload left it.
unfoldable pub swapped_or_restored :
    (target : ℕ) → Holder → Runtime → SwapAnswers → Load × Manager → Preempt × Manager
swapped_or_restored target h holder_rt a (loaded, m) = (swapped h.tenant, m)
swapped_or_restored target h holder_rt a (refused e, m) =
    restore_holder target h holder_rt (refused e) a m
swapped_or_restored target h holder_rt a (engine_error, m) =
    restore_holder target h holder_rt engine_error a m

unfoldable pub take_over :
    (target : ℕ) → Runtime → Holder → Runtime → SwapAnswers → Manager → Preempt × Manager
take_over target rt h holder_rt a m =
    swapped_or_restored target h holder_rt a (load_engine target rt a.loading_target m)

unfoldable pub evict_holder :
    (target : ℕ) → Runtime → Holder → Runtime → SwapAnswers → Manager → Preempt × Manager
evict_holder target rt h holder_rt a m =
    let (status, holder_rt', s') = unload a.unload_acquired a.unloading holder_rt m.slot in
    let m' = with_runtime holder_rt' s' h.tenant m in
    if is_free status then take_over target rt h holder_rt' a m' else (swap_error, m')

-- The checks before the eviction of another holder.
unfoldable pub displace :
    (target : ℕ) → Runtime → Holder → SwapAnswers → Manager → Preempt × Manager
displace target rt h a m =
    if is_job h.kind || a.batch_active
    then (preempt_refused, m)
    else elim (lookup h.tenant m.runtimes) [
      | none ↦ (preempt_refused, m)
      | some holder_rt ↦
          if not rt.enabled || (rt.wedged || not a.available)
          then (preempt_refused, m)
          else evict_holder target rt h holder_rt a m
    ]

-- What preempt_for does under the reservation, for the holder that it reads.
unfoldable pub against :
    (target : ℕ) → Runtime → SwapAnswers → Manager → Option Holder → Preempt × Manager
against target rt a m none = load_in_place target rt a.loading_target m
against target rt a m (some h) =
    if h.tenant == target
    then load_in_place target rt a.loading_target m
    else displace target rt h a m

unfoldable pub transaction : (target : ℕ) → Runtime → SwapAnswers → Manager → Preempt × Manager
transaction target rt a m = against target rt a m m.slot.holder

-- The `finally` of the transaction.
unfoldable pub end_transaction : ℕ → Preempt × Manager → Preempt × Manager
end_transaction target (result, m) = (result, with_slot (end_swap target m.slot) m)

unfoldable pub under_reservation :
    (target : ℕ) → Runtime → SwapAnswers → Manager → Answer (Unit {0}) × Slot → Preempt × Manager
under_reservation target rt a m (raise e, s) = (preempt_refused, m)
under_reservation target rt a m (ok u, s) =
    end_transaction target (transaction target rt a (with_slot s m))

unfoldable pub reserve_and_swap : (target : ℕ) → Runtime → SwapAnswers → Manager → Preempt × Manager
reserve_and_swap target rt a m = under_reservation target rt a m (begin_swap target m.slot)

unfoldable pub preempt_for : (target : ℕ) → SwapAnswers → Manager → Preempt × Manager
preempt_for target a m = elim (lookup target m.runtimes) [
  | none ↦ (preempt_refused, m)
  | some rt ↦ reserve_and_swap target rt a m
]
