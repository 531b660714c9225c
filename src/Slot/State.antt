-- ===== src/Slot/State.antt =====
-- hostagent/admission.py: GpuReader and Admission.
use mlops_lite.Base.{
  same_option, ◌||◌, leb, false, ◌==◌, Option, ltb, ◌-◌, none, if◌then◌else◌, true, some, ◌*◌, not,
  ℕ, Bool, ◌≡◌, inl, inr, ◌⊎◌, refl,
}

pub data Kind : Type 0 where
  serving job swap_reservation : Kind

-- The record of the holder, and what `Held` carries.
pub record Holder : Type 0 where
  pub tenant : ℕ
  pub kind : Kind
  pub est : ℕ
  pub child_pid : Option ℕ
  pub acquired_at : ℕ

pub record Slot : Type 0 where
  pub holder : Option Holder
  pub swap_target : Option ℕ
  pub budget : ℕ

-- The exceptions: Held with the tenant and kind that it names, and VramExceeded.
pub data Refusal : Type 0 where
  held : (tenant : ℕ) → Kind → Refusal
  vram_exceeded : Refusal

pub data Answer {ℓ} (A : Type ℓ) : Type ℓ where
  ok : A → Answer A
  raise : Refusal → Answer A

pub Answer-cases {ℓ} :
    {A : Type ℓ} (x : Answer A) → ((a : A) × (x ≡ ok a)) ⊎ ((e : Refusal) × (x ≡ raise e))
Answer-cases (ok a) = inl (a, refl)
Answer-cases (raise e) = inr (e, refl)

pub record Reader : Type 0 where
  pub ttl : ℕ
  pub cached_at : Option ℕ
  pub cached : Option ℕ

abbrev pub is_stale : Reader → (now : ℕ) → Bool
is_stale r now = elim r.cached_at [ none ↦ true | some t ↦ ltb r.ttl (now - t) ]

-- GpuReader.free_gb, with what a read of the device would give. The clock does not run backwards.
unfoldable pub free_gb : (fresh : Bool) (now : ℕ) (device : Option ℕ) → Reader → Option ℕ × Reader
free_gb fresh now device r =
    if fresh || is_stale r now
    then (device, record r { cached = device; cached_at = some now })
    else (r.cached, r)

unfoldable pub begin_swap : (target : ℕ) → Slot → Answer (Unit {0}) × Slot
begin_swap target s = elim s.swap_target [
  | some t ↦ (raise (held t swap_reservation), s)
  | none ↦ (ok tt, record s { swap_target = some target })
]

unfoldable pub end_swap : (target : ℕ) → Slot → Slot
end_swap target s =
    if same_option s.swap_target (some target) then record s { swap_target = none } else s

unfoldable pub retarget_swap : (old new : ℕ) → Slot → Slot
retarget_swap old new s =
    if same_option s.swap_target (some old) then record s { swap_target = some new } else s

-- The VRAM check: live free memory, or 95 % of the budget where the device is unreadable.
unfoldable pub fits : (est : ℕ) (free : Option ℕ) (budget : ℕ) → Bool
fits est none budget = leb (est * 100) (budget * 95)
fits est (some free) budget = leb est free

abbrev pub fresh_holder : (tenant : ℕ) → Kind → (est now : ℕ) → Holder
fresh_holder tenant kind est now = record {
  tenant = tenant;
  kind = kind;
  est = est;
  child_pid = none;
  acquired_at = now;
}

-- A reservation for another tenant is up.
abbrev pub reserved_for_other : ℕ → Option ℕ → Bool
reserved_for_other tenant none = false
reserved_for_other tenant (some t) = not (t == tenant)

abbrev pub target_or : ℕ → Option ℕ → ℕ
target_or tenant none = tenant
target_or tenant (some t) = t

unfoldable pub acquire :
    (tenant : ℕ) → Kind → (est now : ℕ) (free : Option ℕ) → Slot → Answer Holder × Slot
acquire tenant kind est now free s = elim s.holder [
  | some h ↦ if h.tenant == tenant then (ok h, s) else (raise (held h.tenant h.kind), s)
  | none ↦
      if reserved_for_other tenant s.swap_target
      then (raise (held (target_or tenant s.swap_target) swap_reservation), s)
      else if fits est free s.budget
      then (
        ok (fresh_holder tenant kind est now),
        record s { holder = some (fresh_holder tenant kind est now) },
      )
      else (raise vram_exceeded, s)
]

abbrev pub holds : Option Holder → ℕ → Bool
holds none tenant = false
holds (some h) tenant = h.tenant == tenant

unfoldable pub set_child : (tenant pid : ℕ) → Slot → Slot
set_child tenant pid s = elim s.holder [
  | none ↦ s
  | some h ↦
      if h.tenant == tenant
      then record s { holder = some (record h { child_pid = some pid }) }
      else s
]

unfoldable pub release : (tenant : ℕ) → Slot → Slot
release tenant s = if holds s.holder tenant then record s { holder = none } else s
