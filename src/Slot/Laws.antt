-- ===== src/Slot/Laws.antt =====
-- hostagent/admission.py: who holds the slot, the reservation of a swap, and the age of a reading.
use mathlib.Core.Bool.{false≢true}
use mlops_lite.Base.{
  ◌≢◌, ◌⊎◌, ◌≤◌, false, inl, List, inr, ◌==◌, Option-cases, Option, Bool-cases, ◌-◌, none, ◌∷◌,
  arith, if◌then◌else◌, [], true, some, All, ℕ, ◌≡◌, refl, Bool, ◌||◌,
}
use mlops_lite.Slot.State.{
  begin_swap, retarget_swap, ok, Kind, free_gb, fresh_holder, end_swap, Refusal, vram_exceeded,
  acquire, swap_reservation, reserved_for_other, Holder, Reader, raise, held, Slot, release, fits,
  set_child, is_stale, target_or,
}

-- An acquisition never displaces a tenant. It answers with a holder only if that is the caller's:
-- the one that it was already, unchanged, or a new one in a free slot that is reserved for no other
-- tenant and that passes the memory check. Any refusal leaves the slot as it was.
pub acquire_lem :
    (tenant : ℕ) (kind : Kind) (est now : ℕ) (free : Option ℕ) (s : Slot)
    → let (result, t) = acquire tenant kind est now free s in
      ((h : Holder) × (result ≡ ok h)
        × (t.holder ≡ some h)
        × (h.tenant ≡ tenant)
        × (t.swap_target ≡ s.swap_target)
        × (((s.holder ≡ some h) × (t ≡ s))
            ⊎ ((s.holder ≡ none)
                × (reserved_for_other tenant s.swap_target ≡ false)
                × (fits est free s.budget ≡ true))))
      ⊎ ((e : Refusal) × (result ≡ raise e) × (t ≡ s))
unfolding acquire
acquire_lem tenant kind est now free s = elim (Option-cases s.holder) [
  | inr (h, e) ↦ elim (Bool-cases (h.tenant == tenant)) [
    | inl b ↦ inl (h, ground arith, ground arith, ground arith, ground arith, inl (e, ground arith))
    | inr b ↦ inr (held h.tenant h.kind, ground arith, ground arith)
  ]
  | inl e ↦ elim (Bool-cases (reserved_for_other tenant s.swap_target)) [
    | inl b ↦
        inr (held (target_or tenant s.swap_target) swap_reservation, ground arith, ground arith)
    | inr b ↦ elim (Bool-cases (fits est free s.budget)) [
      | inl f ↦ inl (
        fresh_holder tenant kind est now,
        ground arith,
        ground arith,
        refl,
        ground arith,
        inr (e, b, f),
      )
      | inr f ↦ inr (vram_exceeded, ground arith, ground arith)
    ]
  ]
]

-- What a tenant may call.
pub data Call : Type 0 where
  acquires : Kind → (est now : ℕ) (free : Option ℕ) → Call
  releases : Call
  sets_child : (pid : ℕ) → Call
  begins_swap : Call
  ends_swap : Call
  retargets : (new : ℕ) → Call

unfoldable pub call : (tenant : ℕ) → Call → Slot → Slot
call tenant (acquires kind est now free) s = (acquire tenant kind est now free s).1
call tenant releases s = release tenant s
call tenant (sets_child pid) s = set_child tenant pid s
call tenant begins_swap s = (begin_swap tenant s).1
call tenant ends_swap s = end_swap tenant s
call tenant (retargets new) s = retarget_swap tenant new s

unfoldable pub calls : List (ℕ × Call) → Slot → Slot
calls [] s = s
calls ((tenant, c) ∷ cs) s = calls cs (call tenant c s)

abbrev pub ByOthers : ℕ → List (ℕ × Call) → Type 0
ByOthers target = All (λ (c : ℕ × Call). c.0 ≢ target)

call-reserved :
    (target tenant : ℕ) (c : Call) (s : Slot)
    → tenant ≢ target
    → s.swap_target ≡ some target
    → s.holder ≡ none
    → call tenant c s ≡ s
unfolding call acquire release set_child begin_swap end_swap retarget_swap
call-reserved target tenant (acquires kind est now free) s n r h = ground arith
call-reserved target tenant c s n r h = ground arith

-- While a swap holds the reservation and the slot is free, nothing that other tenants call changes
-- the slot or the reservation, in any number and order. So the target finds both as the eviction
-- left them, and is refused at most for lack of memory.
pub calls-reserved :
    (target : ℕ) (cs : List (ℕ × Call)) (kind : Kind) (est now : ℕ) (free : Option ℕ) (s : Slot)
    → ByOthers target cs
    → s.swap_target ≡ some target
    → s.holder ≡ none
    → (calls cs s ≡ s)
      × ((acquire target kind est now free (calls cs s)).0 ≡ (
          if fits est free s.budget
          then ok (fresh_holder target kind est now)
          else raise vram_exceeded))
unfolding calls
calls-reserved target [] kind est now free s o r h = (refl, unfold acquire in (ground arith))
calls-reserved target ((tenant, c) ∷ cs) kind est now free s o r h =
    rw (call-reserved target tenant c s o.0 r h)
      (calls-reserved target cs kind est now free s o.1 r h)

-- One swap at a time: a second one is refused, for the same target too, until the first has ended;
-- and only the target that a reservation names ends it or hands it on.
pub begin_swap_single :
    (target other new : ℕ) (s : Slot)
    → s.swap_target ≡ some target
    → (begin_swap other s ≡ (raise (held target swap_reservation), s))
      × (end_swap other s ≡ (if target == other then record s { swap_target = none } else s))
      × (retarget_swap other new s
          ≡ (if target == other then record s { swap_target = some new } else s))
unfolding begin_swap end_swap retarget_swap
begin_swap_single target other new s e = (ground arith, ground arith, ground arith)

-- An answer of the reader is the device's at this moment or one that it gave at most `ttl` ago; a
-- fresh read is always the device's.
pub free_gb_age :
    (fresh : Bool) (now : ℕ) (device : Option ℕ) (r : Reader)
    → let (result, t) = free_gb fresh now device r in
      (result ≡ t.cached)
      × (((result ≡ device) × (t.cached_at ≡ some now))
          ⊎ ((fresh ≡ false) × (at : ℕ) × (r.cached_at ≡ some at) × (now - at ≤ r.ttl) × (t ≡ r)))
unfolding free_gb
free_gb_age fresh now device r = elim (Bool-cases (fresh || is_stale r now)) [
  | inl e ↦ (ground arith, inl (ground arith, ground arith))
  | inr e ↦ elim (Option-cases r.cached_at) [
    | inl n ↦ absurd (false≢true (ground arith))
    | inr (at, n) ↦ (ground arith, inr (ground arith, at, n, ground arith, ground arith))
  ]
]
