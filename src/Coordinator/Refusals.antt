-- ===== src/Coordinator/Refusals.antt =====
-- hostagent/coordinator.py: the codes that _stage1 refuses with, and coordadmission.py: set_child.
use mlops_lite.Base.{
  some, ℕ, Bool, total, Option, none, Dict, ◌≡◌, ◌+◌, lookup, ◌≤◌, modify, ◌≢◌, ◌∷◌, arith, ◌<◌,
  false, [], ltb, true, inr, ◌==◌, inl, Bool-cases, refl,
}
use mlops_lite.Coordinator.Eviction.{set_child, with_child}
use mlops_lite.Coordinator.Selection.{fits}
use mlops_lite.Coordinator.Stage1.{
  refusal, cannot_fit_alone, join_entry, Plan, answer, make_room, load, stage1, Context, Reading,
  admit_new, reserve, terms,
}
use mlops_lite.Coordinator.Branches.{reserve_cases, stage1_cases, admit_new_cases}
use mlops_lite.Coordinator.State.{
  Machine, resident, accounted, model_too_large, ResidentModel, ModelState, Coordinator, Code,
  barred, usable, loading, init, refuse, gpu_busy, new_reservation, vram, generation_of,
  unmaterialized,
}
use mlops_lite.Coordinator.Victims.{select_victims, eligible, choose, fits_budget}

join_entry-ne-refuse :
    (wall key op_id : ℕ) (x : ModelState) (s : Coordinator) (code : Code) (ctx : Option Context)
    → (join_entry wall key op_id x s).0 ≢ answer (refuse code) ctx
unfolding join_entry
join_entry-ne-refuse wall key op_id resident s code ctx h = ground arith
join_entry-ne-refuse wall key op_id loading s code ctx h = ground arith
join_entry-ne-refuse wall key op_id _ s code ctx h = cc

make_room-gpu_busy :
    (m : Machine) (io : Reading) (key est_bytes op_id : ℕ) (fits : Bool) (vs : Dict ResidentModel)
    (s : Coordinator) (code : Code) (ctx : Option Context)
    → est_bytes + m.config.safety_headroom_bytes ≤ usable m
    → (make_room m io key est_bytes op_id fits vs s).0 ≡ answer (refuse code) ctx
    → code ≡ gpu_busy
unfolding make_room refusal
make_room-gpu_busy m io key est_bytes op_id fits [] s code ctx h e = ground arith
make_room-gpu_busy m io key est_bytes op_id fits (v ∷ vs) s code ctx h e = ground arith

abbrev BusyOnly : Code → Option Context → Plan × Coordinator → Type 0
BusyOnly code ctx x = x.0 ≡ answer (refuse code) ctx → code ≡ gpu_busy

-- A model whose estimate and headroom fit the usable capacity is refused by stage 1 only as busy,
-- whatever is resident, reserved, draining or running: the client may try again.
pub stage1-gpu_busy :
    (m : Machine) (io : Reading) (key est_bytes op_id : ℕ) (s : Coordinator) (code : Code)
    (ctx : Option Context)
    → est_bytes + m.config.safety_headroom_bytes ≤ usable m
    → (stage1 m io key est_bytes op_id s).0 ≡ answer (refuse code) ctx
    → code ≡ gpu_busy
stage1-gpu_busy m io key est_bytes op_id s code ctx small =
    stage1_cases (BusyOnly code ctx) m io key est_bytes op_id s
      (λ b e. unfold refusal in (ground arith))
      (λ b r e h. absurd (join_entry-ne-refuse io.wall key op_id r.state s code ctx h))
      (λ b e.
        admit_new_cases (BusyOnly code ctx) m io key est_bytes op_id s
          (λ p q.
            reserve_cases (BusyOnly code ctx) io.wall key est_bytes op_id s (λ h. cc) (λ n h. cc))
          (λ n h. make_room-gpu_busy m io key est_bytes op_id _ _ s code ctx small h))

-- Between the two thresholds the answer depends on what else is loading: a model whose estimate is
-- within the usable capacity, but not with the headroom, loads on an idle device with enough free
-- memory; while others fill the budget and none of them may be evicted yet, the same request is
-- refused for good, as one that cannot fit an empty device.
pub contended_too_large :
    (m : Machine) (io idle : Reading) (key est_bytes op_id : ℕ) (s : Coordinator)
    → barred s ≡ false
    → lookup key s.residents ≡ none
    → eligible key s.residents ≡ []
    → est_bytes ≤ usable m
    → usable m < est_bytes + m.config.safety_headroom_bytes
    → usable m < accounted s + est_bytes
    → est_bytes + m.config.safety_headroom_bytes ≤ idle.free_now
    → ((stage1 m io key est_bytes op_id s).0 ≡ refusal m io s model_too_large cannot_fit_alone none)
      × ((stage1 m idle key est_bytes op_id init).0 ≡ load (new_reservation op_id key est_bytes 0))
contended_too_large m io idle key est_bytes op_id s b e none_left within over full free =
    (refused, loaded)
  where
    short : fits_budget (terms m io.free_now s) est_bytes 0 ≡ false
    short = ground arith

    no_victims : select_victims (terms m io.free_for_victims s) key est_bytes s.residents ≡ []
    no_victims = unfold select_victims choose in (rw none_left refl)

    large : ltb (usable m) (est_bytes + m.config.safety_headroom_bytes) ≡ true
    large = ground arith

    refused :
        (stage1 m io key est_bytes op_id s).0 ≡ refusal m io s model_too_large cannot_fit_alone none
    refused =
        unfold stage1 admit_new in
        (rw b (rw e (rw short (rw no_victims (unfold make_room in (rw large refl))))))

    loaded :
        (stage1 m idle key est_bytes op_id init).0 ≡ load (new_reservation op_id key est_bytes 0)
    loaded =
        unfold stage1 init barred admit_new reserve accounted unmaterialized total generation_of
          lookup in
        (ground arith)

none≢some : {A : Type 0} {a : A} → none ≢ some a
none≢some h = cc

total-modify-ge :
    {V : Type 0} (f : V → ℕ) (k : ℕ) (g : V → V) (m : Dict V) (v : V)
    → lookup k m ≡ some v
    → (n : ℕ) → ((x : V) → f (g x) ≡ n)
    → n ≤ total f (modify k g m)
unfolding total modify lookup
total-modify-ge f k g [] v e n h = absurd (none≢some e)
total-modify-ge f k g ((j, w) ∷ m) v e n h = elim (Bool-cases (j == k)) [
  | inl b ↦ rw b (omega (arith, h w))
  | inr b ↦ omega (arith, total-modify-ge f k g m v (rw (b, lookup) at e) n h)
]

-- The measurement that arrives when a deferred child is spawned is taken as it is: one above the
-- usable capacity leaves more accounted than the capacity, with the model resident.
pub set_child_overshoots :
    (m : Machine) (key pid measured : ℕ) (r : ResidentModel) (s : Coordinator)
    → lookup key s.residents ≡ some r
    → usable m < measured
    → usable m < accounted (set_child key pid measured s)
unfolding set_child accounted
set_child_overshoots m key pid measured r s e over = omega (
  arith,
  total-modify-ge vram key (with_child pid measured) s.residents r e measured (λ x. ground arith),
)
