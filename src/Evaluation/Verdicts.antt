-- ===== src/Evaluation/Verdicts.antt =====
-- gateway/app/evaluation.py: what a verdict of the gate says, and that the gate and the monitor agree.
use mlops_lite.Base.{
  ℕ, Bool, true, false, Option, none, some, ◌≡◌, ◌≢◌, ◌≤◌, ◌⊎◌, inl, inr, refl, Bool-cases, ◌↔◌,
  arith, ◌*◌, ◌==◌,
}
use mlops_lite.Evaluation.Gating.{
  Direction, EvalResult, GateConfig, alike, compute_verdict, direction_of, higher, is_breach,
  judged, lower, other, regressed,
}
use mlops_lite.Policies.State.{Gate, blocked, pass, warn}

-- Both results are there, of one metric and one modality, and the candidate's is within the tolerance.
abbrev pub IsBetter : GateConfig → Option EvalResult → Option EvalResult → Type 0
IsBetter g (some c) (some i) =
    (alike c i ≡ true) × (regressed g.tolerance (direction_of c) c.value i.value ≡ false)
IsBetter g _ _ = ⊥

compute_verdict-pass :
    (g : GateConfig) (override present : Bool) (c i : Option EvalResult)
    → compute_verdict g override present c i ≡ pass
    → (present ≡ false) ⊎ IsBetter g c i
unfolding compute_verdict judged
compute_verdict-pass g override false c i h = inl refl
compute_verdict-pass g override true none i h = ground (arith, h)
compute_verdict-pass g override true (some c) none h = ground (arith, h)
compute_verdict-pass g override true (some c) (some i) h = inr (ground (arith, h))

-- A better value does not turn a pass into something else.
abbrev pub Improved : Direction → (old new : ℕ) → Type 0
Improved higher old new = old ≤ new
Improved lower old new = new ≤ old
Improved other old new = new ≤ old

times : (a b : ℕ) → a ≤ b → a * 1000000 ≤ b * 1000000
times a b h = omega arith

regressed-Improved :
    (tolerance : ℕ) (d : Direction) (old new i : ℕ)
    → Improved d old new
    → regressed tolerance d old i ≡ false
    → regressed tolerance d new i ≡ false
regressed-Improved t higher old new i m h = ground (arith, times old new m, h)
regressed-Improved t lower old new i m h = ground (arith, times new old m, h)
regressed-Improved t other old new i m h = ground (arith, times new old m, h)

is_breach-regressed :
    (d : Direction) (tolerance v b : ℕ)
    → d ≢ other
    → is_breach (some v) (some b) d tolerance ≡ regressed tolerance d v b
unfolding is_breach
is_breach-regressed higher t v b h = refl
is_breach-regressed lower t v b h = refl
is_breach-regressed other t v b h = absurd (h refl)

-- A verdict of the gate on a version that is not the one that serves, while one serves.
abbrev pub Stands :
    GateConfig → (override : Bool) → (candidate incumbent : Option EvalResult) → Gate → Type 0
Stands g override c i pass = IsBetter g c i
Stands g override c i warn = Unit
Stands g override c i blocked = override ≡ false

other-version : (s version : ℕ) → s ≢ version → (s == version) ≡ false
other-version s version n = ground arith

-- The result of the same evaluation with another value.
abbrev pub with_value : ℕ → EvalResult → EvalResult
with_value v c = record c { value = v }

-- The gate is monotone: a version that passes still passes with a value that is better in the direction
-- of its metric.
pub compute_verdict-Improved :
    (g : GateConfig) (override present : Bool) (c : EvalResult) (i : Option EvalResult) (v : ℕ)
    → Improved (direction_of c) c.value v
    → compute_verdict g override present (some c) i ≡ pass
    → compute_verdict g override present (some (with_value v c)) i ≡ pass
unfolding compute_verdict judged
compute_verdict-Improved g override false c i v m h = refl
compute_verdict-Improved g override true c none v m h = h
compute_verdict-Improved g override true c (some i) v m h =
    elim (Bool-cases (regressed g.tolerance (direction_of c) c.value i.value)) [
      | inl bad ↦ ground (arith, h, bad)
      | inr fine ↦
          ground (
            arith,
            h,
            fine,
            regressed-Improved g.tolerance (direction_of c) c.value v i.value m fine,
          )
    ]

-- The monitor and the gate agree: for a metric with a known direction, a value is a breach of a baseline
-- exactly if the gate would block a version with that value against it, at the same tolerance, without
-- an override and outside the warning mode.
pub is_breach-judged :
    (tolerance : ℕ) (blocks : Bool) (c i : EvalResult)
    → alike c i ≡ true
    → direction_of c ≢ other
    → (is_breach (some c.value) (some i.value) (direction_of c) tolerance ≡ true) ↔ (
        compute_verdict
          (record { warn_only = false; tolerance = tolerance; blocks_missing = blocks })
          false
          true
          (some c)
          (some i)
        ≡ blocked)
unfolding compute_verdict judged
is_breach-judged t blocks c i like known =
    rw (is_breach-regressed (direction_of c) t c.value i.value known)
      (elim (Bool-cases (regressed t (direction_of c) c.value i.value)) [
        | inl bad ↦ ground (arith, like, bad)
        | inr fine ↦ ground (arith, like, fine)
      ])
