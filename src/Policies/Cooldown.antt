-- ===== src/Policies/Cooldown.antt =====
-- gateway/app/quality.py: the cooldown that all triggers of a retrain share. The state is
-- _last_retrain_monotonic, 0 if there is none; each operation is one section of its lock.
use mlops_lite.Base.{
  ℕ, Bool, Option, none, some, ltb, ◌+◌, ◌&&◌, ◌==◌, if◌then◌else◌, choice_cases, ◌≡◌, false,
}

unfoldable pub in_cooldown : (now cooldown stamp : ℕ) → Bool
in_cooldown now cooldown stamp = ltb 0 stamp && ltb now (stamp + cooldown)

abbrev pub note_retrain : (now stamp : ℕ) → ℕ
note_retrain now stamp = now

-- The token, if the window is free, and the stamp.
unfoldable pub try_reserve_retrain : (now cooldown stamp : ℕ) → Option ℕ × ℕ
try_reserve_retrain now cooldown stamp =
    if ltb 0 stamp && ltb now (stamp + cooldown) then (none, stamp) else (some now, now)

unfoldable pub release_retrain : (token : Option ℕ) → (stamp : ℕ) → ℕ
release_retrain none stamp = 0
release_retrain (some t) stamp = if stamp == t then 0 else stamp

pub try_reserve_cases {ℓ} :
    (P : Option ℕ × ℕ → Type ℓ) (now cooldown stamp : ℕ)
    → P (none, stamp)
    → (in_cooldown now cooldown stamp ≡ false → P (some now, now))
    → P (try_reserve_retrain now cooldown stamp)
unfolding in_cooldown try_reserve_retrain
try_reserve_cases P now cooldown stamp f g =
    choice_cases P (ltb 0 stamp && ltb now (stamp + cooldown)) (λ _. f) g
