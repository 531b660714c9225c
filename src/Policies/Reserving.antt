-- ===== src/Policies/Reserving.antt =====
-- gateway/app/scheduler.py: the reservation that a breach makes.
use mlops_lite.Base.{ℕ, false, some, [], ◌∷◌, ◌≡◌, ◌≢◌, ◌⊎◌, arith, ◌==◌}
use mlops_lite.Policies.Breaches.{BreachAnswers, first_park}
use mlops_lite.Policies.Cooldown.{in_cooldown}
use mlops_lite.Policies.Launching.{Launched, busy, launched, LaunchAnswers}
use mlops_lite.Policies.State.{
  Breach, Config, Ended, World, acted, retrain_launched, retrain_parked, retrain_failed,
  retrain_park_failed,
}

-- What a breach made of the shared stamp, by its action: the reservation stands, with the park as its
-- owner where there is one; it is undone, and a newer stamp is kept; or nothing was reserved.
abbrev pub Booked :
    Config → (now : ℕ) → BreachAnswers → Breach → (before after : World) → Ended → Type 0
Booked c now a b w u (acted (retrain_launched run ∷ [])) =
    (in_cooldown a.reserved_at c.cooldown w.stamp ≡ false)
    × (u.stamp ≡ a.launching.meanwhile a.reserved_at)
Booked c now a b w u (acted (retrain_parked ∷ [])) =
    (in_cooldown a.reserved_at c.cooldown w.stamp ≡ false)
    × (u.stamp ≡ a.launching.meanwhile a.reserved_at)
    × (u.pending ≡ some (first_park c now b))
Booked c now a b w u (acted (retrain_failed ∷ [])) =
    (u.stamp ≢ a.reserved_at) × ((u.stamp ≡ 0) ⊎ (u.stamp ≡ a.launching.meanwhile a.reserved_at))
Booked c now a b w u (acted (retrain_park_failed ∷ [])) =
    (u.stamp ≢ a.reserved_at) × ((u.stamp ≡ 0) ⊎ (u.stamp ≡ a.launching.meanwhile a.reserved_at))
Booked c now a b w u _ = u.stamp ≡ w.stamp

-- What a launch makes of the stamp.
abbrev Stamped : LaunchAnswers → (token : ℕ) → Launched → (stamp : ℕ) → Type 0
Stamped a token busy s = s ≡ a.meanwhile token
Stamped a token (launched id) s = s ≡ a.meanwhile token
Stamped a token _ s = (s ≡ token) ⊎ (s ≡ a.meanwhile token)

nonzero : (token : ℕ) → token ≢ 0 → (token == 0) ≡ false
nonzero token n = ground arith
