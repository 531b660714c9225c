-- ===== src/Policies/Windows.antt =====
-- gateway/app/quality.py: the window of a reservation, against the calls of the other triggers.
use mlops_lite.Base.{
  ℕ, Bool, true, false, Option, none, some, List, [], ◌∷◌, ◌≡◌, ◌≤◌, ◌<◌, arith, ltb, leb, ◌+◌,
  every,
}
use mlops_lite.Policies.Cooldown.{note_retrain, release_retrain, try_reserve_retrain}

pub data Call : Type 0 where
  reserves notes : (now : ℕ) → Call
  releases : (token : Option ℕ) → Call

unfoldable pub call : (cooldown : ℕ) → Call → (stamp : ℕ) → ℕ
call cooldown (reserves now) stamp = (try_reserve_retrain now cooldown stamp).1
call cooldown (notes now) stamp = note_retrain now stamp
call cooldown (releases token) stamp = release_retrain token stamp

unfoldable pub calls : (cooldown : ℕ) → List Call → (stamp : ℕ) → ℕ
calls cooldown [] stamp = stamp
calls cooldown (x ∷ xs) stamp = calls cooldown xs (call cooldown x stamp)

-- A call at or after the time, or the release of an older reservation.
abbrev pub is_later : (t : ℕ) → Call → Bool
is_later t (reserves now) = leb t now
is_later t (notes now) = leb t now
is_later t (releases none) = false
is_later t (releases (some token)) = ltb token t

call-ge :
    (cooldown t : ℕ) (x : Call) (stamp : ℕ)
    → is_later t x ≡ true
    → t ≤ stamp
    → t ≤ call cooldown x stamp
unfolding call try_reserve_retrain release_retrain
call-ge cooldown t (reserves now) stamp l h = ground arith
call-ge cooldown t (notes now) stamp l h = ground arith
call-ge cooldown t (releases none) stamp l h = cc
call-ge cooldown t (releases (some token)) stamp l h = ground arith

calls-ge :
    (cooldown t : ℕ) (xs : List Call) (stamp : ℕ)
    → every (is_later t) xs ≡ true
    → t ≤ stamp
    → t ≤ calls cooldown xs stamp
unfolding calls
calls-ge cooldown t [] stamp l h = h
calls-ge cooldown t (x ∷ xs) stamp l h =
    calls-ge cooldown t xs (call cooldown x stamp) (ground (arith, l))
      (call-ge cooldown t x stamp (ground (arith, l)) h)

try_reserve-stamp :
    (now cooldown stamp t : ℕ)
    → (try_reserve_retrain now cooldown stamp).0 ≡ some t
    → (try_reserve_retrain now cooldown stamp).1 ≡ t
unfolding try_reserve_retrain
try_reserve-stamp now cooldown stamp t h = ground (arith, h)

try_reserve-refused :
    (now cooldown stamp t : ℕ)
    → 0 < t
    → t ≤ stamp
    → now < t + cooldown
    → (try_reserve_retrain now cooldown stamp).0 ≡ none
unfolding try_reserve_retrain
try_reserve-refused now cooldown stamp t p i e = ground arith

-- A window is exclusive: once a trigger has reserved it, no other trigger gets a reservation before it
-- is over, whatever is reserved and noted in the meantime and whatever older reservations are released.
pub try_reserve_retrain-window :
    (cooldown t stamp : ℕ) (xs : List Call) (now : ℕ)
    → 0 < t
    → (try_reserve_retrain t cooldown stamp).0 ≡ some t
    → every (is_later t) xs ≡ true
    → now < t + cooldown
    → (try_reserve_retrain now cooldown
        (calls cooldown xs (try_reserve_retrain t cooldown stamp).1)).0
      ≡ none
try_reserve_retrain-window cooldown t stamp xs now positive got l early =
    let kept = try_reserve-stamp t cooldown stamp t got in
    rw kept (
      try_reserve-refused now cooldown (calls cooldown xs t) t positive
        (calls-ge cooldown t xs t l (omega arith)) early)
