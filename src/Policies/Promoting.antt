-- ===== src/Policies/Promoting.antt =====
-- gateway/app/scheduler.py: when the alias of a model moves.
use mlops_lite.Base.{
  ℕ, true, false, Option, none, some, List, ◌≡◌, ◌⊎◌, inl, inr, refl, ap, ◌∙◌, arith, choice_cases,
}
use mlops_lite.Policies.Green.{shown, retry_pending-shown, run_due_checks-shown}
use mlops_lite.Policies.Breaches.{run_due_checks}
use mlops_lite.Policies.Retries.{retry_pending}
use mlops_lite.Policies.State.{
  Config, Ended, Gate, Mode, Policy, Suggestion, Watch, Winner, World, Action, auto_on_green,
  manual, suggest, pass, warn, blocked,
}
use mlops_lite.Policies.Tick.{Answers, tick_policy, tick_cases}
use mlops_lite.Policies.Watches.{
  WatchAnswers, Promotion, Run, raises, refused, promoted, unknown, active, ended_badly, completed,
  poll_watch, poll_if_watched, poll_watched, on_unknown, on_active, on_completed, evaluate,
  auto_promote, suggest_and_clear, record_not_green, is_green, is_clear,
}

-- The poll of a run that ended with this version, of a policy that promotes by itself, where the gate
-- passes and no shadow window was lost.
pub record IsEarned (p : Policy) (a : WatchAnswers) (v : ℕ) : Type 0 where
  pub automatic : p.promotion_mode ≡ auto_on_green
  pub trained : a.run ≡ completed (some v)
  pub passed : a.gate ≡ some pass
  pub winner : Option Winner
  pub compared : a.shadow ≡ some winner
  pub cleared : is_clear winner ≡ true

abbrev pub Moved : Policy → WatchAnswers → (before after : Option ℕ) → Type 0
Moved p a s t = (t ≡ s) ⊎ ((v : ℕ) × (t ≡ some v) × IsEarned p a v)

suggest-serving :
    (a : WatchAnswers) (s : Suggestion) (x : Action) (w : World)
    → (suggest_and_clear a s x w).1.serving ≡ w.serving
unfolding suggest_and_clear
suggest-serving a s x w = ground arith

auto_promote-serving :
    (now v : ℕ) (a : WatchAnswers) (g : Gate) (s : Option Winner) (x : Promotion) (w : World)
    → ((auto_promote now v a g s x w).1.serving ≡ w.serving)
      ⊎ ((auto_promote now v a g s x w).1.serving ≡ some v)
unfolding auto_promote record_not_green
auto_promote-serving now v a g s (raises true) w = inr refl
auto_promote-serving now v a g s (raises false) w = inl refl
auto_promote-serving now v a g s (refused o) w = inl (ground arith)
auto_promote-serving now v a g s promoted w =
    inr (suggest-serving a _ _ (record w { serving = some v }))

-- A green candidate's gate passed, and its window was not lost.
green-IsEarned :
    (p : Policy) (a : WatchAnswers) (v : ℕ) (g : Gate) (s : Option Winner)
    → p.promotion_mode ≡ auto_on_green
    → a.run ≡ completed (some v)
    → a.gate ≡ some g
    → a.shadow ≡ some s
    → is_green g s ≡ true
    → IsEarned p a v
green-IsEarned p a v pass s m r g h e = record {
  automatic = m;
  trained = r;
  passed = g;
  winner = s;
  compared = h;
  cleared = e;
}
green-IsEarned p a v warn s m r g h e = cc
green-IsEarned p a v blocked s m r g h e = cc

evaluate-Moved :
    (p : Policy) (now v : ℕ) (a : WatchAnswers) (g : Option Gate) (s : Option (Option Winner))
    (w : World)
    → p.promotion_mode ≡ auto_on_green
    → a.run ≡ completed (some v)
    → a.gate ≡ g
    → a.shadow ≡ s
    → Moved p a w.serving (evaluate auto_on_green now v a g s w).1.serving
unfolding evaluate record_not_green
evaluate-Moved p now v a none s w m r g h = inl refl
evaluate-Moved p now v a (some x) none w m r g h = inl refl
evaluate-Moved p now v a (some x) (some s) w m r g h =
    choice_cases (λ (y : Ended × World). Moved p a w.serving y.1.serving) (is_green x s)
      (λ e. elim (auto_promote-serving now v a x s a.promotion w) [
        | inl k ↦ inl k
        | inr k ↦ inr (v, k, green-IsEarned p a v x s m r g h e)
      ])
      (λ _. inl (ground arith))

suggesting-serving :
    (now v : ℕ) (a : WatchAnswers) (g : Option Gate) (s : Option (Option Winner)) (w : World)
    → (evaluate suggest now v a g s w).1.serving ≡ w.serving
unfolding evaluate record_not_green
suggesting-serving now v a none s w = refl
suggesting-serving now v a (some g) none w = refl
suggesting-serving now v a (some g) (some s) w =
    choice_cases (λ (y : Ended × World). y.1.serving ≡ w.serving) (is_green g s)
      (λ _. suggest-serving a _ _ w) (λ _. ground arith)

on_completed-Moved :
    (p : Policy) (mode : Mode) (now : ℕ) (v : Option ℕ) (a : WatchAnswers) (w : World)
    → p.promotion_mode ≡ mode
    → a.run ≡ completed v
    → Moved p a w.serving (on_completed mode now v a w).1.serving
unfolding on_completed
on_completed-Moved p mode now none a w m r = inl (ground arith)
on_completed-Moved p manual now (some v) a w m r = inl (ground arith)
on_completed-Moved p suggest now (some v) a w m r =
    inl (suggesting-serving now v a a.gate a.shadow w)
on_completed-Moved p auto_on_green now (some v) a w m r =
    evaluate-Moved p now v a a.gate a.shadow w m r refl refl

poll_watched-Moved :
    (c : Config) (p : Policy) (now : ℕ) (a : WatchAnswers) (r : Run) (t : Watch) (w : World)
    → a.run ≡ r
    → Moved p a w.serving (poll_watched c p now a r t w).1.serving
unfolding poll_watched on_unknown on_active
poll_watched-Moved c p now a unknown t w e = inl (ground arith)
poll_watched-Moved c p now a active t w e = inl (ground arith)
poll_watched-Moved c p now a ended_badly t w e = inl (ground arith)
poll_watched-Moved c p now a (completed v) t w e =
    on_completed-Moved p p.promotion_mode now v a w refl e

poll_if_watched-Moved :
    (c : Config) (p : Policy) (now : ℕ) (a : WatchAnswers) (o : Option Watch) (w : World)
    → Moved p a w.serving (poll_if_watched c p now a o w).1.serving
poll_if_watched-Moved c p now a none w = inl refl
poll_if_watched-Moved c p now a (some t) w = poll_watched-Moved c p now a a.run t w refl

poll_watch-Moved :
    (c : Config) (p : Policy) (now : ℕ) (a : WatchAnswers) (w : World)
    → Moved p a w.serving (poll_watch c p now a w).1.serving
unfolding poll_watch
poll_watch-Moved c p now a w =
    choice_cases (λ (y : Ended × World). Moved p a w.serving y.1.serving) a.reads_status
      (λ _. poll_if_watched-Moved c p now a w.status.watch w) (λ _. inl refl)

-- A later move is the one that counts.
Moved-trans :
    (p : Policy) (a : WatchAnswers) (s t u : Option ℕ)
    → Moved p a s t
    → Moved p a t u
    → Moved p a s u
Moved-trans p a s t u (inl e) (inl f) = inl (f ∙ e)
Moved-trans p a s t u (inr (v, e, h)) (inl f) = inr (v, f ∙ e, h)
Moved-trans p a s t u m (inr x) = inr x

same-Moved :
    (p : Policy) (a : WatchAnswers) (u v : World) (s : Option ℕ)
    → shown v ≡ shown u
    → Moved p a s u.serving
    → Moved p a s v.serving
same-Moved p a u v s e m =
    Moved-trans p a s u.serving v.serving m (inl (ap (λ (x : List Suggestion × Option ℕ). x.1) e))

-- The alias of a model moves only in the tick of a policy that promotes by itself, to the version of
-- the run that ended, where the gate passes at that time and no shadow window was lost; in every other
-- tick it stays, whatever fails.
pub tick_policy-promotes :
    (c : Config) (p : Policy) (now : ℕ) (a : Answers) (w : World)
    → Moved p a.watching w.serving (tick_policy c p now a w).1.serving
tick_policy-promotes c p now a w =
    tick_cases (λ u. Moved p a.watching w.serving u.serving) c p now a w
      (λ u.
        same-Moved p a.watching u (retry_pending c p now a.retrying u).1 w.serving
          (retry_pending-shown c p now a.retrying u))
      (λ u.
        same-Moved p a.watching u (run_due_checks c p now a.checking u).1 w.serving
          (run_due_checks-shown c p now a.checking u))
      (λ u m.
        Moved-trans p a.watching w.serving u.serving (poll_watch c p now a.watching u).1.serving m
          (poll_watch-Moved c p now a.watching u))
      (inl refl)
