-- ===== src/Policies/Green.antt =====
-- gateway/app/scheduler.py: only a green candidate is suggested or promoted.
use mlops_lite.Base.{
  ℕ, Bool, true, Option, none, some, List, [], ◌∷◌, ◌≡◌, inl, inr, refl, arith, every, Option-cases,
  ap, ◌∙◌, choice_cases, every-append,
}
use mlops_lite.Policies.Launching.{launch_on, LaunchAnswers, launch, persist_watch}
use mlops_lite.Policies.Breaches.{
  BreachAnswers, CheckAnswers, run_due_checks, on_checked, with_action-keeps, run_due_checks_cases,
  after_breach, handle_breach, with_reservation, supersede_or_launch,
}
use mlops_lite.Policies.Cooldown.{try_reserve_retrain}
use mlops_lite.Policies.Retries.{RetryAnswers, after_launch, backoff, retry_park, retry_pending}
use mlops_lite.Policies.State.{
  Watch, Action, Mode, manual, suggest, Ended, Breach, Config, Policy, World, Suggestion,
  auto_on_green, Gate, Winner,
}
use mlops_lite.Policies.Tick.{Answers, tick_policy, tick_cases, Event, ticks, others, run, step}
use mlops_lite.Policies.Watches.{
  Run, unknown, active, ended_badly, Promotion, raises, refused, promoted, by_mode, WatchAnswers,
  poll_watch, poll_watched, on_unknown, on_active, on_completed, evaluate, auto_promote,
  suggest_and_clear, record_not_green, create_suggestion, is_green, completed,
}

-- What neither a retry nor a check touches.
abbrev pub shown : World → List Suggestion × Option ℕ
shown w = (w.suggestions, w.serving)

launch-shown :
    (pinned : Option ℕ) (a : LaunchAnswers) (w : World) → shown (launch pinned a w).1 ≡ shown w
unfolding launch_on persist_watch
launch-shown pinned a w = ground arith

pub retry_pending-shown :
    (c : Config) (p : Policy) (now : ℕ) (a : RetryAnswers) (w : World)
    → shown (retry_pending c p now a w).1 ≡ shown w
unfolding retry_pending retry_park after_launch backoff
retry_pending-shown c p now a w = ground (arith, launch-shown p.pinned a.launching w)

handle_breach-shown :
    (c : Config) (p : Policy) (now : ℕ) (a : BreachAnswers) (b : Breach) (w : World)
    → shown (handle_breach c p now a b w).1 ≡ shown w
unfolding handle_breach supersede_or_launch with_reservation after_breach try_reserve_retrain
handle_breach-shown c p now a b w =
    ground (arith, launch-shown p.pinned a.launching (record w { stamp = a.reserved_at }))

on_checked-shown :
    (c : Config) (p : Policy) (now : ℕ) (a : CheckAnswers) (o : Option Breach) (w : World)
    → shown (on_checked c p now a o w).1 ≡ shown w
unfolding on_checked
on_checked-shown c p now a none w = refl
on_checked-shown c p now a (some b) w =
    with_action-keeps (λ u. shown u ≡ shown w) _ _ (handle_breach-shown c p now a.breaching b w)

pub run_due_checks-shown :
    (c : Config) (p : Policy) (now : ℕ) (a : CheckAnswers) (w : World)
    → shown (run_due_checks c p now a w).1 ≡ shown w
run_due_checks-shown c p now a w =
    run_due_checks_cases (λ u. shown u ≡ shown w) c p now a w refl (λ s. refl)
      (λ o s. on_checked-shown c p now a o _)

abbrev pub is_green_suggestion : Suggestion → Bool
is_green_suggestion s = is_green s.gate_verdict s.shadow_verdict

create-green :
    (s : Suggestion) (ss : List Suggestion)
    → is_green_suggestion s ≡ true
    → every is_green_suggestion ss ≡ true
    → every is_green_suggestion (create_suggestion s ss) ≡ true
unfolding create_suggestion
create-green s ss g h = ground (arith, every-append is_green_suggestion ss (s ∷ []))

suggest_and_clear-green :
    (a : WatchAnswers) (s : Suggestion) (x : Action) (w : World)
    → is_green_suggestion s ≡ true
    → every is_green_suggestion w.suggestions ≡ true
    → every is_green_suggestion (suggest_and_clear a s x w).1.suggestions ≡ true
unfolding suggest_and_clear
suggest_and_clear-green a s x w g h = ground (arith, create-green s w.suggestions g h)

abbrev are_green : World → Bool
are_green w = every is_green_suggestion w.suggestions

auto_promote-green :
    (now version : ℕ) (a : WatchAnswers) (g : Gate) (s : Option Winner) (x : Promotion) (w : World)
    → is_green g s ≡ true
    → are_green w ≡ true
    → are_green (auto_promote now version a g s x w).1 ≡ true
unfolding auto_promote record_not_green
auto_promote-green now version a g s (raises moved) w e h = h
auto_promote-green now version a g s (refused v) w e h = ground (arith, h)
auto_promote-green now version a g s promoted w e h =
    suggest_and_clear-green a _ _ (record w { serving = some version }) e h

by_mode-green :
    (mode : Mode) (now version : ℕ) (a : WatchAnswers) (g : Gate) (s : Option Winner) (w : World)
    → is_green g s ≡ true
    → are_green w ≡ true
    → are_green (by_mode mode now version a g s w).1 ≡ true
by_mode-green auto_on_green now version a g s w e h =
    auto_promote-green now version a g s a.promotion w e h
by_mode-green manual now version a g s w e h = suggest_and_clear-green a _ _ w e h
by_mode-green suggest now version a g s w e h = suggest_and_clear-green a _ _ w e h

evaluate-green :
    (mode : Mode) (now version : ℕ) (a : WatchAnswers) (g : Option Gate)
    (s : Option (Option Winner)) (w : World)
    → are_green w ≡ true
    → are_green (evaluate mode now version a g s w).1 ≡ true
unfolding evaluate record_not_green
evaluate-green mode now version a none s w h = h
evaluate-green mode now version a (some g) none w h = h
evaluate-green mode now version a (some g) (some s) w h =
    choice_cases (λ (x : Ended × World). are_green x.1 ≡ true) (is_green g s)
      (λ e. by_mode-green mode now version a g s w e h) (λ _. ground (arith, h))

on_completed-green :
    (mode : Mode) (now : ℕ) (v : Option ℕ) (a : WatchAnswers) (w : World)
    → are_green w ≡ true
    → are_green (on_completed mode now v a w).1 ≡ true
unfolding on_completed
on_completed-green mode now none a w h = ground (arith, h)
on_completed-green manual now (some v) a w h = ground (arith, h)
on_completed-green suggest now (some v) a w h = evaluate-green suggest now v a a.gate a.shadow w h
on_completed-green auto_on_green now (some v) a w h =
    evaluate-green auto_on_green now v a a.gate a.shadow w h

poll_watched-green :
    (c : Config) (p : Policy) (now : ℕ) (a : WatchAnswers) (r : Run) (t : Watch) (w : World)
    → are_green w ≡ true
    → are_green (poll_watched c p now a r t w).1 ≡ true
unfolding poll_watched on_unknown on_active
poll_watched-green c p now a unknown t w h = ground (arith, h)
poll_watched-green c p now a active t w h = ground (arith, h)
poll_watched-green c p now a ended_badly t w h = ground (arith, h)
poll_watched-green c p now a (completed v) t w h = on_completed-green p.promotion_mode now v a w h

poll_watch-green :
    (c : Config) (p : Policy) (now : ℕ) (a : WatchAnswers) (w : World)
    → are_green w ≡ true
    → are_green (poll_watch c p now a w).1 ≡ true
unfolding poll_watch
poll_watch-green c p now a w h = elim (Option-cases w.status.watch) [
  | inl e ↦ ground (arith, e, h)
  | inr (t, e) ↦ ground (arith, e, h, poll_watched-green c p now a a.run t w h)
]

shown-green : (u v : World) → shown v ≡ shown u → are_green u ≡ true → are_green v ≡ true
shown-green u v e h = ap (λ (x : List Suggestion × Option ℕ). every is_green_suggestion x.0) e ∙ h

tick_policy-green :
    (c : Config) (p : Policy) (now : ℕ) (a : Answers) (w : World)
    → are_green w ≡ true
    → are_green (tick_policy c p now a w).1 ≡ true
tick_policy-green c p now a w h =
    tick_cases (λ u. are_green u ≡ true) c p now a w
      (λ u.
        shown-green u (retry_pending c p now a.retrying u).1
          (retry_pending-shown c p now a.retrying u))
      (λ u.
        shown-green u (run_due_checks c p now a.checking u).1
          (run_due_checks-shown c p now a.checking u))
      (poll_watch-green c p now a.watching) h

-- Only a green candidate is suggested or recorded as promoted: through any ticks, with any answers of
-- the gate, the shadow listing, the registry and the store, every suggestion and every record of an
-- automatic promotion has a gate that passed and no shadow window that was lost, where this held of
-- the ones recorded before them.
pub run-green :
    (c : Config) (xs : List Event) (w : World)
    → every is_green_suggestion w.suggestions ≡ true
    → every is_green_suggestion (run c xs w).suggestions ≡ true
unfolding run step
run-green c [] w h = h
run-green c (ticks p now a ∷ xs) w h = run-green c xs _ (tick_policy-green c p now a w h)
run-green c (others stamp ∷ xs) w h = run-green c xs (record w { stamp = stamp }) h
