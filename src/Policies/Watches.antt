-- ===== src/Policies/Watches.antt =====
-- gateway/app/scheduler.py: _poll_watch, with create_suggestion of gateway/app/policies.py.
use mlops_lite.Base.{
  ℕ, Bool, true, false, Option, none, some, List, [], ◌∷◌, ◌++◌, any, Reply, commits, is_answered,
  is_some, ltb, ◌+◌, ◌==◌, ◌&&◌, if◌then◌else◌,
}
use mlops_lite.Policies.State
use mlops_lite.Policies.State.{
  Action, Candidate, Config, Ended, Gate, Mode, Policy, Status, Suggestion, SuggestionState, Watch,
  Winner, World, acted, auto_on_green, auto_promote_refused, candidate_not_green, challenger,
  champion, manual, open_suggestion, pass, raised, run_succeeded_manual, save_status, suggest,
  suggested, tie, watch_expired_unknown, watch_unpollable, watched_run_failed,
  watched_run_no_version,
}

-- The record of the run, as the trainer gives it: no answer, under way, ended without success, or
-- with success and a version.
pub data Run : Type 0 where
  unknown active ended_badly : Run
  completed : (version : Option ℕ) → Run

-- The registry's answer: an exception, before or after the alias moved, or a result.
pub data Promotion : Type 0 where
  raises : (moved : Bool) → Promotion
  refused : (verdict : Option Gate) → Promotion
  promoted : Promotion

-- What a poll meets; none for a gate or a shadow listing that raises.
pub record WatchAnswers : Type 0 where
  pub reads_status : Bool
  pub run : Run
  pub saves : Reply
  pub gate : Option Gate
  pub shadow : Option (Option Winner)
  pub promotion : Promotion
  pub suggests : Reply

abbrev pub is_pass : Gate → Bool
is_pass pass = true
is_pass _ = false

abbrev pub is_clear : Option Winner → Bool
is_clear none = true
is_clear (some challenger) = true
is_clear (some tie) = true
is_clear (some champion) = false

abbrev pub is_green : Gate → Option Winner → Bool
is_green g s = is_pass g && is_clear s

abbrev pub same_state : SuggestionState → SuggestionState → Bool
same_state open_suggestion open_suggestion = true
same_state State.SuggestionState.auto_promoted State.SuggestionState.auto_promoted = true
same_state _ _ = false

-- create_suggestion, once for a version and a state.
unfoldable pub create_suggestion : Suggestion → List Suggestion → List Suggestion
create_suggestion s ss =
    if any (λ (t : Suggestion). (t.version == s.version) && same_state t.state s.state) ss
    then ss
    else ss ++ s ∷ []

-- The status without its watch is written, and then the step is done.
abbrev pub save_and : Reply → Status → Action → World → Ended × World
save_and reply s x w =
    if is_answered reply
    then (acted (x ∷ []), save_status reply s w)
    else (raised, save_status reply s w)

abbrev pub unwatched : Status → Status
unwatched s = record s { watch = none }

abbrev pub clear_watch : Reply → Action → World → Ended × World
clear_watch reply x w = save_and reply (unwatched w.status) x w

unfoldable pub record_not_green :
    (now version : ℕ) → Gate → Option Winner → Reply → Action → World → Ended × World
record_not_green now version g s reply x w =
    let candidate : Candidate = record {
      version = version;
      gate_verdict = g;
      shadow_verdict = s;
      at = now;
    } in
    save_and reply (record w.status { watch = none; last_candidate = some candidate }) x w

-- A suggestion is created, and then the watch is cleared.
unfoldable pub suggest_and_clear : WatchAnswers → Suggestion → Action → World → Ended × World
suggest_and_clear a s x w =
    let noted = record w {
      suggestions = if commits a.suggests then create_suggestion s w.suggestions else w.suggestions;
    } in
    if is_answered a.suggests then clear_watch a.saves x noted else (raised, noted)

abbrev pub or_verdict : Option Gate → Gate → Gate
or_verdict none g = g
or_verdict (some v) g = v

abbrev pub suggestion : (version : ℕ) → Gate → Option Winner → SuggestionState → Suggestion
suggestion version g s state = record {
  version = version;
  gate_verdict = g;
  shadow_verdict = s;
  state = state;
}

unfoldable pub auto_promote :
    (now version : ℕ) → WatchAnswers → Gate → Option Winner → Promotion → World → Ended × World
auto_promote now version a g s (raises moved) w =
    (raised, record w { serving = if moved then some version else w.serving })
auto_promote now version a g s (refused verdict) w =
    record_not_green now version (or_verdict verdict g) s a.saves (auto_promote_refused version) w
auto_promote now version a g s promoted w =
    suggest_and_clear a (suggestion version g s State.SuggestionState.auto_promoted)
      (State.Action.auto_promoted version) (record w { serving = some version })

-- A green candidate, by the mode; a manual policy does not come here.
abbrev pub by_mode :
    Mode → (now version : ℕ) → WatchAnswers → Gate → Option Winner → World → Ended × World
by_mode auto_on_green now version a g s w = auto_promote now version a g s a.promotion w
by_mode _ now version a g s w =
    suggest_and_clear a (suggestion version g s open_suggestion) (suggested version) w

-- On what the gate and the shadow listing gave.
unfoldable pub evaluate :
    Mode
    → (now version : ℕ) → WatchAnswers
    → Option Gate
    → Option (Option Winner)
    → World
    → Ended × World
evaluate mode now version a none s w = (raised, w)
evaluate mode now version a (some g) none w = (raised, w)
evaluate mode now version a (some g) (some s) w =
    if is_green g s
    then by_mode mode now version a g s w
    else record_not_green now version g s a.saves (candidate_not_green version) w

unfoldable pub on_completed :
    Mode → (now : ℕ) → (version : Option ℕ) → WatchAnswers → World → Ended × World
on_completed mode now none a w = clear_watch a.saves watched_run_no_version w
on_completed manual now (some v) a w = clear_watch a.saves (run_succeeded_manual v) w
on_completed mode now (some v) a w = evaluate mode now v a a.gate a.shadow w

-- The trainer could not be asked: the time of the first such poll bounds the watch.
unfoldable pub on_unknown : Config → (now : ℕ) → WatchAnswers → Watch → World → Ended × World
on_unknown c now a t w = elim t.unknown_since [
  | none ↦
      save_and a.saves (record w.status { watch = some (record t { unknown_since = some now }) })
        (watch_unpollable t.run_id) w
  | some first ↦
      if ltb (first + c.watch_unknown_timeout) now
      then clear_watch a.saves (watch_expired_unknown t.run_id) w
      else (acted [], w)
]

-- The trainer answers again: the time of the first failed poll is forgotten.
unfoldable pub on_active : WatchAnswers → Watch → World → Ended × World
on_active a t w =
    if is_some t.unknown_since
    then (let saved =
          save_status a.saves (record w.status { watch = some (record t { unknown_since = none }) })
            w in
        if is_answered a.saves then (acted [], saved) else (raised, saved))
    else (acted [], w)

unfoldable pub poll_watched :
    Config → Policy → (now : ℕ) → WatchAnswers → Run → Watch → World → Ended × World
poll_watched c p now a unknown t w = on_unknown c now a t w
poll_watched c p now a active t w = on_active a t w
poll_watched c p now a ended_badly t w = clear_watch a.saves watched_run_failed w
poll_watched c p now a (completed v) t w = on_completed p.promotion_mode now v a w

abbrev pub poll_if_watched :
    Config → Policy → (now : ℕ) → WatchAnswers → Option Watch → World → Ended × World
poll_if_watched c p now a none w = (acted [], w)
poll_if_watched c p now a (some t) w = poll_watched c p now a a.run t w

unfoldable pub poll_watch : Config → Policy → (now : ℕ) → WatchAnswers → World → Ended × World
poll_watch c p now a w =
    if a.reads_status then poll_if_watched c p now a w.status.watch w else (raised, w)
