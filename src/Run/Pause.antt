-- ===== src/Run/Pause.antt =====
-- src/run/state.ts: where an execution stands, its pauses for the quota, and the journal entry of a
-- full suite run out of rhythm.
pub mod Journal
use agent_pipeline_v.Base.{
  ℕ, ◌≡◌, refl, Bool, true, false, ◌&&◌, ◌||◌, not, Option, none, some, List, [], ◌∷◌, ◌++◌, map,
  arith, Text, codes, trim, filter, is_empty, leb, ltb, length, min, if◌then◌else◌, or_else, Result,
  ok, err, ◌>>=◌, ◌>>◌, throw_if,
}
use agent_pipeline_v.Base.Dict.{Dict}
use agent_pipeline_v.Run.State.{
  Status, StepName, TaskEntry, Event, RunState, pending, running, done, skipped, data_model, plan,
  integration, reviews, fixes, delivery, get_step, same_status,
}
use agent_pipeline_v.Run.Target.{pause_target, full_suite_override_target}
use agent_pipeline_v.Run.Schema.{
  Error, nothing_to_pause, pause_in_the_past, not_paused, override_reason, parse_state,
}
use agent_pipeline_v.Run.Check.{noted, given}

abbrev pub finished : Status → Bool
finished st = same_status st done || same_status st skipped

-- `StepName | 'waves' | null`
pub data Where : Type 0 where
  at_step : StepName → Where
  in_waves : Where
  at_end : Where

abbrev pub unfinished_task : Text × TaskEntry → Bool
unfinished_task e = not (finished e.1.status)

unfoldable pub unfinished : Dict TaskEntry → Dict TaskEntry
unfinished tasks = filter unfinished_task tasks

abbrev least : ℕ → List ℕ → ℕ
least n [] = n
least n (m ∷ ms) = least (min n m) ms

-- `Math.min(...waves)` of the unfinished tasks, if there are some
unfoldable pub least_wave : List ℕ → Option ℕ
least_wave [] = none
least_wave (n ∷ ns) = some (least n ns)

abbrev is_integration : StepName → Bool
is_integration integration = true
is_integration _ = false

-- The loop over STEPS: the first step that is not finished, the waves before the integration.
abbrev pub stands : RunState → Bool → List StepName → Where
stands s waiting [] = at_end
stands s waiting (n ∷ ns) =
    let rest = stands s waiting ns in
    if is_integration n && waiting
    then in_waves
    else if not (finished (get_step n s.steps).status)
    then at_step n
    else rest

abbrev pub step_order : List StepName
step_order = data_model ∷ plan ∷ integration ∷ reviews ∷ fixes ∷ delivery ∷ []

-- currentStep
unfoldable pub current_step : RunState → Where × Option ℕ
unfolding unfinished least_wave
current_step s =
    let waiting = unfinished s.tasks in
    (stands s (not (is_empty waiting)) step_order, least_wave (map (λ e. e.1.wave) waiting))

abbrev pub is_end : Where → Bool
is_end at_end = true
is_end _ = false

abbrev pub pause_note : Option Text → RunState → Option Text
pause_note note s = if noted note then note else elim s.pause [ none ↦ none | some p ↦ p.note ]

abbrev pub pause_event : ℕ → Status → Status → Option ℕ → Option Text → Event
pause_event now from to until note = record {
  at = now;
  target = pause_target;
  from = some from;
  to = to;
  note = note;
  commit = none;
  agent_id = none;
  unintegrated = none;
  until = until;
  confidence = none;
}

abbrev pub paused_since : RunState → ℕ → ℕ
paused_since s now = elim s.pause [ none ↦ now | some p ↦ p.since ]

-- A second pause extends the first.
abbrev pub paused_state : RunState → ℕ → Option Text → ℕ → RunState
paused_state s until note now = record s {
  pause = some (record { since = paused_since s now; until = until; note = pause_note note s });
  updated_at = now;
  events = s.events ++ pause_event now running pending (some until) (pause_note note s) ∷ [];
}

-- applyPause
unfoldable pub apply_pause : RunState → ℕ → Option Text → ℕ → Result Error (RunState × Event)
apply_pause s until note now = do
  throw_if (is_end (current_step s).0) nothing_to_pause
  throw_if (leb until now) pause_in_the_past
  next ← parse_state (paused_state s until note now)
  ok (next, pause_event now running pending (some until) (pause_note note s))

abbrev pub resume_note : Option Text → Option Text
resume_note note = if noted note then note else some (codes "reprise")

abbrev pub resumed_state : RunState → Option Text → ℕ → RunState
resumed_state s note now = record s {
  pause = none;
  updated_at = now;
  events = s.events ++ pause_event now pending running none (resume_note note) ∷ [];
}

-- applyResume
unfoldable pub apply_resume : RunState → Option Text → ℕ → Result Error (RunState × Event)
apply_resume s note now = elim s.pause [
  | none ↦ err not_paused
  | some p ↦ do
    next ← parse_state (resumed_state s note now)
    ok (next, pause_event now pending running none (resume_note note))
]

-- MAX_OVERRIDE_REASON
abbrev pub max_override_reason : ℕ
max_override_reason = 500

abbrev pub override_event : ℕ → Text → Option Text → Event
override_event now reason commit = record {
  at = now;
  target = full_suite_override_target;
  from = none;
  to = running;
  note = some reason;
  commit = if given commit then commit else none;
  agent_id = none;
  unintegrated = none;
  until = none;
  confidence = none;
}

abbrev pub overridden_state : RunState → Text → Option Text → ℕ → RunState
overridden_state s reason commit now = record s {
  updated_at = now;
  events = s.events ++ override_event now reason commit ∷ [];
}

-- applyFullSuiteOverride
unfoldable pub apply_full_suite_override :
    RunState → Text → Option Text → ℕ → Result Error (RunState × Event)
apply_full_suite_override s reason commit now = do
  throw_if (is_empty (trim reason) || ltb max_override_reason (length (trim reason)))
      override_reason
  next ← parse_state (overridden_state s (trim reason) commit now)
  ok (next, override_event now (trim reason) commit)
