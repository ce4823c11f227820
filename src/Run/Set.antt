-- ===== src/Run/Set.antt =====
-- src/run/state.ts: `applySet` (`apv run set`), its writes in the order of the source.
pub mod Inversion
use agent_pipeline_v.Base.{
  ℕ, Bool, true, false, ◌&&◌, ◌||◌, not, Option, none, some, List, [], ◌∷◌, ◌++◌, Text, codes,
  eq_text, has_text, filter, is_empty, is_some, if◌then◌else◌, Result, ok, err, ◌>>=◌, ◌>>◌,
  throw_if,
}
use agent_pipeline_v.Base.Dict.{Dict, get, put}
use agent_pipeline_v.Run.State.{
  Status, Confidence, StepEntry, TaskEntry, ReviewEntry, Event, RunState, pending, running, done,
  skipped, fixes, securite, same_status, get_step, put_step, get_review, put_review, transition,
}
use agent_pipeline_v.Run.Target.{Target, step, task, review, target_name, pause_target}
use agent_pipeline_v.Run.Schema.{
  Error, run_target, refused_move, security_skipped, skip_without_note, reopen_without_note,
  commit_without_note, force_without_note, done_without_commit, confidence_target,
  confidence_status, not_done, not_integrated, parse_state,
}
use agent_pipeline_v.Run.Check.{SetOptions, check_set, override}

-- The confidence of the entry after the call.
abbrev pub new_confidence : SetOptions → Option Confidence → Option Confidence
new_confidence o old =
    if is_some o.confidence then o.confidence else if same_status o.status done then old else none

abbrev pub write_step : SetOptions → ℕ → StepEntry → StepEntry
write_step o now e = record {
  status = o.status;
  commit = override o.commit e.commit;
  note = override o.note e.note;
  updated_at = some now;
  confidence = new_confidence o e.confidence;
}

abbrev pub write_task : SetOptions → ℕ → TaskEntry → TaskEntry
write_task o now t = record t {
  status = o.status;
  branch = override o.branch t.branch;
  worktree = override o.worktree t.worktree;
  agent_id = override o.agent_id t.agent_id;
  base = override o.base t.base;
  commit = override o.commit t.commit;
  note = override o.note t.note;
  updated_at = some now;
  confidence = new_confidence o t.confidence;
}

abbrev pub write_review : SetOptions → ℕ → ReviewEntry → ReviewEntry
write_review o now r = record {
  status = o.status;
  findings = override o.findings r.findings;
  commit = override o.commit r.commit;
  note = override o.note r.note;
  updated_at = some now;
}

unfoldable pub write_entry : SetOptions → ℕ → Target → RunState → RunState
write_entry o now (step n) s = record s {
  steps = put_step n (write_step o now (get_step n s.steps)) s.steps;
}
write_entry o now (review d) s = record s {
  reviews = put_review d (write_review o now (get_review d s.reviews)) s.reviews;
}
write_entry o now (task id) s = elim (get id s.tasks) [
  | none ↦ s
  | some t ↦ record s { tasks = put id (write_task o now t) s.tasks }
]

-- The event of the pause that a transition ends.
abbrev pub ended_pause : ℕ → Target → Event
ended_pause now target = record {
  at = now;
  target = pause_target;
  from = some pending;
  to = running;
  note =
      some
        (codes "reprise (première transition après la pause : " ++ target_name target ++ codes ")");
  commit = none;
  agent_id = none;
  unintegrated = none;
  until = none;
  confidence = none;
}

-- Any transition ends a pause left open, journaled before the transition.
unfoldable pub end_pause : ℕ → Target → RunState → RunState
end_pause now target s = elim s.pause [
  | none ↦ s
  | some p ↦ record s { pause = none; events = s.events ++ ended_pause now target ∷ [] }
]

abbrev pub set_event : ℕ → Target → Status → Option (List Text) → SetOptions → Event
set_event now target from forced o = record {
  at = now;
  target = target_name target;
  from = some from;
  to = o.status;
  note = o.note;
  commit = o.commit;
  agent_id = o.agent_id;
  unintegrated = forced;
  until = none;
  confidence = o.confidence;
}

-- The state that `applySet` builds before its validation.
unfoldable pub set_state :
    RunState → Target → Status → Option (List Text) → SetOptions → ℕ → RunState
set_state s target from forced o now =
    let next = write_entry o now target (end_pause now target s) in
    record next {
      updated_at = now;
      events = next.events ++ set_event now target from forced o ∷ [];
    }

-- applySet
unfoldable pub apply_set :
    RunState → Target → SetOptions → ℕ → Result Error (RunState × Status × Event)
apply_set s target o now = do
  checked ← check_set s target o
  next ← parse_state (set_state s target checked.0 checked.1 o now)
  ok (next, checked.0, set_event now target checked.0 checked.1 o)
