-- ===== src/Run/Check.antt =====
-- src/run/state.ts: the checks of `applySet` (`apv run set`), in the order of the source.
use agent_pipeline_v.Base.{
  ℕ, Bool, true, false, ◌&&◌, ◌||◌, not, Option, none, some, List, Text, eq_text, has_text, filter,
  is_empty, is_some, if◌then◌else◌, Result, ok, err, ◌>>=◌, ◌>>◌, throw_if,
}
use agent_pipeline_v.Base.Dict.{Dict, get}
use agent_pipeline_v.Run.State.{
  Status, Confidence, TaskEntry, RunState, running, done, skipped, fixes, securite, same_status,
  get_step, get_review, transition,
}
use agent_pipeline_v.Run.Target.{Target, step, task, review}
use agent_pipeline_v.Run.Schema.{
  Error, run_target, refused_move, security_skipped, skip_without_note, reopen_without_note,
  commit_without_note, force_without_note, done_without_commit, confidence_target,
  confidence_status, not_done, not_integrated,
}

-- IntegrationCheck, without the wording of the head.
pub record IntegrationCheck : Type 0 where
  pub head : Text
  pub integrated : Text → Bool

-- SetOptions
pub record SetOptions : Type 0 where
  pub status : Status
  pub branch : Option Text
  pub worktree : Option Text
  pub agent_id : Option Text
  pub commit : Option Text
  pub base : Option Text
  pub note : Option Text
  pub findings : Option ℕ
  pub confidence : Option Confidence
  pub integration : Option IntegrationCheck
  pub force_unintegrated : Bool

-- `Boolean(note?.trim())`
abbrev pub noted : Option Text → Bool
noted none = false
noted (some s) = has_text s

-- `Boolean(commit)`: neither absent nor empty.
abbrev pub given : Option Text → Bool
given none = false
given (some s) = not (is_empty s)

-- `if (value !== undefined) field = value;`
abbrev pub override {ℓ} : {A : Type ℓ} → Option A → Option A → Option A
override none old = old
override (some a) old = some a

abbrev pub is_done : Option TaskEntry → Bool
is_done none = false
is_done (some t) = same_status t.status done

-- `Boolean(dep.commit && integration?.integrated(dep.commit))`
abbrev pub integrated_in : Option IntegrationCheck → Option Text → Bool
integrated_in none c = false
integrated_in (some i) none = false
integrated_in (some i) (some c) = not (is_empty c) && i.integrated c

-- `dep?.status === 'done' && !(dep.commit && integration?.integrated(dep.commit))`
abbrev pub awaits : Option IntegrationCheck → Option TaskEntry → Bool
awaits i none = false
awaits i (some d) = same_status d.status done && not (integrated_in i d.commit)

-- dependencyGaps
unfoldable pub gaps_not_done : Dict TaskEntry → TaskEntry → List Text
gaps_not_done tasks t = filter (λ d. not (is_done (get d tasks))) t.depends_on

unfoldable pub gaps_not_integrated :
    Dict TaskEntry → TaskEntry → Option IntegrationCheck → List Text
gaps_not_integrated tasks t i = filter (λ d. awaits i (get d tasks)) t.depends_on

-- The status and the commit of the entry that a target names.
unfoldable pub entry_of : RunState → Target → Option (Status × Option Text)
entry_of s (step n) = let e = get_step n s.steps in some (e.status, e.commit)
entry_of s (review d) = let e = get_review d s.reviews in some (e.status, e.commit)
entry_of s (task id) = elim (get id s.tasks) [ none ↦ none | some t ↦ some (t.status, t.commit) ]

abbrev pub is_review : Target → Bool
is_review (review d) = true
is_review _ = false

abbrev pub is_security : Target → Bool
is_security (review securite) = true
is_security _ = false

-- `options.commit !== undefined && recorded !== null && options.commit !== recorded`
abbrev pub replaces : Option Text → Option Text → Bool
replaces (some c) (some r) = not (eq_text c r)
replaces _ _ = false

-- The refusals that do not depend on the kind of the target.
unfoldable pub check_move : Target → Status → Option Text → SetOptions → Result Error (Unit {0})
unfolding transition
check_move target from recorded o = do
  throw_if (not (same_status from o.status) && not (transition from o.status)) refused_move
  throw_if (is_security target && same_status o.status skipped) security_skipped
  throw_if
      (is_review target
        && same_status o.status skipped
        && not (same_status from skipped)
        && not (noted o.note))
      skip_without_note
  throw_if (same_status from done && not (same_status o.status done) && not (noted o.note))
      reopen_without_note
  throw_if
      (same_status from done
        && same_status o.status done
        && replaces o.commit recorded
        && not (noted o.note))
      commit_without_note

-- The check of a task that starts: the dependencies that are not integrated and were forced.
unfoldable pub check_start :
    Status → List Text → List Text → SetOptions → Result Error (Option (List Text))
check_start from missing waiting o =
    if not (is_empty missing)
    then err (not_done missing)
    else if same_status from running || is_empty waiting
    then ok none
    else if not o.force_unintegrated
    then err (not_integrated waiting)
    else if not (noted o.note)
    then err force_without_note
    else ok (some waiting)

unfoldable pub check_task :
    Dict TaskEntry → TaskEntry → SetOptions → Result Error (Option (List Text))
check_task tasks t o = do
  forced ←
      if same_status o.status running
      then check_start t.status (gaps_not_done tasks t) (gaps_not_integrated tasks t o.integration)
          o
      else ok none
  throw_if (same_status o.status done && not (given o.commit)) done_without_commit
  ok forced

unfoldable pub check_entry : RunState → Target → SetOptions → Result Error (Option (List Text))
check_entry s (task id) o = elim (get id s.tasks) [
  | none ↦ err run_target
  | some t ↦ check_task s.tasks t o
]
check_entry s _ o = ok none

-- CONFIDENCE_STEPS, and the tasks
abbrev pub takes_confidence : Target → Bool
takes_confidence (task id) = true
takes_confidence (step fixes) = true
takes_confidence _ = false

unfoldable pub check_confidence : Target → SetOptions → Result Error (Unit {0})
check_confidence target o = do
  throw_if (is_some o.confidence && not (takes_confidence target)) confidence_target
  throw_if (is_some o.confidence && not (same_status o.status done)) confidence_status

abbrev pub find_entry : RunState → Target → Result Error (Status × Option Text)
find_entry s target = elim (entry_of s target) [ none ↦ err run_target | some e ↦ ok e ]

-- Every check of `applySet`: the status that the entry leaves and the dependencies forced.
unfoldable pub check_set :
    RunState → Target → SetOptions → Result Error (Status × Option (List Text))
check_set s target o = do
  entry ← find_entry s target
  check_move target entry.0 entry.1 o
  forced ← check_entry s target o
  check_confidence target o
  ok (entry.0, forced)
