-- ===== src/Run/Create/Reached.antt =====
-- src/run/state.ts: a new state, and the states that an execution reaches.
use agent_pipeline_v.Base.{
  ℕ, ◌≡◌, refl, sym, subst, none, some, List, [], ◌∷◌, arith, Text, eq_text, ok, bind-ok,
  Option-cases, Bool-cases, inl, inr,
}
use agent_pipeline_v.Base.Dict.{Dict, get, put, get-put}
use agent_pipeline_v.Run.State.{
  Status, StepName, TaskEntry, RunState, pending, data_model, securite, get_step, ReviewDomain,
  get_review,
}
use agent_pipeline_v.Run.Target.{Target, step, task, review, target_name}
use agent_pipeline_v.Run.Schema.{parse_state-ok}
use agent_pipeline_v.Run.Check.{entry_of}
use agent_pipeline_v.Run.Journal.{replay, Legal, status_at}
use agent_pipeline_v.Run.Journal.Kept.{IsJournaled, NamesNoTarget, apply_set-IsJournaled}
use agent_pipeline_v.Run.Pause.Journal.{
  apply_pause-IsJournaled, apply_resume-IsJournaled, apply_full_suite_override-IsJournaled,
}
use agent_pipeline_v.Run.Invariant.{Inv, AllTasks}
use agent_pipeline_v.Run.Invariant.Kept.{
  apply_set-Inv, apply_pause-Inv, apply_resume-Inv, apply_full_suite_override-Inv,
}
use agent_pipeline_v.Run.Waves.{
  SpecTask, Depths, contains, compute_waves, compute_foundations, wave_of,
}
use agent_pipeline_v.Run.Create.{
  NewRun, new_task, new_steps, new_reviews, new_tasks, run_target_name, created_event,
  create_run_state, Reach, created, set, paused, resumed, overridden,
}

-- The call's waves and tasks, which the state holds.
pub record Started (i : NewRun) (now : ℕ) (s : RunState) : Type 0 where
  pub computed : compute_waves i.tasks ≡ ok s.waves
  pub filled : new_tasks (wave_of s.waves) (compute_foundations i.tasks) i.tasks [] ≡ ok s.tasks
  pub steps_new : s.steps ≡ new_steps
  pub reviews_new : s.reviews ≡ new_reviews
  pub first : s.events ≡ created_event i now ∷ []
  pub running : s.pause ≡ none

pub create_run_state-ok :
    (i : NewRun) (now : ℕ) {s : RunState} → create_run_state i now ≡ ok s → Started i now s
unfolding create_run_state
create_run_state-ok i now h =
    let (waves, computed, h1) = bind-ok (compute_waves i.tasks) _ h in
    let (tasks, filled, h2) =
      bind-ok (new_tasks (wave_of waves) (compute_foundations i.tasks) i.tasks []) _ h1 in
    let same = parse_state-ok _ h2 in
    subst (Started i now) (sym same) (record {
      computed = computed;
      filled = filled;
      steps_new = refl;
      reviews_new = refl;
      first = refl;
      running = refl;
    })

-- What every task has that the entries start with.
abbrev pub IsNew : TaskEntry → Type 0
IsNew t = (t.status ≡ pending) × (t.confidence ≡ none)

new_tasks-IsNew :
    (waves : Depths) (foundations : List Text) (ts : List SpecTask) (m : Dict TaskEntry)
    {m' : Dict TaskEntry}
    → new_tasks waves foundations ts m ≡ ok m'
    → AllTasks IsNew m
    → AllTasks IsNew m'
unfolding new_tasks
new_tasks-IsNew waves foundations [] m h all = subst (AllTasks IsNew) (ground arith) all
new_tasks-IsNew waves foundations (t ∷ ts) m h all = elim (Option-cases (get t.id waves)) [
  | inl absent ↦ absurd (ground arith)
  | inr (w, there) ↦
      let entry = new_task t w (contains t.id foundations) in
      new_tasks-IsNew waves foundations ts (put t.id entry m) (rw (there, new_tasks) at h) (λ j u e.
        elim (Bool-cases (eq_text t.id j)) [
          | inl own ↦ ground (arith, get-put t.id j entry m)
          | inr other ↦ all j u (ground (arith, get-put t.id j entry m))
        ])
]

run-NamesNoTarget : NamesNoTarget run_target_name
unfolding eq_text
run-NamesNoTarget (task id) = refl
run-NamesNoTarget (review d) = refl
run-NamesNoTarget (step data_model) = refl
run-NamesNoTarget (step _) = refl

new_step_status : (n : StepName) → (get_step n new_steps).status ≡ pending
new_step_status data_model = refl
new_step_status _ = refl

new_step_confidence : (n : StepName) → (get_step n new_steps).confidence ≡ none
new_step_confidence data_model = refl
new_step_confidence _ = refl

new_review_status : (d : ReviewDomain) → (get_review d new_reviews).status ≡ pending
new_review_status securite = refl
new_review_status _ = refl

module _ (i : NewRun) (now : ℕ) (s : RunState) (h : create_run_state i now ≡ ok s) where
  starts : AllTasks IsNew s.tasks
  unfolding get
  starts =
      let c = create_run_state-ok i now h in
      new_tasks-IsNew (wave_of s.waves) (compute_foundations i.tasks) i.tasks [] c.filled
        (λ id t e. absurd (ground arith))

  create-status : (u : Target) (st : Status) → status_at s u ≡ some st → st ≡ pending
  unfolding entry_of
  create-status (task id) st e = elim (Option-cases (get id s.tasks)) [
    | inl absent ↦ absurd (ground arith)
    | inr (t, there) ↦ ground (arith, starts id t there)
  ]
  create-status (step n) st e = ground (arith, new_step_status n, create_run_state-ok i now h)
  create-status (review d) st e = ground (arith, new_review_status d, create_run_state-ok i now h)

  create-IsJournaled : IsJournaled s
  unfolding replay
  create-IsJournaled u st e =
      subst (λ es. Legal (target_name u) pending es × (replay (target_name u) pending es ≡ st))
        (sym (create_run_state-ok i now h).first)
        (rw (run-NamesNoTarget u, Legal) tt, rw (run-NamesNoTarget u) (sym (create-status u st e)))

  create-Inv : Inv s
  unfolding replay eq_text
  create-Inv =
      let c = create_run_state-ok i now h in
      record {
        tasks_sound = λ id t e. record {
          committed = λ f. ground (arith, starts id t e);
          confident = λ f. ground (arith, starts id t e);
        };
        steps_sound = λ n f. absurd (ground (arith, new_step_confidence n, c.steps_new));
        secured = ground (arith, c.reviews_new);
        paused = rw (c.running, c.first);
      }

-- In every state that an execution reaches, a task that is done has a commit, only finished tasks and
-- the finished step of the fixes have a confidence, the security review is not skipped, and the state
-- is paused exactly when the last pause event of its journal opens a pause.
pub Reach-Inv : {s : RunState} → Reach s → Inv s
Reach-Inv (created i now {s} h) = create-Inv i now s h
Reach-Inv (set {s} r target o now h) = apply_set-Inv s o now target h (Reach-Inv r)
Reach-Inv (paused {s} r until why now h) = apply_pause-Inv s now until why h (Reach-Inv r)
Reach-Inv (resumed {s} r why now h) = apply_resume-Inv s now why h (Reach-Inv r)
Reach-Inv (overridden {s} r reason commit now h) =
    apply_full_suite_override-Inv s now reason commit h (Reach-Inv r)

-- In every state that an execution reaches, the journal replayed from the creation gives every step,
-- task and review its recorded status, and every event of a target leaves the status at which the
-- replay stands by staying or by a move of TRANSITIONS.
pub Reach-IsJournaled : {s : RunState} → Reach s → IsJournaled s
Reach-IsJournaled (created i now {s} h) = create-IsJournaled i now s h
Reach-IsJournaled (set {s} r target o now h) =
    apply_set-IsJournaled now target s o h (Reach-IsJournaled r)
Reach-IsJournaled (paused {s} r until why now h) =
    apply_pause-IsJournaled s now until why h (Reach-IsJournaled r)
Reach-IsJournaled (resumed {s} r why now h) =
    apply_resume-IsJournaled s now why h (Reach-IsJournaled r)
Reach-IsJournaled (overridden {s} r reason commit now h) =
    apply_full_suite_override-IsJournaled s now reason commit h (Reach-IsJournaled r)
