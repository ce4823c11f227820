-- ===== src/Run/Invariant.antt =====
-- src/run/state.ts: the invariant of a state besides its journal, and what a call leaves of each part.
pub mod Kept
use agent_pipeline_v.Base.{
  ℕ, ◌≡◌, ◌≢◌, refl, sym, ap, subst, Bool, true, false, Option, none, some, List, [], ◌∷◌, ◌++◌,
  arith, Text, Result, ok, err, eq_text, eq_text_iff, Option-cases, Bool-cases, inl, inr, ◌⊎◌,
  is_some, if◌then◌else◌, ◌∙◌, trim,
}
use agent_pipeline_v.Base.Dict.{Dict, get, put, get-put}
use agent_pipeline_v.Run.State.{
  Status, StepName, ReviewDomain, TaskEntry, StepEntry, Steps, Reviews, Event, RunState, Pause,
  pending, running, done, skipped, data_model, plan, integration, reviews, fixes, delivery,
  securite, fidelite, donnees, rgpd, get_step, put_step, get_review, put_review, same_status,
  transition,
}
use agent_pipeline_v.Run.Target.{
  Target, step, task, review, target_name, pause_target, full_suite_override_target, same_step,
}
use agent_pipeline_v.Run.Set.{
  write_task, write_step, write_entry, end_pause, ended_pause, set_state, set_event, apply_set,
}
use agent_pipeline_v.Run.Check.{
  SetOptions, given, check_entry, check_task, check_start, check_move, check_confidence, entry_of,
}
use agent_pipeline_v.Run.Set.Inversion.{Checked, check_set-ok, apply_set-ok}
use agent_pipeline_v.Run.Journal.{replay, replay-append}
use agent_pipeline_v.Run.Journal.Kept.{pause-NamesNoTarget}

-- A finished task has the commit that carries it, and only finished work has a confidence.
pub record TaskIsSound (t : TaskEntry) : Type 0 where
  pub committed : t.status ≡ done → given t.commit ≡ true
  pub confident : is_some t.confidence ≡ true → t.status ≡ done

abbrev pub AllTasks : (TaskEntry → Type 0) → Dict TaskEntry → Type 0
AllTasks P m = (id : Text) (t : TaskEntry) → get id m ≡ some t → P t

abbrev pub StepIsSound : StepName → StepEntry → Type 0
StepIsSound n e = is_some e.confidence ≡ true → (e.status ≡ done) × (n ≡ fixes)

-- Whether the journal's last word about the pauses is that one began.
abbrev pub pause_open : List Event → Bool
pause_open es = same_status (replay pause_target running es) pending

pub record Inv (s : RunState) : Type 0 where
  pub tasks_sound : AllTasks TaskIsSound s.tasks
  pub steps_sound : (n : StepName) → StepIsSound n (get_step n s.steps)
  pub secured : s.reviews.securite.status ≢ skipped
  pub paused : is_some s.pause ≡ pause_open s.events

module _ (o : SetOptions) (now : ℕ) where
  -- What a call leaves of the tasks, the steps and the reviews.
  abbrev pub tasks_after : Target → Dict TaskEntry → Dict TaskEntry
  tasks_after (task id) m = elim (get id m) [ none ↦ m | some t ↦ put id (write_task o now t) m ]
  tasks_after _ m = m

  abbrev pub steps_after : Target → Steps → Steps
  steps_after (step n) st = put_step n (write_step o now (get_step n st)) st
  steps_after _ st = st

  module _ (s : RunState) (from : Status) (forced : Option (List Text)) where
    pub tasks-set : (t : Target) → (set_state s t from forced o now).tasks ≡ tasks_after t s.tasks
    unfolding set_state write_entry end_pause
    tasks-set (task id) = ground arith
    tasks-set (step n) = ground arith
    tasks-set (review d) = ground arith

    steps-end_pause : (t : Target) → (end_pause now t s).steps ≡ s.steps
    unfolding end_pause
    steps-end_pause t = ground arith

    pub steps-set : (t : Target) → (set_state s t from forced o now).steps ≡ steps_after t s.steps
    unfolding set_state write_entry
    steps-set (task id) = ground (arith, steps-end_pause (task id))
    steps-set (step n) =
        ap (λ (st : Steps). put_step n (write_step o now (get_step n st)) st)
          (steps-end_pause (step n))
    steps-set (review d) = steps-end_pause (review d)

    security-end_pause :
        (t : Target) → (end_pause now t s).reviews.securite.status ≡ s.reviews.securite.status
    unfolding end_pause
    security-end_pause t = ground arith

    pub security-set :
        (t : Target)
        → ((set_state s t from forced o now).reviews.securite.status ≡ s.reviews.securite.status)
          ⊎ ((t ≡ review securite)
              × ((set_state s t from forced o now).reviews.securite.status ≡ o.status))
    unfolding set_state write_entry
    security-set (task id) = inl (ground (arith, security-end_pause (task id)))
    security-set (step n) = inl (security-end_pause (step n))
    security-set (review securite) = inr (refl, refl)
    security-set (review _) = inl (security-end_pause _)

pub get_step-put :
    (n m : StepName) (e : StepEntry) (st : Steps)
    → ((n ≡ m) × (get_step m (put_step n e st) ≡ e))
      ⊎ (get_step m (put_step n e st) ≡ get_step m st)
get_step-put data_model data_model e st = inl (refl, refl)
get_step-put data_model plan e st = inr refl
get_step-put data_model integration e st = inr refl
get_step-put data_model reviews e st = inr refl
get_step-put data_model fixes e st = inr refl
get_step-put data_model delivery e st = inr refl
get_step-put plan data_model e st = inr refl
get_step-put plan plan e st = inl (refl, refl)
get_step-put plan integration e st = inr refl
get_step-put plan reviews e st = inr refl
get_step-put plan fixes e st = inr refl
get_step-put plan delivery e st = inr refl
get_step-put integration data_model e st = inr refl
get_step-put integration plan e st = inr refl
get_step-put integration integration e st = inl (refl, refl)
get_step-put integration reviews e st = inr refl
get_step-put integration fixes e st = inr refl
get_step-put integration delivery e st = inr refl
get_step-put reviews data_model e st = inr refl
get_step-put reviews plan e st = inr refl
get_step-put reviews integration e st = inr refl
get_step-put reviews reviews e st = inl (refl, refl)
get_step-put reviews fixes e st = inr refl
get_step-put reviews delivery e st = inr refl
get_step-put fixes data_model e st = inr refl
get_step-put fixes plan e st = inr refl
get_step-put fixes integration e st = inr refl
get_step-put fixes reviews e st = inr refl
get_step-put fixes fixes e st = inl (refl, refl)
get_step-put fixes delivery e st = inr refl
get_step-put delivery data_model e st = inr refl
get_step-put delivery plan e st = inr refl
get_step-put delivery integration e st = inr refl
get_step-put delivery reviews e st = inr refl
get_step-put delivery fixes e st = inr refl
get_step-put delivery delivery e st = inl (refl, refl)

module _ {P : TaskEntry → Type 0} (o : SetOptions) (now : ℕ) where
  pub AllTasks-put :
      (id : Text) (t : TaskEntry) (m : Dict TaskEntry)
      → P t
      → AllTasks P m
      → AllTasks P (put id t m)
  AllTasks-put id t m p all j u h = elim (Bool-cases (eq_text id j)) [
    | inl e ↦ let same : t ≡ u = ground (arith, get-put id j t m) in subst P same p
    | inr e ↦ all j u (ground (arith, get-put id j t m))
  ]

module _ (s : RunState) (id : Text) (o : SetOptions) (now : ℕ) where
  pub write_task-TaskIsSound :
      (t : TaskEntry) {from : Status} {forced : Option (List Text)}
      → get id s.tasks ≡ some t
      → Checked s (task id) o from forced
      → TaskIsSound t
      → TaskIsSound (write_task o now t)
  unfolding check_entry check_task check_confidence
  write_task-TaskIsSound t found c sound = record {
    committed = λ h. ground (arith, c.forced_ok);
    confident = λ h. ground (arith, c.confidence_ok);
  }
