-- ===== src/Run/Invariant/Kept.antt =====
-- src/run/state.ts: the operations and the invariant of the state.
use agent_pipeline_v.Base.{
  ℕ, ◌≡◌, ◌≢◌, sym, subst, false, Option, none, some, List, [], ◌∷◌, ◌++◌, arith, Text, ok, eq_text,
  eq_text_iff, Option-cases, inl, inr, is_some, if◌then◌else◌, ◌∙◌, trim,
}
use agent_pipeline_v.Base.Dict.{get}
use agent_pipeline_v.Run.State.{
  Status, StepName, Event, RunState, pending, running, skipped, fixes, securite, get_step,
  same_status,
}
use agent_pipeline_v.Run.Target.{Target, step, task, review, target_name, pause_target}
use agent_pipeline_v.Run.Set.{
  write_task, write_step, end_pause, ended_pause, write_entry, set_state, set_event, apply_set,
}
use agent_pipeline_v.Run.Check.{SetOptions, check_move, check_confidence}
use agent_pipeline_v.Run.Set.Inversion.{Checked, check_set-ok, apply_set-ok}
use agent_pipeline_v.Run.Pause.{
  apply_pause, apply_resume, apply_full_suite_override, pause_event, pause_note, resume_note,
  override_event,
}
use agent_pipeline_v.Run.Pause.Journal.{
  apply_pause-ok, apply_resume-ok, apply_full_suite_override-ok,
}
use agent_pipeline_v.Run.Journal.{replay-append}
use agent_pipeline_v.Run.Journal.Kept.{pause-NamesNoTarget}
use agent_pipeline_v.Run.Invariant.{
  TaskIsSound, AllTasks, StepIsSound, pause_open, Inv, tasks_after, steps_after, tasks-set,
  steps-set, security-set, get_step-put, AllTasks-put, write_task-TaskIsSound,
}

target_is_no_pause : (t : Target) → eq_text (target_name t) pause_target ≡ false
target_is_no_pause t = ground (
  arith,
  pause-NamesNoTarget t,
  eq_text_iff (target_name t) pause_target,
  eq_text_iff pause_target (target_name t),
)

pause_open-append :
    (e : Event) (es : List Event)
    → pause_open (es ++ e ∷ [])
      ≡ (if eq_text e.target pause_target then same_status e.to pending else pause_open es)
pause_open-append e es = ground (arith, replay-append pause_target e running es)

module _ (s : RunState) (t : Target) (o : SetOptions) (now : ℕ) where
  pause-end_pause :
      is_some s.pause ≡ pause_open s.events
      → ((end_pause now t s).pause ≡ none) × (pause_open (end_pause now t s).events ≡ false)
  unfolding end_pause eq_text
  pause-end_pause h = ground (arith, pause_open-append (ended_pause now t) s.events)

  module _ (from : Status) (forced : Option (List Text)) where
    pause-set :
        is_some s.pause ≡ pause_open s.events
        → is_some (set_state s t from forced o now).pause
          ≡ pause_open (set_state s t from forced o now).events
    unfolding set_state write_entry
    pause-set h = ground (
      arith,
      pause-end_pause h,
      target_is_no_pause t,
      pause_open-append (set_event now t from forced o) (end_pause now t s).events,
    )

module _ (s : RunState) (o : SetOptions) (now : ℕ) where
  tasks_after_sound :
      (t : Target) {from : Status} {forced : Option (List Text)}
      → Checked s t o from forced
      → AllTasks TaskIsSound s.tasks
      → AllTasks TaskIsSound (tasks_after o now t s.tasks)
  tasks_after_sound (step n) c all = all
  tasks_after_sound (review d) c all = all
  tasks_after_sound (task id) c all = elim (Option-cases (get id s.tasks)) [
    | inl e ↦ rw (e, tasks_after) all
    | inr (u, e) ↦
        rw (e, tasks_after)
          (AllTasks-put o now id (write_task o now u) s.tasks
            (write_task-TaskIsSound s id o now u e c (all id u e)) all)
  ]

  write_step_sound :
      (n : StepName) {from : Status} {forced : Option (List Text)}
      → Checked s (step n) o from forced
      → StepIsSound n (get_step n s.steps)
      → StepIsSound n (write_step o now (get_step n s.steps))
  unfolding check_confidence
  write_step_sound fixes c sound h = ground (arith, c.confidence_ok)
  write_step_sound _ c sound h = ground (arith, c.confidence_ok)

  steps_after_sound :
      (t : Target) {from : Status} {forced : Option (List Text)}
      → Checked s t o from forced
      → ((n : StepName) → StepIsSound n (get_step n s.steps))
      → (n : StepName) → StepIsSound n (get_step n (steps_after o now t s.steps))
  steps_after_sound (task id) c all n = all n
  steps_after_sound (review d) c all n = all n
  steps_after_sound (step m) c all n =
      elim (get_step-put m n (write_step o now (get_step m s.steps)) s.steps) [
        | inl (same, e) ↦ rw e (
            subst (λ k. StepIsSound k (write_step o now (get_step m s.steps))) same
              (write_step_sound m c (all m)))
        | inr e ↦ rw e (all n)
      ]

  check_move-security :
      (t : Target) {from : Status} {forced : Option (List Text)}
      → Checked s t o from forced
      → t ≡ review securite
      → o.status ≢ skipped
  unfolding check_move
  check_move-security (task id) c e h = cc
  check_move-security (step n) c e h = cc
  check_move-security (review d) c e h = ground (arith, c.move)

  security_after :
      (t : Target) {from : Status} {forced : Option (List Text)}
      → Checked s t o from forced
      → s.reviews.securite.status ≢ skipped
      → (set_state s t from forced o now).reviews.securite.status ≢ skipped
  security_after t {from} {forced} c h = elim (security-set o now s from forced t) [
    | inl e ↦ rw e h
    | inr (own, e) ↦ rw e (check_move-security t c own)
  ]

  pub apply_set-Inv :
      (t : Target) {s' : RunState} {from : Status} {e : Event}
      → apply_set s t o now ≡ ok (s', from, e)
      → Inv s
      → Inv s'
  apply_set-Inv t {s'} {from} {e} h v =
      let (forced, held, same, event) = apply_set-ok s t o now h in
      let c = check_set-ok s t o held in
      subst Inv (sym same) (record {
        tasks_sound = rw (tasks-set o now s from forced t) (tasks_after_sound t c v.tasks_sound);
        steps_sound =
            λ n. rw (steps-set o now s from forced t) (steps_after_sound t c v.steps_sound n);
        secured = security_after t c v.secured;
        paused = pause-set s t o now from forced v.paused;
      })

module _ (s : RunState) (now : ℕ) {t : RunState} {e : Event} where
  pub apply_pause-Inv :
      (until : ℕ) (note : Option Text) → apply_pause s until note now ≡ ok (t, e) → Inv s → Inv t
  unfolding eq_text
  apply_pause-Inv until note h v = subst Inv (sym (apply_pause-ok s now until note h).1) (record {
    tasks_sound = v.tasks_sound;
    steps_sound = v.steps_sound;
    secured = v.secured;
    paused = sym (
        pause_open-append (pause_event now running pending (some until) (pause_note note s))
          s.events);
  })

  pub apply_resume-Inv : (note : Option Text) → apply_resume s note now ≡ ok (t, e) → Inv s → Inv t
  unfolding eq_text
  apply_resume-Inv note h v = subst Inv (sym (apply_resume-ok s now note h).1) (record {
    tasks_sound = v.tasks_sound;
    steps_sound = v.steps_sound;
    secured = v.secured;
    paused =
        sym (pause_open-append (pause_event now pending running none (resume_note note)) s.events);
  })

  pub apply_full_suite_override-Inv :
      (reason : Text) (commit : Option Text)
      → apply_full_suite_override s reason commit now ≡ ok (t, e)
      → Inv s
      → Inv t
  unfolding eq_text
  apply_full_suite_override-Inv reason commit h v =
      subst Inv (sym (apply_full_suite_override-ok s now reason commit h)) (record {
        tasks_sound = v.tasks_sound;
        steps_sound = v.steps_sound;
        secured = v.secured;
        paused =
            v.paused ∙ sym (pause_open-append (override_event now (trim reason) commit) s.events);
      })
