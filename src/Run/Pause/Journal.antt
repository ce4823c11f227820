-- ===== src/Run/Pause/Journal.antt =====
-- src/run/state.ts: the pauses, resumptions and full suite overrides, and the journal.
use agent_pipeline_v.Base.{
  ℕ, ◌≡◌, refl, sym, subst, Option, none, some, arith, Text, ok, bind-ok, trim, Option-cases, inl,
  inr, throw_if, is_empty, length, ltb, leb, ◌||◌, ◌<◌,
}
use agent_pipeline_v.Run.State.{RunState, Event, Pause, pending, running}
use agent_pipeline_v.Run.Target.{Target, step, task, review}
use agent_pipeline_v.Run.Schema.{
  parse_state, parse_state-ok, nothing_to_pause, pause_in_the_past, override_reason,
}
use agent_pipeline_v.Run.Check.{entry_of}
use agent_pipeline_v.Run.Journal.{status_at}
use agent_pipeline_v.Run.Journal.Kept.{
  IsJournaled, keep_journal, pause-NamesNoTarget, override-NamesNoTarget,
}
use agent_pipeline_v.Run.Pause.{
  apply_pause, apply_resume, apply_full_suite_override, paused_state, resumed_state,
  overridden_state, pause_event, pause_note, resume_note, override_event, current_step, is_end,
  max_override_reason,
}

module _ (s : RunState) (now : ℕ) {t : RunState} {e : Event} where
  pub apply_pause-ok :
      (until : ℕ) (note : Option Text)
      → apply_pause s until note now ≡ ok (t, e)
      → (now < until) × (t ≡ paused_state s until note now)
  unfolding apply_pause
  apply_pause-ok until note h =
      let (_, unfinished, h1) =
        bind-ok (throw_if (is_end (current_step s).0) nothing_to_pause) _ h in
      let (_, future, h2) = bind-ok (throw_if (leb until now) pause_in_the_past) _ h1 in
      let (next, parsed, h3) = bind-ok (parse_state (paused_state s until note now)) _ h2 in
      let same = parse_state-ok (paused_state s until note now) parsed in
      (ground arith, ground arith)

  pub apply_resume-ok :
      (note : Option Text)
      → apply_resume s note now ≡ ok (t, e)
      → ((p : Pause) × (s.pause ≡ some p)) × (t ≡ resumed_state s note now)
  unfolding apply_resume
  apply_resume-ok note h = elim (Option-cases s.pause) [
    | inl absent ↦ absurd (ground arith)
    | inr (p, there) ↦
        let (next, parsed, h1) =
          bind-ok (parse_state (resumed_state s note now)) _ (rw (there, apply_resume) at h) in
        let same = parse_state-ok (resumed_state s note now) parsed in ((p, there), ground arith)
  ]

  pub apply_full_suite_override-ok :
      (reason : Text) (commit : Option Text)
      → apply_full_suite_override s reason commit now ≡ ok (t, e)
      → t ≡ overridden_state s (trim reason) commit now
  unfolding apply_full_suite_override
  apply_full_suite_override-ok reason commit h =
      let (_, good, h1) =
        bind-ok
          (throw_if (is_empty (trim reason) || ltb max_override_reason (length (trim reason)))
            override_reason)
          _ h in
      let (next, parsed, h2) =
        bind-ok (parse_state (overridden_state s (trim reason) commit now)) _ h1 in
      let same = parse_state-ok (overridden_state s (trim reason) commit now) parsed in ground arith

status_at-paused :
    (s : RunState) (until now : ℕ) (note : Option Text) (u : Target)
    → status_at (paused_state s until note now) u ≡ status_at s u
unfolding entry_of
status_at-paused s until now n (step x) = refl
status_at-paused s until now n (task x) = refl
status_at-paused s until now n (review x) = refl

status_at-resumed :
    (s : RunState) (now : ℕ) (note : Option Text) (u : Target)
    → status_at (resumed_state s note now) u ≡ status_at s u
unfolding entry_of
status_at-resumed s now n (step x) = refl
status_at-resumed s now n (task x) = refl
status_at-resumed s now n (review x) = refl

status_at-overridden :
    (s : RunState) (now : ℕ) (reason : Text) (commit : Option Text) (u : Target)
    → status_at (overridden_state s reason commit now) u ≡ status_at s u
unfolding entry_of
status_at-overridden s now reason commit (step n) = refl
status_at-overridden s now reason commit (task n) = refl
status_at-overridden s now reason commit (review n) = refl

module _ (s : RunState) (now : ℕ) {t : RunState} {e : Event} where
  pub apply_pause-IsJournaled :
      (until : ℕ) (note : Option Text)
      → apply_pause s until note now ≡ ok (t, e)
      → IsJournaled s
      → IsJournaled t
  apply_pause-IsJournaled until note h j =
      subst IsJournaled (sym (apply_pause-ok s now until note h).1) (
        keep_journal s _ (pause_event now running pending (some until) (pause_note note s))
          pause-NamesNoTarget refl (status_at-paused s until now note) j)

  pub apply_resume-IsJournaled :
      (note : Option Text) → apply_resume s note now ≡ ok (t, e) → IsJournaled s → IsJournaled t
  apply_resume-IsJournaled note h j = subst IsJournaled (sym (apply_resume-ok s now note h).1) (
      keep_journal s _ (pause_event now pending running none (resume_note note)) pause-NamesNoTarget
        refl (status_at-resumed s now note) j)

  pub apply_full_suite_override-IsJournaled :
      (reason : Text) (commit : Option Text)
      → apply_full_suite_override s reason commit now ≡ ok (t, e)
      → IsJournaled s
      → IsJournaled t
  apply_full_suite_override-IsJournaled reason commit h j =
      subst IsJournaled (sym (apply_full_suite_override-ok s now reason commit h)) (
        keep_journal s _ (override_event now (trim reason) commit) override-NamesNoTarget refl
          (status_at-overridden s now (trim reason) commit) j)
