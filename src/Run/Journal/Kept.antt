-- ===== src/Run/Journal/Kept.antt =====
-- src/run/state.ts: the operations and the journal.
use agent_pipeline_v.Base.{
  ℕ, ◌≡◌, refl, sym, true, false, Option, none, some, List, [], ◌∷◌, ◌++◌, arith, Text, ok,
  Bool-cases, Option-cases, inl, inr, eq_text, if◌then◌else◌, eq_text_iff, ◌∙◌, subst, ap,
}
use agent_pipeline_v.Run.State.{Status, Event, RunState, pending, Pause, data_model}
use agent_pipeline_v.Run.Target.{
  Target, step, task, review, target_name, pause_target, full_suite_override_target, same_target,
}
use agent_pipeline_v.Run.Set.{write_entry, end_pause, ended_pause, set_state, set_event, apply_set}
use agent_pipeline_v.Run.Check.{SetOptions, entry_of, check_move}
use agent_pipeline_v.Run.Set.Inversion.{check_set-ok, apply_set-ok}
use agent_pipeline_v.Run.Journal.{
  replay, allowed, Legal, replay-append, Legal-append_other, Legal-append_own, status_at,
  status_at-write, status_after,
}

-- At every target that the state has: its events form a path of TRANSITIONS from `pending`, which
-- ends at the status of the entry.
abbrev pub Agrees : RunState → Target → Type 0
Agrees s u =
    (st : Status)
    → status_at s u ≡ some st
    → Legal (target_name u) pending s.events × (replay (target_name u) pending s.events ≡ st)

abbrev pub IsJournaled : RunState → Type 0
IsJournaled s = (u : Target) → Agrees s u

-- The name is that of no step, task or review.
abbrev pub NamesNoTarget : Text → Type 0
NamesNoTarget name = (u : Target) → eq_text name (target_name u) ≡ false

pub pause-NamesNoTarget : NamesNoTarget pause_target
unfolding eq_text
pause-NamesNoTarget (task id) = refl
pause-NamesNoTarget (review d) = refl
pause-NamesNoTarget (step data_model) = refl
pause-NamesNoTarget (step _) = refl

pub override-NamesNoTarget : NamesNoTarget full_suite_override_target
unfolding eq_text
override-NamesNoTarget (task id) = refl
override-NamesNoTarget (review d) = refl
override-NamesNoTarget (step data_model) = refl
override-NamesNoTarget (step _) = refl

-- An event that names no target, with the entries as they were.
pub keep_journal :
    (s t : RunState) (e : Event)
    → NamesNoTarget e.target
    → t.events ≡ s.events ++ e ∷ []
    → ((u : Target) → status_at t u ≡ status_at s u)
    → IsJournaled s
    → IsJournaled t
keep_journal s t e foreign added same j u st h =
    let name = target_name u in
    let (legal, last) = j u st (sym (same u) ∙ h) in
    subst (λ es. Legal name pending es × (replay name pending es ≡ st)) (sym added)
      (
        Legal-append_other name e pending s.events (foreign u) legal,
        rw (replay-append name e pending s.events, foreign u) last,
      )

-- An event of one target, by an allowed move from the status at which the target stands.
pub move_journal :
    (s t : RunState) (e : Event) (target : Target) (from : Status)
    → e.target ≡ target_name target
    → e.from ≡ some from
    → allowed from e.to ≡ true
    → status_at s target ≡ some from
    → t.events ≡ s.events ++ e ∷ []
    → ((u : Target) → status_at t u ≡ (if same_target target u then some e.to else status_at s u))
    → IsJournaled s
    → IsJournaled t
move_journal s t e target from named left move found added after j u st h =
    let name = target_name u in
    subst (λ es. Legal name pending es × (replay name pending es ≡ st)) (sym added)
      (elim (Bool-cases (same_target target u)) [
        | inl own ↦
            let same : target_name target ≡ name = (eq_text_iff (target_name target) name).0 own in
            let (legal, last) =
              subst (λ n. Legal n pending s.events × (replay n pending s.events ≡ from)) same
                (j target from found) in
            let hit : eq_text e.target name ≡ true = rw named own in
            let to : e.to ≡ st = ground (arith, after u) in
            (
              Legal-append_own name e pending s.events hit (rw last left) (rw last move) legal,
              rw (replay-append name e pending s.events, hit) to,
            )
        | inr other ↦
            let (legal, last) = j u st (ground (arith, after u)) in
            let miss : eq_text e.target name ≡ false = rw named other in
            (
              Legal-append_other name e pending s.events miss legal,
              rw (replay-append name e pending s.events, miss) last,
            )
      ])

events-write :
    (o : SetOptions) (now : ℕ) (t : Target) (s : RunState)
    → (write_entry o now t s).events ≡ s.events
unfolding write_entry
events-write o now (step n) s = refl
events-write o now (review d) s = refl
events-write o now (task id) s = ground arith

status_at-end_pause :
    (now : ℕ) (t u : Target) (s : RunState) → status_at (end_pause now t s) u ≡ status_at s u
unfolding end_pause entry_of
status_at-end_pause now t (step n) s = ground arith
status_at-end_pause now t (review d) s = ground arith
status_at-end_pause now t (task id) s = ground arith

status_at-set :
    (s : RunState) (t u : Target) (from : Status) (forced : Option (List Text)) (o : SetOptions)
    (now : ℕ)
    → status_at (set_state s t from forced o now) u
      ≡ status_at (write_entry o now t (end_pause now t s)) u
unfolding set_state entry_of
status_at-set s t (step n) from forced o now = refl
status_at-set s t (review n) from forced o now = refl
status_at-set s t (task n) from forced o now = refl

check_move-allowed :
    (t : Target) (from : Status) (c : Option Text) (o : SetOptions)
    → check_move t from c o ≡ ok tt
    → allowed from o.status ≡ true
unfolding check_move
check_move-allowed t from c o h = ground arith

module _ (now : ℕ) (t : Target) (s : RunState) where
  end_pause-none : s.pause ≡ none → end_pause now t s ≡ s
  unfolding end_pause
  end_pause-none h = ground arith

  end_pause-some :
      (p : Pause)
      → s.pause ≡ some p
      → (end_pause now t s).events ≡ s.events ++ ended_pause now t ∷ []
  unfolding end_pause
  end_pause-some p h = ground arith

  end_pause-IsJournaled : IsJournaled s → IsJournaled (end_pause now t s)
  end_pause-IsJournaled j = elim (Option-cases s.pause) [
    | inl h ↦ subst IsJournaled (sym (end_pause-none h)) j
    | inr (p, h) ↦
        keep_journal s (end_pause now t s) (ended_pause now t) pause-NamesNoTarget
          (end_pause-some p h) (λ u. status_at-end_pause now t u s) j
  ]

  added :
      (forced : Option (List Text)) (from : Status) (o : SetOptions)
      → (set_state s t from forced o now).events
        ≡ (end_pause now t s).events ++ set_event now t from forced o ∷ []
  unfolding set_state
  added forced from o =
      ap (λ es. es ++ set_event now t from forced o ∷ []) (events-write o now t (end_pause now t s))

  after_found :
      (o : SetOptions) (s0 : RunState) {from : Status}
      → status_at s0 t ≡ some from
      → (u : Target)
      → status_after o now s0 t u ≡ (if same_target t u then some o.status else status_at s0 u)
  after_found o s0 found u =
      ap
        (λ (x : Option Status).
          if same_target t u
          then elim x [ none ↦ none | some _ ↦ some o.status ]
          else status_at s0 u)
        found

  pub apply_set-IsJournaled :
      (o : SetOptions) {s' : RunState} {from : Status} {e : Event}
      → apply_set s t o now ≡ ok (s', from, e)
      → IsJournaled s
      → IsJournaled s'
  apply_set-IsJournaled o {s'} {from} {e} h j =
      let (forced, held, same, event) = apply_set-ok s t o now h in
      let checked = check_set-ok s t o held in
      let s0 = end_pause now t s in
      let found : status_at s t ≡ some from = rw (checked.entry, status_at) in
      let found0 : status_at s0 t ≡ some from = status_at-end_pause now t t s ∙ found in
      subst IsJournaled (sym same) (
        move_journal s0 (set_state s t from forced o now) (set_event now t from forced o) t from
          refl refl (check_move-allowed t from checked.commit o checked.move) found0
          (added forced from o)
          (λ u.
            status_at-set s t u from forced o now
            ∙ status_at-write o now t u s0
            ∙ after_found o s0 found0 u)
          (end_pause-IsJournaled j))
