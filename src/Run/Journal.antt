-- ===== src/Run/Journal.antt =====
-- The journal of an execution read back: the status that its events give to a target, and whether
-- they form a path of TRANSITIONS. What `apply_set` writes, seen through the targets.
pub mod Kept
use agent_pipeline_v.Base.{
  ◌≡◌, refl, Bool, true, false, ◌||◌, Option, none, some, List, [], ◌∷◌, ◌++◌, arith, Text, eq_text,
  eq_text_iff, eq_text_refl, if◌then◌else◌, Bool-cases, Option-cases, inl, inr, Result, ok, err, ℕ,
  is_some, ◌⊎◌,
}
use agent_pipeline_v.Base.Dict.{get, put, get-put}
use agent_pipeline_v.Run.State.{
  Status, StepName, ReviewDomain, Event, RunState, TaskEntry, pending, running, transition,
  same_status, data_model, plan, integration, reviews, fixes, delivery, securite, fidelite, donnees,
  rgpd,
}
use agent_pipeline_v.Run.Target.{Target, step, task, review, target_name, same_target, pause_target}
use agent_pipeline_v.Run.Set.{write_entry, write_task, end_pause, set_state, set_event, apply_set}
use agent_pipeline_v.Run.Check.{
  SetOptions, entry_of, check_set, check_move, check_entry, check_confidence,
}
use agent_pipeline_v.Run.Schema.{Error, parse_state, parse_state-ok}

-- The status that the events give to a target that starts at `st`.
unfoldable pub replay : Text → Status → List Event → Status
replay name st [] = st
replay name st (e ∷ es) = replay name (if eq_text e.target name then e.to else st) es

-- The same status again, or a move that TRANSITIONS allows.
abbrev pub allowed : Status → Status → Bool
allowed from to = same_status from to || transition from to

-- Every event of the target leaves the status at which the target stands, by an allowed move.
abbrev pub Legal : Text → Status → List Event → Type 0
Legal name st [] = Unit
Legal name st (e ∷ es) = elim (eq_text e.target name) [
  | true ↦ (e.from ≡ some st) × (allowed st e.to ≡ true) × Legal name e.to es
  | false ↦ Legal name st es
]

module _ (name : Text) (e : Event) where
  pub replay-append :
      (st : Status) (es : List Event)
      → replay name st (es ++ e ∷ []) ≡ (if eq_text e.target name then e.to else replay name st es)
  unfolding replay
  replay-append st [] = refl
  replay-append st (d ∷ es) = replay-append (if eq_text d.target name then d.to else st) es

  -- Another target's event changes nothing.
  pub Legal-append_other :
      (st : Status) (es : List Event)
      → eq_text e.target name ≡ false
      → Legal name st es
      → Legal name st (es ++ e ∷ [])
  Legal-append_other st [] h l = rw (h, Legal) tt
  Legal-append_other st (d ∷ es) h l = elim (Bool-cases (eq_text d.target name)) [
    | inl p ↦
        let l' : (d.from ≡ some st) × (allowed st d.to ≡ true) × Legal name d.to es =
          rw (p, Legal) at l in
        rw (p, Legal) (l'.0, l'.1, Legal-append_other d.to es h l'.2)
    | inr p ↦
        let l' : Legal name st es = rw (p, Legal) at l in
        rw (p, Legal) (Legal-append_other st es h l')
  ]

  pub Legal-append_own :
      (st : Status) (es : List Event)
      → eq_text e.target name ≡ true
      → e.from ≡ some (replay name st es)
      → allowed (replay name st es) e.to ≡ true
      → Legal name st es
      → Legal name st (es ++ e ∷ [])
  unfolding replay
  Legal-append_own st [] h f a l = rw (h, Legal) (f, a, tt)
  Legal-append_own st (d ∷ es) h f a l = elim (Bool-cases (eq_text d.target name)) [
    | inl p ↦
        let l' : (d.from ≡ some st) × (allowed st d.to ≡ true) × Legal name d.to es =
          rw (p, Legal) at l in
        rw (p, Legal)
          (l'.0, l'.1, Legal-append_own d.to es h (rw (p, replay) at f) (rw (p, replay) at a) l'.2)
    | inr p ↦
        let l' : Legal name st es = rw (p, Legal) at l in
        rw (p, Legal) (Legal-append_own st es h (rw (p, replay) at f) (rw (p, replay) at a) l')
  ]

-- The status of the entry that a target names.
abbrev pub status_at : RunState → Target → Option Status
status_at s t = elim (entry_of s t) [ none ↦ none | some e ↦ some e.0 ]

same_target-task : (id j : Text) → same_target (task id) (task j) ≡ eq_text id j
unfolding eq_text
same_target-task id j = refl

status_at-put :
    (o : SetOptions) (now : ℕ) (id j : Text) (s : RunState)
    → status_at (write_entry o now (task id) s) (task j) ≡ (
        if eq_text id j
        then elim (status_at s (task id)) [ none ↦ none | some _ ↦ some o.status ]
        else status_at s (task j))
unfolding write_entry entry_of
status_at-put o now id j s = elim (Option-cases (get id s.tasks)) [
  | inl e ↦ ground (arith, eq_text_iff id j)
  | inr (t, e) ↦ ground (arith, eq_text_iff id j, get-put id j (write_task o now t) s.tasks)
]

module _ (o : SetOptions) (now : ℕ) where
  -- What a call on `t` leaves at `u`.
  abbrev pub status_after : RunState → Target → Target → Option Status
  status_after s t u =
      if same_target t u
      then elim (status_at s t) [ none ↦ none | some _ ↦ some o.status ]
      else status_at s u

  status_at-step :
      (n m : StepName) (s : RunState)
      → status_at (write_entry o now (step n) s) (step m) ≡ status_after s (step n) (step m)
  unfolding write_entry entry_of eq_text
  status_at-step data_model data_model s = refl
  status_at-step data_model _ s = refl
  status_at-step plan data_model s = refl
  status_at-step plan _ s = refl
  status_at-step integration data_model s = refl
  status_at-step integration _ s = refl
  status_at-step reviews data_model s = refl
  status_at-step reviews _ s = refl
  status_at-step fixes data_model s = refl
  status_at-step fixes _ s = refl
  status_at-step delivery data_model s = refl
  status_at-step delivery _ s = refl

  status_at-review :
      (d e : ReviewDomain) (s : RunState)
      → status_at (write_entry o now (review d) s) (review e) ≡ status_after s (review d) (review e)
  unfolding write_entry entry_of eq_text
  status_at-review securite securite s = refl
  status_at-review securite _ s = refl
  status_at-review fidelite securite s = refl
  status_at-review fidelite _ s = refl
  status_at-review donnees securite s = refl
  status_at-review donnees _ s = refl
  status_at-review rgpd securite s = refl
  status_at-review rgpd _ s = refl

  step_is_no_review : (n : StepName) (d : ReviewDomain) → same_target (step n) (review d) ≡ false
  unfolding eq_text
  step_is_no_review data_model d = refl
  step_is_no_review _ d = refl

  review_is_no_step : (d : ReviewDomain) (n : StepName) → same_target (review d) (step n) ≡ false
  unfolding eq_text
  review_is_no_step d data_model = refl
  review_is_no_step d _ = refl

  step_is_no_task : (n : StepName) (id : Text) → same_target (step n) (task id) ≡ false
  unfolding eq_text
  step_is_no_task data_model id = refl
  step_is_no_task _ id = refl

  task_is_no_step : (id : Text) (n : StepName) → same_target (task id) (step n) ≡ false
  unfolding eq_text
  task_is_no_step id data_model = refl
  task_is_no_step id _ = refl

  -- The entry of the target takes the status of the call, the others keep theirs.
  pub status_at-write :
      (t u : Target) (s : RunState) → status_at (write_entry o now t s) u ≡ status_after s t u
  unfolding write_entry entry_of eq_text
  status_at-write (task id) (task j) s = status_at-put o now id j s
  status_at-write (step n) (step m) s = status_at-step n m s
  status_at-write (review d) (review e) s = status_at-review d e s
  status_at-write (step n) (task j) s = rw (step_is_no_task n j)
  status_at-write (step n) (review d) s = rw (step_is_no_review n d)
  status_at-write (review d) (step n) s = rw (review_is_no_step d n)
  status_at-write (review d) (task j) s = refl
  status_at-write (task id) (step n) s = rw (task_is_no_step id n) (ground arith)
  status_at-write (task id) (review d) s = ground arith
