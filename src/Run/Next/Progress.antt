-- ===== src/Run/Next/Progress.antt =====
-- src/run/state.ts: what `apv run next` lists when no task runs, and where an execution ends.
use agent_pipeline_v.Base.{
  ℕ, zero, suc, ◌+◌, ◌<◌, ◌≡◌, ◌↔◌, refl, Bool, true, false, ◌&&◌, not, some, List, [], ◌∷◌, arith,
  Text, eq_text, eq_text_iff, length, filter, is_empty, Bool-cases, inl, inr, ◌⊎◌, all,
}
use agent_pipeline_v.Base.Dict.{Dict, get}
use agent_pipeline_v.Run.State.{
  StepName, TaskEntry, RunState, pending, done, get_step, data_model, plan, integration, reviews,
  fixes, delivery,
}
use agent_pipeline_v.Run.Check.{IntegrationCheck, gaps_not_done, is_done}
use agent_pipeline_v.Run.Pause.{at_end, current_step, unfinished, finished, unfinished_task}
use agent_pipeline_v.Run.Create.{Reach}
use agent_pipeline_v.Run.Create.Plan.{IsPlan, Earlier, Reach-IsPlan}
use agent_pipeline_v.Run.Next.{FullSuiteMode, compute_next}
use agent_pipeline_v.Run.Readiness.{
  GitProbe, integration_check, ready_entries, awaiting_entries, pending_tasks, is_ready,
  is_awaiting, is_pending, not_integrated,
}
use agent_pipeline_v.Run.Next.Ready.{filter-filter, length-ready, length-awaiting}

length-filter-pos {ℓ} :
    {V : Type ℓ} (p : Text × V → Bool) (id : Text) (v : V) (m : Dict V)
    → get id m ≡ some v
    → p (id, v) ≡ true
    → 0 < length (filter p m)
unfolding get filter
length-filter-pos p id v [] h k = absurd (ground arith)
length-filter-pos p id v ((j, w) ∷ m) h k = elim (Bool-cases (eq_text j id)) [
  | inl own ↦
      let same : j ≡ id = (eq_text_iff j id).0 own in
      let here : w ≡ v = ground arith in
      let hit : p (j, w) ≡ true = rw (same, here) k in ground arith
  | inr other ↦ ground (arith, length-filter-pos p id v m)
]

module _ (tasks : Dict TaskEntry) where
  -- The ids of a list that name no finished task, or one whose task is pending.
  pending_gap :
      ((id : Text) (t : TaskEntry)
        → get id tasks ≡ some t
        → (t.status ≡ pending) ⊎ (t.status ≡ done))
      → (w : ℕ) (ids : List Text) → Earlier tasks w ids
      → (filter (λ d. not (is_done (get d tasks))) ids ≡ [])
        ⊎ ((id : Text) × (t : TaskEntry) × (get id tasks ≡ some t)
            × (t.wave < w)
            × (t.status ≡ pending))
  unfolding filter
  pending_gap settled w [] e = inl refl
  pending_gap settled w (d ∷ ids) e = elim (pending_gap settled w ids e.1) [
    | inr later ↦ inr later
    | inl none_later ↦ elim (settled d e.0.0 e.0.1) [
      | inl fresh ↦ inr (d, e.0.0, e.0.1, e.0.2, fresh)
      | inr over ↦ inl (ground (arith, e.0.1))
    ]
  ]

  module _ (plan : IsPlan tasks)
      (settled : (id : Text) (t : TaskEntry)
        → get id tasks ≡ some t
        → (t.status ≡ pending) ⊎ (t.status ≡ done)) where
    -- The pending task of the least wave waits for no dependency.
    startable :
        (n : ℕ) (id : Text) (t : TaskEntry)
        → t.wave < n
        → get id tasks ≡ some t
        → t.status ≡ pending
        → (j : Text) × (u : TaskEntry) × (get j tasks ≡ some u)
          × (u.status ≡ pending)
          × (gaps_not_done tasks u ≡ [])
    unfolding gaps_not_done
    startable zero id t h there fresh = absurd (omega arith)
    startable (suc n) id t h there fresh =
        elim (pending_gap settled t.wave t.depends_on (plan.earlier id t there)) [
          | inl free ↦ (id, t, there, fresh, free)
          | inr (j, u, known, lower, waits) ↦ startable n j u (omega arith) known waits
        ]

module _ (s : RunState) (check : IntegrationCheck) (id : Text) (t : TaskEntry)
    (there : get id s.tasks ≡ some t) (fresh : t.status ≡ pending)
    (free : gaps_not_done s.tasks t ≡ []) where
  ready_pos : is_empty (not_integrated s check (id, t)) ≡ true → 0 < length (ready_entries s check)
  unfolding ready_entries pending_tasks
  ready_pos h = rw filter-filter (
      length-filter-pos (λ e. is_pending e && is_ready s check e) id t s.tasks there (ground arith))

  awaiting_pos :
      is_empty (not_integrated s check (id, t)) ≡ false → 0 < length (awaiting_entries s check)
  unfolding awaiting_entries pending_tasks
  awaiting_pos h = rw filter-filter (
      length-filter-pos (λ e. is_pending e && is_awaiting s check e) id t s.tasks there
        (ground arith))

-- In a state that an execution reaches, when every task is pending or done and one is pending, `apv run
-- next` lists a task that is ready or one that awaits an integration.
pub compute_next_progress :
    (s : RunState) (probe : GitProbe) (mode : FullSuiteMode) (id : Text) (t : TaskEntry)
    → Reach s
    → ((j : Text) (u : TaskEntry)
        → get j s.tasks ≡ some u
        → (u.status ≡ pending) ⊎ (u.status ≡ done))
    → get id s.tasks ≡ some t
    → t.status ≡ pending
    → let next = compute_next s probe mode in 0 < length next.ready_items + length next.awaiting
unfolding compute_next
compute_next_progress s probe mode id t reached settled there fresh =
    let check = integration_check s probe in
    let (j, u, known, waits, free) =
      startable s.tasks (Reach-IsPlan reached) settled (suc t.wave) id t (omega arith) there
        fresh in
    elim (Bool-cases (is_empty (not_integrated s check (j, u)))) [
      | inl whole ↦
          let listed = ready_pos s check j u known waits free whole in
          omega (arith, length-ready s check)
      | inr lacking ↦
          let listed = awaiting_pos s check j u known waits free lacking in
          omega (arith, length-awaiting s check)
    ]

all-finished :
    (m : Dict TaskEntry)
    → (is_empty (filter unfinished_task m) ≡ true) ↔ (all (λ e. finished e.1.status) m ≡ true)
unfolding filter all
all-finished [] = (λ h. h, λ h. h)
all-finished (e ∷ m) = (λ h. ground (arith, all-finished m), λ h. ground (arith, all-finished m))

-- An execution has reached its end exactly when all its tasks and steps are finished.
pub current_step-end_iff :
    (s : RunState)
    → ((current_step s).0 ≡ at_end) ↔ (
        (all (λ e. finished e.1.status) s.tasks ≡ true)
        × ((n : StepName) → finished (get_step n s.steps).status ≡ true))
unfolding current_step unfinished
current_step-end_iff s = (
  ended,
  λ h. ground (
    arith,
    all-finished s.tasks,
    h.1 data_model,
    h.1 plan,
    h.1 integration,
    h.1 reviews,
    h.1 fixes,
    h.1 delivery,
  ),
)
  where
    steps_ended :
        (current_step s).0 ≡ at_end → (n : StepName) → finished (get_step n s.steps).status ≡ true
    steps_ended h data_model = ground arith
    steps_ended h _ = ground arith

    ended :
        (current_step s).0 ≡ at_end
        → (all (λ e. finished e.1.status) s.tasks ≡ true)
          × ((n : StepName) → finished (get_step n s.steps).status ≡ true)
    ended h = (ground (arith, all-finished s.tasks), steps_ended h)
