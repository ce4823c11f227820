-- ===== src/Run/Next/Fates.antt =====
-- src/run/state.ts: the three lists of pending tasks in `computeNext`, and what `applySet` says of them.
use agent_pipeline_v.Base.{
  ◌≡◌, ◌↔◌, ◌⊎◌, refl, sym, true, ◌&&◌, none, some, List, [], ◌∷◌, map, arith, Text, ok, err, ap,
  ◌∙◌, Bool-cases, inl, inr,
}
use agent_pipeline_v.Base.Dict.{Dict, get, keys}
use agent_pipeline_v.Run.State.{TaskEntry, RunState, pending, transition}
use agent_pipeline_v.Run.Target.{task}
use agent_pipeline_v.Run.Schema.{not_done, not_integrated}
use agent_pipeline_v.Run.Check.{
  IntegrationCheck, entry_of, check_set, check_move, check_entry, check_task, check_start,
  check_confidence, gaps_not_done, gaps_not_integrated,
}
use agent_pipeline_v.Run.Next.{FullSuiteMode, compute_next}
use agent_pipeline_v.Run.Readiness.{
  awaiting_integration, awaiting_entries, blocked, blocked_entries, pending_tasks, is_awaiting,
  is_blocked, is_pending, WaitingItem, GitProbe, integration_check,
}
use agent_pipeline_v.Run.Waves.{contains}
use agent_pipeline_v.Run.Create.Plan.{IsObject}
use agent_pipeline_v.Run.Next.Ready.{
  plain_start, ready_items_iff, contains-sort_by_wave, contains-filter, filter-filter,
  contains-ready,
}

map-map_items :
    (waiting : Text × TaskEntry → List Text) (m : Dict TaskEntry)
    → map
        (λ (w : WaitingItem). w.id)
        (map (λ e. record { id = e.0; wave = e.1.wave; waiting_on = waiting e }) m)
      ≡ keys m
map-map_items waiting [] = refl
map-map_items waiting (e ∷ m) = ap (λ ids. e.0 ∷ ids) (map-map_items waiting m)

keys-map_pairs :
    (missing : Text × TaskEntry → List Text) (m : Dict TaskEntry)
    → keys (map (λ e. (e.0, missing e)) m) ≡ keys m
keys-map_pairs missing [] = refl
keys-map_pairs missing (e ∷ m) = ap (λ ids. e.0 ∷ ids) (keys-map_pairs missing m)

module _ (s : RunState) (check : IntegrationCheck) (id : Text) (t : TaskEntry) where
  contains-awaiting :
      IsObject s.tasks
      → get id s.tasks ≡ some t
      → t.status ≡ pending
      → contains id (map (λ w. w.id) (awaiting_integration s check)) ≡ is_awaiting s check (id, t)
  unfolding awaiting_integration awaiting_entries pending_tasks
  contains-awaiting object found fresh =
      contains-sort_by_wave (λ w. w.wave) (λ w. w.id) id _
      ∙ ap (contains id) (map-map_items _ (awaiting_entries s check))
      ∙ ap (λ m. contains id (keys m)) (filter-filter (is_awaiting s check) is_pending s.tasks)
      ∙ contains-filter (λ x. is_pending x && is_awaiting s check x) id t s.tasks object found
      ∙ ground arith

  contains-blocked :
      IsObject s.tasks
      → get id s.tasks ≡ some t
      → t.status ≡ pending
      → contains id (keys (blocked s check)) ≡ is_blocked s check (id, t)
  unfolding blocked blocked_entries pending_tasks
  contains-blocked object found fresh =
      ap (contains id) (keys-map_pairs _ (blocked_entries s check))
      ∙ ap (λ m. contains id (keys m)) (filter-filter (is_blocked s check) is_pending s.tasks)
      ∙ contains-filter (λ x. is_pending x && is_blocked s check x) id t s.tasks object found
      ∙ ground arith

  is_awaiting_iff :
      get id s.tasks ≡ some t
      → t.status ≡ pending
      → (is_awaiting s check (id, t) ≡ true)
        ↔ ((ds : List Text) × (check_set s (task id) (plain_start check) ≡ err (not_integrated ds)))
  unfolding check_set entry_of check_move check_entry check_task check_start check_confidence
      transition
  is_awaiting_iff found fresh =
      (λ h. (gaps_not_integrated s.tasks t (some check), ground arith), λ (ds, h). ground arith)

  is_blocked_iff :
      get id s.tasks ≡ some t
      → t.status ≡ pending
      → (is_blocked s check (id, t) ≡ true)
        ↔ ((ds : List Text) × (check_set s (task id) (plain_start check) ≡ err (not_done ds)))
  unfolding check_set entry_of check_move check_entry check_task check_start check_confidence
      transition
  is_blocked_iff found fresh =
      (λ h. (gaps_not_done s.tasks t, ground arith), λ (ds, h). ground arith)

-- In a state whose tasks have distinct ids, a pending task is in one of the three lists of
-- `apv run next`, and in the one that says what `apv run set` makes of its start, with nothing forced and
-- on the same repository: ready where it is allowed, awaiting an integration where it is refused for
-- dependencies that are not integrated, and blocked where it is refused for dependencies that are not
-- done.
pub pending_fates :
    (s : RunState) (probe : GitProbe) (mode : FullSuiteMode) (id : Text) (t : TaskEntry)
    → IsObject s.tasks
    → get id s.tasks ≡ some t
    → t.status ≡ pending
    → let next = compute_next s probe mode in
      let is_in_ready = contains id (map (λ r. r.id) next.ready_items) ≡ true in
      let is_in_awaiting = contains id (map (λ w. w.id) next.awaiting) ≡ true in
      let is_in_blocked = contains id (keys next.blocked_tasks) ≡ true in
      let answer = check_set s (task id) (plain_start (integration_check s probe)) in
      (is_in_ready ↔ (answer ≡ ok (pending, none)))
      × (is_in_awaiting ↔ ((ds : List Text) × (answer ≡ err (not_integrated ds))))
      × (is_in_blocked ↔ ((ds : List Text) × (answer ≡ err (not_done ds))))
      × (is_in_ready ⊎ is_in_awaiting ⊎ is_in_blocked)
unfolding compute_next
pending_fates s probe mode id t object found fresh =
    let check = integration_check s probe in
    let first = ready_items_iff s probe mode id t object found fresh in
    let second = contains-awaiting s check id t object found fresh in
    let third = contains-blocked s check id t object found fresh in
    let waits = is_awaiting_iff s check id t found fresh in
    let lacks = is_blocked_iff s check id t found fresh in
    (
      first,
      (λ h. waits.0 (sym second ∙ h), λ h. second ∙ waits.1 h),
      (λ h. lacks.0 (sym third ∙ h), λ h. third ∙ lacks.1 h),
      elim (Bool-cases (is_blocked s check (id, t))) [
        | inl b ↦ inr (inr (third ∙ b))
        | inr n ↦ elim (Bool-cases (is_awaiting s check (id, t))) [
          | inl a ↦ inr (inl (second ∙ a))
          | inr m ↦ inl (contains-ready s check id t object found fresh ∙ ground arith)
        ]
      ],
    )
