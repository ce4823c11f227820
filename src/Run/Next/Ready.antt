-- ===== src/Run/Next/Ready.antt =====
-- src/run/state.ts: the pending tasks in `computeNext`, and the start of a task in `applySet`.
use agent_pipeline_v.Base.{
  ℕ, suc, ◌≡◌, ◌↔◌, refl, sym, subst, Bool, true, false, ◌&&◌, ◌||◌, none, some, List, [], ◌∷◌, map,
  arith, Text, eq_text, eq_text_iff, ok, length, filter, any, ap, ◌∙◌, if◌then◌else◌, Bool-cases,
  inl, inr,
}
use agent_pipeline_v.Base.Dict.{Dict, get, keys}
use agent_pipeline_v.Run.State.{TaskEntry, RunState, pending, running, transition}
use agent_pipeline_v.Run.Target.{task}
use agent_pipeline_v.Run.Check.{
  SetOptions, IntegrationCheck, entry_of, check_set, check_move, check_entry, check_task,
  check_start, check_confidence,
}
use agent_pipeline_v.Run.Next.{FullSuiteMode, compute_next}
use agent_pipeline_v.Run.Readiness.{
  ready, ready_entries, awaiting_integration, awaiting_entries, pending_tasks, sort_by_wave,
  insert_by_wave, is_ready, is_pending, ReadyItem, GitProbe, integration_check,
}
use agent_pipeline_v.Run.Waves.{contains}
use agent_pipeline_v.Run.Create.Plan.{IsObject}

-- A plain start of a task: `apv run set task:<id> running`, with nothing forced.
abbrev pub plain_start : IntegrationCheck → SetOptions
plain_start check = record {
  status = running;
  branch = none;
  worktree = none;
  agent_id = none;
  commit = none;
  base = none;
  note = none;
  findings = none;
  confidence = none;
  integration = some check;
  force_unintegrated = false;
}

-- A pending task is ready exactly when `applySet` lets it start.
pub is_ready_iff :
    (s : RunState) (check : IntegrationCheck) (id : Text) (t : TaskEntry)
    → get id s.tasks ≡ some t
    → t.status ≡ pending
    → (is_ready s check (id, t) ≡ true)
      ↔ (check_set s (task id) (plain_start check) ≡ ok (pending, none))
unfolding check_set entry_of check_move check_entry check_task check_start check_confidence
    transition
is_ready_iff s check id t found fresh = (λ h. ground arith, λ h. ground arith)

module _ {A : Type 0} (wave : A → ℕ) where
  length-insert_by_wave :
      (a : A) (xs : List A) → length (insert_by_wave wave a xs) ≡ suc (length xs)
  unfolding insert_by_wave
  length-insert_by_wave a [] = refl
  length-insert_by_wave a (b ∷ bs) = ground (arith, length-insert_by_wave a bs)

  pub length-sort_by_wave : (xs : List A) → length (sort_by_wave wave xs) ≡ length xs
  unfolding sort_by_wave
  length-sort_by_wave [] = refl
  length-sort_by_wave (a ∷ xs) =
      ground (arith, length-sort_by_wave xs, length-insert_by_wave a (sort_by_wave wave xs))

  contains-insert_by_wave :
      (name : A → Text) (id : Text) (a : A) (xs : List A)
      → contains id (map name (insert_by_wave wave a xs))
        ≡ (eq_text id (name a) || contains id (map name xs))
  unfolding insert_by_wave contains any
  contains-insert_by_wave name id a [] = refl
  contains-insert_by_wave name id a (b ∷ bs) = ground (arith, contains-insert_by_wave name id a bs)

  pub contains-sort_by_wave :
      (name : A → Text) (id : Text) (xs : List A)
      → contains id (map name (sort_by_wave wave xs)) ≡ contains id (map name xs)
  unfolding sort_by_wave contains any
  contains-sort_by_wave name id [] = refl
  contains-sort_by_wave name id (a ∷ xs) = ground (
    arith,
    contains-sort_by_wave name id xs,
    contains-insert_by_wave name id a (sort_by_wave wave xs),
  )

module _ {V : Type 0} (p : Text × V → Bool) where
  contains-filter_le :
      (id : Text) (m : Dict V)
      → contains id (keys m) ≡ false
      → contains id (keys (filter p m)) ≡ false
  unfolding contains any filter
  contains-filter_le id [] h = h
  contains-filter_le id ((k, v) ∷ m) h = ground (arith, contains-filter_le id m)

  -- The entry of a key is kept when it passes.
  pub contains-filter :
      (id : Text) (v : V) (m : Dict V)
      → IsObject m
      → get id m ≡ some v
      → contains id (keys (filter p m)) ≡ p (id, v)
  unfolding contains any filter get
  contains-filter id v [] u h = absurd (ground arith)
  contains-filter id v ((k, w) ∷ m) u h = elim (Bool-cases (eq_text k id)) [
    | inl own ↦
        let same : k ≡ id = (eq_text_iff k id).0 own in
        let here : w ≡ v = ground arith in
        let gone = contains-filter_le id m (subst (λ j. contains j (keys m) ≡ false) same u.0) in
        let entry : ◌≡◌ {A = Text × V} (k, w) (id, v) = λ i. (same i, here i) in
        subst
          (λ x. contains id (keys (if p x then (k, w) ∷ filter p m else filter p m)) ≡ p (id, v))
          (sym entry) (ground (arith, gone, eq_text_iff id k))
    | inr other ↦
        let later = contains-filter id v m u.1 (ground arith) in
        ground (arith, later, eq_text_iff id k, eq_text_iff k id)
  ]

pub filter-filter {ℓ} :
    {A : Type ℓ} (p q : A → Bool) (xs : List A)
    → filter p (filter q xs) ≡ filter (λ x. q x && p x) xs
unfolding filter
filter-filter p q [] = refl
filter-filter p q (x ∷ xs) = ground (arith, filter-filter p q xs)

map-map_ids :
    (m : Dict TaskEntry)
    → map
        (λ (r : ReadyItem). r.id)
        (map
          (λ e. record {
            id = e.0;
            title = e.1.title;
            wave = e.1.wave;
            foundation = e.1.foundation;
          })
          m)
      ≡ keys m
map-map_ids [] = refl
map-map_ids (e ∷ m) = ap (λ ids. e.0 ∷ ids) (map-map_ids m)

pub contains-ready :
    (s : RunState) (check : IntegrationCheck) (id : Text) (t : TaskEntry)
    → IsObject s.tasks
    → get id s.tasks ≡ some t
    → t.status ≡ pending
    → contains id (map (λ r. r.id) (ready s check)) ≡ is_ready s check (id, t)
unfolding ready ready_entries pending_tasks
contains-ready s check id t object found fresh =
    contains-sort_by_wave (λ r. r.wave) (λ r. r.id) id _
    ∙ ap (contains id) (map-map_ids (ready_entries s check))
    ∙ ap (λ m. contains id (keys m)) (filter-filter (is_ready s check) is_pending s.tasks)
    ∙ contains-filter (λ x. is_pending x && is_ready s check x) id t s.tasks object found
    ∙ ground arith

-- In a state whose tasks have distinct ids, `apv run next` lists a pending task as ready exactly when
-- `apv run set` lets it start with nothing forced, on the same repository.
pub ready_items_iff :
    (s : RunState) (probe : GitProbe) (mode : FullSuiteMode) (id : Text) (t : TaskEntry)
    → IsObject s.tasks
    → get id s.tasks ≡ some t
    → t.status ≡ pending
    → (contains id (map (λ r. r.id) (compute_next s probe mode).ready_items) ≡ true)
      ↔ (check_set s (task id) (plain_start (integration_check s probe)) ≡ ok (pending, none))
unfolding compute_next ready ready_entries pending_tasks
ready_items_iff s probe mode id t object found fresh =
    let check = integration_check s probe in
    let listed = contains-ready s check id t object found fresh in
    let iff = is_ready_iff s check id t found fresh in
    (λ h. iff.0 (sym listed ∙ h), λ h. listed ∙ iff.1 h)

pub length-map {ℓ κ} :
    {A : Type ℓ} {B : Type κ} (f : A → B) (xs : List A) → length (map f xs) ≡ length xs
length-map f [] = refl
length-map f (x ∷ xs) = ap suc (length-map f xs)

module _ (s : RunState) (check : IntegrationCheck) where
  pub length-ready : length (ready s check) ≡ length (ready_entries s check)
  unfolding ready
  length-ready = length-sort_by_wave (λ r. r.wave) _ ∙ length-map _ (ready_entries s check)

  pub length-awaiting : length (awaiting_integration s check) ≡ length (awaiting_entries s check)
  unfolding awaiting_integration
  length-awaiting = length-sort_by_wave (λ r. r.wave) _ ∙ length-map _ (awaiting_entries s check)
