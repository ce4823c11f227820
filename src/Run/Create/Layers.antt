-- ===== src/Run/Create/Layers.antt =====
-- src/run/state.ts: the plan that a new execution starts with.
use agent_pipeline_v.Base.{
  ℕ, ◌≡◌, ◌≢◌, ◌↔◌, refl, subst, Option, none, some, List, [], ◌∷◌, map, arith, Text, eq_text,
  eq_text_iff, ok, err, bind-err, Option-cases, Bool-cases, inl, inr,
}
use agent_pipeline_v.Base.Dict.{Dict, get, put, get-put}
use agent_pipeline_v.Run.State.{TaskEntry, RunState, Wave}
use agent_pipeline_v.Run.Schema.{out_of_fuel}
use agent_pipeline_v.Run.Waves.{
  SpecTask, Depths, contains, compute_waves, compute_foundations, wave_of, depths, by_id, collect,
  wave_at, sort, depth_over, distinct, values,
}
use agent_pipeline_v.Run.Waves.Depths.{Known}
use agent_pipeline_v.Run.Waves.Total.{IsRank}
use agent_pipeline_v.Run.Waves.Acyclic.{
  entries, listed, depths_sound, depths-known, depths-ok_iff, depths-ne-out_of_fuel,
}
use agent_pipeline_v.Run.Waves.Index.{wave_of-depth, compute_waves-ok}
use agent_pipeline_v.Run.Create.{NewRun, new_task, new_tasks, create_run_state}
use agent_pipeline_v.Run.Create.Reached.{create_run_state-ok}

-- The waves of a plan exist exactly when its dependencies are tasks of the spec that can be ranked,
-- each below the tasks that depend on it: no unknown dependency and no cycle.
pub compute_waves-ok_iff :
    (tasks : List SpecTask)
    → ((ws : List Wave) × (compute_waves tasks ≡ ok ws))
      ↔ ((rank : Text → ℕ) × IsRank (by_id tasks) rank)
compute_waves-ok_iff tasks = (
  λ (ws, h).
      let (m, computed, _) = compute_waves-ok tasks h in (depths-ok_iff tasks).0 (m, computed),
  λ ranked.
      let (m, computed) = (depths-ok_iff tasks).1 ranked in
      (map (wave_at tasks m) (sort (distinct (values m))), unfold compute_waves in rw computed),
)

-- The waves of a plan are computed, or refused, before the fuel of the visits is used up.
pub compute_waves-ne-out_of_fuel : (tasks : List SpecTask) → compute_waves tasks ≢ err out_of_fuel
unfolding compute_waves
compute_waves-ne-out_of_fuel tasks h = elim (bind-err (depths tasks) _ h) [
  | inl e ↦ depths-ne-out_of_fuel tasks e
  | inr (m, _, h1) ↦ cc
]

-- An entry and the task of the spec that it comes from.
abbrev Matches : Depths → Text → Option SpecTask → Option TaskEntry → Type 0
Matches waves id none none = Unit
Matches waves id none (some t) = ⊥
Matches waves id (some st) none = ⊥
Matches waves id (some st) (some t) =
    (t.depends_on ≡ st.depends_on) × (get st.id waves ≡ some t.wave) × (st.id ≡ id)

new_tasks-Matches :
    (waves : Depths) (foundations : List Text) (ts : List SpecTask) (m : Dict TaskEntry)
    (n : Dict SpecTask) {m' : Dict TaskEntry}
    → new_tasks waves foundations ts m ≡ ok m'
    → ((id : Text) → Matches waves id (get id n) (get id m))
    → (id : Text) → Matches waves id (get id (collect n (entries ts))) (get id m')
unfolding new_tasks collect
new_tasks-Matches waves foundations [] m n h all id =
    subst (λ k. Matches waves id (get id n) (get id k)) (ground arith) (all id)
new_tasks-Matches waves foundations (t ∷ ts) m n h all id = elim (Option-cases (get t.id waves)) [
  | inl absent ↦ absurd (ground arith)
  | inr (w, there) ↦
      let entry = new_task t w (contains t.id foundations) in
      new_tasks-Matches waves foundations ts (put t.id entry m) (put t.id t n)
        (rw (there, new_tasks) at h)
        (λ j. elim (Bool-cases (eq_text t.id j)) [
          | inl own ↦
              rw (get-put t.id j entry m, get-put t.id j t n, own)
                (refl, there, (eq_text_iff t.id j).0 own)
          | inr other ↦ rw (get-put t.id j entry m, get-put t.id j t n, other) (all j)
        ])
        id
]

-- The waves of the entries that the ids name.
abbrev pub InWaves : Dict TaskEntry → List Text → List ℕ → Type 0
InWaves tasks [] [] = Unit
InWaves tasks [] (w ∷ ws) = ⊥
InWaves tasks (id ∷ ids) [] = ⊥
InWaves tasks (id ∷ ids) (w ∷ ws) =
    ((t : TaskEntry) × (get id tasks ≡ some t) × (t.wave ≡ w)) × InWaves tasks ids ws

module _ (tasks : List SpecTask) {m : Depths} (computed : depths tasks ≡ ok m) where
  abbrev waves_of : Depths
  waves_of = wave_of (map (wave_at tasks m) (sort (distinct (values m))))

  task_wave :
      (id : Text) {st : SpecTask}
      → get id (by_id tasks) ≡ some st
      → (d : ℕ) × (get id m ≡ some d) × (get id waves_of ≡ some d)
  unfolding get
  task_wave id found =
      let (d, known) = depths-known tasks id computed found in
      (
        d,
        known,
        wave_of-depth tasks m id d
            (elim (listed tasks [] id found) [
              | inl nowhere ↦ absurd (ground arith)
              | inr inside ↦ inside
            ])
            known,
      )

  module _ (entered : Dict TaskEntry)
      (match : (id : Text) → Matches waves_of id (get id (by_id tasks)) (get id entered)) where
    entry_wave :
        (id : Text) (st : SpecTask)
        → get id (by_id tasks) ≡ some st
        → (t : TaskEntry) × (get id entered ≡ some t)
          × (get id m ≡ some t.wave)
          × (t.depends_on ≡ st.depends_on)
    entry_wave id st found =
        let (d, known, placed) = task_wave id found in
        let row = rw found at (match id) in
        elim (Option-cases (get id entered)) [
          | inl absent ↦ absurd (rw absent at row)
          | inr (t, there) ↦
              let (deps, wave, name) = rw there at row in (t, there, ground arith, deps)
        ]

    Known-InWaves : (ids : List Text) (ds : List ℕ) → Known m ids ds → InWaves entered ids ds
    Known-InWaves [] [] k = tt
    Known-InWaves [] (d ∷ ds) k = k
    Known-InWaves (id ∷ ids) [] k = k
    Known-InWaves (id ∷ ids) (d ∷ ds) k =
        let layer = (depths_sound tasks computed).0 id d k.0 in
        let (t, there, wave, _) = entry_wave id layer.entry layer.found in
        ((t, there, ground arith), Known-InWaves ids ds k.1)

    entered_layers :
        (id : Text) (t : TaskEntry)
        → get id entered ≡ some t
        → (ws : List ℕ) × InWaves entered t.depends_on ws × (t.wave ≡ depth_over ws)
    entered_layers id t there = elim (Option-cases (get id (by_id tasks))) [
      | inl absent ↦ absurd (rw (there, absent) at (match id))
      | inr (st, found) ↦
          let (u, there', wave, deps) = entry_wave id st found in
          let layer = (depths_sound tasks computed).0 id u.wave wave in
          let below = Known-InWaves layer.entry.depends_on layer.below layer.known in
          let same : layer.entry.depends_on ≡ t.depends_on = ground (arith, layer.found) in
          (
            layer.below,
            subst (λ ids. InWaves entered ids layer.below) same below,
            ground (arith, layer.exact),
          )
    ]

-- In a new execution the wave of a task without dependency is 0, that of any other task is one more
-- than the greatest wave of its dependencies, which are all tasks of the execution.
pub create_run_state-layers :
    (i : NewRun) (now : ℕ) {s : RunState} (id : Text) (t : TaskEntry)
    → create_run_state i now ≡ ok s
    → get id s.tasks ≡ some t
    → (ws : List ℕ) × InWaves s.tasks t.depends_on ws × (t.wave ≡ depth_over ws)
unfolding get
create_run_state-layers i now {s} id t h there =
    let c = create_run_state-ok i now h in
    let (m, computed, same) = compute_waves-ok i.tasks c.computed in
    entered_layers i.tasks computed s.tasks
      (new_tasks-Matches (waves_of i.tasks computed) (compute_foundations i.tasks) i.tasks [] []
        (rw same at c.filled) (λ j. tt))
      id t there
