-- ===== src/Run/Create/Plan.antt =====
-- src/run/state.ts: the tasks and dependencies of an execution, from its creation on.
use agent_pipeline_v.Base.{
  ℕ, ◌+◌, ◌<◌, ◌≡◌, refl, sym, subst, false, ◌||◌, some, List, [], ◌∷◌, arith, Text, eq_text,
  eq_text_iff, ok, Option-cases, Bool-cases, inl, inr, All, any,
}
use agent_pipeline_v.Base.Dict.{Dict, get, put, get-put, keys}
use agent_pipeline_v.Run.State.{TaskEntry, RunState}
use agent_pipeline_v.Run.Target.{Target, step, task, review}
use agent_pipeline_v.Run.Set.{write_task}
use agent_pipeline_v.Run.Check.{SetOptions}
use agent_pipeline_v.Run.Set.Inversion.{apply_set-ok}
use agent_pipeline_v.Run.Pause.Journal.{
  apply_pause-ok, apply_resume-ok, apply_full_suite_override-ok,
}
use agent_pipeline_v.Run.Invariant.{tasks_after, tasks-set}
use agent_pipeline_v.Run.Waves.{SpecTask, Depths, contains, depth_over, greatest}
use agent_pipeline_v.Run.Create.{
  NewRun, new_task, new_tasks, create_run_state, Reach, created, set, paused, resumed, overridden,
}
use agent_pipeline_v.Run.Create.Reached.{create_run_state-ok}
use agent_pipeline_v.Run.Create.Layers.{InWaves, create_run_state-layers}

-- The keys of an object are distinct.
abbrev pub IsObject {ℓ} : {V : Type ℓ} → Dict V → Type 0
IsObject [] = Unit
IsObject ((k, v) ∷ m) = (contains k (keys m) ≡ false) × IsObject m

contains-keys-put {ℓ} :
    {V : Type ℓ} (j k : Text) (v : V) (m : Dict V)
    → contains j (keys (put k v m)) ≡ (eq_text j k || contains j (keys m))
unfolding contains any put
contains-keys-put j k v [] = refl
contains-keys-put j k v ((i, w) ∷ m) =
    ground (arith, contains-keys-put j k v m, eq_text_iff i k, eq_text_iff j i, eq_text_iff j k)

put-IsObject {ℓ} : {V : Type ℓ} (k : Text) (v : V) (m : Dict V) → IsObject m → IsObject (put k v m)
unfolding contains any put
put-IsObject k v [] u = (refl, tt)
put-IsObject k v ((i, w) ∷ m) u = elim (Bool-cases (eq_text i k)) [
  | inl own ↦ rw (own, put) u
  | inr other ↦ rw (other, put) (ground (arith, contains-keys-put i k v m), put-IsObject k v m u.1)
]

-- The dependencies of a task are tasks of earlier waves.
abbrev pub Earlier : Dict TaskEntry → ℕ → List Text → Type 0
Earlier tasks w ids = All (λ d. (u : TaskEntry) × (get d tasks ≡ some u) × (u.wave < w)) ids

pub record IsPlan (tasks : Dict TaskEntry) : Type 0 where
  pub object : IsObject tasks
  pub earlier :
      (id : Text) (t : TaskEntry) → get id tasks ≡ some t → Earlier tasks t.wave t.depends_on

InWaves-Earlier :
    (tasks : Dict TaskEntry) (w : ℕ) (ids : List Text) (ws : List ℕ)
    → greatest ws < w
    → InWaves tasks ids ws
    → Earlier tasks w ids
unfolding greatest
InWaves-Earlier tasks w [] ws h l = tt
InWaves-Earlier tasks w (id ∷ ids) [] h l = absurd l
InWaves-Earlier tasks w (id ∷ ids) (n ∷ ns) h l =
    ((l.0.0, l.0.1, ground arith), InWaves-Earlier tasks w ids ns (omega arith) l.1)

layers-Earlier :
    (tasks : Dict TaskEntry) (ids : List Text) (ws : List ℕ)
    → InWaves tasks ids ws
    → Earlier tasks (depth_over ws) ids
layers-Earlier tasks [] ws l = tt
layers-Earlier tasks (id ∷ ids) [] l = absurd l
layers-Earlier tasks (id ∷ ids) (n ∷ ns) l =
    InWaves-Earlier tasks (1 + greatest (n ∷ ns)) (id ∷ ids) (n ∷ ns) (omega arith) l

new_tasks-IsObject :
    (waves : Depths) (foundations : List Text) (ts : List SpecTask) (m : Dict TaskEntry)
    {m' : Dict TaskEntry}
    → new_tasks waves foundations ts m ≡ ok m'
    → IsObject m
    → IsObject m'
unfolding new_tasks
new_tasks-IsObject waves foundations [] m h u = subst IsObject (ground arith) u
new_tasks-IsObject waves foundations (t ∷ ts) m h u = elim (Option-cases (get t.id waves)) [
  | inl absent ↦ absurd (ground arith)
  | inr (w, there) ↦
      let entry = new_task t w (contains t.id foundations) in
      new_tasks-IsObject waves foundations ts (put t.id entry m) (rw (there, new_tasks) at h)
        (put-IsObject t.id entry m u)
]

create-IsPlan :
    (i : NewRun) (now : ℕ) {s : RunState} → create_run_state i now ≡ ok s → IsPlan s.tasks
create-IsPlan i now {s} h =
    let c = create_run_state-ok i now h in
    record {
      object = new_tasks-IsObject _ _ i.tasks [] c.filled tt;
      earlier = λ id t there.
          let (ws, l, exact) = create_run_state-layers i now id t h there in
          subst (λ w. Earlier s.tasks w t.depends_on) (sym exact)
            (layers-Earlier s.tasks t.depends_on ws l);
    }

module _ (o : SetOptions) (now : ℕ) (id : Text) (u : TaskEntry) (tasks : Dict TaskEntry)
    (there : get id tasks ≡ some u) where
  Earlier-put :
      (w : ℕ) (ids : List Text)
      → Earlier tasks w ids
      → Earlier (put id (write_task o now u) tasks) w ids
  Earlier-put w [] e = tt
  Earlier-put w (d ∷ ids) e = (
    elim (Bool-cases (eq_text id d)) [
      | inl own ↦ (
        write_task o now u,
        ground (arith, get-put id d (write_task o now u) tasks),
        ground (arith, eq_text_iff id d, e.0.1),
      )
      | inr other ↦ (e.0.0, ground (arith, get-put id d (write_task o now u) tasks, e.0.1), e.0.2)
    ],
    Earlier-put w ids e.1,
  )

  put-IsPlan : IsPlan tasks → IsPlan (put id (write_task o now u) tasks)
  put-IsPlan p = record {
    object = put-IsObject id (write_task o now u) tasks p.object;
    earlier = λ j t h. elim (Bool-cases (eq_text id j)) [
      | inl own ↦
          let same : write_task o now u ≡ t =
            ground (arith, get-put id j (write_task o now u) tasks) in
          subst (λ x. Earlier (put id (write_task o now u) tasks) x.wave x.depends_on) same
            (Earlier-put u.wave u.depends_on (p.earlier id u there))
      | inr other ↦
          Earlier-put t.wave t.depends_on
            (p.earlier j t (ground (arith, get-put id j (write_task o now u) tasks)))
    ];
  }

tasks_after-IsPlan :
    (o : SetOptions) (now : ℕ) (t : Target) (tasks : Dict TaskEntry)
    → IsPlan tasks
    → IsPlan (tasks_after o now t tasks)
tasks_after-IsPlan o now (step n) tasks p = p
tasks_after-IsPlan o now (review d) tasks p = p
tasks_after-IsPlan o now (task id) tasks p = elim (Option-cases (get id tasks)) [
  | inl e ↦ rw (e, tasks_after) p
  | inr (u, e) ↦ rw (e, tasks_after) (put-IsPlan o now id u tasks e p)
]

-- In every state that an execution reaches, the ids of the tasks are distinct and every dependency
-- is a task of an earlier wave.
pub Reach-IsPlan : {s : RunState} → Reach s → IsPlan s.tasks
Reach-IsPlan (created i now {s} h) = create-IsPlan i now h
Reach-IsPlan (set {s} r target o now {from} h) =
    let (forced, held, same, event) = apply_set-ok s target o now h in
    subst (λ (x : RunState). IsPlan x.tasks) (sym same)
      (rw (tasks-set o now s from forced target)
        (tasks_after-IsPlan o now target s.tasks (Reach-IsPlan r)))
Reach-IsPlan (paused {s} r until why now h) =
    subst (λ (x : RunState). IsPlan x.tasks) (sym (apply_pause-ok s now until why h).1)
      (Reach-IsPlan r)
Reach-IsPlan (resumed {s} r why now h) =
    subst (λ (x : RunState). IsPlan x.tasks) (sym (apply_resume-ok s now why h).1) (Reach-IsPlan r)
Reach-IsPlan (overridden {s} r reason commit now h) =
    subst (λ (x : RunState). IsPlan x.tasks)
      (sym (apply_full_suite_override-ok s now reason commit h)) (Reach-IsPlan r)
