-- ===== src/Run/Create.antt =====
-- src/run/state.ts: `createRunState` (`apv run start`), and the states that the operations of the
-- module can reach from it.
pub mod Reached
pub mod Layers
pub mod Plan
use agent_pipeline_v.Base.{
  ℕ, zero, suc, ◌≡◌, Bool, true, false, Option, none, some, List, [], ◌∷◌, ◌++◌, Text, codes, any,
  Result, ok, err, ◌>>=◌,
}
use agent_pipeline_v.Base.Dict.{Dict, get, put}
use agent_pipeline_v.Run.State.{
  Status, StepEntry, TaskEntry, ReviewEntry, Event, RunState, Steps, Reviews, pending, running,
}
use agent_pipeline_v.Run.Target.{Target}
use agent_pipeline_v.Run.Schema.{Error, schema, parse_state}
use agent_pipeline_v.Run.Set.{apply_set}
use agent_pipeline_v.Run.Check.{SetOptions}
use agent_pipeline_v.Run.Pause.{apply_pause, apply_resume, apply_full_suite_override}
use agent_pipeline_v.Run.Waves.{
  SpecTask, Depths, contains, compute_waves, compute_foundations, wave_of,
}

-- NewRunInput
pub record NewRun : Type 0 where
  pub spec_id : Text
  pub spec_file : Text
  pub spec_sha256 : Text
  pub base : Text
  pub base_sha : Text
  pub tasks : List SpecTask

abbrev pub new_step : StepEntry
new_step = record {
  status = pending;
  commit = none;
  note = none;
  updated_at = none;
  confidence = none;
}

abbrev pub new_review : ReviewEntry
new_review = record {
  status = pending;
  findings = none;
  commit = none;
  note = none;
  updated_at = none;
}

abbrev pub new_task : SpecTask → ℕ → Bool → TaskEntry
new_task t wave foundation = record {
  title = t.title;
  depends_on = t.depends_on;
  wave = wave;
  foundation = foundation;
  status = pending;
  branch = none;
  worktree = none;
  agent_id = none;
  base = none;
  commit = none;
  note = none;
  updated_at = none;
  confidence = none;
}

-- The entries of the tasks, in the order of the spec. The schema refuses a task with no wave.
unfoldable pub new_tasks :
    Depths → List Text → List SpecTask → Dict TaskEntry → Result Error (Dict TaskEntry)
unfolding contains
new_tasks waves foundations [] m = ok m
new_tasks waves foundations (t ∷ ts) m = elim (get t.id waves) [
  | none ↦ err schema
  | some wave ↦
      new_tasks waves foundations ts (put t.id (new_task t wave (contains t.id foundations)) m)
]

abbrev first_units : ℕ → Text → Text
first_units zero s = []
first_units (suc n) [] = []
first_units (suc n) (c ∷ s) = c ∷ first_units n s

-- The target of the first event.
abbrev pub run_target_name : Text
run_target_name = codes "run"

abbrev pub created_event : NewRun → ℕ → Event
created_event i now = record {
  at = now;
  target = run_target_name;
  from = none;
  to = running;
  note = some (
      codes "exécution créée depuis "
      ++ i.spec_file
      ++ codes " (base "
      ++ i.base
      ++ codes " à "
      ++ first_units 12 i.base_sha
      ++ codes ")");
  commit = none;
  agent_id = none;
  unintegrated = none;
  until = none;
  confidence = none;
}

abbrev pub new_steps : Steps
new_steps = record {
  data_model = new_step;
  plan = new_step;
  integration = new_step;
  reviews = new_step;
  fixes = new_step;
  delivery = new_step;
}

abbrev pub new_reviews : Reviews
new_reviews = record {
  securite = new_review;
  fidelite = new_review;
  donnees = new_review;
  rgpd = new_review;
}

-- createRunState
unfoldable pub create_run_state : NewRun → ℕ → Result Error RunState
create_run_state i now = do
  waves ← compute_waves i.tasks
  tasks ← new_tasks (wave_of waves) (compute_foundations i.tasks) i.tasks []
  parse_state (record {
    spec_id = i.spec_id;
    spec_file = i.spec_file;
    spec_sha256 = i.spec_sha256;
    base = i.base;
    base_sha = i.base_sha;
    branch = codes "apv/" ++ i.spec_id;
    created_at = now;
    updated_at = now;
    steps = new_steps;
    waves = waves;
    tasks = tasks;
    reviews = new_reviews;
    events = created_event i now ∷ [];
    pause = none;
  })

-- The states of an execution: created, then moved by calls that succeed, at any times.
pub data Reach : RunState → Type 0 where
  created : (i : NewRun) (now : ℕ) {s : RunState} → create_run_state i now ≡ ok s → Reach s
  set :
      {s t : RunState}
      → Reach s
      → (target : Target) (o : SetOptions) (now : ℕ) {from : Status} {e : Event}
      → apply_set s target o now ≡ ok (t, from, e)
      → Reach t
  paused :
      {s t : RunState}
      → Reach s
      → (until : ℕ) (note : Option Text) (now : ℕ) {e : Event}
      → apply_pause s until note now ≡ ok (t, e)
      → Reach t
  resumed :
      {s t : RunState}
      → Reach s
      → (note : Option Text) (now : ℕ) {e : Event} → apply_resume s note now ≡ ok (t, e)
      → Reach t
  overridden :
      {s t : RunState}
      → Reach s
      → (reason : Text) (commit : Option Text) (now : ℕ) {e : Event}
      → apply_full_suite_override s reason commit now ≡ ok (t, e)
      → Reach t
