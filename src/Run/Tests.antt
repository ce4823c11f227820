-- ===== src/Run/Tests.antt =====
-- Runs of src/run/state.ts on a spec of three tasks.
use agent_pipeline_v.Base.{
  ℕ, ◌≡◌, refl, ◌≢◌, ◌↔◌, ◌<◌, ◌⊎◌, ◌+◌, map, arith, true, false, none, some, List, [], ◌∷◌, Text,
  codes, ok, err,
}
use agent_pipeline_v.Base.Dict.{get, put, keys}
use agent_pipeline_v.Base.{all, any, filter, length, eq_text, has_text}
use agent_pipeline_v.Run.State.{
  Wave, transition, StepName, get_step, RunState, TaskEntry, pending, running, done,
}
use agent_pipeline_v.Run.Target.{task, parse_target, target_name}
use agent_pipeline_v.Run.Target.Parse.{IsNamed, parse_target_iff}
use agent_pipeline_v.Run.Set.{apply_set, set_state, set_event, write_entry, end_pause}
use agent_pipeline_v.Run.Check.{
  SetOptions, check_set, entry_of, check_move, check_entry, check_task, check_start,
  check_confidence, gaps_not_done, gaps_not_integrated,
}
use agent_pipeline_v.Run.Waves.{
  SpecTask, by_id, depth_over, compute_waves, depths, visit, visit_each, collect, contains,
  greatest, distinct, sort, compute_foundations,
}
use agent_pipeline_v.Run.Schema.{parse_state, out_of_fuel}
use agent_pipeline_v.Run.Waves.Total.{IsRank}
use agent_pipeline_v.Run.Pause.{finished, current_step, at_end}
use agent_pipeline_v.Run.Create.{
  NewRun, create_run_state, new_steps, new_reviews, new_task, created_event, new_tasks, Reach,
  created, set,
}
use agent_pipeline_v.Run.Invariant.{Inv}
use agent_pipeline_v.Run.Create.Reached.{Reach-Inv, Reach-IsJournaled}
use agent_pipeline_v.Run.Create.Plan.{IsPlan, Reach-IsPlan}
use agent_pipeline_v.Run.Create.Layers.{
  InWaves, compute_waves-ok_iff, compute_waves-ne-out_of_fuel, create_run_state-layers,
}
use agent_pipeline_v.Run.Journal.Kept.{IsJournaled}
use agent_pipeline_v.Run.Next.{final, compute_next}
use agent_pipeline_v.Run.Readiness.{GitProbe, integration_check}
use agent_pipeline_v.Run.Next.Ready.{plain_start, ready_items_iff}
use agent_pipeline_v.Run.Next.Fates.{pending_fates}
use agent_pipeline_v.Run.Schema.{not_done, not_integrated}
use agent_pipeline_v.Run.Next.Progress.{compute_next_progress, current_step-end_iff}

abbrev id_a : Text
id_a = codes "a"

abbrev id_b : Text
id_b = codes "b"

abbrev id_c : Text
id_c = codes "c"

abbrev spec_a : SpecTask
spec_a = record { id = id_a; title = codes "A"; depends_on = [] }

abbrev spec_b : SpecTask
spec_b = record { id = id_b; title = codes "B"; depends_on = id_a ∷ [] }

abbrev spec_c : SpecTask
spec_c = record { id = id_c; title = codes "C"; depends_on = id_b ∷ id_a ∷ [] }

abbrev sha : Text
sha = codes "0123456789abcdef0123456789abcdef01234567"

abbrev spec_sha : Text
spec_sha = codes "0123456789abcdef0123456789abcdef0123456789abcdef0123456789abcdef"

abbrev input : NewRun
input = record {
  spec_id = codes "demo";
  spec_file = codes "specs/demo.json";
  spec_sha256 = spec_sha;
  base = codes "main";
  base_sha = sha;
  tasks = spec_c ∷ spec_a ∷ spec_b ∷ [];
}

abbrev state0 : RunState
state0 = record {
  spec_id = codes "demo";
  spec_file = codes "specs/demo.json";
  spec_sha256 = spec_sha;
  base = codes "main";
  base_sha = sha;
  branch = codes "apv/demo";
  created_at = 1000;
  updated_at = 1000;
  steps = new_steps;
  waves =
      record { index = 0; tasks = id_a ∷ [] }
      ∷ record { index = 1; tasks = id_b ∷ [] }
      ∷ record { index = 2; tasks = id_c ∷ [] }
      ∷ [];
  tasks =
      (id_c, new_task spec_c 2 false)
      ∷ (id_a, new_task spec_a 0 true)
      ∷ (id_b, new_task spec_b 1 false)
      ∷ [];
  reviews = new_reviews;
  events = created_event input 1000 ∷ [];
  pause = none;
}

state0_created : create_run_state input 1000 ≡ ok state0
unfolding create_run_state compute_waves depths visit visit_each collect get put any greatest
    distinct sort filter all compute_foundations new_tasks parse_state eq_text
state0_created = refl

abbrev start : SetOptions
start = record {
  status = running;
  branch = some (codes "apv/demo/a");
  worktree = some (codes "/tmp/a");
  agent_id = none;
  commit = none;
  base = some sha;
  note = none;
  findings = none;
  confidence = none;
  integration = none;
  force_unintegrated = false;
}

abbrev state1 : RunState
unfolding set_state
state1 = set_state state0 (task id_a) pending none start 2000

state1_set :
    apply_set state0 (task id_a) start 2000
    ≡ ok (state1, pending, set_event 2000 (task id_a) pending none start)
unfolding apply_set check_set set_state parse_state get put eq_text entry_of check_move check_entry
    check_task check_start check_confidence gaps_not_done gaps_not_integrated transition write_entry
    end_pause filter has_text
state1_set = refl

reached0 : Reach state0
reached0 = created input 1000 state0_created

reached1 : Reach state1
reached1 = set reached0 (task id_a) start 2000 state1_set

Reach-IsJournaled_example : IsJournaled state1
Reach-IsJournaled_example = Reach-IsJournaled reached1

Reach-Inv_example : Inv state1
Reach-Inv_example = Reach-Inv reached1

Reach-IsPlan_example : IsPlan state1.tasks
Reach-IsPlan_example = Reach-IsPlan reached1

-- A repository with the base branch only.
abbrev probe : GitProbe
probe = record {
  exists = λ path. false;
  resolve = λ name worktree. none;
  count_after = λ base head worktree. none;
  is_ancestor = λ a b. false;
}

found_a : get id_a state0.tasks ≡ some (new_task spec_a 0 true)
unfolding get eq_text
found_a = refl

settled0 :
    (j : Text) (u : TaskEntry)
    → get j state0.tasks ≡ some u
    → (u.status ≡ pending) ⊎ (u.status ≡ done)
unfolding get eq_text
settled0 j u h = ground arith

compute_next_progress_example :
    0
    < length (compute_next state0 probe final).ready_items
      + length (compute_next state0 probe final).awaiting
compute_next_progress_example =
    compute_next_progress state0 probe final id_a (new_task spec_a 0 true) reached0
      (λ j u h. settled0 j u h) found_a refl

ready_items_iff_example :
    (contains id_a (map (λ r. r.id) (compute_next state0 probe final).ready_items) ≡ true) ↔ (
      check_set state0 (task id_a) (plain_start (integration_check state0 probe))
      ≡ ok (pending, none))
ready_items_iff_example =
    ready_items_iff state0 probe final id_a (new_task spec_a 0 true) (Reach-IsPlan reached0).object
      found_a refl

compute_waves-ok_iff_example :
    ((ws : List Wave) × (compute_waves input.tasks ≡ ok ws))
    ↔ ((rank : Text → ℕ) × IsRank (by_id input.tasks) rank)
compute_waves-ok_iff_example = compute_waves-ok_iff input.tasks

compute_waves-ne-out_of_fuel_example : compute_waves input.tasks ≢ err out_of_fuel
compute_waves-ne-out_of_fuel_example = compute_waves-ne-out_of_fuel input.tasks

create_run_state-layers_example : (ws : List ℕ) × InWaves state0.tasks [] ws × (0 ≡ depth_over ws)
create_run_state-layers_example =
    create_run_state-layers input 1000 id_a (new_task spec_a 0 true) state0_created found_a

current_step-end_iff_example : ((current_step state1).0 ≡ at_end) ↔ (
    (all (λ e. finished e.1.status) state1.tasks ≡ true)
    × ((n : StepName) → finished (get_step n state1.steps).status ≡ true))
current_step-end_iff_example = current_step-end_iff state1

pending_fates_example :
    let next = compute_next state0 probe final in
    let is_in_ready = contains id_a (map (λ r. r.id) next.ready_items) ≡ true in
    let is_in_awaiting = contains id_a (map (λ w. w.id) next.awaiting) ≡ true in
    let is_in_blocked = contains id_a (keys next.blocked_tasks) ≡ true in
    let answer = check_set state0 (task id_a) (plain_start (integration_check state0 probe)) in
    (is_in_ready ↔ (answer ≡ ok (pending, none)))
    × (is_in_awaiting ↔ ((ds : List Text) × (answer ≡ err (not_integrated ds))))
    × (is_in_blocked ↔ ((ds : List Text) × (answer ≡ err (not_done ds))))
    × (is_in_ready ⊎ is_in_awaiting ⊎ is_in_blocked)
pending_fates_example =
    pending_fates state0 probe final id_a (new_task spec_a 0 true) (Reach-IsPlan reached0).object
      found_a refl

parse_target_iff_example :
    (parse_target (codes "task:a") ≡ some (task id_a))
    ↔ ((target_name (task id_a) ≡ codes "task:a") × IsNamed (task id_a))
parse_target_iff_example = parse_target_iff (codes "task:a") (task id_a)
