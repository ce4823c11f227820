-- ===== src/Run/Next.antt =====
-- src/run/state.ts: `computeNext` (`apv run next`), without the sentences that it words for a human
-- (`actions`, `where`, the reasons to relaunch).
pub mod Ready
pub mod Fates
pub mod Progress
use agent_pipeline_v.Base.{
  ℕ, ◌≡◌, Bool, true, false, ◌&&◌, ◌||◌, not, Option, none, some, List, [], ◌∷◌, ◌++◌, map, Text,
  codes, eq_text, all, filter, is_empty, is_some, leb, ◌==◌, or_else, if◌then◌else◌,
}
use agent_pipeline_v.Base.Dict.{Dict, get}
use agent_pipeline_v.Run.State.{
  Status, StepName, ReviewDomain, Confidence, TaskEntry, RunState, Pause, pending, running, done,
  failed, skipped, data_model, plan, integration, reviews, fixes, delivery, securite, fidelite,
  donnees, rgpd, prouve, probable, suppose, same_status, get_step, get_review,
}
use agent_pipeline_v.Run.Target.{Target, step, task, target_name}
use agent_pipeline_v.Run.Check.{IntegrationCheck, gaps_not_done, gaps_not_integrated}
use agent_pipeline_v.Run.Pause.{Where, at_step, in_waves, at_end, finished, current_step, is_end}
use agent_pipeline_v.Run.Readiness.{
  GitProbe, ReadyItem, WaitingItem, awaiting_integration, blocked, integration_check, ready,
}

-- FullSuiteMode
pub data FullSuiteMode : Type 0 where
  final each_integration : FullSuiteMode

-- The level of the next verification.
pub data Level : Type 0 where
  task_level full_level : Level

pub record ResumeItem : Type 0 where
  pub id : Text
  pub branch : Option Text
  pub worktree : Option Text
  pub agent_id : Option Text
  pub commit : Option Text
  pub head : Option Text
  pub commits_after_base : Option ℕ
  pub base : Text

-- `(t.branch ? probe.resolve(t.branch) : null) ?? (t.worktree ? probe.resolve('HEAD', t.worktree) : null)`,
-- with `''` false as `null` is.
abbrev pub present : Option Text → Option Text
present none = none
present (some s) = if is_empty s then none else some s

abbrev branch_head : GitProbe → Option Text → Option Text
branch_head probe none = none
branch_head probe (some b) = probe.resolve b none

abbrev worktree_head : GitProbe → Option Text → Option Text
worktree_head probe none = none
worktree_head probe (some w) = probe.resolve (codes "HEAD") (some w)

abbrev first_some : Option Text → Option Text → Option Text
first_some none y = y
first_some (some x) y = some x

abbrev task_head : GitProbe → TaskEntry → Option Text
task_head probe t =
    first_some (branch_head probe (present t.branch)) (worktree_head probe (present t.worktree))

abbrev worktree_gone : GitProbe → TaskEntry → Bool
worktree_gone probe t = elim (present t.worktree) [ none ↦ false | some w ↦ not (probe.exists w) ]

abbrev counted : GitProbe → TaskEntry → Text → Text → Option ℕ
counted probe t base head =
    probe.count_after base head (elim (present t.branch) [ none ↦ t.worktree | some b ↦ none ])

abbrev no_commit : Option ℕ → Bool
no_commit none = true
no_commit (some n) = n == 0

-- A running task as `next` sees it, and whether it is to relaunch.
unfoldable pub resume_item : RunState → GitProbe → Text × TaskEntry → ResumeItem × Bool
resume_item s probe (id, t) =
    let base : Text = or_else t.base s.base_sha in
    let head : Option Text = if worktree_gone probe t then none else task_head probe t in
    let count : Option ℕ = elim (present head) [ none ↦ none | some h ↦ counted probe t base h ] in
    (
      record {
        id = id;
        branch = t.branch;
        worktree = t.worktree;
        agent_id = t.agent_id;
        commit = t.commit;
        head = head;
        commits_after_base = count;
        base = base;
      },
      no_commit count,
    )

abbrev items_where : Bool → List (ResumeItem × Bool) → List ResumeItem
items_where b [] = []
items_where true ((i, true) ∷ is) = i ∷ items_where true is
items_where false ((i, false) ∷ is) = i ∷ items_where false is
items_where b (x ∷ is) = items_where b is

abbrev pub running_items : RunState → GitProbe → List (ResumeItem × Bool)
running_items s probe =
    map (resume_item s probe) (filter (λ e. same_status e.1.status running) s.tasks)

-- The step from which the integrated head is verified, at the level that the rhythm asks for.
abbrev pub level_at : FullSuiteMode → Where → Option Level
level_at final in_waves = some task_level
level_at each_integration in_waves = some full_level
level_at mode (at_step integration) = some full_level
level_at mode (at_step delivery) = some full_level
level_at final (at_step fixes) = some task_level
level_at each_integration (at_step fixes) = some full_level
level_at mode _ = none

abbrev pub proven_commit : RunState → Option Text
proven_commit s =
    if same_status s.steps.integration.status done then s.steps.integration.commit else none

-- The last commit that the full suite proved, or the base of the execution before any.
abbrev pub target_base : FullSuiteMode → RunState → IntegrationCheck → Text
target_base final s check = or_else (proven_commit s) s.base_sha
target_base each_integration s check = check.head

abbrev domains : List ReviewDomain
domains = securite ∷ fidelite ∷ donnees ∷ rgpd ∷ []

abbrev to_launch : Status → Bool
to_launch pending = true
to_launch failed = true
to_launch _ = false

abbrev pub below_proof : Option Confidence → Bool
below_proof (some probable) = true
below_proof (some suppose) = true
below_proof _ = false

-- NextPlan, without its sentences.
pub record NextPlan : Type 0 where
  pub spec_id : Text
  pub step : Where
  pub step_status : Option Status
  pub wave : Option ℕ
  pub is_finished : Bool
  pub ready_items : List ReadyItem
  pub awaiting : List WaitingItem
  pub integration_head : Text
  pub resume : List ResumeItem
  pub relaunch : List ResumeItem
  pub failed_tasks : List (Text × Option Text)
  pub blocked_tasks : Dict (List Text)
  pub reviews_to_launch : List ReviewDomain
  pub reviews_running : List ReviewDomain
  pub level : Option Level
  pub base : Text
  pub pause : Option Pause
  pub unproven : List (Text × Option Confidence)

-- computeNext
unfoldable pub compute_next : RunState → GitProbe → FullSuiteMode → NextPlan
compute_next s probe mode =
    let check : IntegrationCheck = integration_check s probe in
    let where_now : Where = (current_step s).0 in
    let integrated : Bool =
      all (λ (e : Text × TaskEntry). finished e.1.status) s.tasks
      && finished s.steps.integration.status in
    record {
      spec_id = s.spec_id;
      step = where_now;
      step_status = elim where_now [ at_step n ↦ some (get_step n s.steps).status | _ ↦ none ];
      wave = (current_step s).1;
      is_finished = is_end where_now;
      ready_items = ready s check;
      awaiting = awaiting_integration s check;
      integration_head = check.head;
      resume = items_where false (running_items s probe);
      relaunch = items_where true (running_items s probe);
      failed_tasks =
          map (λ e. (e.0, e.1.note)) (filter (λ e. same_status e.1.status failed) s.tasks);
      blocked_tasks = blocked s check;
      reviews_to_launch =
          if integrated
          then filter (λ d. to_launch (get_review d s.reviews).status) domains
          else [];
      reviews_running = filter (λ d. same_status (get_review d s.reviews).status running) domains;
      level = level_at mode where_now;
      base = target_base mode s check;
      pause = s.pause;
      unproven =
          filter (λ u. below_proof u.1)
            (map (λ e. (target_name (task e.0), e.1.confidence))
                (filter (λ e. same_status e.1.status done) s.tasks)
              ++ (if same_status s.steps.fixes.status done
                  then (target_name (step fixes), s.steps.fixes.confidence) ∷ []
                  else []));
    }
