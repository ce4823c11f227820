-- ===== src/Policy/Tests.antt =====
-- Changes and tasks for src/policy/policy.ts.
use agent_pipeline_v.Base.{
  ◌≡◌, ◌≤◌, ◌⊎◌, ◌↔◌, refl, true, false, some, List, [], ◌∷◌, ◌++◌, length, or_else, Text, codes,
  arith, ◌≢◌, ok, err, All, all,
}
use agent_pipeline_v.Policy.Glob.{matches, supports}
use agent_pipeline_v.Policy.Glob.Meets.{Meets, matches_iff}
use agent_pipeline_v.Policy.Scope.{
  ChangeSet, ScopeTask, Risk, RiskDecision, fast, standard, is_high, team, sensitive_paths,
  assert_scope, classify, required_approvals, filter_match, default_assurance,
}
use agent_pipeline_v.Policy.Scope.Permitted.{IsPermitted, IsSafeNew, assert_scope-IsPermitted}
use agent_pipeline_v.Policy.Dag.{out_of_fuel, validate_dag}
use agent_pipeline_v.Policy.Dag.Ranked.{validate_dag-sweep}
use agent_pipeline_v.Policy.Dag.Fuel.{validate_dag-ne-out_of_fuel}
use agent_pipeline_v.Scheduler.{is_stuck, sweep, new_queue}
use agent_pipeline_v.Scheduler.Tests.{backwards, stopping, stopping_reached}
use agent_pipeline_v.Policy.Scope.Lanes.{level, classify-level}

-- The patterns of the source are supported.
sensitive_paths-supports : all supports sensitive_paths ≡ true
unfolding all supports
sensitive_paths-supports = refl

deep_match : matches (codes "src/a/b.test.ts") (codes "src/**/*.test.?s") ≡ ok true
unfolding matches
deep_match = refl

no_match : matches (codes "src/a/b.ts") (codes "src/*.ts") ≡ ok false
unfolding matches
no_match = refl

src_supports : supports (codes "src/**") ≡ true
unfolding supports
src_supports = refl

matches_iff_example :
    (matches (codes "src/a.ts") (codes "src/**") ≡ ok true)
    ↔ Meets (codes "src/**") (codes "src/a.ts")
matches_iff_example = matches_iff (codes "src/a.ts") (codes "src/**") src_supports

abbrev changes : ChangeSet
changes = record {
  files = codes "src/a.ts" ∷ codes "docs/new.md" ∷ [];
  added = codes "docs/new.md" ∷ [];
  binary = false;
  lines = 12;
}

abbrev task : ScopeTask
task = record {
  allowed_paths = codes "src/**" ∷ [];
  allowed_new_paths = some (codes "docs/*.md" ∷ []);
  max_new_files = some 1;
}

changes-assert_scope : assert_scope changes task ≡ ok (codes "docs/new.md" ∷ [])
unfolding assert_scope
changes-assert_scope = refl

assert_scope-IsPermitted_example :
    All (IsPermitted changes task) changes.files
    × All (IsSafeNew changes task) (codes "docs/new.md" ∷ [])
    × (length (codes "docs/new.md" ∷ []) ≤ or_else task.max_new_files 0)
assert_scope-IsPermitted_example =
    assert_scope-IsPermitted changes task (codes "docs/new.md" ∷ []) changes-assert_scope

abbrev risk : Risk
risk = record {
  high_paths = codes "infra/**" ∷ [];
  fast_paths = codes "docs/**" ∷ [];
  max_fast_files = 5;
  max_fast_lines = 100;
}

abbrev standard_decision : RiskDecision
standard_decision = record { lane = standard; reasons = default_assurance ∷ [] }

changes-classify : classify changes risk fast ≡ ok standard_decision
unfolding classify
changes-classify = refl

classify-level_example :
    (level fast ≤ level standard)
    × (required_approvals fast team ≤ required_approvals standard team)
    × ((is_high standard ≡ true)
        ⊎ ((filter_match (sensitive_paths ++ risk.high_paths) changes.files ≡ ok [])
            × (changes.binary ≡ false)))
classify-level_example = classify-level changes risk fast team standard_decision changes-classify

-- The order in which the visits of these gates end.
abbrev done_gates : List Text
done_gates = codes "web" ∷ codes "build" ∷ codes "unit" ∷ []

backwards-validate_dag : validate_dag backwards ≡ ok done_gates
unfolding validate_dag
backwards-validate_dag = refl

validate_dag-sweep_example :
    is_stuck (sweep stopping (sweep stopping (new_queue backwards false))) ≡ false
validate_dag-sweep_example =
    validate_dag-sweep backwards done_gates stopping (sweep stopping (new_queue backwards false))
      backwards-validate_dag stopping_reached refl (omega arith)

validate_dag-ne-out_of_fuel_example : validate_dag backwards ≢ err out_of_fuel
validate_dag-ne-out_of_fuel_example = validate_dag-ne-out_of_fuel backwards
