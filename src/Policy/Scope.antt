-- ===== src/Policy/Scope.antt =====
-- src/policy/policy.ts: the scope of a task, the lane of a change and its approvals.
pub mod Permitted
pub mod Lanes
use agent_pipeline_v.Base.{
  ℕ, ◌≡◌, Bool, true, false, ◌&&◌, ◌||◌, not, Option, none, some, List, [], ◌∷◌, ◌++◌, Text, codes,
  eq_text, Result, ok, err, ◌>>=◌, ◌>>◌, throw_if, all, any, filter, is_empty, length, ltb, leb,
  ◌==◌, if◌then◌else◌, or_else,
}
use agent_pipeline_v.Policy.Glob.{
  PolicyError, too_many_new, out_of_scope, matches, glob, valid_relative_path,
}

-- `sensitivePaths`
abbrev pub sensitive_paths : List Text
sensitive_paths =
    codes ".agent-pipeline/**"
    ∷ codes ".github/**"
    ∷ codes ".gitmodules"
    ∷ codes ".gitattributes"
    ∷ codes "**/AGENTS.md"
    ∷ codes "**/CLAUDE.md"
    ∷ codes ".codex/**"
    ∷ codes ".claude/**"
    ∷ codes ".agents/**"
    ∷ codes "**/SKILL.md"
    ∷ codes "roles/**"
    ∷ codes "skills/**"
    ∷ codes "**/package.json"
    ∷ codes "**/package-lock.json"
    ∷ codes "**/npm-shrinkwrap.json"
    ∷ codes "**/pnpm-lock.yaml"
    ∷ codes "**/yarn.lock"
    ∷ codes "**/requirements*.txt"
    ∷ codes "**/pyproject.toml"
    ∷ codes "**/uv.lock"
    ∷ codes "**/poetry.lock"
    ∷ codes "**/Cargo.toml"
    ∷ codes "**/Cargo.lock"
    ∷ codes "**/go.mod"
    ∷ codes "**/go.sum"
    ∷ codes "**/*.sql"
    ∷ codes "**/migrations/**"
    ∷ codes "**/auth/**"
    ∷ codes "**/*auth*.*"
    ∷ codes "**/security/**"
    ∷ codes "**/payment*/**"
    ∷ codes "**/*permission*.*"
    ∷ codes "**/*policy*.*"
    ∷ codes "**/*secret*.*"
    ∷ codes "**/Dockerfile*"
    ∷ codes "**/*.tf"
    ∷ codes "**/.env*"
    ∷ codes "**/pipeline*.json"
    ∷ []

-- `patterns.some((p) => matches(file, p))`
unfoldable pub some_match : Text → List Text → Result PolicyError Bool
unfolding matches
some_match file [] = ok false
some_match file (p ∷ ps) =
    let rest = some_match file ps in matches file p >>= λ m. if m then ok true else rest

-- `patterns.forEach((p) => matches('probe', p))`
unfoldable pub probe : List Text → Result PolicyError Unit
unfolding matches
probe [] = ok tt
probe (p ∷ ps) = let rest = probe ps in matches (codes "probe") p >>= λ m. rest

pub data Lane : Type 0 where
  fast standard high : Lane

pub record ChangeSet : Type 0 where
  pub files : List Text
  pub added : List Text
  pub binary : Bool
  pub lines : ℕ

pub record Risk : Type 0 where
  pub high_paths : List Text
  pub fast_paths : List Text
  pub max_fast_files : ℕ
  pub max_fast_lines : ℕ

pub record ScopeTask : Type 0 where
  pub allowed_paths : List Text
  pub allowed_new_paths : Option (List Text)
  pub max_new_files : Option ℕ

pub record ScopeReport : Type 0 where
  pub auto_new : List Text
  pub rejected : List Text
  pub too_many : Bool

abbrev pub includes : List Text → Text → Bool
includes xs x = any (λ y. eq_text y x) xs

-- Whether the file is a new one in a declared envelope: the tests in their order, each only where the one
-- before it lets it be made.
abbrev pub new_verdict :
    Bool → Result PolicyError Bool → Result PolicyError Bool → Result PolicyError Bool
new_verdict false declared sensitive = ok false
new_verdict true declared sensitive =
    declared >>= λ d. if d then (sensitive >>= λ s. ok (not s)) else ok false

abbrev pub safe_new : ChangeSet → List Text → Text → Result PolicyError Bool
safe_new changes new_paths file =
    new_verdict (includes changes.added file) (some_match file new_paths)
      (some_match file sensitive_paths)

-- Where a file goes: nowhere, to the new files, or to the rejected ones.
pub data Verdict : Type 0 where
  inside created refused : Verdict

abbrev pub verdict :
    Bool → Result PolicyError Bool → Result PolicyError Bool → Result PolicyError Verdict
verdict false allowed new = ok refused
verdict true allowed new =
    allowed >>= λ a. if a then ok inside else (new >>= λ n. ok (if n then created else refused))

abbrev pub judge : ChangeSet → ScopeTask → Text → Result PolicyError Verdict
judge changes task file =
    verdict (valid_relative_path file) (some_match file task.allowed_paths)
      (safe_new changes (or_else task.allowed_new_paths []) file)

abbrev pub add_file : Text → Verdict → List Text × List Text → List Text × List Text
add_file file inside r = r
add_file file created r = (file ∷ r.0, r.1)
add_file file refused r = (r.0, file ∷ r.1)

-- The loop over the files: the new ones and the rejected ones.
unfoldable pub judge_files :
    ChangeSet → ScopeTask → List Text → Result PolicyError (List Text × List Text)
unfolding some_match valid_relative_path any eq_text
judge_files changes task [] = ok ([], [])
judge_files changes task (file ∷ files) =
    let rest = judge_files changes task files in
    judge changes task file >>= λ v. rest >>= λ r. ok (add_file file v r)

abbrev pub report_of : ScopeTask → List Text × List Text → ScopeReport
report_of task r = record {
  auto_new = r.0;
  rejected = r.1;
  too_many = ltb (or_else task.max_new_files 0) (length r.0);
}

-- `scopeReport`
unfoldable pub scope_report : ChangeSet → ScopeTask → Result PolicyError ScopeReport
unfolding probe judge_files
scope_report changes task = probe (task.allowed_paths ++ or_else task.allowed_new_paths []) >>= λ u.
    judge_files changes task changes.files >>= λ r. ok (report_of task r)

-- The two invariants of `assertScope`, in their order.
abbrev pub in_scope : Bool → List Text → List Text → Result PolicyError (List Text)
in_scope true auto_new rejected = err (too_many_new auto_new)
in_scope false auto_new [] = ok auto_new
in_scope false auto_new (f ∷ fs) = err (out_of_scope (f ∷ fs))

-- `assertScope`
unfoldable pub assert_scope : ChangeSet → ScopeTask → Result PolicyError (List Text)
unfolding scope_report
assert_scope changes task =
    scope_report changes task >>= λ r. in_scope r.too_many r.auto_new r.rejected

-- `files.filter((f) => patterns.some((p) => matches(f, p)))`
unfoldable pub filter_match : List Text → List Text → Result PolicyError (List Text)
unfolding some_match
filter_match patterns [] = ok []
filter_match patterns (f ∷ fs) =
    let rest = filter_match patterns fs in
    some_match f patterns >>= λ m. rest >>= λ found. ok (if m then f ∷ found else found)

-- `files.every((f) => patterns.some((p) => matches(f, p)))`
unfoldable pub every_match : List Text → List Text → Result PolicyError Bool
unfolding some_match
every_match patterns [] = ok true
every_match patterns (f ∷ fs) =
    let rest = every_match patterns fs in
    some_match f patterns >>= λ m. if m then rest else ok false

pub data Reason : Type 0 where
  requested_high : Reason
  sensitive_path : Text → Reason
  binary_change all_fast default_assurance : Reason

pub record RiskDecision : Type 0 where
  pub lane : Lane
  pub reasons : List Reason

abbrev pub is_high : Lane → Bool
is_high high = true
is_high _ = false

abbrev pub is_standard : Lane → Bool
is_standard standard = true
is_standard _ = false

abbrev sensitive_reasons : List Text → List Reason
sensitive_reasons [] = []
sensitive_reasons (f ∷ fs) = sensitive_path f ∷ sensitive_reasons fs

-- The sizes that the fast lane allows.
unfoldable pub is_small : ChangeSet → Risk → Bool
is_small changes risk =
    ltb 0 (length changes.files)
    && leb (length changes.files) risk.max_fast_files
    && leb changes.lines risk.max_fast_lines

abbrev pub fast_decision : Bool → RiskDecision
fast_decision true = record { lane = fast; reasons = all_fast ∷ [] }
fast_decision false = record { lane = standard; reasons = default_assurance ∷ [] }

-- The lane of a change, from its sensitive files and from the tests of the fast lane.
abbrev pub decide :
    Lane → Bool → Bool → Result PolicyError Bool → List Text → Result PolicyError RiskDecision
decide minimum binary small every sensitive =
    if is_high minimum || not (is_empty sensitive) || binary
    then ok (record {
      lane = high;
      reasons =
          (if is_high minimum then requested_high ∷ [] else [])
          ++ (sensitive_reasons sensitive ++ (if binary then binary_change ∷ [] else []));
    })
    else (if not (is_standard minimum) && small
        then (every >>= λ m. ok (fast_decision m))
        else ok (fast_decision false))

-- `classify`
unfoldable pub classify : ChangeSet → Risk → Lane → Result PolicyError RiskDecision
unfolding filter_match every_match is_small
classify changes risk minimum =
    filter_match (sensitive_paths ++ risk.high_paths) changes.files
    >>= decide minimum changes.binary (is_small changes risk)
        (every_match risk.fast_paths changes.files)

pub data ReviewMode : Type 0 where
  solo team regulated : ReviewMode

-- `requiredApprovals`
unfoldable pub required_approvals : Lane → ReviewMode → ℕ
required_approvals fast solo = 0
required_approvals _ solo = 1
required_approvals high regulated = 2
required_approvals _ regulated = 1
required_approvals high team = 2
required_approvals standard team = 1
required_approvals fast team = 0
