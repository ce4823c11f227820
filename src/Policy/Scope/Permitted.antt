-- ===== src/Policy/Scope/Permitted.antt =====
-- src/policy/policy.ts: the files that `assertScope` lets through.
use agent_pipeline_v.Base.{
  ◌≡◌, ◌≤◌, ◌⊎◌, inl, inr, refl, sym, subst, Bool, true, false, List, [], ◌∷◌, ◌++◌, Text, arith,
  Result, ok, err, ◌>>=◌, bind-ok, ok_injective, length, ltb, or_else, All,
}
use agent_pipeline_v.Policy.Glob.{PolicyError, valid_relative_path}
use agent_pipeline_v.Policy.Scope.{
  ChangeSet, ScopeTask, ScopeReport, Verdict, inside, created, refused, sensitive_paths, some_match,
  includes, new_verdict, safe_new, verdict, judge, add_file, judge_files, probe, scope_report,
  assert_scope, in_scope, report_of,
}

-- A file that the change adds, in a declared envelope and not at a sensitive path.
abbrev pub IsSafeNew : ChangeSet → ScopeTask → Text → Type 0
IsSafeNew changes task file =
    (includes changes.added file ≡ true)
    × (some_match file (or_else task.allowed_new_paths []) ≡ ok true)
    × (some_match file sensitive_paths ≡ ok false)

-- A valid path that the task allows, or such a new file.
abbrev pub IsPermitted : ChangeSet → ScopeTask → Text → Type 0
IsPermitted changes task file =
    (valid_relative_path file ≡ true)
    × ((some_match file task.allowed_paths ≡ ok true) ⊎ IsSafeNew changes task file)

-- The tests that let a file through as a new one.
new_verdict-ok :
    (added : Bool) (declared sensitive : Result PolicyError Bool)
    → new_verdict added declared sensitive ≡ ok true
    → (added ≡ true) × (declared ≡ ok true) × (sensitive ≡ ok false)
new_verdict-ok false declared sensitive h = absurd (ground arith)
new_verdict-ok true (err e) sensitive h = absurd (ground arith)
new_verdict-ok true (ok false) sensitive h = absurd (ground arith)
new_verdict-ok true (ok true) (err e) h = absurd (ground arith)
new_verdict-ok true (ok true) (ok true) h = absurd (ground arith)
new_verdict-ok true (ok true) (ok false) h = (refl, refl, refl)

-- What a verdict says of the tests.
abbrev Backed : Verdict → Bool → Result PolicyError Bool → Result PolicyError Bool → Type 0
Backed inside valid allowed new = (valid ≡ true) × (allowed ≡ ok true)
Backed created valid allowed new = (valid ≡ true) × (new ≡ ok true)
Backed refused valid allowed new = Unit

verdict-Backed :
    (valid : Bool) (allowed new : Result PolicyError Bool) (v : Verdict)
    → verdict valid allowed new ≡ ok v
    → Backed v valid allowed new
verdict-Backed valid allowed new refused h = tt
verdict-Backed false allowed new inside h = absurd (ground arith)
verdict-Backed false allowed new created h = absurd (ground arith)
verdict-Backed true (err e) new inside h = absurd (ground arith)
verdict-Backed true (err e) new created h = absurd (ground arith)
verdict-Backed true (ok true) new inside h = (refl, refl)
verdict-Backed true (ok true) new created h = absurd (ground arith)
verdict-Backed true (ok false) (err e) inside h = absurd (ground arith)
verdict-Backed true (ok false) (err e) created h = absurd (ground arith)
verdict-Backed true (ok false) (ok true) inside h = absurd (ground arith)
verdict-Backed true (ok false) (ok false) inside h = absurd (ground arith)
verdict-Backed true (ok false) (ok true) created h = (refl, refl)
verdict-Backed true (ok false) (ok false) created h = absurd (ground arith)

-- The files of a verdict, in the two lists.
module _ (changes : ChangeSet) (task : ScopeTask) where
  Allowed : Text → Type 0
  Allowed file = IsPermitted changes task file

  abbrev Judged : Verdict → Text → Type 0
  Judged inside file = IsPermitted changes task file
  Judged created file = (valid_relative_path file ≡ true) × IsSafeNew changes task file
  Judged refused file = Unit

  Backed-Judged :
      (file : Text) (v : Verdict)
      → Backed v
          (valid_relative_path file)
          (some_match file task.allowed_paths)
          (safe_new changes (or_else task.allowed_new_paths []) file)
      → Judged v file
  Backed-Judged file inside b = (b.0, inl b.1)
  Backed-Judged file created b = (
    b.0,
    new_verdict-ok (includes changes.added file)
        (some_match file (or_else task.allowed_new_paths [])) (some_match file sensitive_paths) b.1,
  )
  Backed-Judged file refused b = tt

  -- The files that are not rejected are permitted, and the new ones are safe.
  abbrev Sorted : List Text → List Text × List Text → Type 0
  Sorted files r =
      (r.1 ≡ [] → All (IsPermitted changes task) files) × All (IsSafeNew changes task) r.0

  add_file-Sorted :
      (file : Text) (files : List Text) (v : Verdict) (r : List Text × List Text)
      → Judged v file
      → Sorted files r
      → Sorted (file ∷ files) (add_file file v r)
  add_file-Sorted file files inside r j s = ((λ e. (j, s.0 e)), s.1)
  add_file-Sorted file files created r j s = ((λ e. ((j.0, inr j.1), s.0 e)), (j.1, s.1))
  add_file-Sorted file files refused r j s = ((λ e. absurd (ground arith)), s.1)

  judge_files-Sorted :
      (files : List Text) (r : List Text × List Text)
      → judge_files changes task files ≡ ok r
      → Sorted files r
  unfolding judge_files
  judge_files-Sorted [] r h =
      let same : ([], []) ≡ r = ok_injective ([], []) r h in subst (Sorted []) same ((λ e. tt), tt)
  judge_files-Sorted (file ∷ files) r h =
      let (v, hv, k) =
        bind-ok (judge changes task file)
          (λ v. judge_files changes task files >>= λ r. ok (add_file file v r)) h in
      let (q, hq, e) = bind-ok (judge_files changes task files) (λ r. ok (add_file file v r)) k in
      let judged = Backed-Judged file v (verdict-Backed _ _ _ v hv) in
      let same : add_file file v q ≡ r = ok_injective (add_file file v q) r e in
      subst (Sorted (file ∷ files)) same
        (add_file-Sorted file files v q judged (judge_files-Sorted files q hq))

in_scope-ok :
    (too_many : Bool) (auto_new rejected auto : List Text)
    → in_scope too_many auto_new rejected ≡ ok auto
    → (too_many ≡ false) × (rejected ≡ []) × (auto_new ≡ auto)
in_scope-ok true auto_new rejected auto h = absurd (ground arith)
in_scope-ok false auto_new [] auto h = (refl, refl, ok_injective auto_new auto h)
in_scope-ok false auto_new (f ∷ fs) auto h = absurd (ground arith)

report_in_scope :
    (changes : ChangeSet) (task : ScopeTask) (auto : List Text) (q : List Text × List Text)
    → Sorted changes task changes.files q
    → in_scope (ltb (or_else task.max_new_files 0) (length q.0)) q.0 q.1 ≡ ok auto
    → All (IsPermitted changes task) changes.files
      × All (IsSafeNew changes task) auto
      × (length auto ≤ or_else task.max_new_files 0)
report_in_scope changes task auto q s k =
    let (few, none_left, same) =
      in_scope-ok (ltb (or_else task.max_new_files 0) (length q.0)) q.0 q.1 auto k in
    let few_new : length q.0 ≤ or_else task.max_new_files 0 = ground arith in
    (
      s.0 none_left,
      subst (All (IsSafeNew changes task)) same s.1,
      subst (λ xs. length xs ≤ or_else task.max_new_files 0) same few_new,
    )

-- Where `assertScope` returns, each file of the change is at a valid path that the task allows or is a new
-- file of a declared envelope at no sensitive path, and the files returned are such new files, at most as
-- many as the task accepts.
pub assert_scope-IsPermitted :
    (changes : ChangeSet) (task : ScopeTask) (auto : List Text)
    → assert_scope changes task ≡ ok auto
    → All (IsPermitted changes task) changes.files
      × All (IsSafeNew changes task) auto
      × (length auto ≤ or_else task.max_new_files 0)
unfolding assert_scope scope_report
assert_scope-IsPermitted changes task auto h =
    let checked : ScopeReport → Result PolicyError (List Text) =
      λ r. in_scope r.too_many r.auto_new r.rejected in
    let (r, hr, k) = bind-ok (scope_report changes task) checked h in
    let reported : List Text × List Text → Result PolicyError ScopeReport =
      λ q. ok (report_of task q) in
    let (u, hu, k1) =
      bind-ok (probe (task.allowed_paths ++ or_else task.allowed_new_paths []))
        (λ u. judge_files changes task changes.files >>= reported) hr in
    let (q, hq, k2) = bind-ok (judge_files changes task changes.files) reported k1 in
    let same : r ≡ report_of task q = sym (ok_injective (report_of task q) r k2) in
    report_in_scope changes task auto q (judge_files-Sorted changes task changes.files q hq)
      (subst (λ x. checked x ≡ ok auto) same k)
