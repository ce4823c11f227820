-- ===== src/Policy/Scope/Lanes.antt =====
-- src/policy/policy.ts: `classify` and `requiredApprovals`.
use agent_pipeline_v.Base.{
  ℕ, ◌≡◌, ◌≤◌, ◌⊎◌, inl, inr, refl, subst, Bool, true, false, List, [], ◌∷◌, ◌++◌, Text, arith,
  Result, ok, err, bind-ok, ok_injective,
}
use agent_pipeline_v.Policy.Glob.{PolicyError}
use agent_pipeline_v.Policy.Scope.{
  ChangeSet, Risk, RiskDecision, Lane, fast, standard, high, is_high, ReviewMode, solo, team,
  regulated, required_approvals, sensitive_paths, filter_match, every_match, is_small, decide,
  classify, fast_decision,
}

abbrev pub level : Lane → ℕ
level fast = 0
level standard = 1
level high = 2

-- The lane decided is high, or the change has no sensitive file and nothing binary.
abbrev IsDecided : Lane → Bool → List Text → RiskDecision → Type 0
IsDecided minimum binary sensitive d =
    (level minimum ≤ level d.lane)
    × ((is_high d.lane ≡ true) ⊎ ((sensitive ≡ []) × (binary ≡ false)))

fast_decision-IsDecided : (m : Bool) → IsDecided fast false [] (fast_decision m)
fast_decision-IsDecided true = (omega arith, inr (refl, refl))
fast_decision-IsDecided false = (omega arith, inr (refl, refl))

decide-IsDecided :
    (minimum : Lane) (binary small : Bool) (every : Result PolicyError Bool) (sensitive : List Text)
    (d : RiskDecision)
    → decide minimum binary small every sensitive ≡ ok d
    → IsDecided minimum binary sensitive d
decide-IsDecided high binary small every sensitive d h =
    subst (IsDecided high binary sensitive) (ok_injective _ d h) (omega arith, inl refl)
decide-IsDecided fast binary small every (f ∷ fs) d h =
    subst (IsDecided fast binary (f ∷ fs)) (ok_injective _ d h) (omega arith, inl refl)
decide-IsDecided standard binary small every (f ∷ fs) d h =
    subst (IsDecided standard binary (f ∷ fs)) (ok_injective _ d h) (omega arith, inl refl)
decide-IsDecided fast true small every [] d h =
    subst (IsDecided fast true []) (ok_injective _ d h) (omega arith, inl refl)
decide-IsDecided standard true small every [] d h =
    subst (IsDecided standard true []) (ok_injective _ d h) (omega arith, inl refl)
decide-IsDecided standard false small every [] d h =
    subst (IsDecided standard false []) (ok_injective _ d h) (omega arith, inr (refl, refl))
decide-IsDecided fast false false every [] d h =
    subst (IsDecided fast false []) (ok_injective _ d h) (omega arith, inr (refl, refl))
decide-IsDecided fast false true (err e) [] d h = absurd (ground arith)
decide-IsDecided fast false true (ok m) [] d h =
    subst (IsDecided fast false []) (ok_injective (fast_decision m) d h) (fast_decision-IsDecided m)

approvals_grow :
    (a b : Lane) (mode : ReviewMode)
    → level a ≤ level b
    → required_approvals a mode ≤ required_approvals b mode
unfolding required_approvals
approvals_grow fast fast mode h = omega arith
approvals_grow standard standard mode h = omega arith
approvals_grow high high mode h = omega arith
approvals_grow fast standard solo h = omega arith
approvals_grow fast standard team h = omega arith
approvals_grow fast standard regulated h = omega arith
approvals_grow fast high solo h = omega arith
approvals_grow fast high team h = omega arith
approvals_grow fast high regulated h = omega arith
approvals_grow standard high solo h = omega arith
approvals_grow standard high team h = omega arith
approvals_grow standard high regulated h = omega arith
approvals_grow standard fast mode h = absurd (omega arith)
approvals_grow high fast mode h = absurd (omega arith)
approvals_grow high standard mode h = absurd (omega arith)

-- `classify` never gives less than the lane that was asked for, nor fewer approvals in any mode; and where
-- it gives less than high, no file of the change is at a sensitive path or at one of the project's high
-- paths, and nothing is binary.
pub classify-level :
    (changes : ChangeSet) (risk : Risk) (minimum : Lane) (mode : ReviewMode) (d : RiskDecision)
    → classify changes risk minimum ≡ ok d
    → (level minimum ≤ level d.lane)
      × (required_approvals minimum mode ≤ required_approvals d.lane mode)
      × ((is_high d.lane ≡ true)
          ⊎ ((filter_match (sensitive_paths ++ risk.high_paths) changes.files ≡ ok [])
              × (changes.binary ≡ false)))
unfolding classify
classify-level changes risk minimum mode d h =
    let found = filter_match (sensitive_paths ++ risk.high_paths) changes.files in
    let every = every_match risk.fast_paths changes.files in
    let (sensitive, hs, k) =
      bind-ok found (decide minimum changes.binary (is_small changes risk) every) h in
    let (up, rest) =
      decide-IsDecided minimum changes.binary (is_small changes risk) every sensitive d k in
    (up, approvals_grow minimum d.lane mode up, clean found sensitive hs rest)
  where
    clean :
        (found : Result PolicyError (List Text)) (sensitive : List Text)
        → found ≡ ok sensitive
        → (is_high d.lane ≡ true) ⊎ ((sensitive ≡ []) × (changes.binary ≡ false))
        → (is_high d.lane ≡ true) ⊎ ((found ≡ ok []) × (changes.binary ≡ false))
    clean found sensitive e (inl a) = inl a
    clean found sensitive e (inr b) = inr (subst (λ x. found ≡ ok x) b.0 e, b.1)
