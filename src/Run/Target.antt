-- ===== src/Run/Target.antt =====
-- src/run/state.ts: what `apv run set` names, and how it is spelled on the command line and in the
-- journal.
pub mod Parse
use agent_pipeline_v.Base.{
  ◌≡◌, refl, Bool, true, Option, none, some, List, [], ◌∷◌, ◌++◌, arith, Text, codes, eq_text,
  starts_with, is_key, if◌then◌else◌,
}
use agent_pipeline_v.Run.State.{
  StepName, ReviewDomain, data_model, plan, integration, reviews, fixes, delivery, securite,
  fidelite, donnees, rgpd,
}

pub data Target : Type 0 where
  step : StepName → Target
  task : Text → Target
  review : ReviewDomain → Target

abbrev pub step_text : StepName → Text
step_text data_model = codes "data-model"
step_text plan = codes "plan"
step_text integration = codes "integration"
step_text reviews = codes "reviews"
step_text fixes = codes "fixes"
step_text delivery = codes "delivery"

abbrev pub review_text : ReviewDomain → Text
review_text securite = codes "securite"
review_text fidelite = codes "fidelite"
review_text donnees = codes "donnees"
review_text rgpd = codes "rgpd"

-- targetName
abbrev pub target_name : Target → Text
target_name (step n) = step_text n
target_name (task id) = codes "task:" ++ id
target_name (review d) = codes "review:" ++ review_text d

-- PAUSE_TARGET
abbrev pub pause_target : Text
pause_target = codes "pause"

-- FULL_SUITE_OVERRIDE_TARGET
abbrev pub full_suite_override_target : Text
full_suite_override_target = codes "gates:full"

-- The element of a table of names that a text spells.
abbrev spelled {ℓ} : {A : Type ℓ} → (A → Text) → List A → Text → Option A
spelled name [] s = none
spelled name (a ∷ rest) s = if eq_text (name a) s then some a else spelled name rest s

abbrev step_names : List StepName
step_names = data_model ∷ plan ∷ integration ∷ reviews ∷ fixes ∷ delivery ∷ []

abbrev review_domains : List ReviewDomain
review_domains = securite ∷ fidelite ∷ donnees ∷ rgpd ∷ []

-- `s.slice(p.length)`
abbrev after : Text → Text → Text
after [] s = s
after (c ∷ p) [] = []
after (c ∷ p) (d ∷ s) = after p s

named_review : Text → Option Target
unfolding eq_text starts_with
named_review s =
    if starts_with (codes "review:") s
    then elim (spelled review_text review_domains (after (codes "review:") s)) [
      | none ↦ none
      | some d ↦ some (review d)
    ]
    else none

named_task : Text → Option Target
unfolding named_review is_key
named_task s =
    if starts_with (codes "task:") s
    then if is_key (after (codes "task:") s)
      then some (task (after (codes "task:") s))
      else named_review s
    else named_review s

-- parseTarget
pub parse_target : Text → Option Target
unfolding named_task
parse_target s = elim (spelled step_text step_names s) [
  | some n ↦ some (step n)
  | none ↦ named_task s
]

abbrev pub same_step : StepName → StepName → Bool
same_step a b = eq_text (step_text a) (step_text b)

-- Two targets are spelled alike only if they are the same.
abbrev pub same_target : Target → Target → Bool
same_target s t = eq_text (target_name s) (target_name t)
