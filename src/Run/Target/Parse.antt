-- ===== src/Run/Target/Parse.antt =====
-- src/run/state.ts: `parseTarget` against `targetName`.
use agent_pipeline_v.Base.{
  ◌≡◌, ◌↔◌, refl, subst, ap, ◌∙◌, true, some, List, [], ◌∷◌, ◌++◌, arith, Text, codes, eq_text,
  eq_text_iff, starts_with, is_key, Bool-cases, Option-cases, inl, inr,
}
use agent_pipeline_v.Run.State.{StepName, ReviewDomain, data_model, securite}
use agent_pipeline_v.Run.Target.{
  Target, step, task, review, step_text, review_text, step_names, review_domains, target_name,
  parse_target, named_task, named_review, spelled, after,
}

parse_target-name_step : (n : StepName) → parse_target (target_name (step n)) ≡ some (step n)
unfolding parse_target
parse_target-name_step data_model = refl
parse_target-name_step _ = refl

parse_target-name_review :
    (d : ReviewDomain) → parse_target (target_name (review d)) ≡ some (review d)
unfolding parse_target
parse_target-name_review securite = refl
parse_target-name_review _ = refl

parse_target-name_task :
    (id : Text) → is_key id ≡ true → parse_target (target_name (task id)) ≡ some (task id)
unfolding parse_target
parse_target-name_task id h = ground arith

spelled-some {ℓ} :
    {A : Type ℓ} (name : A → Text) (xs : List A) (s : Text) {a : A}
    → spelled name xs s ≡ some a
    → name a ≡ s
spelled-some name [] s h = absurd (ground arith)
spelled-some name (x ∷ xs) s {a} h = elim (Bool-cases (eq_text (name x) s)) [
  | inl own ↦
      let same : x ≡ a = ground arith in
      subst (λ y. name y ≡ s) same ((eq_text_iff (name x) s).0 own)
  | inr other ↦ spelled-some name xs s (ground arith)
]

after-append : (p s : Text) → starts_with p s ≡ true → p ++ after p s ≡ s
unfolding starts_with
after-append [] s h = refl
after-append (c ∷ p) [] h = absurd (ground arith)
after-append (c ∷ p) (d ∷ s) h =
    let head : c ≡ d = ground arith in let tail = after-append p s (ground arith) in cc

-- What `parseTarget` can return: the id of a task is a key.
abbrev pub IsNamed : Target → Type 0
IsNamed (task id) = is_key id ≡ true
IsNamed _ = Unit

named_review-ok :
    (s : Text) (t : Target) → named_review s ≡ some t → (target_name t ≡ s) × IsNamed t
unfolding named_review
named_review-ok s t h = elim (Bool-cases (starts_with (codes "review:") s)) [
  | inr other ↦ absurd (ground arith)
  | inl prefix ↦
      elim (Option-cases (spelled review_text review_domains (after (codes "review:") s))) [
        | inl nothing ↦ absurd (ground arith)
        | inr (d, e) ↦
            let same : review d ≡ t = ground arith in
            let name = spelled-some review_text review_domains (after (codes "review:") s) e in
            subst (λ x. (target_name x ≡ s) × IsNamed x) same
              (ap (λ x. codes "review:" ++ x) name ∙ after-append (codes "review:") s prefix, tt)
      ]
]

named_task-ok : (s : Text) (t : Target) → named_task s ≡ some t → (target_name t ≡ s) × IsNamed t
unfolding named_task
named_task-ok s t h = elim (Bool-cases (starts_with (codes "task:") s)) [
  | inr other ↦ named_review-ok s t (ground arith)
  | inl prefix ↦ elim (Bool-cases (is_key (after (codes "task:") s))) [
    | inr other ↦ named_review-ok s t (ground arith)
    | inl key ↦
        let same : task (after (codes "task:") s) ≡ t = ground arith in
        subst (λ x. (target_name x ≡ s) × IsNamed x) same
          (after-append (codes "task:") s prefix, key)
  ]
]

parse_target-ok :
    (s : Text) (t : Target) → parse_target s ≡ some t → (target_name t ≡ s) × IsNamed t
unfolding parse_target
parse_target-ok s t h = elim (Option-cases (spelled step_text step_names s)) [
  | inl nothing ↦ named_task-ok s t (ground arith)
  | inr (n, e) ↦
      let same : step n ≡ t = ground arith in
      subst (λ x. (target_name x ≡ s) × IsNamed x) same (spelled-some step_text step_names s e, tt)
]

parse_target-name : (t : Target) → IsNamed t → parse_target (target_name t) ≡ some t
parse_target-name (step n) h = parse_target-name_step n
parse_target-name (task id) h = parse_target-name_task id h
parse_target-name (review d) h = parse_target-name_review d

-- A text parses to a target exactly when it is the spelling of that target, which for a task has to
-- be a key.
pub parse_target_iff :
    (s : Text) (t : Target) → (parse_target s ≡ some t) ↔ ((target_name t ≡ s) × IsNamed t)
parse_target_iff s t = (
  parse_target-ok s t,
  λ (spelt, named). subst (λ x. parse_target x ≡ some t) spelt (parse_target-name t named),
)
