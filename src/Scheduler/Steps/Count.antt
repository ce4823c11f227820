-- ===== src/Scheduler/Steps/Count.antt =====
-- Lists of gates of src/engine/scheduler.ts, by how many of their elements pass a test.
use agent_pipeline_v.Base.{
  ◌+◌, ◌≡◌, ◌≤◌, refl, sym, subst, Bool, false, ◌&&◌, some, List, [], ◌∷◌, ◌++◌, map, arith, Text,
  eq_text, eq_text_iff, eq_text_refl, filter, any, length, leb, is_empty, if◌then◌else◌, Bool-cases,
  inl, inr,
}
use agent_pipeline_v.Scheduler.{Gate, Job, remove_gate, remove_job, is_job, settle_job}
use agent_pipeline_v.Scheduler.Steps.{count, named, find_job}

module _ {ℓ} {A : Type ℓ} (p : A → Bool) where
  pub count-append : (xs ys : List A) → count p (xs ++ ys) ≡ count p xs + count p ys
  unfolding count
  count-append [] ys = omega arith
  count-append (x ∷ xs) ys = omega (arith, count-append xs ys)

  pub count_and_le : (q : A → Bool) (xs : List A) → count (λ x. p x && q x) xs ≤ count q xs
  unfolding count
  count_and_le q [] = omega arith
  count_and_le q (x ∷ xs) = ground (arith, count_and_le q xs)

  pub any-count : (xs : List A) → any p xs ≡ leb 1 (count p xs)
  unfolding count any
  any-count [] = refl
  any-count (x ∷ xs) = ground (arith, any-count xs)

  pub count-le-length : (xs : List A) → count p xs ≤ length xs
  unfolding count
  count-le-length [] = omega arith
  count-le-length (x ∷ xs) = ground (arith, count-le-length xs)

-- Exactly one gate of the list has the id of `g`, and it is `g`.
pub record IsOnly (g : Gate) (gs : List Gate) : Type 0 where
  pub once : count (named g.id) gs ≡ 1
  pub itself : (p : Gate → Bool) → count (λ x. p x && named g.id x) gs ≡ (if p g then 1 else 0)

IsOnly-here : (g : Gate) (gs : List Gate) → count (named g.id) (g ∷ gs) ≤ 1 → IsOnly g (g ∷ gs)
unfolding count
IsOnly-here g gs h = record {
  once = ground (arith, eq_text_refl g.id);
  itself = λ p. ground (arith, eq_text_refl g.id, count_and_le p (named g.id) gs);
}

IsOnly-there :
    (g x : Gate) (gs : List Gate) → eq_text x.id g.id ≡ false → IsOnly g gs → IsOnly g (x ∷ gs)
unfolding count
IsOnly-there g x gs h u = record {
  once = ground (arith, u.once);
  itself = λ p. ground (arith, u.itself p);
}

-- The job that is found is the only one of its gate.
pub find_job-IsOnly :
    (g : Gate) (b : Bool) (js : List Job)
    → find_job g.id js ≡ some (record { gate = g; settled = b })
    → count (named g.id) (map (λ j. j.gate) js) ≤ 1
    → IsOnly g (map (λ j. j.gate) js)
unfolding find_job count
find_job-IsOnly g b [] h u = absurd (ground arith)
find_job-IsOnly g b (j ∷ js) h u = elim (Bool-cases (is_job g.id j)) [
  | inl own ↦
      let same : j.gate ≡ g = ground arith in
      let rest : List Gate = map (λ j. j.gate) js in
      subst (λ x. IsOnly g (x ∷ rest)) (sym same)
        (IsOnly-here g rest (subst (λ x. count (named g.id) (x ∷ rest) ≤ 1) same u))
  | inr other ↦
      IsOnly-there g j.gate (map (λ j. j.gate) js) other
        (find_job-IsOnly g b js (ground arith) (omega (arith, u)))
]

pub map-settle_job :
    (id : Text) (js : List Job) → map (λ j. j.gate) (map (settle_job id) js) ≡ map (λ j. j.gate) js
map-settle_job id [] = refl
map-settle_job id (j ∷ js) = ground (arith, map-settle_job id js)

pub map-remove_job :
    (id : Text) (js : List Job)
    → map (λ j. j.gate) (remove_job id js) ≡ remove_gate id (map (λ j. j.gate) js)
unfolding remove_job remove_gate filter
map-remove_job id [] = refl
map-remove_job id (j ∷ js) = ground (arith, map-remove_job id js)

pub count-remove_gate :
    (p : Gate → Bool) (id : Text) (gs : List Gate)
    → count p gs ≡ count p (remove_gate id gs) + count (λ g. p g && named id g) gs
unfolding count remove_gate filter
count-remove_gate p id [] = omega arith
count-remove_gate p id (g ∷ gs) = ground (arith, count-remove_gate p id gs)

pub count-removed : (id : Text) (gs : List Gate) → count (named id) (remove_gate id gs) ≡ 0
unfolding count remove_gate filter
count-removed id [] = refl
count-removed id (g ∷ gs) = ground (arith, count-removed id gs)

pub map-append_job :
    (js : List Job) (j : Job)
    → map (λ i. i.gate) (js ++ j ∷ []) ≡ map (λ i. i.gate) js ++ j.gate ∷ []
map-append_job [] j = refl
map-append_job (i ∷ js) j = ground (arith, map-append_job js j)

pub count-kept :
    (id other : Text) (gs : List Gate)
    → eq_text id other ≡ false
    → count (named other) (remove_gate id gs) ≡ count (named other) gs
unfolding count remove_gate filter
count-kept id other [] h = refl
count-kept id other (g ∷ gs) h = ground (
  arith,
  count-kept id other gs,
  eq_text_iff g.id id,
  eq_text_iff g.id other,
  eq_text_iff id other,
)

pub length-active :
    (js : List Job)
    → (length (map (λ j. j.gate) js) ≡ length js) × (is_empty (map (λ j. j.gate) js) ≡ is_empty js)
length-active [] = (refl, refl)
length-active (j ∷ js) = (ground (arith, length-active js), refl)
