-- ===== src/Scheduler/Steps/Open.antt =====
-- The jobs of src/engine/scheduler.ts whose gate has neither its receipt nor its error yet.
use agent_pipeline_v.Base.{
  ◌≡◌, ◌≤◌, refl, Bool, true, false, ◌&&◌, not, some, List, [], ◌∷◌, map, arith, Text, eq_text,
  eq_text_iff, filter, Bool-cases, inl, inr,
}
use agent_pipeline_v.Scheduler.{Gate, Job, remove_job, is_job, settle_job}
use agent_pipeline_v.Scheduler.Steps.{count, named, find_job}

abbrev pub is_open : Text → Job → Bool
is_open id j = is_job id j && not j.settled

pub count-open-le :
    (id : Text) (js : List Job) → count (is_open id) js ≤ count (named id) (map (λ j. j.gate) js)
unfolding count
count-open-le id [] = omega arith
count-open-le id (j ∷ js) = ground (arith, count-open-le id js)

pub find_job-open :
    (g : Gate) (js : List Job)
    → find_job g.id js ≡ some (record { gate = g; settled = false })
    → 1 ≤ count (is_open g.id) js
unfolding find_job count
find_job-open g [] h = absurd (ground arith)
find_job-open g (j ∷ js) h = elim (Bool-cases (is_job g.id j)) [
  | inl own ↦ ground arith
  | inr other ↦ ground (arith, find_job-open g js)
]

pub find_job-closed :
    (g : Gate) (js : List Job)
    → find_job g.id js ≡ some (record { gate = g; settled = true })
    → count (named g.id) (map (λ j. j.gate) js) ≤ 1
    → count (is_open g.id) js ≡ 0
unfolding find_job count
find_job-closed g [] h u = refl
find_job-closed g (j ∷ js) h u = elim (Bool-cases (is_job g.id j)) [
  | inl own ↦ ground (arith, count-open-le g.id js)
  | inr other ↦ ground (arith, find_job-closed g js)
]

pub count-settle_own : (id : Text) (js : List Job) → count (is_open id) (map (settle_job id) js) ≡ 0
unfolding count
count-settle_own id [] = refl
count-settle_own id (j ∷ js) = ground (arith, count-settle_own id js)

pub count-settle_other :
    (id other : Text) (js : List Job)
    → eq_text id other ≡ false
    → count (is_open other) (map (settle_job id) js) ≡ count (is_open other) js
unfolding count
count-settle_other id other [] h = refl
count-settle_other id other (j ∷ js) h = ground (
  arith,
  count-settle_other id other js,
  eq_text_iff j.gate.id id,
  eq_text_iff j.gate.id other,
  eq_text_iff id other,
)

pub count-remove_own : (id : Text) (js : List Job) → count (is_open id) (remove_job id js) ≡ 0
unfolding count remove_job filter
count-remove_own id [] = refl
count-remove_own id (j ∷ js) = ground (arith, count-remove_own id js)

pub count-remove_other :
    (id other : Text) (js : List Job)
    → eq_text id other ≡ false
    → count (is_open other) (remove_job id js) ≡ count (is_open other) js
unfolding count remove_job filter
count-remove_other id other [] h = refl
count-remove_other id other (j ∷ js) h = ground (
  arith,
  count-remove_other id other js,
  eq_text_iff j.gate.id id,
  eq_text_iff j.gate.id other,
  eq_text_iff id other,
)
