-- ===== src/Scheduler/Callbacks.antt =====
-- src/engine/scheduler.ts: how many times a callback of a promise can run.
use agent_pipeline_v.Base.{
  ℕ, suc, ◌+◌, ◌*◌, ◌≡◌, ◌≤◌, ◌<◌, true, false, not, some, List, [], ◌∷◌, ◌++◌, map, arith, Text,
  eq_text_refl, filter, length, length-filter-le, if◌then◌else◌, Bool-cases, inl, inr,
}
use agent_pipeline_v.Scheduler.{
  Gate, Job, Queue, Options, remove_gate, remove_job, is_job, settle_job, launch, block, consider,
  sweep_over, receive, fail, release,
}
use agent_pipeline_v.Scheduler.Steps.{
  count, named, find_job, swept, received, threw, released, cancelled, Reach, start, next,
}
use agent_pipeline_v.Scheduler.Exclusion.{IsExclusive}
use agent_pipeline_v.Scheduler.Exclusion.Reached.{
  Reach-IsExclusive, AllPending, consider-AllPending, consider-IsExclusive,
}

-- The callbacks that are still to run for the jobs: the receipt or error of one, and its removal.
unfoldable pub to_come : List Job → ℕ
to_come [] = 0
to_come (j ∷ js) = (if j.settled then 1 else 2) + to_come js

abbrev pub weight : Queue → ℕ
weight q = 2 * length q.pending + to_come q.running

to_come-append : (js : List Job) (j : Job) → to_come (js ++ j ∷ []) ≡ to_come js + to_come (j ∷ [])
unfolding to_come
to_come-append [] j = omega arith
to_come-append (i ∷ js) j = omega (arith, to_come-append js j)

remove-lt-length :
    (id : Text) (gs : List Gate) → 1 ≤ count (named id) gs → length (remove_gate id gs) < length gs
unfolding count remove_gate filter
remove-lt-length id [] h = absurd (ground arith)
remove-lt-length id (g ∷ gs) h =
    ground (arith, remove-lt-length id gs, length-filter-le (λ x. not (named id x)) gs)

settle_le : (id : Text) (js : List Job) → to_come (map (settle_job id) js) ≤ to_come js
unfolding to_come
settle_le id [] = omega arith
settle_le id (j ∷ js) = ground (arith, settle_le id js)

settle_lt :
    (g : Gate) (js : List Job)
    → find_job g.id js ≡ some (record { gate = g; settled = false })
    → to_come (map (settle_job g.id) js) < to_come js
unfolding to_come find_job
settle_lt g [] h = absurd (ground arith)
settle_lt g (j ∷ js) h = elim (Bool-cases (is_job g.id j)) [
  | inl own ↦ ground (arith, settle_le g.id js)
  | inr other ↦ ground (arith, settle_lt g js)
]

remove_le : (id : Text) (js : List Job) → to_come (remove_job id js) ≤ to_come js
unfolding to_come remove_job filter
remove_le id [] = omega arith
remove_le id (j ∷ js) = ground (arith, remove_le id js)

remove_lt :
    (g : Gate) (js : List Job)
    → find_job g.id js ≡ some (record { gate = g; settled = true })
    → to_come (remove_job g.id js) < to_come js
unfolding to_come find_job remove_job filter
remove_lt g [] h = absurd (ground arith)
remove_lt g (j ∷ js) h = elim (Bool-cases (is_job g.id j)) [
  | inl own ↦ ground (arith, remove_le g.id js)
  | inr other ↦ ground (arith, remove_lt g js)
]

module _ (o : Options) where
  consider_le :
      (g : Gate) (q : Queue) → 1 ≤ count (named g.id) q.pending → weight (consider o g q) ≤ weight q
  unfolding consider block launch to_come
  consider_le g q waiting = ground (
    arith,
    remove-lt-length g.id q.pending waiting,
    to_come-append q.running (record { gate = g; settled = false }),
  )

  sweep_over_le :
      (gs : List Gate) (q : Queue)
      → AllPending gs q
      → IsExclusive o q
      → weight (sweep_over o gs q) ≤ weight q
  unfolding sweep_over count
  sweep_over_le [] q waiting e = omega arith
  sweep_over_le (g ∷ gs) q waiting e =
      let here : 1 ≤ count (named g.id) q.pending =
        ground (arith, waiting g.id, eq_text_refl g.id) in
      omega (
        arith,
        consider_le g q here,
        sweep_over_le gs (consider o g q)
            (consider-AllPending o g gs q (λ id. omega (arith, e.unique id)) waiting)
            (consider-IsExclusive o g q here e),
      )

  -- The callbacks among the steps that reached a queue.
  unfoldable pub callbacks : {gates : List Gate} {q : Queue} → Reach o gates q → ℕ
  callbacks (start before distinct) = 0
  callbacks (next r (swept {q})) = callbacks r
  callbacks (next r (received {q} g receipt found)) = suc (callbacks r)
  callbacks (next r (threw {q} g error found)) = suc (callbacks r)
  callbacks (next r (released {q} g found)) = suc (callbacks r)
  callbacks (next r (cancelled {q})) = callbacks r

  -- A schedule runs at most two callbacks for each of its gates: those that ran and those that are
  -- still to come for the pending and the running gates are never more.
  pub callbacks_le :
      (gates : List Gate) {q : Queue} (r : Reach o gates q)
      → callbacks r + weight q ≤ 2 * length gates
  unfolding callbacks to_come receive fail release
  callbacks_le gates (start before distinct) = omega arith
  callbacks_le gates (next r (swept {q})) = omega (
    arith,
    callbacks_le gates r,
    sweep_over_le q.pending q (λ id. omega arith) (Reach-IsExclusive o gates r),
  )
  callbacks_le gates (next r (received {q} g receipt found)) =
      omega (arith, callbacks_le gates r, settle_lt g q.running found)
  callbacks_le gates (next r (threw {q} g error found)) =
      omega (arith, callbacks_le gates r, settle_lt g q.running found)
  callbacks_le gates (next r (released {q} g found)) =
      omega (arith, callbacks_le gates r, remove_lt g q.running found)
  callbacks_le gates (next r (cancelled {q})) = omega (arith, callbacks_le gates r)
