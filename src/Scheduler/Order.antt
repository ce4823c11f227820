-- ===== src/Scheduler/Order.antt =====
-- src/engine/scheduler.ts: the order of the gates, their receipts, and the sweep.
pub mod Reached
use agent_pipeline_v.Base.{
  ℕ, ◌+◌, ◌≡◌, ◌≤◌, refl, sym, subst, Bool, true, false, ◌&&◌, ◌||◌, not, Option, none, some, List,
  [], ◌∷◌, ◌++◌, map, arith, Text, eq_text, eq_text_iff, eq_text_refl, all, any, filter, leb,
  is_some, if◌then◌else◌, Bool-cases, inl, inr, ◌⊎◌, All, All-append,
}
use agent_pipeline_v.Base.Dict.{Dict, get, put, get-put}
use agent_pipeline_v.Scheduler.{
  Gate, Job, Queue, Options, Receipt, success, is_done, has_failed, failed_dependency, remove_gate,
  remove_job, is_job, is_launchable, launch, block, consider, sweep_over, receive, fail, release,
  settle_job, blocked_receipt, block_reason,
}
use agent_pipeline_v.Scheduler.Steps.{
  count, named, active, Step, swept, received, threw, released, cancelled, Reach, start, next,
}
use agent_pipeline_v.Scheduler.Steps.Count.{
  count-append, count-remove_gate, count-removed, count-kept, find_job-IsOnly,
}
use agent_pipeline_v.Scheduler.Steps.Open.{
  is_open, count-open-le, find_job-open, find_job-closed, count-settle_own, count-settle_other,
  count-remove_own, count-remove_other,
}
use agent_pipeline_v.Scheduler.Exclusion.{IsExclusive}
use agent_pipeline_v.Scheduler.Exclusion.Reached.{
  Reach-IsExclusive, AllPending, consider-AllPending, consider-IsExclusive, consider-block,
  consider-wait, consider-launch,
}

abbrev pub has_passed : Option Receipt → Bool
has_passed none = false
has_passed (some r) = success r

-- The dependencies of a job have receipts that passed.
abbrev pub IsFulfilled : Dict Receipt → Job → Type 0
IsFulfilled done j = All (λ d. has_passed (get d done) ≡ true) j.gate.depends_on

-- The gate is pending, runs, has its receipt, or the schedule is to throw.
abbrev pub accounted : Queue → Text → Bool
accounted q id =
    leb 1 (count (named id) q.pending)
    || leb 1 (count (is_open id) q.running)
    || is_some (get id q.done)
    || is_some q.fatal

-- No gate has its receipt before it ends, a gate runs only after its dependencies passed, and each of
-- the gates is accounted for.
pub record IsOrdered (gates : List Gate) (q : Queue) : Type 0 where
  pub pending_open : (id : Text) → 1 ≤ count (named id) q.pending → get id q.done ≡ none
  pub running_open : (id : Text) → 1 ≤ count (is_open id) q.running → get id q.done ≡ none
  pub fulfilled : All (IsFulfilled q.done) q.running
  pub complete : (id : Text) → 1 ≤ count (named id) gates → accounted q id ≡ true

-- A receipt more, of a gate that had none.
put-fulfilled :
    (id : Text) (r : Receipt) (done : Dict Receipt) (ds : List Text)
    → get id done ≡ none
    → All (λ d. has_passed (get d done) ≡ true) ds
    → All (λ d. has_passed (get d (put id r done)) ≡ true) ds
put-fulfilled id r done [] h a = tt
put-fulfilled id r done (d ∷ ds) h a =
    (ground (arith, get-put id d r done, eq_text_iff id d, a.0), put-fulfilled id r done ds h a.1)

pub put-IsFulfilled :
    (id : Text) (r : Receipt) (done : Dict Receipt) (js : List Job)
    → get id done ≡ none
    → All (IsFulfilled done) js
    → All (IsFulfilled (put id r done)) js
put-IsFulfilled id r done [] h a = tt
put-IsFulfilled id r done (j ∷ js) h a =
    (put-fulfilled id r done j.gate.depends_on h a.0, put-IsFulfilled id r done js h a.1)

pub settle-IsFulfilled :
    (id : Text) (done : Dict Receipt) (js : List Job)
    → All (IsFulfilled done) js
    → All (IsFulfilled done) (map (settle_job id) js)
settle-IsFulfilled id done [] a = tt
settle-IsFulfilled id done (j ∷ js) a = elim (Bool-cases (is_job id j)) [
  | inl own ↦ rw own (a.0, settle-IsFulfilled id done js a.1)
  | inr other ↦ rw other (a.0, settle-IsFulfilled id done js a.1)
]

pub remove-IsFulfilled :
    (id : Text) (done : Dict Receipt) (js : List Job)
    → All (IsFulfilled done) js
    → All (IsFulfilled done) (remove_job id js)
unfolding remove_job filter
remove-IsFulfilled id done [] a = tt
remove-IsFulfilled id done (j ∷ js) a = elim (Bool-cases (is_job id j)) [
  | inl own ↦ rw (own, filter) (remove-IsFulfilled id done js a.1)
  | inr other ↦ rw (other, filter) (a.0, remove-IsFulfilled id done js a.1)
]

-- Dependencies that are all done, none failed, have passed.
passed_dependencies :
    (q : Queue) (ds : List Text)
    → any (λ d. has_failed (get d q.done)) ds ≡ false
    → all (λ d. is_done q d) ds ≡ true
    → All (λ d. has_passed (get d q.done) ≡ true) ds
unfolding any all
passed_dependencies q [] h k = tt
passed_dependencies q (d ∷ ds) h k =
    (ground arith, passed_dependencies q ds (ground arith) (ground arith))

module _ (gates : List Gate) (o : Options) where
  pub block-IsOrdered :
      (g : Gate) (q : Queue)
      → 1 ≤ count (named g.id) q.pending
      → IsExclusive o q
      → IsOrdered gates q
      → IsOrdered gates (block g q)
  unfolding block
  block-IsOrdered g q waiting e s =
      let r = blocked_receipt g (block_reason q) in
      record {
        pending_open = λ id h. ground (
          arith,
          get-put g.id id r q.done,
          eq_text_iff g.id id,
          s.pending_open id,
          count-removed g.id q.pending,
          count-kept g.id id q.pending,
        );
        running_open = λ id h. ground (
          arith,
          get-put g.id id r q.done,
          eq_text_iff g.id id,
          s.running_open id,
          count-open-le id q.running,
          e.unique g.id,
          e.unique id,
        );
        fulfilled =
            put-IsFulfilled g.id r q.done q.running (s.pending_open g.id waiting) s.fulfilled;
        complete = λ id h.
            ground (arith, s.complete id h, get-put g.id id r q.done, count-kept g.id id q.pending);
      }

  pub launch-IsOrdered :
      (g : Gate) (q : Queue)
      → failed_dependency g q ≡ false
      → is_launchable o g q ≡ true
      → 1 ≤ count (named g.id) q.pending
      → IsOrdered gates q
      → IsOrdered gates (launch g q)
  unfolding launch failed_dependency is_launchable count
  launch-IsOrdered g q unfailed free waiting s =
      let job : Job = record { gate = g; settled = false } in
      record {
        pending_open =
            λ id h. ground (arith, s.pending_open id, count-remove_gate (named id) g.id q.pending);
        running_open = λ id h. elim (Bool-cases (eq_text g.id id)) [
          | inl own ↦
              subst (λ i. get i q.done ≡ none) ((eq_text_iff g.id id).0 own)
                (s.pending_open g.id waiting)
          | inr other ↦
              s.running_open id (ground (arith, count-append (is_open id) q.running (job ∷ [])))
        ];
        fulfilled =
            All-append (IsFulfilled q.done) q.running (job ∷ [])
              (s.fulfilled, (passed_dependencies q g.depends_on (ground arith) (ground arith), tt));
        complete = λ id h. ground (
          arith,
          s.complete id h,
          count-append (is_open id) q.running (job ∷ []),
          count-kept g.id id q.pending,
        );
      }
