-- ===== src/Scheduler/Order/Reached.antt =====
-- src/engine/scheduler.ts: the steps of a schedule and the order of its gates, and its result.
use agent_pipeline_v.Base.{
  ◌≡◌, ◌≤◌, refl, sym, subst, ap, true, false, ◌||◌, none, some, List, [], ◌∷◌, map, arith, Text,
  eq_text, eq_text_iff, eq_text_refl, is_some, Bool-cases, Option-cases, inl, inr, ◌⊎◌,
}
use agent_pipeline_v.Base.Dict.{get, put, get-put}
use agent_pipeline_v.Scheduler.{
  Gate, Queue, Options, Receipt, failed_dependency, is_launchable, consider, sweep_over, receive,
  fail, release,
}
use agent_pipeline_v.Scheduler.Steps.{
  count, named, find_job, Step, swept, received, threw, released, cancelled, Reach, start, next,
}
use agent_pipeline_v.Scheduler.Steps.Open.{
  count-open-le, find_job-open, find_job-closed, count-settle_own, count-settle_other,
  count-remove_own, count-remove_other,
}
use agent_pipeline_v.Scheduler.Exclusion.{IsExclusive}
use agent_pipeline_v.Scheduler.Exclusion.Reached.{
  Reach-IsExclusive, AllPending, consider-AllPending, consider-IsExclusive, consider-block,
  consider-wait, consider-launch,
}
use agent_pipeline_v.Scheduler.{receipts, thrown, outcome}
use agent_pipeline_v.Scheduler.Order.{
  IsOrdered, accounted, put-IsFulfilled, settle-IsFulfilled, remove-IsFulfilled, block-IsOrdered,
  launch-IsOrdered,
}

module _ (gates : List Gate) (o : Options) where
  pub consider-IsOrdered :
      (g : Gate) (q : Queue)
      → 1 ≤ count (named g.id) q.pending
      → IsExclusive o q
      → IsOrdered gates q
      → IsOrdered gates (consider o g q)
  consider-IsOrdered g q waiting e s = elim (Bool-cases (q.aborted || failed_dependency g q)) [
    | inl stop ↦
        subst (IsOrdered gates) (sym (consider-block o g q stop))
          (block-IsOrdered gates o g q waiting e s)
    | inr go ↦ elim (Bool-cases (is_launchable o g q)) [
      | inr waits ↦ subst (IsOrdered gates) (sym (consider-wait o g q go waits)) s
      | inl free ↦
          subst (IsOrdered gates) (sym (consider-launch o g q go free))
            (launch-IsOrdered gates o g q (ground arith) free waiting s)
    ]
  ]

  sweep_over-IsOrdered :
      (gs : List Gate) (q : Queue)
      → AllPending gs q
      → IsExclusive o q
      → IsOrdered gates q
      → IsOrdered gates (sweep_over o gs q)
  unfolding sweep_over count
  sweep_over-IsOrdered [] q waiting e s = s
  sweep_over-IsOrdered (g ∷ gs) q waiting e s =
      let here : 1 ≤ count (named g.id) q.pending =
        ground (arith, waiting g.id, eq_text_refl g.id) in
      sweep_over-IsOrdered gs (consider o g q)
        (consider-AllPending o g gs q (λ id. omega (arith, e.unique id)) waiting)
        (consider-IsExclusive o g q here e) (consider-IsOrdered g q here e s)

  receive-IsOrdered :
      (g : Gate) (r : Receipt) (q : Queue)
      → find_job g.id q.running ≡ some (record { gate = g; settled = false })
      → IsExclusive o q
      → IsOrdered gates q
      → IsOrdered gates (receive o g.id r q)
  unfolding receive
  receive-IsOrdered g r q found e s =
      let running = find_job-open g q.running found in
      record {
        pending_open = λ id h. ground (
          arith,
          get-put g.id id r q.done,
          s.pending_open id h,
          eq_text_iff g.id id,
          e.unique g.id,
          e.unique id,
          count-open-le g.id q.running,
        );
        running_open = λ id h. ground (
          arith,
          get-put g.id id r q.done,
          eq_text_iff g.id id,
          s.running_open id,
          count-settle_own g.id q.running,
          count-settle_other g.id id q.running,
        );
        fulfilled =
            settle-IsFulfilled g.id (put g.id r q.done) q.running
              (put-IsFulfilled g.id r q.done q.running (s.running_open g.id running) s.fulfilled);
        complete = λ id h. ground (
          arith,
          s.complete id h,
          get-put g.id id r q.done,
          count-settle_other g.id id q.running,
        );
      }

  fail-IsOrdered :
      (g : Gate) (error : Text) (q : Queue)
      → IsOrdered gates q
      → IsOrdered gates (fail g.id error q)
  unfolding fail
  fail-IsOrdered g error q s = record {
    pending_open = s.pending_open;
    running_open = λ id h. ground (
      arith,
      s.running_open id,
      eq_text_iff g.id id,
      count-settle_own g.id q.running,
      count-settle_other g.id id q.running,
    );
    fulfilled = settle-IsFulfilled g.id q.done q.running s.fulfilled;
    complete = λ id h. ground arith;
  }

  release-IsOrdered :
      (g : Gate) (q : Queue)
      → find_job g.id q.running ≡ some (record { gate = g; settled = true })
      → IsExclusive o q
      → IsOrdered gates q
      → IsOrdered gates (release g q)
  unfolding release
  release-IsOrdered g q found e s =
      let closed = find_job-closed g q.running found (omega (arith, e.unique g.id)) in
      record {
        pending_open = s.pending_open;
        running_open = λ id h. ground (
          arith,
          s.running_open id,
          eq_text_iff g.id id,
          count-remove_own g.id q.running,
          count-remove_other g.id id q.running,
        );
        fulfilled = remove-IsFulfilled g.id q.done q.running s.fulfilled;
        complete = λ id h. elim (Bool-cases (eq_text g.id id)) [
          | inl own ↦
              subst (λ i. accounted (release g q) i ≡ true) ((eq_text_iff g.id id).0 own)
                (let before = s.complete g.id (
                    subst (λ i. 1 ≤ count (named i) gates) (sym ((eq_text_iff g.id id).0 own)) h) in
                  ground (arith, before, closed))
          | inr other ↦ ground (arith, s.complete id h, count-remove_other g.id id q.running other)
        ];
      }

  Step-IsOrdered :
      {q t : Queue} → Step o q t → IsExclusive o q → IsOrdered gates q → IsOrdered gates t
  Step-IsOrdered (swept {q}) e s = sweep_over-IsOrdered q.pending q (λ id. omega arith) e s
  Step-IsOrdered (received {q} g r found) e s = receive-IsOrdered g r q found e s
  Step-IsOrdered (threw {q} g error found) e s = fail-IsOrdered g error q s
  Step-IsOrdered (released {q} g found) e s = release-IsOrdered g q found e s
  Step-IsOrdered (cancelled {q}) e s = record {
    pending_open = s.pending_open;
    running_open = s.running_open;
    fulfilled = s.fulfilled;
    complete = s.complete;
  }

  -- In every queue that a schedule reaches, the dependencies of each running gate have receipts that
  -- passed, a gate that is pending or has not ended has no receipt, and every gate is pending, runs or
  -- has its receipt, unless an error is to be thrown.
  pub Reach-IsOrdered : {q : Queue} → Reach o gates q → IsOrdered gates q
  unfolding count get
  Reach-IsOrdered (start before distinct) = record {
    pending_open = λ id h. refl;
    running_open = λ id h. refl;
    fulfilled = tt;
    complete = λ id h. ground arith;
  }
  Reach-IsOrdered (next r s) = Step-IsOrdered s (Reach-IsExclusive o gates r) (Reach-IsOrdered r)

  all_done :
      (q : Queue) (gs : List Gate)
      → ((id : Text) → 1 ≤ count (named id) gs → is_some (get id q.done) ≡ true)
      → (rs : List Receipt) × (map (λ g. get g.id q.done) gs ≡ map (λ r. some r) rs)
  unfolding count
  all_done q [] h = ([], refl)
  all_done q (g ∷ gs) h =
      let (rs, rest) = all_done q gs (λ id k. h id (ground arith)) in
      elim (Option-cases (get g.id q.done)) [
        | inl absent ↦ absurd (ground (arith, h g.id (ground (arith, eq_text_refl g.id))))
        | inr (r, there) ↦ (r ∷ rs, ground arith)
      ]

  all_returned :
      {q : Queue}
      → Reach o gates q
      → q.pending ≡ []
      → q.running ≡ []
      → q.fatal ≡ none
      → (rs : List Receipt) × (map (λ g. get g.id q.done) gates ≡ map (λ r. some r) rs)
  unfolding count
  all_returned {q} r idle over clean =
      all_done q gates (λ id h. ground (arith, (Reach-IsOrdered r).complete id h))

  -- A schedule whose loop ends, with nothing pending and nothing running, throws the error of a gate or
  -- returns receipts, one for each gate in the order of the gates: the one recorded for its id.
  pub outcome_complete :
      {q : Queue}
      → Reach o gates q
      → q.pending ≡ []
      → q.running ≡ []
      → ((e : Text) × (q.fatal ≡ some e) × (outcome gates q ≡ thrown e))
        ⊎ ((rs : List Receipt) × (map (λ g. get g.id q.done) gates ≡ map (λ r. some r) rs)
            × (outcome gates q ≡ receipts (map (λ r. some r) rs)))
  unfolding outcome
  outcome_complete {q} r idle over = elim (Option-cases q.fatal) [
    | inr (error, there) ↦ inl (error, there, rw there)
    | inl absent ↦ inr (
      (all_returned r idle over absent).0,
      (all_returned r idle over absent).1,
      rw absent (ap receipts (all_returned r idle over absent).1),
    )
  ]
