-- ===== src/Scheduler/Exclusion/Reached.antt =====
-- src/engine/scheduler.ts: the steps of a schedule and what may run at once.
use agent_pipeline_v.Base.{
  ◌≡◌, ◌≤◌, refl, sym, subst, ap, ◌∙◌, eq_text_refl, true, false, ◌||◌, not, List, [], ◌∷◌, ◌++◌,
  map, arith, Text, eq_text, all, any, filter, if◌then◌else◌, Bool-cases, inl, inr,
}
use agent_pipeline_v.Scheduler.{
  Gate, Queue, Options, has, failed_dependency, remove_gate, is_launchable, launch, block, consider,
  sweep_over, receive, fail, release, settle_job,
}
use agent_pipeline_v.Scheduler.Steps.{
  count, named, active, Step, swept, received, threw, released, cancelled, Reach, start, next,
}
use agent_pipeline_v.Scheduler.Steps.Count.{
  find_job-IsOnly, map-settle_job, map-remove_job, count-kept, length-active, map-append_job,
}
use agent_pipeline_v.Scheduler.Exclusion.{
  Exclusive, IsExclusive, block-Exclusive, launch-Exclusive, release-Exclusive,
}

-- The gates that a sweep has still to look at are pending.
abbrev pub AllPending : List Gate → Queue → Type 0
AllPending gs q = (id : Text) → count (named id) gs ≤ count (named id) q.pending

pub consider-AllPending :
    (o : Options) (g : Gate) (gs : List Gate) (q : Queue)
    → ((id : Text) → count (named id) q.pending ≤ 1)
    → AllPending (g ∷ gs) q
    → AllPending gs (consider o g q)
unfolding consider launch block count
consider-AllPending o g gs q once all id = elim (Bool-cases (eq_text g.id id)) [
  | inl own ↦ ground (arith, once id, all id)
  | inr other ↦ ground (arith, all id, count-kept g.id id q.pending other)
]

launch-IsExclusive :
    (o : Options) (g : Gate) (q : Queue)
    → 1 ≤ count (named g.id) q.pending
    → is_launchable o g q ≡ true
    → IsExclusive o q
    → IsExclusive o (launch g q)
unfolding launch is_launchable
launch-IsExclusive o g q waiting free e =
    subst
      (λ gs.
        Exclusive o.concurrency (remove_gate g.id q.pending) gs (g.resources ++ q.held)
          (not g.read_only || q.writer))
      (sym (map-append_job q.running (record { gate = g; settled = false })))
      (launch-Exclusive e g waiting (ground (arith, length-active q.running)) (ground arith)
        (ground (arith, length-active q.running)) (ground arith))

pub consider-block :
    (o : Options) (g : Gate) (q : Queue)
    → (q.aborted || failed_dependency g q) ≡ true
    → consider o g q ≡ block g q
unfolding consider
consider-block o g q h = rw h

pub consider-wait :
    (o : Options) (g : Gate) (q : Queue)
    → (q.aborted || failed_dependency g q) ≡ false
    → is_launchable o g q ≡ false
    → consider o g q ≡ q
unfolding consider
consider-wait o g q h k = rw (h, k)

pub consider-launch :
    (o : Options) (g : Gate) (q : Queue)
    → (q.aborted || failed_dependency g q) ≡ false
    → is_launchable o g q ≡ true
    → consider o g q ≡ launch g q
unfolding consider
consider-launch o g q h k = rw (h, k)

pub consider-IsExclusive :
    (o : Options) (g : Gate) (q : Queue)
    → 1 ≤ count (named g.id) q.pending
    → IsExclusive o q
    → IsExclusive o (consider o g q)
unfolding block
consider-IsExclusive o g q waiting e = elim (Bool-cases (q.aborted || failed_dependency g q)) [
  | inl stop ↦ subst (IsExclusive o) (sym (consider-block o g q stop)) (block-Exclusive e g.id)
  | inr go ↦ elim (Bool-cases (is_launchable o g q)) [
    | inr waits ↦ subst (IsExclusive o) (sym (consider-wait o g q go waits)) e
    | inl free ↦
        subst (IsExclusive o) (sym (consider-launch o g q go free))
          (launch-IsExclusive o g q waiting free e)
  ]
]

sweep_over-IsExclusive :
    (o : Options) (gs : List Gate) (q : Queue)
    → AllPending gs q
    → IsExclusive o q
    → IsExclusive o (sweep_over o gs q)
unfolding sweep_over count
sweep_over-IsExclusive o [] q waiting e = e
sweep_over-IsExclusive o (g ∷ gs) q waiting e =
    sweep_over-IsExclusive o gs (consider o g q)
      (consider-AllPending o g gs q (λ id. omega (arith, e.unique id)) waiting)
      (consider-IsExclusive o g q (ground (arith, waiting g.id, eq_text_refl g.id)) e)

settle-IsExclusive :
    (o : Options) (id : Text) (q t : Queue)
    → IsExclusive o q
    → t.pending ≡ q.pending
    → t.running ≡ map (settle_job id) q.running
    → t.held ≡ q.held
    → t.writer ≡ q.writer
    → IsExclusive o t
settle-IsExclusive o id q t e p r h w =
    let same : active t ≡ active q =
      ap (λ js. map (λ j. j.gate) js) r ∙ map-settle_job id q.running in
    subst (λ x. Exclusive o.concurrency x (active t) t.held t.writer) (sym p)
      (subst (λ x. Exclusive o.concurrency q.pending x t.held t.writer) (sym same)
        (subst (λ x. Exclusive o.concurrency q.pending (active q) x t.writer) (sym h)
          (subst (λ x. Exclusive o.concurrency q.pending (active q) q.held x) (sym w) e)))

Step-IsExclusive : (o : Options) {q t : Queue} → Step o q t → IsExclusive o q → IsExclusive o t
unfolding receive fail release
Step-IsExclusive o (swept {q}) e = sweep_over-IsExclusive o q.pending q (λ id. omega arith) e
Step-IsExclusive o (received {q} g r found) e =
    settle-IsExclusive o g.id q (receive o g.id r q) e refl refl refl refl
Step-IsExclusive o (threw {q} g error found) e =
    settle-IsExclusive o g.id q (fail g.id error q) e refl refl refl refl
Step-IsExclusive o (released {q} g found) e =
    subst
      (λ gs.
        Exclusive o.concurrency q.pending gs (filter (λ r. not (has r g.resources)) q.held)
          (if g.read_only then q.writer else false))
      (sym (map-remove_job g.id q.running))
      (release-Exclusive e g
        (find_job-IsOnly g true q.running found (omega (arith, e.unique g.id))))
Step-IsExclusive o (cancelled {q}) e = e

-- In every queue that a schedule reaches, at most `concurrency` gates run, a gate that is not read-only
-- runs alone, a resource is held exactly while a running gate uses it and by one gate at most, and no
-- gate is twice among the pending and the running ones.
pub Reach-IsExclusive :
    (o : Options) (gates : List Gate) {q : Queue} → Reach o gates q → IsExclusive o q
unfolding count any
Reach-IsExclusive o gates (start before distinct) = record {
  bounded = omega arith;
  writing = refl;
  alone = ground arith;
  holding = λ r. refl;
  single = λ r. omega arith;
  unique = λ id. omega (arith, distinct id);
}
Reach-IsExclusive o gates (next r s) = Step-IsExclusive o s (Reach-IsExclusive o gates r)
