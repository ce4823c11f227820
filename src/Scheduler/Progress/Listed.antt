-- ===== src/Scheduler/Progress/Listed.antt =====
-- src/engine/scheduler.ts: a sweep over gates that are listed after their dependencies.
use agent_pipeline_v.Base.{
  ◌≡◌, ◌≤◌, refl, sym, subst, ap, ◌∙◌, true, false, ◌||◌, List, [], ◌∷◌, ◌++◌, arith, Text,
  eq_text_refl, all, any, filter, is_empty, is_some, Bool-cases, inl, inr, All,
}
use agent_pipeline_v.Scheduler.{
  Gate, Job, Queue, Options, has, is_done, failed_dependency, remove_gate, is_launchable, launch,
  block, consider, sweep_over, sweep, is_stuck,
}
use agent_pipeline_v.Scheduler.Steps.{count, named, Reach}
use agent_pipeline_v.Scheduler.Exclusion.{IsExclusive}
use agent_pipeline_v.Scheduler.Exclusion.Reached.{
  Reach-IsExclusive, consider-IsExclusive, consider-block, consider-launch,
}
use agent_pipeline_v.Scheduler.Order.{IsOrdered}
use agent_pipeline_v.Scheduler.Order.Reached.{Reach-IsOrdered, consider-IsOrdered}
use agent_pipeline_v.Scheduler.Progress.{
  NoneLater, DependsWithin, IsListedFirst, IsListed, consider-IsListed, Reach-IsListed,
  running_kept,
}

pub empty_list : (js : List Job) → is_empty js ≡ true → js ≡ []
empty_list [] h = refl
empty_list (j ∷ js) h = absurd (ground arith)

append-nonempty : (js : List Job) (j : Job) → is_empty (js ++ j ∷ []) ≡ false
append-nonempty [] j = refl
append-nonempty (i ∷ js) j = refl

remove_absent : (id : Text) (gs : List Gate) → count (named id) gs ≡ 0 → remove_gate id gs ≡ gs
unfolding remove_gate filter count
remove_absent id [] h = refl
remove_absent id (g ∷ gs) h = ground (arith, remove_absent id gs)

remove_first :
    (g : Gate) (gs : List Gate) → count (named g.id) (g ∷ gs) ≤ 1 → remove_gate g.id (g ∷ gs) ≡ gs
unfolding remove_gate filter count
remove_first g gs h = ground (arith, eq_text_refl g.id, remove_absent g.id gs)

module _ (gates : List Gate) (o : Options) where
  deps_done :
      (q : Queue) (ds : List Text)
      → IsOrdered gates q
      → q.running ≡ []
      → is_some q.fatal ≡ false
      → All (λ d. count (named d) q.pending ≡ 0) ds
      → All (λ d. 1 ≤ count (named d) gates) ds
      → all (λ d. is_done q d) ds ≡ true
  unfolding all count
  deps_done q [] s idle clean gone known = refl
  deps_done q (d ∷ ds) s idle clean gone known =
      ground (arith, s.complete d known.0, gone.0, deps_done q ds s idle clean gone.1 known.1)

  none_held :
      (q : Queue) (rs : List Text)
      → IsExclusive o q
      → q.running ≡ []
      → any (λ r. has r q.held) rs ≡ false
  unfolding any count
  none_held q [] e idle = refl
  none_held q (r ∷ rs) e idle = ground (arith, e.holding r, none_held q rs e idle)

  idle_writer : (q : Queue) → IsExclusive o q → q.running ≡ [] → q.writer ≡ false
  unfolding count
  idle_writer q e idle = ground (arith, e.writing)

  -- With nothing running, a gate whose dependencies are done can be launched.
  pub idle_launchable :
      (g : Gate) (q : Queue)
      → 1 ≤ o.concurrency
      → IsExclusive o q
      → q.running ≡ []
      → all (λ d. is_done q d) g.depends_on ≡ true
      → is_launchable o g q ≡ true
  unfolding is_launchable
  idle_launchable g q room e idle ready =
      ground (arith, none_held q g.resources e idle, idle_writer q e idle)

  pub launch-running : (g : Gate) (q : Queue) → is_empty (launch g q).running ≡ false
  unfolding launch
  launch-running g q = append-nonempty q.running (record { gate = g; settled = false })

  pub block_rest :
      (g : Gate) (gs : List Gate) (q : Queue)
      → q.pending ≡ g ∷ gs
      → count (named g.id) q.pending ≤ 1
      → (block g q).pending ≡ gs
  unfolding block
  block_rest g gs q h once =
      subst (λ ps. remove_gate g.id ps ≡ gs) (sym h)
        (remove_first g gs (subst (λ ps. count (named g.id) ps ≤ 1) h once))

  block-running : (g : Gate) (q : Queue) → (block g q).running ≡ q.running
  unfolding block
  block-running g q = refl

  sweep_over-goes_on :
      (gs : List Gate) (q : Queue)
      → 1 ≤ o.concurrency
      → q.pending ≡ gs
      → q.running ≡ []
      → IsExclusive o q
      → IsOrdered gates q
      → IsListed gates q
      → is_stuck (sweep_over o gs q) ≡ false
  unfolding sweep_over count
  sweep_over-goes_on [] q room all_seen idle e s l = ground arith
  sweep_over-goes_on (g ∷ gs) q room all_seen idle e s l =
      let here : 1 ≤ count (named g.id) q.pending = ground (arith, eq_text_refl g.id) in
      elim (Bool-cases (q.aborted || failed_dependency g q)) [
        | inl stop ↦
            let same = consider-block o g q stop in
            sweep_over-goes_on gs (consider o g q) room
              (ap (λ (x : Queue). x.pending) same
                ∙ block_rest g gs q all_seen (omega (arith, e.unique g.id)))
              (ap (λ (x : Queue). x.running) same ∙ block-running g q ∙ idle)
              (consider-IsExclusive o g q here e) (consider-IsOrdered gates o g q here e s)
              (consider-IsListed gates o g q l)
        | inr go ↦
            let free = idle_launchable g q room e idle (
              deps_done q g.depends_on s idle (ground (arith, l.stopped))
                (subst (λ ps. All (λ d. count (named d) ps ≡ 0) g.depends_on) (sym all_seen)
                  (subst NoneLater all_seen l.later).0)
                (subst (λ ps. All (DependsWithin gates) ps) all_seen l.known).0) in
            let same = consider-launch o g q go free in
            let kept =
              running_kept gates o gs (consider o g q) (
                subst (λ (x : Queue). is_empty x.running ≡ false) (sym same)
                  (launch-running g q)) in
            ground arith
      ]

  -- At a positive concurrency, gates with distinct ids that are listed after their dependencies never
  -- leave the scheduler without progress: after every sweep a gate runs or none is pending.
  pub sweep-goes_on :
      {q : Queue}
      → Reach o gates q
      → 1 ≤ o.concurrency
      → IsListedFirst gates
      → is_stuck (sweep o q) ≡ false
  sweep-goes_on {q} r room first = elim (Bool-cases (is_empty q.running)) [
    | inl idle ↦
        sweep_over-goes_on q.pending q room refl (empty_list q.running idle)
          (Reach-IsExclusive o gates r) (Reach-IsOrdered gates o r) (Reach-IsListed gates o first r)
    | inr busy ↦ let kept = running_kept gates o q.pending q busy in ground arith
  ]
