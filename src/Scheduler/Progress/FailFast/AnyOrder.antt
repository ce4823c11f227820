-- ===== src/Scheduler/Progress/FailFast/AnyOrder.antt =====
-- src/engine/scheduler.ts: a sweep over gates in any order, when a failure stops the schedule.
use agent_pipeline_v.Base.{
  ℕ, zero, suc, ◌≡◌, ◌≤◌, ◌<◌, refl, sym, subst, ap, ◌∙◌, true, false, ◌||◌, List, [], ◌∷◌, arith,
  Text, eq_text_iff, eq_text_refl, all, is_empty, is_some, Bool-cases, inl, inr, ◌⊎◌, All,
}
use agent_pipeline_v.Base.Dict.{get}
use agent_pipeline_v.Scheduler.{
  Gate, Queue, Options, is_done, has_failed, failed_dependency, is_launchable, block, consider,
  sweep_over, sweep, is_stuck,
}
use agent_pipeline_v.Scheduler.Steps.{count, named, Reach}
use agent_pipeline_v.Scheduler.Exclusion.{IsExclusive}
use agent_pipeline_v.Scheduler.Exclusion.Reached.{
  Reach-IsExclusive, consider-block, consider-wait, consider-launch, consider-IsExclusive,
}
use agent_pipeline_v.Scheduler.Order.{IsOrdered}
use agent_pipeline_v.Scheduler.Order.Reached.{Reach-IsOrdered}
use agent_pipeline_v.Scheduler.Progress.{DependsWithin, running_kept}
use agent_pipeline_v.Scheduler.Progress.Listed.{
  idle_launchable, launch-running, block_rest, empty_list,
}
use agent_pipeline_v.Scheduler.Progress.FailFast.{IsAbove, none_failed, Reach-IsSteady}

pick {ℓ} :
    (P : Gate → Type ℓ) (d : Text) (gs : List Gate)
    → All P gs
    → 1 ≤ count (named d) gs
    → (g : Gate) × (g.id ≡ d) × P g
unfolding count
pick P d [] a h = absurd (ground arith)
pick P d (g ∷ gs) a h = elim (Bool-cases (named d g)) [
  | inl own ↦ (g, (eq_text_iff g.id d).0 own, a.0)
  | inr other ↦ pick P d gs a.1 (ground arith)
]

module _ (o : Options) where
  -- A sweep with nothing running launches a gate or changes nothing.
  launch_or_wait :
      (gs : List Gate) (q : Queue)
      → q.aborted ≡ false
      → ((id : Text) → has_failed (get id q.done) ≡ false)
      → (is_empty (sweep_over o gs q).running ≡ false)
        ⊎ ((sweep_over o gs q ≡ q) × All (λ g. is_launchable o g q ≡ false) gs)
  unfolding sweep_over failed_dependency
  launch_or_wait [] q runs clean = inr (refl, tt)
  launch_or_wait (g ∷ gs) q runs clean =
      let go : (q.aborted || failed_dependency g q) ≡ false =
        ground (arith, none_failed q g.depends_on clean) in
      elim (Bool-cases (is_launchable o g q)) [
        | inl free ↦ inl (
            running_kept [] o gs (consider o g q) (
              subst (λ (x : Queue). is_empty x.running ≡ false)
                (sym (consider-launch o g q go free)) (launch-running [] o g q)))
        | inr waits ↦
            let same = consider-wait o g q go waits in
            elim (launch_or_wait gs q runs clean) [
              | inl busy ↦
                  inl (subst (λ x. is_empty (sweep_over o gs x).running ≡ false) (sym same) busy)
              | inr (still, all_wait) ↦ inr (ap (sweep_over o gs) same ∙ still, (waits, all_wait))
            ]
      ]

  block-aborted : (g : Gate) (q : Queue) → (block g q).aborted ≡ q.aborted
  unfolding block
  block-aborted g q = refl

  -- A sweep of a schedule that was stopped blocks every gate.
  block_all :
      (gs : List Gate) (q : Queue)
      → q.aborted ≡ true
      → q.pending ≡ gs
      → IsExclusive o q
      → (sweep_over o gs q).pending ≡ []
  unfolding sweep_over count
  block_all [] q stopped all_seen e = all_seen
  block_all (g ∷ gs) q stopped all_seen e =
      let here : 1 ≤ count (named g.id) q.pending = ground (arith, eq_text_refl g.id) in
      let same = consider-block o g q (ground arith) in
      block_all gs (consider o g q)
        (ap (λ (x : Queue). x.aborted) same ∙ block-aborted g q ∙ stopped)
        (ap (λ (x : Queue). x.pending) same
          ∙ block_rest [] o g gs q all_seen (omega (arith, e.unique g.id)))
        (consider-IsExclusive o g q here e)

module _ (gates : List Gate) (rank : Text → ℕ) (o : Options) (room : 1 ≤ o.concurrency) (q : Queue)
    (s : IsOrdered gates q) (e : IsExclusive o q) (idle : q.running ≡ [])
    (clean : is_some q.fatal ≡ false) where
  -- The dependencies are done, or one of them is pending.
  done_or_pending :
      (n : ℕ) (ds : List Text)
      → All (λ d. 1 ≤ count (named d) gates) ds
      → All (λ d. rank d < n) ds
      → (all (λ d. is_done q d) ds ≡ true)
        ⊎ ((d : Text) × (1 ≤ count (named d) q.pending) × (rank d < n))
  unfolding all count
  done_or_pending n [] known below = inl refl
  done_or_pending n (d ∷ ds) known below = elim (done_or_pending n ds known.1 below.1) [
    | inr later ↦ inr later
    | inl rest ↦ elim (Bool-cases (is_done q d)) [
      | inl over ↦ inl (ground arith)
      | inr waits ↦ inr (d, ground (arith, s.complete d known.0), below.0)
    ]
  ]

  abbrev Waits : Gate → Type 0
  Waits g = DependsWithin gates g × IsAbove rank g × (is_launchable o g q ≡ false)

  -- Some pending gate of a queue where nothing runs can be launched.
  none-Waits : (n : ℕ) (g : Gate) → rank g.id < n → All Waits q.pending → Waits g → ⊥
  none-Waits zero g h waiting w = omega arith
  none-Waits (suc n) g h waiting w = elim (done_or_pending (rank g.id) g.depends_on w.0 w.1) [
    | inl ready ↦
        let free = idle_launchable gates o g q room e idle ready in absurd (ground (arith, w.2))
    | inr (d, there, below) ↦
        let (next_gate, same, its) = pick Waits d q.pending waiting there in
        none-Waits n next_gate (subst (λ x. rank x < n) (sym same) (omega (arith, below, h)))
          waiting its
  ]

  zip-Waits :
      (gs : List Gate)
      → All (DependsWithin gates) gs
      → All (IsAbove rank) gs
      → All (λ g. is_launchable o g q ≡ false) gs
      → All Waits gs
  zip-Waits [] a b c = tt
  zip-Waits (g ∷ gs) a b c = ((a.0, b.0, c.0), zip-Waits gs a.1 b.1 c.1)

  none_pending : (gs : List Gate) → q.pending ≡ gs → All Waits q.pending → q.pending ≡ []
  none_pending [] h waiting = h
  none_pending (g ∷ gs) h waiting =
      absurd (none-Waits (suc (rank g.id)) g (omega arith) waiting (subst (All Waits) h waiting).0)

-- At a positive concurrency and when a failure stops the schedule, gates with distinct ids whose dependencies are gates of the list and can be ranked,
-- each above those it depends on, never leave it without progress, in whatever order they are listed:
-- after every sweep a gate runs or none is pending.
pub sweep-goes_on_fail_fast :
    (gates : List Gate) (rank : Text → ℕ) (o : Options) {q : Queue}
    → Reach o gates q
    → o.fail_fast ≡ true
    → 1 ≤ o.concurrency
    → All (DependsWithin gates) gates
    → All (IsAbove rank) gates
    → is_stuck (sweep o q) ≡ false
sweep-goes_on_fail_fast gates rank o {q} r stops room within above =
    let e = Reach-IsExclusive o gates r in
    let s = Reach-IsSteady gates rank o stops within above r in
    elim (Bool-cases (is_empty q.running)) [
      | inr busy ↦ let kept = running_kept gates o q.pending q busy in ground arith
      | inl quiet ↦ elim (Bool-cases q.aborted) [
        | inl stopped ↦ let over = block_all o q.pending q stopped refl e in ground arith
        | inr runs ↦ elim (launch_or_wait o q.pending q runs (s.spotless runs)) [
          | inl busy ↦ ground arith
          | inr (still, waiting) ↦
              let idle = empty_list q.running quiet in
              let over =
                none_pending gates rank o room q (Reach-IsOrdered gates o r) e idle
                  (ground (arith, s.stopped)) q.pending refl
                  (zip-Waits gates rank o room q (Reach-IsOrdered gates o r) e idle
                    (ground (arith, s.stopped)) q.pending s.known s.ranked waiting) in
              subst (λ (x : Queue). is_stuck x ≡ false) (sym still) (ground arith)
        ]
      ]
    ]
