-- ===== src/Scheduler/Progress/FailFast.antt =====
-- src/engine/scheduler.ts: gates in any order, when a failure stops the schedule.
pub mod AnyOrder
use agent_pipeline_v.Base.{
  ℕ, zero, suc, ◌+◌, ◌≡◌, ◌≤◌, ◌<◌, refl, sym, subst, ap, ◌∙◌, Bool, true, false, ◌&&◌, ◌||◌, not,
  Option, none, some, List, [], ◌∷◌, map, arith, Text, eq_text, eq_text_iff, all, any, filter, leb,
  length, is_empty, is_some, if◌then◌else◌, Bool-cases, inl, inr, ◌⊎◌, All,
}
use agent_pipeline_v.Base.Dict.{get, put, get-put}
use agent_pipeline_v.Scheduler.{
  Gate, Job, Queue, Options, Receipt, success, is_done, has_failed, failed_dependency, remove_gate,
  is_launchable, launch, block, consider, sweep_over, sweep, is_stuck, receive, fail, release,
}
use agent_pipeline_v.Scheduler.Steps.{
  count, named, active, Step, swept, received, threw, released, cancelled, Reach, start, next,
}
use agent_pipeline_v.Scheduler.Exclusion.{IsExclusive}
use agent_pipeline_v.Scheduler.Exclusion.Reached.{
  Reach-IsExclusive, consider-block, consider-wait, consider-launch, consider-IsExclusive,
}
use agent_pipeline_v.Scheduler.Order.{IsOrdered, accounted}
use agent_pipeline_v.Scheduler.Order.Reached.{Reach-IsOrdered}
use agent_pipeline_v.Scheduler.Progress.{DependsWithin, remove-all, running_kept}
use agent_pipeline_v.Scheduler.Progress.Listed.{
  idle_launchable, launch-running, block_rest, empty_list,
}

-- The dependencies of a gate are below it.
abbrev pub IsAbove : (Text → ℕ) → Gate → Type 0
IsAbove rank g = All (λ d. rank d < rank g.id) g.depends_on

-- What holds of every queue when a failure stops the schedule.
pub record IsSteady (gates : List Gate) (rank : Text → ℕ) (q : Queue) : Type 0 where
  pub spotless : q.aborted ≡ false → (id : Text) → has_failed (get id q.done) ≡ false
  pub known : All (DependsWithin gates) q.pending
  pub ranked : All (IsAbove rank) q.pending
  pub stopped : is_some q.fatal ≡ true → q.aborted ≡ true

pub none_failed :
    (q : Queue) (ds : List Text)
    → ((id : Text) → has_failed (get id q.done) ≡ false)
    → any (λ d. has_failed (get d q.done)) ds ≡ false
unfolding any
none_failed q [] h = refl
none_failed q (d ∷ ds) h = ground (arith, h d, none_failed q ds h)

module _ (gates : List Gate) (rank : Text → ℕ) (o : Options) (stops : o.fail_fast ≡ true) where
  block-IsSteady :
      (g : Gate) (q : Queue)
      → (q.aborted || failed_dependency g q) ≡ true
      → IsSteady gates rank q
      → IsSteady gates rank (block g q)
  unfolding block failed_dependency
  block-IsSteady g q stop s = record {
    spotless = λ h. absurd (ground (arith, none_failed q g.depends_on (s.spotless h)));
    known = remove-all (DependsWithin gates) g.id q.pending s.known;
    ranked = remove-all (IsAbove rank) g.id q.pending s.ranked;
    stopped = s.stopped;
  }

  launch-IsSteady :
      (g : Gate) (q : Queue) → IsSteady gates rank q → IsSteady gates rank (launch g q)
  unfolding launch
  launch-IsSteady g q s = record {
    spotless = s.spotless;
    known = remove-all (DependsWithin gates) g.id q.pending s.known;
    ranked = remove-all (IsAbove rank) g.id q.pending s.ranked;
    stopped = s.stopped;
  }

  consider-IsSteady :
      (g : Gate) (q : Queue) → IsSteady gates rank q → IsSteady gates rank (consider o g q)
  consider-IsSteady g q s = elim (Bool-cases (q.aborted || failed_dependency g q)) [
    | inl stop ↦
        subst (IsSteady gates rank) (sym (consider-block o g q stop)) (block-IsSteady g q stop s)
    | inr go ↦ elim (Bool-cases (is_launchable o g q)) [
      | inr waits ↦ subst (IsSteady gates rank) (sym (consider-wait o g q go waits)) s
      | inl free ↦
          subst (IsSteady gates rank) (sym (consider-launch o g q go free)) (launch-IsSteady g q s)
    ]
  ]

  sweep_over-IsSteady :
      (gs : List Gate) (q : Queue) → IsSteady gates rank q → IsSteady gates rank (sweep_over o gs q)
  unfolding sweep_over
  sweep_over-IsSteady [] q s = s
  sweep_over-IsSteady (g ∷ gs) q s =
      sweep_over-IsSteady gs (consider o g q) (consider-IsSteady g q s)

  Step-IsSteady : {q t : Queue} → Step o q t → IsSteady gates rank q → IsSteady gates rank t
  unfolding receive fail release
  Step-IsSteady (swept {q}) s = sweep_over-IsSteady q.pending q s
  Step-IsSteady (received {q} g r found) s = record {
    spotless = λ h id. ground (arith, s.spotless (ground arith) id, get-put g.id id r q.done);
    known = s.known;
    ranked = s.ranked;
    stopped = λ h. ground (arith, s.stopped h);
  }
  Step-IsSteady (threw {q} g error found) s = record {
    spotless = λ h. absurd (ground arith);
    known = s.known;
    ranked = s.ranked;
    stopped = λ h. refl;
  }
  Step-IsSteady (released {q} g found) s = record {
    spotless = s.spotless;
    known = s.known;
    ranked = s.ranked;
    stopped = s.stopped;
  }
  Step-IsSteady (cancelled {q}) s = record {
    spotless = λ h. absurd (ground arith);
    known = s.known;
    ranked = s.ranked;
    stopped = λ h. refl;
  }

  pub Reach-IsSteady :
      {q : Queue}
      → All (DependsWithin gates) gates
      → All (IsAbove rank) gates
      → Reach o gates q
      → IsSteady gates rank q
  unfolding get
  Reach-IsSteady within above (start before distinct) = record {
    spotless = λ h id. refl;
    known = within;
    ranked = above;
    stopped = λ h. absurd (ground arith);
  }
  Reach-IsSteady within above (next r s) = Step-IsSteady s (Reach-IsSteady within above r)
