-- ===== src/Scheduler/Progress.antt =====
-- src/engine/scheduler.ts: when the loop over the pending gates leaves something to wait for.
pub mod Listed
pub mod FailFast
use agent_pipeline_v.Base.{
  ℕ, ◌+◌, ◌≡◌, ◌≤◌, refl, sym, subst, Bool, true, false, ◌&&◌, ◌||◌, not, Option, none, some, List,
  [], ◌∷◌, ◌++◌, map, arith, Text, eq_text, eq_text_iff, eq_text_refl, all, any, filter, leb,
  length, is_empty, is_some, if◌then◌else◌, Bool-cases, inl, inr, ◌⊎◌, All,
}
use agent_pipeline_v.Base.Dict.{get}
use agent_pipeline_v.Scheduler.{
  Gate, Job, Queue, Options, has, is_done, failed_dependency, remove_gate, is_launchable, launch,
  block, consider, sweep_over, sweep, is_stuck, receive, fail, release,
}
use agent_pipeline_v.Scheduler.Steps.{
  count, named, active, Step, swept, received, threw, released, cancelled, Reach, start, next,
}
use agent_pipeline_v.Scheduler.Steps.Count.{count-remove_gate}
use agent_pipeline_v.Scheduler.Exclusion.{IsExclusive}
use agent_pipeline_v.Scheduler.Exclusion.Reached.{
  Reach-IsExclusive, consider-IsExclusive, consider-block, consider-wait, consider-launch,
}
use agent_pipeline_v.Scheduler.Order.{IsOrdered, accounted}
use agent_pipeline_v.Scheduler.Order.Reached.{Reach-IsOrdered, consider-IsOrdered}

-- No gate of the list depends on itself or on a later one.
abbrev pub NoneLater : List Gate → Type 0
NoneLater [] = Unit
NoneLater (g ∷ gs) = All (λ d. count (named d) (g ∷ gs) ≡ 0) g.depends_on × NoneLater gs

abbrev pub DependsWithin : List Gate → Gate → Type 0
DependsWithin gates g = All (λ d. 1 ≤ count (named d) gates) g.depends_on

-- Every dependency is a gate of the list that stands before the gate that depends on it.
pub record IsListedFirst (gates : List Gate) : Type 0 where
  pub none_later : NoneLater gates
  pub within : All (DependsWithin gates) gates

pub remove-all {ℓ} :
    (P : Gate → Type ℓ) (id : Text) (gs : List Gate) → All P gs → All P (remove_gate id gs)
unfolding remove_gate filter
remove-all P id [] a = tt
remove-all P id (g ∷ gs) a = elim (Bool-cases (named id g)) [
  | inl own ↦ rw (own, filter) (remove-all P id gs a.1)
  | inr other ↦ rw (other, filter) (a.0, remove-all P id gs a.1)
]

zero_remove :
    (id : Text) (gs : List Gate) (ds : List Text)
    → All (λ d. count (named d) gs ≡ 0) ds
    → All (λ d. count (named d) (remove_gate id gs) ≡ 0) ds
zero_remove id gs [] a = tt
zero_remove id gs (d ∷ ds) a =
    (omega (arith, a.0, count-remove_gate (named d) id gs), zero_remove id gs ds a.1)

remove-NoneLater : (id : Text) (gs : List Gate) → NoneLater gs → NoneLater (remove_gate id gs)
unfolding remove_gate filter
remove-NoneLater id [] a = tt
remove-NoneLater id (g ∷ gs) a = elim (Bool-cases (named id g)) [
  | inl own ↦ rw (own, filter) (remove-NoneLater id gs a.1)
  | inr other ↦
      let kept : All (λ d. count (named d) (remove_gate id (g ∷ gs)) ≡ 0) g.depends_on =
        zero_remove id (g ∷ gs) g.depends_on a.0 in
      rw (other, filter) (rw (other, filter) at kept, remove-NoneLater id gs a.1)
]

-- What holds of the pending gates of every queue.
pub record IsListed (gates : List Gate) (q : Queue) : Type 0 where
  pub later : NoneLater q.pending
  pub known : All (DependsWithin gates) q.pending
  pub stopped : is_some q.fatal ≡ true → q.aborted ≡ true

module _ (gates : List Gate) (o : Options) where
  pub consider-IsListed :
      (g : Gate) (q : Queue) → IsListed gates q → IsListed gates (consider o g q)
  unfolding block launch
  consider-IsListed g q l =
      let removed : IsListed gates (block g q) = record {
        later = remove-NoneLater g.id q.pending l.later;
        known = remove-all (DependsWithin gates) g.id q.pending l.known;
        stopped = l.stopped;
      } in
      elim (Bool-cases (q.aborted || failed_dependency g q)) [
        | inl stop ↦ subst (IsListed gates) (sym (consider-block o g q stop)) removed
        | inr go ↦ elim (Bool-cases (is_launchable o g q)) [
          | inr waits ↦ subst (IsListed gates) (sym (consider-wait o g q go waits)) l
          | inl free ↦
              subst (IsListed gates) (sym (consider-launch o g q go free))
                (record { later = removed.later; known = removed.known; stopped = l.stopped })
        ]
      ]

  sweep_over-IsListed :
      (gs : List Gate) (q : Queue) → IsListed gates q → IsListed gates (sweep_over o gs q)
  unfolding sweep_over
  sweep_over-IsListed [] q l = l
  sweep_over-IsListed (g ∷ gs) q l =
      sweep_over-IsListed gs (consider o g q) (consider-IsListed g q l)

  Step-IsListed : {q t : Queue} → Step o q t → IsListed gates q → IsListed gates t
  unfolding receive fail release
  Step-IsListed (swept {q}) l = sweep_over-IsListed q.pending q l
  Step-IsListed (received {q} g r found) l = record {
    later = l.later;
    known = l.known;
    stopped = λ h. ground (arith, l.stopped h);
  }
  Step-IsListed (threw {q} g error found) l = record {
    later = l.later;
    known = l.known;
    stopped = λ h. refl;
  }
  Step-IsListed (released {q} g found) l = record {
    later = l.later;
    known = l.known;
    stopped = l.stopped;
  }
  Step-IsListed (cancelled {q}) l = record { later = l.later; known = l.known; stopped = λ h. refl }

  pub Reach-IsListed : {q : Queue} → IsListedFirst gates → Reach o gates q → IsListed gates q
  Reach-IsListed first (start before distinct) = record {
    later = first.none_later;
    known = first.within;
    stopped = λ h. absurd (ground arith);
  }
  Reach-IsListed first (next r s) = Step-IsListed s (Reach-IsListed first r)

  pub running_kept :
      (gs : List Gate) (q : Queue)
      → is_empty q.running ≡ false
      → is_empty (sweep_over o gs q).running ≡ false
  unfolding sweep_over consider block launch
  running_kept [] q h = h
  running_kept (g ∷ gs) q h = running_kept gs (consider o g q) (ground arith)
