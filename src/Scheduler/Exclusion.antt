-- ===== src/Scheduler/Exclusion.antt =====
-- src/engine/scheduler.ts: what may run at once. The core is on the lists of the pending and of the
-- running gates, the held resources and the flag of the writer.
pub mod Reached
use agent_pipeline_v.Base.{
  ℕ, ◌+◌, ◌≡◌, ◌≤◌, refl, sym, subst, ap, ◌∙◌, eq_text_refl, Bool, true, false, ◌&&◌, ◌||◌, not,
  List, [], ◌∷◌, ◌++◌, map, arith, Text, eq_text, eq_text_iff, all, any, filter, length,
  length-append, length-filter-le, is_empty, leb, if◌then◌else◌, Bool-cases, inl, inr,
}
use agent_pipeline_v.Scheduler.{
  Gate, Queue, Options, has, failed_dependency, remove_gate, is_launchable, launch, block, consider,
  sweep_over, receive, fail, release, settle_job,
}
use agent_pipeline_v.Scheduler.Steps.{
  count, named, active, Step, swept, received, threw, released, cancelled, Reach, start, next,
}
use agent_pipeline_v.Scheduler.Steps.Count.{
  count-append, count-le-length, IsOnly, find_job-IsOnly, map-settle_job, map-remove_job,
  count-remove_gate, count-removed, count-kept, length-active, map-append_job,
}

abbrev pub is_writer : Gate → Bool
is_writer g = not g.read_only

abbrev pub uses : Text → Gate → Bool
uses r g = has r g.resources

pub record Exclusive (limit : ℕ) (pending : List Gate) (gates : List Gate) (held : List Text)
    (writer : Bool) : Type 0 where
  pub bounded : length gates ≤ limit
  pub writing : writer ≡ leb 1 (count is_writer gates)
  pub alone : writer ≡ true → length gates ≤ 1
  pub holding : (r : Text) → has r held ≡ leb 1 (count (uses r) gates)
  pub single : (r : Text) → count (uses r) gates ≤ 1
  pub unique : (id : Text) → count (named id) pending + count (named id) gates ≤ 1

-- At most `concurrency` gates run, a writer runs alone, a resource is held by the one running gate
-- that uses it, and a gate is pending or running at most once.
abbrev pub IsExclusive : Options → Queue → Type 0
IsExclusive o q = Exclusive o.concurrency q.pending (active q) q.held q.writer

has-append : (r : Text) (rs ss : List Text) → has r (rs ++ ss) ≡ (has r rs || has r ss)
unfolding any
has-append r [] ss = refl
has-append r (x ∷ rs) ss = ground (arith, has-append r rs ss)

has-filter : (p : Text → Bool) (r : Text) (rs : List Text) → has r (filter p rs) ≡ (has r rs && p r)
unfolding any filter
has-filter p r [] = refl
has-filter p r (x ∷ rs) = ground (arith, has-filter p r rs, eq_text_iff r x)

-- A resource of a gate that waits for none of its resources is not held.
has-free :
    (held : List Text) (r : Text) (rs : List Text)
    → any (λ x. has x held) rs ≡ false
    → has r rs ≡ true
    → has r held ≡ false
unfolding any
has-free held r [] h k = absurd (ground arith)
has-free held r (x ∷ rs) h k = ground (arith, has-free held r rs, eq_text_iff r x)

pub length_empty : (gs : List Gate) → is_empty gs ≡ true → length gs ≡ 0
length_empty [] h = refl
length_empty (g ∷ gs) h = absurd (ground arith)

module _ {limit : ℕ} {pending gates : List Gate} {held : List Text} {writer : Bool}
    (e : Exclusive limit pending gates held writer) where
  pub block-Exclusive : (id : Text) → Exclusive limit (remove_gate id pending) gates held writer
  block-Exclusive id = record {
    bounded = e.bounded;
    writing = e.writing;
    alone = e.alone;
    holding = e.holding;
    single = e.single;
    unique = λ j. omega (arith, e.unique j, count-remove_gate (named j) id pending);
  }

  module _ (g : Gate) where
    pub launch-Exclusive :
        1 ≤ count (named g.id) pending
        → leb limit (length gates) ≡ false
        → writer ≡ false
        → (g.read_only || is_empty gates) ≡ true
        → any (λ r. has r held) g.resources ≡ false
        → Exclusive limit
            (remove_gate g.id pending)
            (gates ++ g ∷ [])
            (g.resources ++ held)
            (not g.read_only || writer)
    unfolding count
    launch-Exclusive waits room unwritten shared free = record {
      bounded = ground (arith, length-append gates (g ∷ []));
      writing = ground (arith, count-append is_writer gates (g ∷ []), e.writing);
      alone = ground (arith, length-append gates (g ∷ []), length_empty gates);
      holding = λ r.
          ground (
            arith,
            has-append r g.resources held,
            count-append (uses r) gates (g ∷ []),
            e.holding r,
          );
      single = λ r. ground (
        arith,
        count-append (uses r) gates (g ∷ []),
        e.holding r,
        e.single r,
        has-free held r g.resources free,
      );
      unique = λ j. elim (Bool-cases (eq_text g.id j)) [
        | inl own ↦
            subst
              (λ i.
                count (named i) (remove_gate g.id pending) + count (named i) (gates ++ g ∷ []) ≤ 1)
              ((eq_text_iff g.id j).0 own)
              (ground (
                arith,
                count-append (named g.id) gates (g ∷ []),
                e.unique g.id,
                count-removed g.id pending,
              ))
        | inr other ↦ ground (
          arith,
          count-append (named j) gates (g ∷ []),
          e.unique j,
          count-remove_gate (named j) g.id pending,
        )
      ];
    }

    pub release-Exclusive :
        IsOnly g gates
        → Exclusive limit pending
            (remove_gate g.id gates)
            (filter (λ r. not (has r g.resources)) held)
            (if g.read_only then writer else false)
    unfolding remove_gate
    release-Exclusive only = record {
      bounded = omega (arith, e.bounded, length-filter-le (λ x. not (named g.id x)) gates);
      writing = ground (
        arith,
        e.writing,
        e.alone,
        only.itself is_writer,
        count-remove_gate is_writer g.id gates,
        count-le-length is_writer gates,
      );
      alone = ground (arith, e.alone, length-filter-le (λ x. not (named g.id x)) gates);
      holding = λ r. ground (
        arith,
        has-filter (λ x. not (has x g.resources)) r held,
        e.holding r,
        e.single r,
        only.itself (uses r),
        count-remove_gate (uses r) g.id gates,
      );
      single = λ r. omega (arith, e.single r, count-remove_gate (uses r) g.id gates);
      unique = λ j. omega (arith, e.unique j, count-remove_gate (named j) g.id gates);
    }
