-- ===== src/Policy/Dag/Ranked.antt =====
-- src/policy/policy.ts: the gates that `validateDag` accepts, and the schedule of src/engine/scheduler.ts
-- that runs them.
use agent_pipeline_v.Base.{
  ℕ, suc, ◌+◌, ◌≡◌, ◌≤◌, ◌<◌, ◌⊎◌, refl, ap, sym, subst, ◌∙◌, true, false, none, some, List, [],
  ◌∷◌, Text, arith, eq_text, eq_text_iff, any, length, ok, All, if◌then◌else◌, Bool-cases, inl, inr,
  ◌==◌,
}
use agent_pipeline_v.Base.Dict.{Dict, get, put, get-put}
use agent_pipeline_v.Scheduler.{Gate, Options, Queue, is_stuck, sweep}
use agent_pipeline_v.Scheduler.Steps.{count, named, Reach}
use agent_pipeline_v.Scheduler.Progress.{DependsWithin}
use agent_pipeline_v.Scheduler.Progress.FailFast.{IsAbove}
use agent_pipeline_v.Scheduler.Progress.FailFast.AnyOrder.{sweep-goes_on_fail_fast}
use agent_pipeline_v.Policy.Dag.{is_in, ids_of, by_id, visit_gate, validate_dag}
use agent_pipeline_v.Policy.Dag.Order.{IsOrdered, visit_gates-Grown, visit_gate-Grown}

-- The place of an id, counted from the first that was done.
abbrev pub place : List Text → Text → ℕ
place [] id = 0
place (x ∷ xs) id = if eq_text x id then suc (length xs) else place xs id

place_le : (done : List Text) (id : Text) → place done id ≤ length done
place_le [] id = omega arith
place_le (x ∷ xs) id = ground (arith, place_le xs id)

-- The dependency is done, and before the gate.
abbrev Earlier : List Text → Text → Text → Type 0
Earlier done id d = (is_in d done ≡ true) × (place done d < place done id)

head_is_Earlier :
    (x : Text) (xs ds : List Text)
    → is_in x xs ≡ false
    → All (λ d. is_in d xs ≡ true) ds
    → All (Earlier (x ∷ xs) x) ds
unfolding any
head_is_Earlier x xs [] n a = tt
head_is_Earlier x xs (d ∷ ds) n a = elim (Bool-cases (eq_text x d)) [
  | inl own ↦
      (let same : x ≡ d = (eq_text_iff x d).0 own in
        let inside : is_in x xs ≡ true = subst (λ y. is_in y xs ≡ true) (sym same) a.0 in
        absurd (ground arith))
  | inr other ↦ (
    (ground arith, ground (arith, place_le xs d, eq_text_iff x x)),
    head_is_Earlier x xs ds n a.1,
  )
]

tail_is_Earlier :
    (x id : Text) (xs ds : List Text)
    → is_in x xs ≡ false
    → eq_text x id ≡ false
    → All (Earlier xs id) ds
    → All (Earlier (x ∷ xs) id) ds
unfolding any
tail_is_Earlier x id xs [] n e a = tt
tail_is_Earlier x id xs (d ∷ ds) n e a = elim (Bool-cases (eq_text x d)) [
  | inl own ↦
      (let same : x ≡ d = (eq_text_iff x d).0 own in
        let inside : is_in x xs ≡ true = subst (λ y. is_in y xs ≡ true) (sym same) a.0.0 in
        absurd (ground arith))
  | inr other ↦ ((ground (arith, a.0.0), ground (arith, a.0.1)), tail_is_Earlier x id xs ds n e a.1)
]

ordered-Earlier :
    (gates : Dict Gate) (done : List Text) (id : Text) (g : Gate)
    → IsOrdered gates done
    → get id gates ≡ some g
    → is_in id done ≡ true
    → All (Earlier done id) g.depends_on
unfolding any
ordered-Earlier gates [] id g o h i = absurd (ground arith)
ordered-Earlier gates (x ∷ xs) id g o h i = elim (Bool-cases (eq_text x id)) [
  | inl own ↦
      (let same : x ≡ id = (eq_text_iff x id).0 own in
        let (k, found, below) = o.1 in
        let own_gate : k.depends_on ≡ g.depends_on =
          dependencies_of k g (sym found ∙ ap (λ y. get y gates) same ∙ h) in
        subst (λ y. All (Earlier (x ∷ xs) y) g.depends_on) same
          (subst (λ ds. All (Earlier (x ∷ xs) x) ds) own_gate
            (head_is_Earlier x xs k.depends_on o.0 below)))
  | inr other ↦
      tail_is_Earlier x id xs g.depends_on o.0 other
        (ordered-Earlier gates xs id g o.2 h (ground arith))
]
  where
    dependencies_of : (k g : Gate) → some k ≡ some g → k.depends_on ≡ g.depends_on
    dependencies_of k g e = ap (λ o. elim o [ none ↦ [] | some a ↦ a.depends_on ]) e

put-length :
    (k : Text) (v : Gate) (m : Dict Gate)
    → (length (put k v m) ≤ suc (length m)) × ((get k m ≡ none) ⊎ (length (put k v m) ≡ length m))
unfolding put get
put-length k v [] = (omega arith, inl refl)
put-length k v ((j, w) ∷ m) = elim (Bool-cases (eq_text j k)) [
  | inl own ↦ rw own (omega arith, inr refl)
  | inr other ↦ (let (bound, rest) = put-length k v m in rw other (omega arith, later rest))
]
  where
    later :
        (get k m ≡ none) ⊎ (length (put k v m) ≡ length m)
        → (get k m ≡ none) ⊎ (suc (length (put k v m)) ≡ suc (length m))
    later (inl h) = inl h
    later (inr h) = inr (omega arith)

by_id_le : (m : Dict Gate) (gs : List Gate) → length (by_id m gs) ≤ length m + length gs
unfolding by_id
by_id_le m [] = omega arith
by_id_le m (g ∷ gs) = omega (arith, by_id_le (put g.id g m) gs, (put-length g.id g m).0)

-- Where no id comes twice, each gate is found under its id.
by_id_full :
    (m : Dict Gate) (gs : List Gate)
    → length (by_id m gs) ≡ length m + length gs
    → All (λ g. get g.id (by_id m gs) ≡ some g) gs
      × ((k : Text) (g : Gate) → get k m ≡ some g → get k (by_id m gs) ≡ some g)
unfolding by_id
by_id_full m [] h = (tt, λ k g e. e)
by_id_full m (g ∷ gs) h =
    let fresh : get g.id m ≡ none = absent (put-length g.id g m).1 in
    let (found, kept) =
      by_id_full (put g.id g m) gs
        (omega (arith, h, by_id_le (put g.id g m) gs, (put-length g.id g m).0)) in
    (
      (kept g.id g (ground (arith, get-put g.id g.id g m, eq_text_iff g.id g.id)), found),
      λ k a e. kept k a (ground (arith, get-put g.id k g m, eq_text_iff g.id k, fresh, e)),
    )
  where
    absent : (get g.id m ≡ none) ⊎ (length (put g.id g m) ≡ length m) → get g.id m ≡ none
    absent (inl e) = e
    absent (inr e) = absurd (omega (arith, by_id_le (put g.id g m) gs))

by_id-get :
    (m : Dict Gate) (gs : List Gate) (k : Text) (g : Gate)
    → get k (by_id m gs) ≡ some g
    → (get k m ≡ some g) ⊎ (1 ≤ count (named k) gs)
unfolding by_id count
by_id-get m [] k g h = inl h
by_id-get m (a ∷ gs) k g h = settle (by_id-get (put a.id a m) gs k g h)
  where
    settle :
        (get k (put a.id a m) ≡ some g) ⊎ (1 ≤ count (named k) gs)
        → (get k m ≡ some g) ⊎ (1 ≤ (if named k a then 1 else 0) + count (named k) gs)
    settle (inr n) = inr (omega arith)
    settle (inl e) = elim (Bool-cases (eq_text a.id k)) [
      | inl own ↦ inr (ground arith)
      | inr other ↦ inl (ground (arith, get-put a.id k a m))
    ]

has_gate :
    (gates : List Gate) (known : Dict Gate) (done : List Text) (d : Text)
    → IsOrdered known done
    → ((k : Text) (g : Gate) → get k known ≡ some g → 1 ≤ count (named k) gates)
    → is_in d done ≡ true
    → 1 ≤ count (named d) gates
unfolding any
has_gate gates known [] d o w i = absurd (ground arith)
has_gate gates known (x ∷ xs) d o w i = elim (Bool-cases (eq_text x d)) [
  | inl own ↦
      (let (g, found, below) = o.1 in
        subst (λ y. 1 ≤ count (named y) gates) ((eq_text_iff x d).0 own) (w x g found))
  | inr other ↦ has_gate gates known xs d o.2 w (ground arith)
]

-- What an accepted gate has: its entry, and the visit_gate of its id.
accepted :
    (gates : List Gate) (known : Dict Gate) (done : List Text) (gs : List Gate)
    → ((k : Text) (g : Gate) → get k known ≡ some g → 1 ≤ count (named k) gates)
    → IsOrdered known done
    → All (λ g. get g.id known ≡ some g) gs
    → All (λ d. is_in d done ≡ true) (ids_of gs)
    → All (DependsWithin gates) gs × All (IsAbove (place done)) gs
accepted gates known done [] w o a v = (tt, tt)
accepted gates known done (g ∷ gs) w o a v =
    let (within, above) = accepted gates known done gs w o a.1 v.1 in
    let earlier = ordered-Earlier known done g.id g o a.0 v.0 in
    ((each within_of g.depends_on earlier, within), (above_of g.depends_on earlier, above))
  where
    within_of : (d : Text) → Earlier done g.id d → 1 ≤ count (named d) gates
    within_of d e = has_gate gates known done d o w e.0

    each :
        ((d : Text) → Earlier done g.id d → 1 ≤ count (named d) gates)
        → (ds : List Text) → All (Earlier done g.id) ds
        → All (λ d. 1 ≤ count (named d) gates) ds
    each f [] e = tt
    each f (d ∷ ds) e = (f d e.0, each f ds e.1)

    above_of :
        (ds : List Text) → All (Earlier done g.id) ds → All (λ d. place done d < place done g.id) ds
    above_of [] e = tt
    above_of (d ∷ ds) e = (e.0.1, above_of ds e.1)

has_entry :
    (gates : List Gate) (k : Text) (g : Gate)
    → get k (by_id [] gates) ≡ some g
    → 1 ≤ count (named k) gates
unfolding get
has_entry gates k g e = elim (by_id-get [] gates k g e) [
  | inl absent ↦ absurd (ground arith)
  | inr there ↦ there
]

-- The gates that `validateDag` accepts depend on gates of the list, each below the gates that depend on
-- it in the order in which the visits end: none is missing and there is no cycle.
pub validate_dag-IsAbove :
    (gates : List Gate) (done : List Text)
    → validate_dag gates ≡ ok done
    → All (DependsWithin gates) gates × All (IsAbove (place done)) gates
unfolding validate_dag
validate_dag-IsAbove gates done h =
    let known = by_id [] gates in
    elim (Bool-cases (length known == length gates)) [
      | inr twice ↦ absurd (ground (arith, rw (twice, validate_dag) at h))
      | inl same ↦
          (let run = rw (same, validate_dag) at h in
            let fuel = suc (length known) in
            let (grown, all_done) =
              visit_gates-Grown known [] (visit_gate fuel known []) (visit_gate-Grown known fuel [])
                (ids_of gates) [] done tt run in
            let full = by_id_full [] gates (ground arith) in
            accepted gates known done gates (has_entry gates) grown.ordered full.0 all_done)
    ]

-- No sweep of the gates that `validateDag` accepts ends in "Scheduler cannot make progress" when a failure
-- stops the schedule.
pub validate_dag-sweep :
    (gates : List Gate) (done : List Text) (o : Options) (q : Queue)
    → validate_dag gates ≡ ok done
    → Reach o gates q
    → o.fail_fast ≡ true
    → 1 ≤ o.concurrency
    → is_stuck (sweep o q) ≡ false
validate_dag-sweep gates done o q h r stops room =
    let (within, above) = validate_dag-IsAbove gates done h in
    sweep-goes_on_fail_fast gates (place done) o r stops room within above
