-- ===== src/Policy/Dag/Order.antt =====
-- src/policy/policy.ts: the order in which `validateDag` finishes its visits.
use agent_pipeline_v.Base.{
  ℕ, zero, suc, ◌≡◌, ap, sym, subst, true, false, some, List, [], ◌∷◌, Text, arith, eq_text,
  eq_text_iff, any, Result, ok, bind-ok, ok_injective, All, Bool-cases, Option-cases, inl, inr,
}
use agent_pipeline_v.Base.Dict.{Dict, get}
use agent_pipeline_v.Scheduler.{Gate}
use agent_pipeline_v.Policy.Dag.{DagError, is_in, visit_gates, visit_gate}

module _ (gates : Dict Gate) where
  -- Each id has its gate, and the dependencies of the gate are done before it.
  abbrev pub IsOrdered : List Text → Type 0
  IsOrdered [] = Unit
  IsOrdered (id ∷ done) =
      (is_in id done ≡ false)
      × ((g : Gate) × (get id gates ≡ some g) × All (λ d. is_in d done ≡ true) g.depends_on)
      × IsOrdered done

-- What a visit_gate makes of the ids that are done, while others are being visited.
pub record Grown (gates : Dict Gate) (visiting done after : List Text) : Type 0 where
  pub ordered : IsOrdered gates after
  pub keeps : (j : Text) → is_in j done ≡ true → is_in j after ≡ true
  pub avoids : (j : Text) → is_in j visiting ≡ true → is_in j done ≡ false → is_in j after ≡ false

same_in : (j k : Text) (ids : List Text) → eq_text j k ≡ true → is_in k ids ≡ is_in j ids
same_in j k ids e = ap (λ x. is_in x ids) (sym ((eq_text_iff j k).0 e))

module _ (gates : Dict Gate) (visiting : List Text) where
  pub visit_gates-Grown :
      (visit_one : Text → List Text → Result DagError (List Text))
      → ((id : Text) (done after : List Text)
          → IsOrdered gates done
          → visit_one id done ≡ ok after
          → Grown gates visiting done after × (is_in id after ≡ true))
      → (ids done after : List Text) → IsOrdered gates done
      → visit_gates visit_one ids done ≡ ok after
      → Grown gates visiting done after × All (λ d. is_in d after ≡ true) ids
  unfolding visit_gates
  visit_gates-Grown visit_one one [] done after o h =
      let same : done ≡ after = ok_injective done after h in
      let still : Grown gates visiting done done = record {
        ordered = o;
        keeps = λ j k. k;
        avoids = λ j v n. n;
      } in
      (subst (Grown gates visiting done) same still, tt)
  visit_gates-Grown visit_one one (id ∷ ids) done after o h =
      let (next, e, k) = bind-ok (visit_one id done) (visit_gates visit_one ids) h in
      let (g, there) = one id done next o e in
      let (q, rest) = visit_gates-Grown visit_one one ids next after g.ordered k in
      (
        record {
          ordered = q.ordered;
          keeps = λ j i. q.keeps j (g.keeps j i);
          avoids = λ j v n. q.avoids j v (g.avoids j v n);
        },
        (q.keeps id there, rest),
      )

-- A gate that is done after its dependencies.
finish :
    (gates : Dict Gate) (visiting done after : List Text) (id : Text) (g : Gate)
    → is_in id done ≡ false
    → is_in id visiting ≡ false
    → get id gates ≡ some g
    → Grown gates (id ∷ visiting) done after
    → All (λ d. is_in d after ≡ true) g.depends_on
    → Grown gates visiting done (id ∷ after) × (is_in id (id ∷ after) ≡ true)
unfolding any
finish gates visiting done after id g fresh outside found q below = (
  record {
    ordered = (q.avoids id (ground (arith, eq_text_iff id id)) fresh, (g, found, below), q.ordered);
    keeps = λ j i. ground (arith, q.keeps j i);
    avoids = λ j v n. elim (Bool-cases (eq_text id j)) [
      | inl own ↦ absurd (ground (arith, same_in id j visiting own))
      | inr other ↦ ground (arith, q.avoids j (ground arith) n)
    ];
  },
  ground (arith, eq_text_iff id id),
)

pub visit_gate-Grown :
    (gates : Dict Gate) (fuel : ℕ) (visiting : List Text) (id : Text) (done after : List Text)
    → IsOrdered gates done
    → visit_gate fuel gates visiting id done ≡ ok after
    → Grown gates visiting done after × (is_in id after ≡ true)
unfolding visit_gate
visit_gate-Grown gates zero visiting id done after o h = absurd (ground arith)
visit_gate-Grown gates (suc fuel) visiting id done after o h = elim (Bool-cases (is_in id done)) [
  | inl known ↦
      (let k = rw (known, visit_gate) at h in
        let same : done ≡ after = ok_injective done after k in
        let still : Grown gates visiting done done × (is_in id done ≡ true) =
          (record { ordered = o; keeps = λ j k. k; avoids = λ j v n. n }, known) in
        subst (λ x. Grown gates visiting done x × (is_in id x ≡ true)) same still)
  | inr fresh ↦ elim (Bool-cases (is_in id visiting)) [
    | inl inside ↦ absurd (ground (arith, rw (fresh, visit_gate, inside) at h))
    | inr outside ↦ elim (Option-cases (get id gates)) [
      | inl missing ↦ absurd (ground (arith, rw (fresh, visit_gate, outside, missing) at h))
      | inr (g, found) ↦
          (let k = rw (fresh, visit_gate, outside, found) at h in
            let (below, e, r) =
              bind-ok (visit_gates (visit_gate fuel gates (id ∷ visiting)) g.depends_on done)
                (λ d. ok (id ∷ d)) k in
            let (q, deps) =
              visit_gates-Grown gates (id ∷ visiting) (visit_gate fuel gates (id ∷ visiting))
                (visit_gate-Grown gates fuel (id ∷ visiting)) g.depends_on done below o e in
            let same : id ∷ below ≡ after = ok_injective (id ∷ below) after r in
            subst (λ x. Grown gates visiting done x × (is_in id x ≡ true)) same
              (finish gates visiting done below id g fresh outside found q deps))
    ]
  ]
]
