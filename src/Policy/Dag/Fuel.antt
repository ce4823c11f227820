-- ===== src/Policy/Dag/Fuel.antt =====
-- src/policy/policy.ts: the recursion of `validateDag` ends.
use agent_pipeline_v.Base.{
  ℕ, zero, suc, ◌+◌, ◌≡◌, ◌≢◌, ◌≤◌, ◌<◌, sym, subst, true, false, some, List, [], ◌∷◌, Text, arith,
  eq_text, eq_text_iff, any, length, Result, ok, err, bind-err, if◌then◌else◌, Bool-cases,
  Option-cases, inl, inr, ◌==◌,
}
use agent_pipeline_v.Base.Dict.{Dict, get}
use agent_pipeline_v.Scheduler.{Gate}
use agent_pipeline_v.Policy.Dag.{
  DagError, out_of_fuel, is_in, ids_of, by_id, visit_gates, visit_gate, validate_dag,
}

-- How many gates are not being visited.
unfoldable idle : Dict Gate → List Text → ℕ
idle [] visiting = 0
idle ((k, g) ∷ gates) visiting = (if is_in k visiting then 0 else 1) + idle gates visiting

idle_mono : (gates : Dict Gate) (id : Text) (v : List Text) → idle gates (id ∷ v) ≤ idle gates v
unfolding idle any
idle_mono [] id v = omega arith
idle_mono ((k, g) ∷ gates) id v = ground (arith, idle_mono gates id v)

idle_visit :
    (gates : Dict Gate) (id : Text) (v : List Text) (g : Gate)
    → get id gates ≡ some g
    → is_in id v ≡ false
    → idle gates (id ∷ v) < idle gates v
unfolding idle any get
idle_visit [] id v g h n = absurd (ground arith)
idle_visit ((k, a) ∷ gates) id v g h n = elim (Bool-cases (eq_text k id)) [
  | inl own ↦
      (let same : id ≡ k = sym ((eq_text_iff k id).0 own) in
        let outside : is_in k v ≡ false = subst (λ x. is_in x v ≡ false) same n in
        let inside : is_in k (id ∷ v) ≡ true = ground (arith, eq_text_iff id k) in
        ground (arith, idle_mono gates id v))
  | inr other ↦ ground (arith, idle_visit gates id v g (rw (other, get) at h) n)
]

idle_le : (gates : Dict Gate) (v : List Text) → idle gates v ≤ length gates
unfolding idle
idle_le [] v = omega arith
idle_le ((k, g) ∷ gates) v = ground (arith, idle_le gates v)

visit_gates-ne-out_of_fuel :
    (visit_one : Text → List Text → Result DagError (List Text))
    → ((id : Text) (done : List Text) → visit_one id done ≢ err out_of_fuel)
    → (ids done : List Text) → visit_gates visit_one ids done ≢ err out_of_fuel
unfolding visit_gates
visit_gates-ne-out_of_fuel visit_one one [] done h = cc
visit_gates-ne-out_of_fuel visit_one one (id ∷ ids) done h =
    elim (bind-err (visit_one id done) (visit_gates visit_one ids) h) [
      | inl e ↦ one id done e
      | inr (next, e, k) ↦ visit_gates-ne-out_of_fuel visit_one one ids next k
    ]

visit_gate-ne-out_of_fuel :
    (gates : Dict Gate) (fuel : ℕ) (v : List Text) (id : Text) (done : List Text)
    → idle gates v < fuel
    → visit_gate fuel gates v id done ≢ err out_of_fuel
unfolding visit_gate
visit_gate-ne-out_of_fuel gates zero v id done enough h = omega arith
visit_gate-ne-out_of_fuel gates (suc fuel) v id done enough h = elim (Bool-cases (is_in id done)) [
  | inl known ↦ ground (arith, rw (known, visit_gate) at h)
  | inr fresh ↦ elim (Bool-cases (is_in id v)) [
    | inl inside ↦ ground (arith, rw (fresh, visit_gate, inside) at h)
    | inr outside ↦ elim (Option-cases (get id gates)) [
      | inl missing ↦ ground (arith, rw (fresh, visit_gate, outside, missing) at h)
      | inr (g, found) ↦
          (let k = rw (fresh, visit_gate, outside, found) at h in
            let fewer = idle_visit gates id v g found outside in
            elim (bind-err (visit_gates (visit_gate fuel gates (id ∷ v)) g.depends_on done)
              (λ d. ok (id ∷ d)) k) [
                | inl e ↦
                    visit_gates-ne-out_of_fuel (visit_gate fuel gates (id ∷ v))
                      (λ j d. visit_gate-ne-out_of_fuel gates fuel (id ∷ v) j d (omega arith))
                      g.depends_on done e
                | inr (next, e, r) ↦ cc
              ])
    ]
  ]
]

-- `validateDag` ends on any gates, cycles included: the fuel of the model is never used up.
pub validate_dag-ne-out_of_fuel : (gates : List Gate) → validate_dag gates ≢ err out_of_fuel
unfolding validate_dag
validate_dag-ne-out_of_fuel gates h =
    let known = by_id [] gates in
    elim (Bool-cases (length known == length gates)) [
      | inr twice ↦ ground (arith, rw (twice, validate_dag) at h)
      | inl same ↦
          visit_gates-ne-out_of_fuel (visit_gate (suc (length known)) known [])
            (λ id done.
              visit_gate-ne-out_of_fuel known (suc (length known)) [] id done
                (omega (arith, idle_le known [])))
            (ids_of gates) [] (rw (same, validate_dag) at h)
    ]
