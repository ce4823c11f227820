-- ===== src/Policy/Dag.antt =====
-- src/policy/policy.ts: `validateDag`. The recursion of its visits runs on fuel, one more than the number
-- of the gates.
pub mod Order
pub mod Ranked
pub mod Fuel
use agent_pipeline_v.Base.{
  ℕ, zero, suc, ◌≡◌, Bool, true, false, Option, none, some, List, [], ◌∷◌, Text, eq_text, any,
  length, Result, ok, err, ◌>>=◌, ◌==◌, if◌then◌else◌,
}
use agent_pipeline_v.Base.Dict.{Dict, get, put}
use agent_pipeline_v.Scheduler.{Gate}

-- The errors of `validateDag`; `out_of_fuel` has no counterpart in the source.
pub data DagError : Type 0 where
  duplicate_gate out_of_fuel : DagError
  dependency_cycle missing_gate : Text → DagError

abbrev pub is_in : Text → List Text → Bool
is_in id ids = any (λ j. eq_text j id) ids

-- `new Map(gates.map((g) => [g.id, g]))`, on the entries that are there already
unfoldable pub by_id : Dict Gate → List Gate → Dict Gate
unfolding put
by_id m [] = m
by_id m (g ∷ gs) = by_id (put g.id g m) gs

-- `ids.forEach(visit_gate)`, with the ids that are done
unfoldable pub visit_gates :
    (Text → List Text → Result DagError (List Text))
    → List Text
    → List Text
    → Result DagError (List Text)
visit_gates visit_one [] done = ok done
visit_gates visit_one (id ∷ ids) done =
    let rest = visit_gates visit_one ids in visit_one id done >>= rest

-- `visit_gate`, with the ids that are being visited
unfoldable pub visit_gate :
    ℕ → Dict Gate → List Text → Text → List Text → Result DagError (List Text)
unfolding any eq_text get visit_gates
visit_gate zero gates visiting id done = err out_of_fuel
visit_gate (suc fuel) gates visiting id done =
    let below = visit_gate fuel gates (id ∷ visiting) in
    if is_in id done
    then ok done
    else (if is_in id visiting then err (dependency_cycle id) else (elim (get id gates) [
      | none ↦ err (missing_gate id)
      | some g ↦ visit_gates below g.depends_on done >>= λ d. ok (id ∷ d)
    ]))

abbrev pub ids_of : List Gate → List Text
ids_of [] = []
ids_of (g ∷ gs) = g.id ∷ ids_of gs

-- `validateDag`: the ids that are done, the last one first.
unfoldable pub validate_dag : List Gate → Result DagError (List Text)
unfolding by_id visit_gates visit_gate
validate_dag gates =
    let known = by_id [] gates in
    if length known == length gates
    then visit_gates (visit_gate (suc (length known)) known []) (ids_of gates) []
    else err duplicate_gate
