-- ===== src/Run/Waves/Acyclic.antt =====
-- src/run/state.ts, `computeWaves`: the depths of the tasks, on the list of the spec.
use agent_pipeline_v.Base.{
  ℕ, suc, ◌≤◌, ◌<◌, ◌≡◌, ◌≢◌, ◌↔◌, refl, subst, true, some, List, [], ◌∷◌, map, arith, Text,
  eq_text, eq_text_iff, eq_text_refl, any, ok, err, Bool-cases, inl, inr, ◌⊎◌, bind-ok, bind-err,
  length, max, is_some, or_else,
}
use agent_pipeline_v.Base.Dict.{Dict, get, put, get-put}
use agent_pipeline_v.Run.Schema.{out_of_fuel}
use agent_pipeline_v.Run.Waves.{
  SpecTask, Depths, contains, visit_each, visit, depths, by_id, collect, ids_of,
}
use agent_pipeline_v.Run.Waves.Depths.{Known, Layered, visit_sound, visit_each_sound}
use agent_pipeline_v.Run.Waves.Total.{
  free, free-le-length, length-collect, visit_each-ne-out_of_fuel, visit-ne-out_of_fuel,
  visit_each_total, visit_total, Below, IsRank, Layer-Below,
}

abbrev pub entries : List SpecTask → Dict SpecTask
entries tasks = map (λ t. (t.id, t)) tasks

length-entries : (tasks : List SpecTask) → length (entries tasks) ≡ length tasks
length-entries [] = refl
length-entries (t ∷ ts) = omega (arith, length-entries ts)

enough_fuel : (tasks : List SpecTask) → free (by_id tasks) [] < suc (length tasks)
enough_fuel tasks = omega (
  arith,
  free-le-length (by_id tasks) [],
  length-collect (entries tasks) [],
  length-entries tasks,
)

-- A task of the index is one of the list, and every id of the list is in the index.
pub listed :
    (tasks : List SpecTask) (m : Dict SpecTask) (id : Text) {t : SpecTask}
    → get id (collect m (entries tasks)) ≡ some t
    → (get id m ≡ some t) ⊎ (contains id (ids_of tasks) ≡ true)
unfolding collect contains any
listed [] m id h = inl h
listed (u ∷ us) m id {t} h = elim (listed us (put u.id u m) id h) [
  | inr later ↦ inr (ground arith)
  | inl now ↦ elim (Bool-cases (eq_text u.id id)) [
    | inl own ↦ inr (ground (arith, eq_text_iff u.id id, eq_text_refl id))
    | inr other ↦ inl (ground (arith, get-put u.id id u m))
  ]
]

pub indexed :
    (tasks : List SpecTask) (m : Dict SpecTask) (id : Text)
    → (is_some (get id m) ≡ true) ⊎ (contains id (ids_of tasks) ≡ true)
    → is_some (get id (collect m (entries tasks))) ≡ true
unfolding collect contains any
indexed [] m id h = ground arith
indexed (u ∷ us) m id h = indexed us (put u.id u m) id (elim (Bool-cases (eq_text id u.id)) [
  | inl own ↦ inl (ground (arith, get-put u.id id u m, eq_text_iff id u.id, eq_text_refl id))
  | inr other ↦ elim (Bool-cases (contains id (ids_of us))) [
    | inl later ↦ inr later
    | inr nowhere ↦
        inl (ground (arith, get-put u.id id u m, eq_text_iff id u.id, eq_text_iff u.id id))
  ]
])

pub depths_sound :
    (tasks : List SpecTask) {m : Depths}
    → depths tasks ≡ ok m
    → Layered (by_id tasks) m × ((ds : List ℕ) × Known m (ids_of tasks) ds)
unfolding depths
depths_sound tasks {m} h =
    let (found, visited, h1) =
      bind-ok (visit_each (visit (suc (length tasks)) (by_id tasks) []) (ids_of tasks) []) _ h in
    let (g, known) =
      visit_each_sound (by_id tasks) (visit (suc (length tasks)) (by_id tasks) []) []
        (visit_sound (by_id tasks) (suc (length tasks)) []) (ids_of tasks) [] found visited
        (λ id d e. absurd (unfold get in ground (arith, e))) in
    let same : found.1 ≡ m = ground arith in
    subst (λ n. Layered (by_id tasks) n × ((ds : List ℕ) × Known n (ids_of tasks) ds)) same
      (g.layered, (found.0, known))

pub Known-contains :
    (m : Depths) (id : Text) (ids : List Text) (ds : List ℕ)
    → Known m ids ds
    → contains id ids ≡ true
    → (d : ℕ) × (get id m ≡ some d)
unfolding contains any
Known-contains m id [] ds k h = absurd (ground arith)
Known-contains m id (j ∷ ids) [] k h = absurd k
Known-contains m id (j ∷ ids) (d ∷ ds) k h = elim (Bool-cases (eq_text id j)) [
  | inl own ↦ (d, rw ((eq_text_iff id j).0 own) k.0)
  | inr other ↦ Known-contains m id ids ds k.1 (ground arith)
]

-- Every task of the spec has a depth.
pub depths-known :
    (tasks : List SpecTask) {m : Depths} (id : Text) {t : SpecTask}
    → depths tasks ≡ ok m
    → get id (by_id tasks) ≡ some t
    → (d : ℕ) × (get id m ≡ some d)
unfolding get
depths-known tasks {m} id h found = elim (listed tasks [] id found) [
  | inl nowhere ↦ absurd (ground arith)
  | inr inside ↦
      let (l, known) = depths_sound tasks h in
      Known-contains m id (ids_of tasks) known.0 known.1 inside
]

abbrev rank_bound : (Text → ℕ) → List Text → ℕ
rank_bound rank [] = 0
rank_bound rank (id ∷ ids) = max (suc (rank id)) (rank_bound rank ids)

Below-bound :
    (tasks : Dict SpecTask) (rank : Text → ℕ) (n : ℕ) (ids : List Text)
    → ((id : Text) → contains id ids ≡ true → is_some (get id tasks) ≡ true)
    → rank_bound rank ids ≤ n
    → Below tasks rank ids n
unfolding contains any
Below-bound tasks rank n [] known h = tt
Below-bound tasks rank n (id ∷ ids) known h = (
  (known id (ground (arith, eq_text_refl id)), omega arith),
  Below-bound tasks rank n ids (λ j inside. known j (ground arith)) (omega arith),
)

depths_total :
    (tasks : List SpecTask) (rank : Text → ℕ)
    → IsRank (by_id tasks) rank
    → (m : Depths) × (depths tasks ≡ ok m)
unfolding depths
depths_total tasks rank ranked =
    let bound = rank_bound rank (ids_of tasks) in
    let (r, e) =
      visit_each_total (by_id tasks) rank (visit (suc (length tasks)) (by_id tasks) []) bound
        (λ id m there lower.
          visit_total (by_id tasks) rank ranked (suc (length tasks)) [] id m (enough_fuel tasks)
            there (λ j inside. absurd (unfold contains any in ground (arith, inside))))
        (ids_of tasks) []
        (Below-bound (by_id tasks) rank bound (ids_of tasks)
          (λ id inside. indexed tasks [] id (inr inside)) (omega arith)) in
    (r.1, rw e)

pub depths-ne-out_of_fuel : (tasks : List SpecTask) → depths tasks ≢ err out_of_fuel
unfolding depths
depths-ne-out_of_fuel tasks h =
    elim (bind-err (visit_each (visit (suc (length tasks)) (by_id tasks) []) (ids_of tasks) []) _
      h) [
        | inl e ↦
            visit_each-ne-out_of_fuel (by_id tasks) (visit (suc (length tasks)) (by_id tasks) [])
              (λ id m.
                visit-ne-out_of_fuel (by_id tasks) (suc (length tasks)) [] id m (enough_fuel tasks))
              (ids_of tasks) [] e
        | inr (found, _, h1) ↦ cc
      ]

-- The depths exist exactly when the dependencies can be ranked.
pub depths-ok_iff :
    (tasks : List SpecTask)
    → ((m : Depths) × (depths tasks ≡ ok m)) ↔ ((rank : Text → ℕ) × IsRank (by_id tasks) rank)
depths-ok_iff tasks = (ranks, λ (rank, ranked). depths_total tasks rank ranked)
  where
    ranks : ((m : Depths) × (depths tasks ≡ ok m)) → (rank : Text → ℕ) × IsRank (by_id tasks) rank
    ranks (m, h) = (
      (λ id. or_else (get id m) 0),
      λ id t found.
          let (d, known) = depths-known tasks id h found in
          rw known (Layer-Below (by_id tasks) m (depths_sound tasks h).0 id t d found known),
    )
