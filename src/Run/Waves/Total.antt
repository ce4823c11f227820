-- ===== src/Run/Waves/Total.antt =====
-- src/run/state.ts, `computeWaves`: the recursion of the visits.
use agent_pipeline_v.Base.{
  ℕ, zero, suc, ◌+◌, ◌≤◌, ◌<◌, ◌≡◌, ◌≢◌, refl, sym, subst, true, false, some, List, [], ◌∷◌, arith,
  Text, eq_text, eq_text_iff, any, if◌then◌else◌, Result, ok, err, Option-cases, Bool-cases, inl,
  inr, bind-err, length, is_some, All, or_else,
}
use agent_pipeline_v.Base.Dict.{Dict, get, put}
use agent_pipeline_v.Run.Schema.{Error, out_of_fuel}
use agent_pipeline_v.Run.Waves.{
  SpecTask, Depths, contains, depth_over, greatest, visit_each, visit, collect,
}
use agent_pipeline_v.Run.Waves.Depths.{Known, Layered}

-- How many tasks are not being visited.
pub free : Dict SpecTask → List Text → ℕ
free [] v = 0
free ((k, t) ∷ tasks) v = (if contains k v then 0 else 1) + free tasks v

free_mono : (tasks : Dict SpecTask) (id : Text) (v : List Text) → free tasks (id ∷ v) ≤ free tasks v
unfolding free contains any
free_mono [] id v = omega arith
free_mono ((k, t) ∷ tasks) id v = ground (arith, free_mono tasks id v)

free-visit :
    (tasks : Dict SpecTask) (id : Text) (v : List Text) {t : SpecTask}
    → get id tasks ≡ some t
    → contains id v ≡ false
    → free tasks (id ∷ v) < free tasks v
unfolding free contains any get
free-visit [] id v h c = absurd (ground arith)
free-visit ((k, t) ∷ tasks) id v h c = elim (Bool-cases (eq_text k id)) [
  | inl own ↦
      let same : k ≡ id = (eq_text_iff k id).0 own in
      let c' : any (eq_text k) v ≡ false = rw same c in
      rw (own, c', free) (ground (arith, free_mono tasks id v))
  | inr other ↦
      let h' = rw (other, get) at h in rw (other, free) (ground (arith, free-visit tasks id v h' c))
]

length-put {ℓ} : {V : Type ℓ} (k : Text) (v : V) (m : Dict V) → length (put k v m) ≤ suc (length m)
unfolding put
length-put k v [] = omega arith
length-put k v ((j, w) ∷ m) = ground (arith, length-put k v m)

pub length-collect {ℓ} : {V : Type ℓ} (es m : Dict V) → length (collect m es) ≤ length m + length es
unfolding collect
length-collect [] m = omega arith
length-collect ((k, v) ∷ es) m = omega (arith, length-collect es (put k v m), length-put k v m)

pub free-le-length : (tasks : Dict SpecTask) (v : List Text) → free tasks v ≤ length tasks
unfolding free
free-le-length [] v = omega arith
free-le-length ((k, t) ∷ tasks) v = ground (arith, free-le-length tasks v)

module _ (tasks : Dict SpecTask) where
  pub visit_each-ne-out_of_fuel :
      (visit_one : Text → Depths → Result Error (ℕ × Depths))
      → ((id : Text) (m : Depths) → visit_one id m ≢ err out_of_fuel)
      → (ids : List Text) (m : Depths) → visit_each visit_one ids m ≢ err out_of_fuel
  unfolding visit_each
  visit_each-ne-out_of_fuel visit_one one [] m h = cc
  visit_each-ne-out_of_fuel visit_one one (id ∷ ids) m h = elim (bind-err (visit_one id m) _ h) [
    | inl e ↦ one id m e
    | inr (first, _, h1) ↦ elim (bind-err (visit_each visit_one ids first.1) _ h1) [
      | inl e ↦ visit_each-ne-out_of_fuel visit_one one ids first.1 e
      | inr (rest, _, h2) ↦ cc
    ]
  ]

  pub visit-ne-out_of_fuel :
      (fuel : ℕ) (v : List Text) (id : Text) (m : Depths)
      → free tasks v < fuel
      → visit fuel tasks v id m ≢ err out_of_fuel
  unfolding visit
  visit-ne-out_of_fuel zero v id m enough h = omega arith
  visit-ne-out_of_fuel (suc fuel) v id m enough h = elim (Option-cases (get id m)) [
    | inr (known, there) ↦ ground arith
    | inl fresh ↦ elim (Bool-cases (contains id v)) [
      | inl inside ↦ ground arith
      | inr outside ↦ elim (Option-cases (get id tasks)) [
        | inl missing ↦ ground arith
        | inr (t, found) ↦
            let h0 = rw (fresh, visit, outside, found) at h in
            let fewer = free-visit tasks id v found outside in
            elim (bind-err (visit_each (visit fuel tasks (id ∷ v)) t.depends_on m) _ h0) [
              | inl e ↦
                  visit_each-ne-out_of_fuel (visit fuel tasks (id ∷ v))
                    (λ j n. visit-ne-out_of_fuel fuel (id ∷ v) j n (omega arith)) t.depends_on m e
              | inr (below, _, h1) ↦ cc
            ]
      ]
    ]
  ]

module _ (tasks : Dict SpecTask) (rank : Text → ℕ) where
  -- The ids name tasks whose rank is below `n`.
  abbrev pub Below : List Text → ℕ → Type 0
  Below ids n = All (λ d. (is_some (get d tasks) ≡ true) × (rank d < n)) ids

  abbrev Above : ℕ → List Text → Type 0
  Above n v = (j : Text) → contains j v ≡ true → n < rank j

  pub visit_each_total :
      (visit_one : Text → Depths → Result Error (ℕ × Depths)) (n : ℕ)
      → ((id : Text) (m : Depths)
          → is_some (get id tasks) ≡ true
          → rank id < n
          → (r : ℕ × Depths) × (visit_one id m ≡ ok r))
      → (ids : List Text) (m : Depths) → Below ids n
      → (r : List ℕ × Depths) × (visit_each visit_one ids m ≡ ok r)
  unfolding visit_each
  visit_each_total visit_one n one [] m b = (([], m), refl)
  visit_each_total visit_one n one (id ∷ ids) m b =
      let (first, e) = one id m b.0.0 b.0.1 in
      let (rest, e') = visit_each_total visit_one n one ids first.1 b.1 in
      ((first.0 ∷ rest.0, rest.1), rw (e, e'))

  pub visit_total :
      ((id : Text) (t : SpecTask) → get id tasks ≡ some t → Below t.depends_on (rank id))
      → (fuel : ℕ) (v : List Text) (id : Text) (m : Depths) → free tasks v < fuel
      → is_some (get id tasks) ≡ true
      → Above (rank id) v
      → (r : ℕ × Depths) × (visit fuel tasks v id m ≡ ok r)
  unfolding visit contains any
  visit_total ranked zero v id m enough there above = absurd (omega arith)
  visit_total ranked (suc fuel) v id m enough there above = elim (Option-cases (get id m)) [
    | inr (known, e) ↦ ((known, m), rw (e, visit))
    | inl fresh ↦ elim (Bool-cases (contains id v)) [
      | inl inside ↦ absurd (omega (arith, above id inside))
      | inr outside ↦ elim (Option-cases (get id tasks)) [
        | inl missing ↦ absurd (ground arith)
        | inr (t, found) ↦
            let fewer = free-visit tasks id v found outside in
            let (below, e) =
              visit_each_total (visit fuel tasks (id ∷ v)) (rank id)
                (λ j n known lower.
                  visit_total ranked fuel (id ∷ v) j n (omega arith) known
                    (λ k inside. ground (arith, eq_text_iff k id, above k)))
                t.depends_on m (ranked id t found) in
            (
              (depth_over below.0, put id (depth_over below.0) below.1),
              rw (fresh, visit, outside, found, e),
            )
      ]
    ]
  ]

greatest-le : (d : ℕ) (ds : List ℕ) → d ≤ greatest (d ∷ ds)
unfolding greatest
greatest-le d ds = omega arith

-- A depth in the list is below the depth over the list.
depth_over-lt :
    (tasks : Dict SpecTask) (m : Depths) (n : ℕ) (ids : List Text) (ds : List ℕ)
    → ((id : Text) (d : ℕ) → get id m ≡ some d → is_some (get id tasks) ≡ true)
    → greatest ds < n
    → Known m ids ds
    → Below tasks (λ id. or_else (get id m) 0) ids n
unfolding greatest
depth_over-lt tasks m n [] [] known h k = tt
depth_over-lt tasks m n [] (d ∷ ds) known h k = absurd k
depth_over-lt tasks m n (id ∷ ids) [] known h k = absurd k
depth_over-lt tasks m n (id ∷ ids) (d ∷ ds) known h k =
    ((known id d k.0, rw k.0 (omega arith)), depth_over-lt tasks m n ids ds known (omega arith) k.1)

-- The dependencies of every task are tasks of a smaller rank.
abbrev pub IsRank : Dict SpecTask → (Text → ℕ) → Type 0
IsRank tasks rank =
    (id : Text) (t : SpecTask) → get id tasks ≡ some t → Below tasks rank t.depends_on (rank id)

Below-depth :
    (tasks : Dict SpecTask) (m : Depths) (ids : List Text) (ds : List ℕ)
    → ((id : Text) (d : ℕ) → get id m ≡ some d → is_some (get id tasks) ≡ true)
    → Known m ids ds
    → Below tasks (λ id. or_else (get id m) 0) ids (depth_over ds)
Below-depth tasks m [] ds known k = tt
Below-depth tasks m (id ∷ ids) [] known k = absurd k
Below-depth tasks m (id ∷ ids) (d ∷ ds) known k =
    depth_over-lt tasks m (1 + greatest (d ∷ ds)) (id ∷ ids) (d ∷ ds) known (omega arith) k

-- The depths of a layered memo rank its tasks.
pub Layer-Below :
    (tasks : Dict SpecTask) (m : Depths)
    → Layered tasks m
    → (id : Text) (t : SpecTask) (d : ℕ) → get id tasks ≡ some t
    → get id m ≡ some d
    → Below tasks (λ j. or_else (get j m) 0) t.depends_on d
Layer-Below tasks m l id t d found known =
    let layer = l id d known in
    let same : layer.entry ≡ t = ground (arith, layer.found) in
    let all =
      Below-depth tasks m layer.entry.depends_on layer.below
        (λ j e h. ground (arith, (l j e h).found)) layer.known in
    subst (λ (u : SpecTask). Below tasks (λ j. or_else (get j m) 0) u.depends_on d) same
      (subst (λ n. Below tasks (λ j. or_else (get j m) 0) layer.entry.depends_on n)
        (sym layer.exact) all)
