-- ===== src/Run/Waves/Index.antt =====
-- src/run/state.ts, `computeWaves`: the wave that the list of the waves gives to a task.
use agent_pipeline_v.Base.{
  ℕ, ◌≡◌, subst, Bool, true, false, not, ◌||◌, some, List, [], ◌∷◌, ◌++◌, map, arith, Text, eq_text,
  eq_text_iff, eq_text_refl, any, filter, ok, Option-cases, Bool-cases, inl, inr, ◌⊎◌, bind-ok,
  is_some, All, All-append, ◌==◌,
}
use agent_pipeline_v.Base.Dict.{get, put, get-put, keys}
use agent_pipeline_v.Run.State.{Wave}
use agent_pipeline_v.Run.Waves.{
  SpecTask, Depths, contains, depths, collect, ids_of, distinct, insert_sorted, sort, values,
  wave_at, wave_entries, concat_entries, wave_of, compute_waves,
}

-- The number is in the list.
abbrev holds : ℕ → List ℕ → Bool
holds n [] = false
holds n (m ∷ ms) = n == m || holds n ms

holds-filter :
    (n k : ℕ) (ns : List ℕ)
    → (n == k) ≡ false
    → holds n ns ≡ true
    → holds n (filter (λ m. not (m == k)) ns) ≡ true
unfolding filter
holds-filter n k [] e h = h
holds-filter n k (m ∷ ms) e h = ground (arith, holds-filter n k ms)

holds-distinct : (n : ℕ) (ns : List ℕ) → holds n ns ≡ true → holds n (distinct ns) ≡ true
unfolding distinct
holds-distinct n [] h = h
holds-distinct n (m ∷ ms) h = ground (arith, holds-distinct n ms, holds-filter n m (distinct ms))

holds-insert :
    (n m : ℕ) (ns : List ℕ) → (n == m || holds n ns) ≡ true → holds n (insert_sorted m ns) ≡ true
unfolding insert_sorted
holds-insert n m [] h = h
holds-insert n m (k ∷ ks) h = ground (arith, holds-insert n m ks)

holds-sort : (n : ℕ) (ns : List ℕ) → holds n ns ≡ true → holds n (sort ns) ≡ true
unfolding sort
holds-sort n [] h = h
holds-sort n (m ∷ ms) h = ground (arith, holds-sort n ms, holds-insert n m (sort ms))

holds-values : (m : Depths) (id : Text) (d : ℕ) → get id m ≡ some d → holds d (values m) ≡ true
unfolding get
holds-values [] id d h = absurd (ground arith)
holds-values ((k, e) ∷ m) id d h = ground (arith, holds-values m id d)

module _ (m : Depths) where
  -- The entry gives a task the depth of the memo.
  abbrev Exact : Text × ℕ → Type 0
  Exact e = get e.0 m ≡ some e.1

  wave_entries-Exact :
      (index : ℕ) (tasks : List SpecTask) → All Exact (wave_entries (wave_at tasks m index))
  unfolding filter
  wave_entries-Exact index [] = tt
  wave_entries-Exact index (t ∷ ts) = ground (arith, wave_entries-Exact index ts)

  concat-Exact :
      (tasks : List SpecTask) (ns : List ℕ) → All Exact (concat_entries (map (wave_at tasks m) ns))
  concat-Exact tasks [] = tt
  concat-Exact tasks (n ∷ ns) =
      All-append Exact _ _ (wave_entries-Exact n tasks, concat-Exact tasks ns)

  collect-Exact :
      (es acc : Depths) (id : Text) (d : ℕ)
      → All Exact es
      → ((d : ℕ) → get id acc ≡ some d → get id m ≡ some d)
      → get id (collect acc es) ≡ some d
      → get id m ≡ some d
  unfolding collect
  collect-Exact [] acc id d all h e = h d e
  collect-Exact ((k, n) ∷ es) acc id d all h e =
      collect-Exact es (put k n acc) id d all.1
        (λ x f. elim (Bool-cases (eq_text k id)) [
          | inl own ↦ ground (arith, get-put k id n acc, eq_text_iff k id)
          | inr other ↦ h x (ground (arith, get-put k id n acc))
        ])
        e

  wave_entries-contains :
      (tasks : List SpecTask) (id : Text) (d : ℕ)
      → get id m ≡ some d
      → contains id (ids_of tasks) ≡ true
      → contains id (keys (wave_entries (wave_at tasks m d))) ≡ true
  unfolding contains any filter
  wave_entries-contains [] id d e h = h
  wave_entries-contains (t ∷ ts) id d e h = elim (Bool-cases (eq_text id t.id)) [
    | inl own ↦
        let same : id ≡ t.id = (eq_text_iff id t.id).0 own in
        let here : get t.id m ≡ some d = rw (← same) e in ground (arith, here)
    | inr other ↦
        let later = wave_entries-contains ts id d e (ground arith) in ground (arith, later)
  ]

contains-append :
    (id : Text) (xs ys : Depths)
    → (contains id (keys xs) ≡ true) ⊎ (contains id (keys ys) ≡ true)
    → contains id (keys (xs ++ ys)) ≡ true
unfolding contains any
contains-append id [] ys h = ground arith
contains-append id ((k, n) ∷ xs) ys h = elim (Bool-cases (eq_text id k)) [
  | inl own ↦ ground arith
  | inr other ↦ ground (arith, contains-append id xs ys (ground arith))
]

concat-contains :
    (m : Depths) (tasks : List SpecTask) (id : Text) (d : ℕ) (ns : List ℕ)
    → get id m ≡ some d
    → contains id (ids_of tasks) ≡ true
    → holds d ns ≡ true
    → contains id (keys (concat_entries (map (wave_at tasks m) ns))) ≡ true
concat-contains m tasks id d [] e h k = absurd (ground arith)
concat-contains m tasks id d (n ∷ ns) e h k = elim (Bool-cases (d == n)) [
  | inl own ↦
      let same : d ≡ n = ground arith in
      contains-append id (wave_entries (wave_at tasks m n)) _ (
        inl (
          subst (λ x. contains id (keys (wave_entries (wave_at tasks m x))) ≡ true) same
            (wave_entries-contains m tasks id d e h)))
  | inr other ↦
      contains-append id (wave_entries (wave_at tasks m n)) _
        (inr (concat-contains m tasks id d ns e h (ground arith)))
]

collect-is_some :
    (es acc : Depths) (id : Text)
    → (is_some (get id acc) ≡ true) ⊎ (contains id (keys es) ≡ true)
    → is_some (get id (collect acc es)) ≡ true
unfolding collect contains any
collect-is_some [] acc id h = ground arith
collect-is_some ((k, n) ∷ es) acc id h =
    collect-is_some es (put k n acc) id (elim (Bool-cases (eq_text id k)) [
      | inl own ↦ inl (ground (arith, get-put k id n acc, eq_text_iff id k, eq_text_refl id))
      | inr other ↦ elim (Bool-cases (contains id (keys es))) [
        | inl later ↦ inr later
        | inr nowhere ↦ inl (ground (arith, get-put k id n acc, eq_text_iff k id, eq_text_iff id k))
      ]
    ])

-- The index of the waves gives every task of the spec its depth.
pub wave_of-depth :
    (tasks : List SpecTask) (m : Depths) (id : Text) (d : ℕ)
    → contains id (ids_of tasks) ≡ true
    → get id m ≡ some d
    → get id (wave_of (map (wave_at tasks m) (sort (distinct (values m))))) ≡ some d
unfolding get
wave_of-depth tasks m id d listed known =
    let ns = sort (distinct (values m)) in
    let held =
      holds-sort d (distinct (values m))
        (holds-distinct d (values m) (holds-values m id d known)) in
    let there =
      collect-is_some (concat_entries (map (wave_at tasks m) ns)) [] id
        (inr (concat-contains m tasks id d ns known listed held)) in
    elim (Option-cases (get id (wave_of (map (wave_at tasks m) ns)))) [
      | inl absent ↦ absurd (ground arith)
      | inr (x, found) ↦
          let exact =
            collect-Exact m (concat_entries (map (wave_at tasks m) ns)) [] id x
              (concat-Exact m tasks ns) (λ y e. absurd (ground arith)) found in
          ground arith
    ]

pub compute_waves-ok :
    (tasks : List SpecTask) {ws : List Wave}
    → compute_waves tasks ≡ ok ws
    → (m : Depths) × (depths tasks ≡ ok m)
      × (ws ≡ map (wave_at tasks m) (sort (distinct (values m))))
unfolding compute_waves
compute_waves-ok tasks h =
    let (m, computed, h1) = bind-ok (depths tasks) _ h in (m, computed, ground arith)
