-- ===== src/Run/Waves/Depths.antt =====
-- src/run/state.ts, `computeWaves`: what the memo of the depths holds when the visits succeed.
use agent_pipeline_v.Base.{
  ℕ, zero, suc, ◌≡◌, refl, true, false, none, some, List, [], ◌∷◌, arith, Text, eq_text,
  eq_text_iff, eq_text_refl, any, Result, ok, Option-cases, Bool-cases, inl, inr, ◌∙◌, subst,
  bind-ok,
}
use agent_pipeline_v.Base.Dict.{Dict, get, put, get-put}
use agent_pipeline_v.Run.Schema.{Error}
use agent_pipeline_v.Run.Waves.{SpecTask, Depths, contains, depth_over, visit_each, visit}

-- The depths that the memo gives to the ids of a list.
abbrev pub Known : Depths → List Text → List ℕ → Type 0
Known m [] [] = Unit
Known m [] (d ∷ ds) = ⊥
Known m (id ∷ ids) [] = ⊥
Known m (id ∷ ids) (d ∷ ds) = (get id m ≡ some d) × Known m ids ds

abbrev pub Extends : Depths → Depths → Type 0
Extends m m' = (id : Text) (d : ℕ) → get id m ≡ some d → get id m' ≡ some d

pub Known-mono :
    (m m' : Depths) (ids : List Text) (ds : List ℕ)
    → Extends m m'
    → Known m ids ds
    → Known m' ids ds
Known-mono m m' [] [] h k = tt
Known-mono m m' [] (d ∷ ds) h k = k
Known-mono m m' (id ∷ ids) [] h k = k
Known-mono m m' (id ∷ ids) (d ∷ ds) h k = (h id d k.0, Known-mono m m' ids ds h k.1)

module _ (tasks : Dict SpecTask) where
  -- The entry of a task, and the depths of its dependencies, which give its own.
  pub record Layer (m : Depths) (id : Text) (d : ℕ) : Type 0 where
    pub entry : SpecTask
    pub below : List ℕ
    pub found : get id tasks ≡ some entry
    pub known : Known m entry.depends_on below
    pub exact : d ≡ depth_over below

  abbrev pub Layered : Depths → Type 0
  Layered m = (id : Text) (d : ℕ) → get id m ≡ some d → Layer m id d

  -- What a successful visit does to the memo.
  pub record Grown (visiting : List Text) (m m' : Depths) : Type 0 where
    pub layered : Layered m'
    pub extends : Extends m m'
    pub spares : (id : Text) → contains id visiting ≡ true → get id m' ≡ get id m

  Layer-mono : {m m' : Depths} (id : Text) (d : ℕ) → Extends m m' → Layer m id d → Layer m' id d
  Layer-mono {m} {m'} id d h l = record {
    entry = l.entry;
    below = l.below;
    found = l.found;
    known = Known-mono m m' l.entry.depends_on l.below h l.known;
    exact = l.exact;
  }

  Grown-trans : {v : List Text} {m m' m'' : Depths} → Grown v m m' → Grown v m' m'' → Grown v m m''
  Grown-trans g h = record {
    layered = h.layered;
    extends = λ id d e. h.extends id d (g.extends id d e);
    spares = λ id e. h.spares id e ∙ g.spares id e;
  }

  Grown-refl : (v : List Text) (m : Depths) → Layered m → Grown v m m
  Grown-refl v m l = record { layered = l; extends = λ id d e. e; spares = λ id e. refl }

  abbrev pub Visits : (Text → Depths → Result Error (ℕ × Depths)) → List Text → Type 0
  Visits visit_one v =
      (id : Text) (m : Depths) (r : ℕ × Depths)
      → visit_one id m ≡ ok r
      → Layered m
      → Grown v m r.1 × (get id r.1 ≡ some r.0)

  pub visit_each_sound :
      (visit_one : Text → Depths → Result Error (ℕ × Depths)) (v : List Text)
      → Visits visit_one v
      → (ids : List Text) (m : Depths) (r : List ℕ × Depths) → visit_each visit_one ids m ≡ ok r
      → Layered m
      → Grown v m r.1 × Known r.1 ids r.0
  unfolding visit_each
  visit_each_sound visit_one v one [] m r h l =
      let same : ◌≡◌ {A = List ℕ × Depths} ([], m) r = ground arith in
      subst (λ x. Grown v m x.1 × Known x.1 [] x.0) same (Grown-refl v m l, tt)
  visit_each_sound visit_one v one (id ∷ ids) m r h l =
      let (first, visited, h1) = bind-ok (visit_one id m) _ h in
      let (rest, others, h2) = bind-ok (visit_each visit_one ids first.1) _ h1 in
      let (g, known) = one id m first visited l in
      let (g', knowns) = visit_each_sound visit_one v one ids first.1 rest others g.layered in
      let same : ◌≡◌ {A = List ℕ × Depths} (first.0 ∷ rest.0, rest.1) r = ground arith in
      subst (λ x. Grown v m x.1 × Known x.1 (id ∷ ids) x.0) same
        (Grown-trans g g', (g'.extends id first.0 known, knowns))

  -- The memo after a visit that had to look at the dependencies.
  module _ (v : List Text) (id : Text) (t : SpecTask) (m m1 : Depths) (ds : List ℕ) where
    put-Grown :
        get id m ≡ none
        → contains id v ≡ false
        → get id tasks ≡ some t
        → Grown (id ∷ v) m m1
        → Known m1 t.depends_on ds
        → Grown v m (put id (depth_over ds) m1)
    unfolding contains any
    put-Grown fresh outside found g known = record {
      layered = λ j e h. elim (Bool-cases (eq_text id j)) [
        | inl own ↦
            let here : id ≡ j = (eq_text_iff id j).0 own in
            record {
              entry = t;
              below = ds;
              found = rw (← here) found;
              known = Known-mono m1 m' t.depends_on ds grows known;
              exact = ground (arith, get-put id j (depth_over ds) m1);
            }
        | inr other ↦
            Layer-mono {m = m1} {m' = m'} j e grows
              (g.layered j e (ground (arith, get-put id j (depth_over ds) m1)))
      ];
      extends = λ j e h. grows j e (g.extends j e h);
      spares = λ j h.
          ground (
            arith,
            get-put id j (depth_over ds) m1,
            g.spares j,
            eq_text_iff id j,
            eq_text_iff j id,
          );
    }
      where
        m' : Depths
        m' = put id (depth_over ds) m1

        unseen : get id m1 ≡ none
        unseen = g.spares id (ground (arith, eq_text_refl id)) ∙ fresh

        grows : Extends m1 m'
        grows j e h = ground (arith, get-put id j (depth_over ds) m1, eq_text_iff id j, unseen)

  -- A successful visit keeps the memo layered, forgets nothing, leaves the ids in progress alone,
  -- and enters the depth that it returns.
  pub visit_sound : (fuel : ℕ) (v : List Text) → Visits (visit fuel tasks v) v
  unfolding visit
  visit_sound zero v id m r h l = absurd (ground arith)
  visit_sound (suc fuel) v id m r h l = elim (Option-cases (get id m)) [
    | inr (known, there) ↦
        let same : ◌≡◌ {A = ℕ × Depths} (known, m) r = ground arith in
        subst (λ x. Grown v m x.1 × (get id x.1 ≡ some x.0)) same (Grown-refl v m l, there)
    | inl fresh ↦ elim (Bool-cases (contains id v)) [
      | inl inside ↦ absurd (ground arith)
      | inr outside ↦ elim (Option-cases (get id tasks)) [
        | inl missing ↦ absurd (ground arith)
        | inr (t, found) ↦
            let h0 = rw (fresh, visit, outside, found) at h in
            let (below, visited, h1) =
              bind-ok (visit_each (visit fuel tasks (id ∷ v)) t.depends_on m) _ h0 in
            let (g, known) =
              visit_each_sound (visit fuel tasks (id ∷ v)) (id ∷ v) (visit_sound fuel (id ∷ v))
                t.depends_on m below visited l in
            let d = depth_over below.0 in
            let same : ◌≡◌ {A = ℕ × Depths} (d, put id d below.1) r = ground arith in
            subst (λ x. Grown v m x.1 × (get id x.1 ≡ some x.0)) same
              (
                put-Grown v id t m below.1 below.0 fresh outside found g known,
                ground (arith, get-put id id d below.1, eq_text_refl id),
              )
      ]
    ]
  ]
