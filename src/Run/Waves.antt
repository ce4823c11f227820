-- ===== src/Run/Waves.antt =====
-- src/run/state.ts: the waves of a plan and its foundations.
pub mod Depths
pub mod Total
pub mod Acyclic
pub mod Index
use agent_pipeline_v.Base.{
  ℕ, zero, suc, ◌+◌, max, Bool, true, false, ◌&&◌, ◌||◌, not, Option, none, some, List, [], ◌∷◌,
  ◌++◌, map, Text, eq_text, any, filter, find, length, is_empty, ltb, leb, ◌==◌, or_else,
  if◌then◌else◌, Result, ok, err, ◌>>=◌, reverse,
}
use agent_pipeline_v.Base.Dict.{Dict, get, put}
use agent_pipeline_v.Run.State.{Wave, TaskEntry}
use agent_pipeline_v.Run.Schema.{Error, cycle, missing_task, out_of_fuel}

-- SpecTaskInput
pub record SpecTask : Type 0 where
  pub id : Text
  pub title : Text
  pub depends_on : List Text

-- `new Map(entries)`: the last entry of a key counts.
unfoldable pub collect {ℓ} : {V : Type ℓ} → Dict V → Dict V → Dict V
collect m [] = m
collect m ((k, v) ∷ es) = collect (put k v m) es

abbrev pub by_id : List SpecTask → Dict SpecTask
by_id tasks = collect [] (map (λ t. (t.id, t)) tasks)

unfoldable pub contains : Text → List Text → Bool
unfolding any
contains id ids = any (eq_text id) ids

-- `Math.max(...ds)` and 0 for none.
unfoldable pub greatest : List ℕ → ℕ
greatest [] = 0
greatest (d ∷ ds) = max d (greatest ds)

-- 0 without dependency, else one more than the deepest dependency.
abbrev pub depth_over : List ℕ → ℕ
depth_over [] = 0
depth_over (d ∷ ds) = 1 + greatest (d ∷ ds)

abbrev pub Depths : Type 0
Depths = Dict ℕ

-- `ids.map(visit)`: the depths found, with the memo that grows from one visit to the next.
unfoldable pub visit_each :
    (Text → Depths → Result Error (ℕ × Depths))
    → List Text
    → Depths
    → Result Error (List ℕ × Depths)
visit_each visit_one [] m = ok ([], m)
visit_each visit_one (id ∷ ids) m = do
  first ← visit_one id m
  rest ← visit_each visit_one ids first.1
  ok (first.0 ∷ rest.0, rest.1)

-- `visit` of `computeWaves`. Only the visits inside a visit see its id in `visiting`, which is
-- therefore an argument; the fuel bounds their nesting.
unfoldable pub visit : ℕ → Dict SpecTask → List Text → Text → Depths → Result Error (ℕ × Depths)
visit zero tasks visiting id m = err out_of_fuel
visit (suc fuel) tasks visiting id m = elim (get id m) [
  | some known ↦ ok (known, m)
  | none ↦ if contains id visiting then err (cycle id) else elim (get id tasks) [
    | none ↦ err (missing_task id)
    | some t ↦ do
      found ← visit_each (visit fuel tasks (id ∷ visiting)) t.depends_on m
      ok (depth_over found.0, put id (depth_over found.0) found.1)
  ]
]

-- `[...new Set(values)]`
unfoldable pub distinct : List ℕ → List ℕ
distinct [] = []
distinct (n ∷ ns) = n ∷ filter (λ m. not (m == n)) (distinct ns)

unfoldable pub insert_sorted : ℕ → List ℕ → List ℕ
insert_sorted n [] = n ∷ []
insert_sorted n (m ∷ ms) = if leb n m then n ∷ m ∷ ms else m ∷ insert_sorted n ms

-- `values.sort((a, b) => a - b)`
unfoldable pub sort : List ℕ → List ℕ
unfolding insert_sorted
sort [] = []
sort (n ∷ ns) = insert_sorted n (sort ns)

abbrev pub values : Depths → List ℕ
values m = map (λ e. e.1) m

abbrev pub at_depth : Depths → ℕ → SpecTask → Bool
at_depth m index t = elim (get t.id m) [ none ↦ false | some d ↦ d == index ]

abbrev pub wave_at : List SpecTask → Depths → ℕ → Wave
wave_at tasks m index = record {
  index = index;
  tasks = map (λ t. t.id) (filter (at_depth m index) tasks);
}

abbrev pub ids_of : List SpecTask → List Text
ids_of tasks = map (λ t. t.id) tasks

-- The depth of every task, on enough fuel for the nesting of the visits.
unfoldable pub depths : List SpecTask → Result Error Depths
depths tasks = do
  found ← visit_each (visit (suc (length tasks)) (by_id tasks) []) (ids_of tasks) []
  ok found.1

-- computeWaves
unfoldable pub compute_waves : List SpecTask → Result Error (List Wave)
compute_waves tasks = do m ← depths tasks; ok (map (wave_at tasks m) (sort (distinct (values m))))

abbrev pub wave_entries : Wave → Depths
wave_entries w = map (λ id. (id, w.index)) w.tasks

abbrev pub concat_entries : List Wave → Depths
concat_entries [] = []
concat_entries (w ∷ ws) = wave_entries w ++ concat_entries ws

-- `new Map(waves.flatMap(w => w.tasks.map(id => [id, w.index])))`
abbrev pub wave_of : List Wave → Depths
wave_of waves = collect [] (concat_entries waves)

-- FOUNDATION_MIN_DEPENDENTS
abbrev pub foundation_min_dependents : ℕ
foundation_min_dependents = 2

abbrev pub count_task : Text → SpecTask → ℕ
count_task id t = if contains id t.depends_on then 1 else 0

-- How many tasks depend on `id`: a task that lists it twice counts once.
unfoldable pub dependents : Text → List SpecTask → ℕ
dependents id [] = 0
dependents id (t ∷ ts) = count_task id t + dependents id ts

-- computeFoundations
unfoldable pub compute_foundations : List SpecTask → List Text
unfolding dependents contains
compute_foundations tasks =
    map (λ t. t.id) (filter (λ t. leb foundation_min_dependents (dependents t.id tasks)) tasks)

abbrev pub is_foundation : Dict TaskEntry → Text → Bool
is_foundation tasks id = elim (get id tasks) [ none ↦ false | some t ↦ t.foundation ]

-- splitWave: the foundations of a wave, and the other tasks.
unfoldable pub split_wave : Dict TaskEntry → Wave → List Text × List Text
unfolding contains
split_wave tasks w =
    let foundations = filter (is_foundation tasks) w.tasks in
    (foundations, filter (λ id. not (contains id foundations)) w.tasks)
