-- ===== src/Run/Readiness.antt =====
-- src/run/state.ts: `integrationCheck`, and the pending tasks of `computeNext`: ready, awaiting an
-- integration, or blocked.
use agent_pipeline_v.Base.{
  ℕ, Bool, ◌&&◌, ◌||◌, not, Option, none, some, List, [], ◌∷◌, map, Text, eq_text, filter, is_empty,
  leb, or_else, if◌then◌else◌,
}
use agent_pipeline_v.Base.Dict.{Dict}
use agent_pipeline_v.Run.State.{TaskEntry, RunState, pending, same_status}
use agent_pipeline_v.Run.Check.{IntegrationCheck, gaps_not_done, gaps_not_integrated}

-- GitProbe: what Git says of the repository.
pub record GitProbe : Type 0 where
  pub exists : Text → Bool
  pub resolve : Text → Option Text → Option Text
  pub count_after : Text → Text → Option Text → Option ℕ
  pub is_ancestor : Text → Text → Bool

-- integrationCheck
unfoldable pub integration_check : RunState → GitProbe → IntegrationCheck
integration_check s probe =
    let head : Text = or_else (probe.resolve s.branch none) s.base_sha in
    record { head = head; integrated = λ c. eq_text c head || probe.is_ancestor c head }

pub record ReadyItem : Type 0 where
  pub id : Text
  pub title : Text
  pub wave : ℕ
  pub foundation : Bool

pub record WaitingItem : Type 0 where
  pub id : Text
  pub wave : ℕ
  pub waiting_on : List Text

abbrev pub Entry : Type 0
Entry = Text × TaskEntry

abbrev pub is_pending : Entry → Bool
is_pending e = same_status e.1.status pending

-- A stable sort by wave.
unfoldable pub insert_by_wave : {A : Type 0} → (A → ℕ) → A → List A → List A
insert_by_wave wave a [] = a ∷ []
insert_by_wave wave a (b ∷ bs) =
    if leb (wave a) (wave b) then a ∷ b ∷ bs else b ∷ insert_by_wave wave a bs

unfoldable pub sort_by_wave : {A : Type 0} → (A → ℕ) → List A → List A
unfolding insert_by_wave
sort_by_wave wave [] = []
sort_by_wave wave (a ∷ rest) = insert_by_wave wave a (sort_by_wave wave rest)

module _ (s : RunState) (check : IntegrationCheck) where
  abbrev pub not_done : Entry → List Text
  not_done e = gaps_not_done s.tasks e.1

  abbrev pub not_integrated : Entry → List Text
  not_integrated e = gaps_not_integrated s.tasks e.1 (some check)

  -- The three fates of a pending task.
  abbrev pub is_ready : Entry → Bool
  is_ready e = is_empty (not_done e) && is_empty (not_integrated e)

  abbrev pub is_awaiting : Entry → Bool
  is_awaiting e = is_empty (not_done e) && not (is_empty (not_integrated e))

  abbrev pub is_blocked : Entry → Bool
  is_blocked e = not (is_empty (not_done e))

  unfoldable pub pending_tasks : Dict TaskEntry
  pending_tasks = filter is_pending s.tasks

  unfoldable pub ready_entries : List (Text × TaskEntry)
  ready_entries = filter is_ready pending_tasks

  unfoldable pub awaiting_entries : List (Text × TaskEntry)
  awaiting_entries = filter is_awaiting pending_tasks

  unfoldable pub blocked_entries : List (Text × TaskEntry)
  blocked_entries = filter is_blocked pending_tasks

  unfoldable pub ready : List ReadyItem
  ready =
      sort_by_wave (λ r. r.wave)
        (map
          (λ e. record {
            id = e.0;
            title = e.1.title;
            wave = e.1.wave;
            foundation = e.1.foundation;
          })
          ready_entries)

  unfoldable pub awaiting_integration : List WaitingItem
  awaiting_integration =
      sort_by_wave (λ w. w.wave)
        (map (λ e. record { id = e.0; wave = e.1.wave; waiting_on = not_integrated e })
          awaiting_entries)

  unfoldable pub blocked : Dict (List Text)
  blocked = map (λ e. (e.0, not_done e)) blocked_entries
