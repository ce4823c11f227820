-- ===== src/Run/Schema.antt =====
-- src/run/state.ts, `runStateSchema.parse` at a state that already has the shape of the schema: the
-- bounds and patterns that src/domain/schema.ts checks. `parseState` first calls `migrateRunState`,
-- which returns a state of the current version as it is.
use agent_pipeline_v.Base.{
  ℕ, ◌≡◌, Bool, ◌&&◌, ◌||◌, not, List, arith, length, Text, is_key, all, any, leb, ◌==◌,
  if◌then◌else◌, all_some, Result, ok, err,
}
use agent_pipeline_v.Base.Dict.{keys}
use agent_pipeline_v.Run.State.{
  RunState, StepEntry, TaskEntry, ReviewEntry, Event, Pause, Wave, Steps, Reviews,
}

-- What the functions of the module throw.
pub data Error : Type 0 where
  run_target refused_move security_skipped skip_without_note reopen_without_note : Error
  commit_without_note force_without_note done_without_commit : Error
  confidence_target confidence_status : Error
  not_done not_integrated : List Text → Error
  nothing_to_pause pause_in_the_past not_paused override_reason : Error
  cycle missing_task : Text → Error
  schema out_of_fuel : Error

-- `s.string(min, max)`
unfoldable pub fits : ℕ → ℕ → Text → Bool
unfolding any
fits least most s = not (any (λ c. c == 0) s) && (leb least (length s) && leb (length s) most)

is_hex : ℕ → Bool
is_hex c = (leb b'a' c && leb c b'f') || (leb b'0' c && leb c b'9')

-- `s.string(min, max, /^[a-f0-9]{min,max}$/)`
unfoldable pub fits_hex : ℕ → ℕ → Text → Bool
unfolding fits all is_hex
fits_hex least most s = fits least most s && all is_hex s

-- `s.string(1, 80, key)`
unfoldable pub fits_key : Text → Bool
unfolding fits is_key
fits_key s = fits 1 80 s && is_key s

-- The spelling of an instant fits the pattern of `at` up to the end of the year 9999.
abbrev pub fits_at : ℕ → Bool
fits_at t = leb t 253402300799999

abbrev pub within : ℕ → ℕ → ℕ → Bool
within least most n = leb least n && leb n most

step_fits : StepEntry → Bool
step_fits e =
    all_some (fits_hex 7 64) e.commit
    && all_some (fits 0 4000) e.note
    && all_some (λ t. fits_at t) e.updated_at

task_fits : TaskEntry → Bool
task_fits t =
    fits 1 500 t.title
    && (leb (length t.depends_on) 20 && all fits_key t.depends_on)
    && leb t.wave 1000
    && all_some (fits 0 300) t.branch
    && all_some (fits 0 4096) t.worktree
    && all_some (fits 0 300) t.agent_id
    && all_some (fits_hex 7 64) t.base
    && all_some (fits_hex 7 64) t.commit
    && all_some (fits 0 4000) t.note
    && all_some (λ u. fits_at u) t.updated_at

review_fits : ReviewEntry → Bool
review_fits r =
    all_some (λ n. leb n 100000) r.findings
    && all_some (fits_hex 7 64) r.commit
    && all_some (fits 0 4000) r.note
    && all_some (λ t. fits_at t) r.updated_at

event_fits : Event → Bool
event_fits e =
    fits_at e.at
    && fits 1 200 e.target
    && all_some (fits 0 4000) e.note
    && all_some (fits 7 64) e.commit
    && all_some (fits 0 300) e.agent_id
    && all_some (λ u. within 1 20 (length u) && all fits_key u) e.unintegrated
    && all_some (λ u. fits_at u) e.until

pause_fits : Pause → Bool
pause_fits p = fits_at p.since && fits_at p.until && all_some (fits 0 4000) p.note

wave_fits : Wave → Bool
wave_fits w = leb w.index 1000 && within 1 100 (length w.tasks) && all fits_key w.tasks

steps_fit : Steps → Bool
unfolding step_fits
steps_fit s =
    step_fits s.data_model
    && step_fits s.plan
    && step_fits s.integration
    && step_fits s.reviews
    && step_fits s.fixes
    && step_fits s.delivery

reviews_fit : Reviews → Bool
unfolding review_fits
reviews_fit r =
    review_fits r.securite && review_fits r.fidelite && review_fits r.donnees && review_fits r.rgpd

-- runStateSchema: whether every field is within its bounds.
pub state_fits : RunState → Bool
unfolding steps_fit task_fits reviews_fit event_fits pause_fits wave_fits fits_key fits_hex
state_fits s =
    fits_key s.spec_id
    && fits 1 4096 s.spec_file
    && fits_hex 64 64 s.spec_sha256
    && fits 1 300 s.base
    && fits_hex 40 64 s.base_sha
    && fits 1 300 s.branch
    && fits_at s.created_at
    && fits_at s.updated_at
    && steps_fit s.steps
    && leb (length s.waves) 1000
    && all wave_fits s.waves
    && leb (length s.tasks) 100
    && all is_key (keys s.tasks)
    && all (λ e. task_fits e.1) s.tasks
    && reviews_fit s.reviews
    && leb (length s.events) 100000
    && all event_fits s.events
    && all_some pause_fits s.pause

-- parseState
unfoldable pub parse_state : RunState → Result Error RunState
unfolding state_fits
parse_state s = if state_fits s then ok s else err schema

-- A state that parses comes out as it went in.
pub parse_state-ok : (s : RunState) {t : RunState} → parse_state s ≡ ok t → t ≡ s
unfolding parse_state
parse_state-ok s h = ground arith
