-- ===== src/Run/State.antt =====
-- src/run/state.ts: the resume state of a spec execution, as the schema describes it. An instant is
-- its number of milliseconds since 1970, of which `Date#toISOString` is the spelling in the file; a
-- `null` or absent field is `none`. The object of the tasks is the list of its entries, in the order
-- in which the language enumerates them.
use agent_pipeline_v.Base.{ℕ, Bool, true, false, Option, List, Text}
use agent_pipeline_v.Base.Dict.{Dict}

-- STATUSES
pub data Status : Type 0 where
  pending running done failed skipped : Status

-- STEPS, in their order
pub data StepName : Type 0 where
  data_model plan integration reviews fixes delivery : StepName

-- REVIEWS
pub data ReviewDomain : Type 0 where
  securite fidelite donnees rgpd : ReviewDomain

-- CONFIDENCE_LEVELS, the strongest first
pub data Confidence : Type 0 where
  prouve probable suppose : Confidence

-- `===` on two statuses
abbrev pub same_status : Status → Status → Bool
same_status pending pending = true
same_status running running = true
same_status done done = true
same_status failed failed = true
same_status skipped skipped = true
same_status _ _ = false

-- A step of the schema `stepSchema`.
pub record StepEntry : Type 0 where
  pub status : Status
  pub commit : Option Text
  pub note : Option Text
  pub updated_at : Option ℕ
  pub confidence : Option Confidence

-- A task of the schema `taskSchema`.
pub record TaskEntry : Type 0 where
  pub title : Text
  pub depends_on : List Text
  pub wave : ℕ
  pub foundation : Bool
  pub status : Status
  pub branch : Option Text
  pub worktree : Option Text
  pub agent_id : Option Text
  pub base : Option Text
  pub commit : Option Text
  pub note : Option Text
  pub updated_at : Option ℕ
  pub confidence : Option Confidence

-- A review of the schema `reviewSchema`.
pub record ReviewEntry : Type 0 where
  pub status : Status
  pub findings : Option ℕ
  pub commit : Option Text
  pub note : Option Text
  pub updated_at : Option ℕ

-- RunEvent
pub record Event : Type 0 where
  pub at : ℕ
  pub target : Text
  pub from : Option Status
  pub to : Status
  pub note : Option Text
  pub commit : Option Text
  pub agent_id : Option Text
  pub unintegrated : Option (List Text)
  pub until : Option ℕ
  pub confidence : Option Confidence

-- A quota pause of the schema `pauseSchema`.
pub record Pause : Type 0 where
  pub since : ℕ
  pub until : ℕ
  pub note : Option Text

pub record Wave : Type 0 where
  pub index : ℕ
  pub tasks : List Text

pub record Steps : Type 0 where
  pub data_model : StepEntry
  pub plan : StepEntry
  pub integration : StepEntry
  pub reviews : StepEntry
  pub fixes : StepEntry
  pub delivery : StepEntry

pub record Reviews : Type 0 where
  pub securite : ReviewEntry
  pub fidelite : ReviewEntry
  pub donnees : ReviewEntry
  pub rgpd : ReviewEntry

pub record RunState : Type 0 where
  pub spec_id : Text
  pub spec_file : Text
  pub spec_sha256 : Text
  pub base : Text
  pub base_sha : Text
  pub branch : Text
  pub created_at : ℕ
  pub updated_at : ℕ
  pub steps : Steps
  pub waves : List Wave
  pub tasks : Dict TaskEntry
  pub reviews : Reviews
  pub events : List Event
  pub pause : Option Pause

-- `state.steps[name]`
abbrev pub get_step : StepName → Steps → StepEntry
get_step data_model s = s.data_model
get_step plan s = s.plan
get_step integration s = s.integration
get_step reviews s = s.reviews
get_step fixes s = s.fixes
get_step delivery s = s.delivery

abbrev pub put_step : StepName → StepEntry → Steps → Steps
put_step data_model e s = record s { data_model = e }
put_step plan e s = record s { plan = e }
put_step integration e s = record s { integration = e }
put_step reviews e s = record s { reviews = e }
put_step fixes e s = record s { fixes = e }
put_step delivery e s = record s { delivery = e }

-- `state.reviews[domain]`
abbrev pub get_review : ReviewDomain → Reviews → ReviewEntry
get_review securite r = r.securite
get_review fidelite r = r.fidelite
get_review donnees r = r.donnees
get_review rgpd r = r.rgpd

abbrev pub put_review : ReviewDomain → ReviewEntry → Reviews → Reviews
put_review securite e r = record r { securite = e }
put_review fidelite e r = record r { fidelite = e }
put_review donnees e r = record r { donnees = e }
put_review rgpd e r = record r { rgpd = e }

-- TRANSITIONS: the moves that change a status.
unfoldable pub transition : Status → Status → Bool
transition pending pending = false
transition pending _ = true
transition running running = false
transition running _ = true
transition failed pending = true
transition failed running = true
transition failed skipped = true
transition failed _ = false
transition skipped pending = true
transition skipped running = true
transition skipped _ = false
transition done running = true
transition done pending = true
transition done _ = false
