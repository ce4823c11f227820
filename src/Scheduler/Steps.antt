-- ===== src/Scheduler/Steps.antt =====
-- src/engine/scheduler.ts: the steps of a schedule, the queues that they reach, and how often a gate
-- stands in a list of them.
pub mod Count
pub mod Open
use agent_pipeline_v.Base.{
  ℕ, ◌+◌, ◌≡◌, ◌≤◌, Bool, true, false, Option, none, some, List, [], ◌∷◌, map, Text, eq_text,
  if◌then◌else◌,
}
use agent_pipeline_v.Scheduler.{
  Gate, Receipt, Job, Queue, Options, new_queue, sweep, receive, fail, release, cancel, is_job,
}

-- How many elements pass a test.
unfoldable pub count {ℓ} : {A : Type ℓ} → (A → Bool) → List A → ℕ
count p [] = 0
count p (x ∷ xs) = (if p x then 1 else 0) + count p xs

abbrev pub named : Text → Gate → Bool
named id g = eq_text g.id id

-- The job of a gate.
unfoldable pub find_job : Text → List Job → Option Job
find_job id [] = none
find_job id (j ∷ js) = if is_job id j then some j else find_job id js

-- The gates whose promise is in `running`.
abbrev pub active : Queue → List Gate
active q = map (λ j. j.gate) q.running

module _ (o : Options) where
  pub data Step : Queue → Queue → Type 0 where
    swept : {q : Queue} → Step q (sweep o q)
    received :
        {q : Queue} (g : Gate) (r : Receipt)
        → find_job g.id q.running ≡ some (record { gate = g; settled = false })
        → Step q (receive o g.id r q)
    threw :
        {q : Queue} (g : Gate) (error : Text)
        → find_job g.id q.running ≡ some (record { gate = g; settled = false })
        → Step q (fail g.id error q)
    released :
        {q : Queue} (g : Gate)
        → find_job g.id q.running ≡ some (record { gate = g; settled = true })
        → Step q (release g q)
    cancelled : {q : Queue} → Step q (cancel q)

  -- The queues of a schedule of gates with distinct ids.
  pub data Reach (gates : List Gate) : Queue → Type 0 where
    start :
        (before : Bool)
        → ((id : Text) → count (named id) gates ≤ 1)
        → Reach gates (new_queue gates before)
    next : {q t : Queue} → Reach gates q → Step q t → Reach gates t
