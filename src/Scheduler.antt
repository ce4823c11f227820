-- ===== src/Scheduler.antt =====
-- src/engine/scheduler.ts: `schedule`, the queue of the gates that are ready. Between two microtasks
-- of the language the state is that of the variables of the function; a sweep is the synchronous loop
-- over the pending gates, and the callbacks of the promises are steps of their own, in any order.
pub mod Steps
pub mod Exclusion
pub mod Order
pub mod Progress
pub mod Callbacks
pub mod Tests
use agent_pipeline_v.Base.{
  ℕ, Bool, true, false, ◌&&◌, ◌||◌, not, Option, none, some, List, [], ◌∷◌, ◌++◌, map, Text, codes,
  eq_text, all, any, filter, length, is_empty, is_some, leb, if◌then◌else◌,
}
use agent_pipeline_v.Base.Dict.{Dict, get, put}

-- The fields of `gateSchema` (src/domain/contracts.ts) that the scheduler reads.
pub record Gate : Type 0 where
  pub id : Text
  pub depends_on : List Text
  pub resources : List Text
  pub read_only : Bool

-- receiptStatuses
pub data ReceiptStatus : Type 0 where
  passed failed timed_out cancelled spawn_error blocked cached passed_after_retry : ReceiptStatus
  not_required : ReceiptStatus

-- The fields of a receipt that the scheduler reads or sets.
pub record Receipt : Type 0 where
  pub gate_id : Text
  pub status : ReceiptStatus
  pub diagnostic : Text

-- success
abbrev pub succeeded : ReceiptStatus → Bool
succeeded passed = true
succeeded cached = true
succeeded passed_after_retry = true
succeeded _ = false

abbrev pub success : Receipt → Bool
success r = succeeded r.status

-- `blocked` of src/gates/run.ts
abbrev pub blocked_receipt : Gate → Text → Receipt
blocked_receipt g reason = record { gate_id = g.id; status = blocked; diagnostic = reason }

-- A gate whose promise is in `running`; settled once its receipt or its error is recorded, which the
-- callback that removes it from `running` follows.
pub record Job : Type 0 where
  pub gate : Gate
  pub settled : Bool

-- The variables of `schedule`. `held` is a set: only membership counts.
pub record Queue : Type 0 where
  pub pending : List Gate
  pub running : List Job
  pub held : List Text
  pub writer : Bool
  pub done : Dict Receipt
  pub aborted : Bool
  pub fatal : Option Text

pub record Options : Type 0 where
  pub concurrency : ℕ
  pub fail_fast : Bool

abbrev pub has : Text → List Text → Bool
has r rs = any (eq_text r) rs

abbrev pub new_queue : List Gate → Bool → Queue
new_queue gates cancelled_before = record {
  pending = gates;
  running = [];
  held = [];
  writer = false;
  done = [];
  aborted = cancelled_before;
  fatal = none;
}

-- `pending.delete(id)`
unfoldable pub remove_gate : Text → List Gate → List Gate
remove_gate id gs = filter (λ g. not (eq_text g.id id)) gs

abbrev pub is_done : Queue → Text → Bool
is_done q id = is_some (get id q.done)

abbrev pub has_failed : Option Receipt → Bool
has_failed none = false
has_failed (some r) = not (success r)

-- `failedDependency`
unfoldable pub failed_dependency : Gate → Queue → Bool
failed_dependency g q = any (λ d. has_failed (get d q.done)) g.depends_on

abbrev pub block_reason : Queue → Text
block_reason q = if q.aborted then codes "Execution cancelled" else codes "Dependency failed"

unfoldable pub block : Gate → Queue → Queue
block g q = record q {
  pending = remove_gate g.id q.pending;
  done = put g.id (blocked_receipt g (block_reason q)) q.done;
}

-- The negation of the test that makes a pending gate wait.
unfoldable pub is_launchable : Options → Gate → Queue → Bool
is_launchable o g q =
    not (leb o.concurrency (length q.running))
    && not q.writer
    && (g.read_only || is_empty q.running)
    && all (λ d. is_done q d) g.depends_on
    && not (any (λ r. has r q.held) g.resources)

unfoldable pub launch : Gate → Queue → Queue
launch g q = record q {
  pending = remove_gate g.id q.pending;
  running = q.running ++ record { gate = g; settled = false } ∷ [];
  held = g.resources ++ q.held;
  writer = not g.read_only || q.writer;
}

-- The body of the loop over the pending gates.
unfoldable pub consider : Options → Gate → Queue → Queue
consider o g q =
    if q.aborted || failed_dependency g q
    then block g q
    else if is_launchable o g q
    then launch g q
    else q

unfoldable pub sweep_over : Options → List Gate → Queue → Queue
sweep_over o [] q = q
sweep_over o (g ∷ gs) q = sweep_over o gs (consider o g q)

-- The loop over the pending gates: it deletes only the gate that it stands at.
abbrev pub sweep : Options → Queue → Queue
sweep o q = sweep_over o q.pending q

abbrev pub is_job : Text → Job → Bool
is_job id j = eq_text j.gate.id id

abbrev pub settle_job : Text → Job → Job
settle_job id j = if is_job id j then record j { settled = true } else j

-- The receipt of a gate arrives.
unfoldable pub receive : Options → Text → Receipt → Queue → Queue
receive o id r q = record q {
  running = map (settle_job id) q.running;
  done = put id r q.done;
  aborted = q.aborted || (not (success r) && o.fail_fast);
}

-- The execution of a gate throws: the first error is kept.
unfoldable pub fail : Text → Text → Queue → Queue
fail id error q = record q {
  running = map (settle_job id) q.running;
  aborted = true;
  fatal = if is_some q.fatal then q.fatal else some error;
}

unfoldable pub remove_job : Text → List Job → List Job
remove_job id js = filter (λ j. not (is_job id j)) js

-- The `finally` of a gate.
unfoldable pub release : Gate → Queue → Queue
release g q = record q {
  running = remove_job g.id q.running;
  held = filter (λ r. not (has r g.resources)) q.held;
  writer = if g.read_only then q.writer else false;
}

-- The external signal.
abbrev pub cancel : Queue → Queue
cancel q = record q { aborted = true }

-- What `schedule` does with the queue that its loop leaves.
pub data Outcome : Type 0 where
  receipts : List (Option Receipt) → Outcome
  thrown : Text → Outcome

-- `if (fatal) throw fatal; return gates.map(g => done.get(g.id)!);`
unfoldable pub outcome : List Gate → Queue → Outcome
outcome gates q = elim q.fatal [
  | some e ↦ thrown e
  | none ↦ receipts (map (λ g. get g.id q.done) gates)
]

-- `throw new Error('Scheduler cannot make progress')`: the test, right after a sweep.
abbrev pub is_stuck : Queue → Bool
is_stuck q = is_empty q.running && not (is_empty q.pending)
