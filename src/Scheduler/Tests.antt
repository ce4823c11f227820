-- ===== src/Scheduler/Tests.antt =====
-- Schedules of src/engine/scheduler.ts on a few gates.
use agent_pipeline_v.Base.{
  ℕ, All, if◌then◌else◌, ◌≡◌, ◌≤◌, ◌⊎◌, refl, Bool, true, false, some, List, [], ◌∷◌, map, arith,
  Text, codes, eq_text, all, any, filter,
}
use agent_pipeline_v.Base.Dict.{get, put}
use agent_pipeline_v.Scheduler.{
  Gate, Receipt, Queue, Options, new_queue, sweep, sweep_over, receive, release, is_stuck, outcome,
  receipts, thrown, passed, failed, remove_gate, remove_job, failed_dependency, block,
  is_launchable, launch, consider,
}
use agent_pipeline_v.Scheduler.Steps.{count, named, find_job, Reach, start, next, swept, received}
use agent_pipeline_v.Scheduler.Exclusion.{IsExclusive}
use agent_pipeline_v.Scheduler.Exclusion.Reached.{Reach-IsExclusive}
use agent_pipeline_v.Scheduler.Order.{IsOrdered}
use agent_pipeline_v.Scheduler.Order.Reached.{Reach-IsOrdered, outcome_complete}
use agent_pipeline_v.Scheduler.Progress.{IsListedFirst}
use agent_pipeline_v.Scheduler.Callbacks.{callbacks, weight, callbacks_le}
use agent_pipeline_v.Base.{◌+◌, ◌*◌, length}
use agent_pipeline_v.Scheduler.Progress.{DependsWithin}
use agent_pipeline_v.Scheduler.Progress.FailFast.{IsAbove}
use agent_pipeline_v.Scheduler.Progress.FailFast.AnyOrder.{sweep-goes_on_fail_fast}
use agent_pipeline_v.Scheduler.Progress.Listed.{sweep-goes_on}

abbrev unit_gate : Gate
unit_gate = record {
  id = codes "unit";
  depends_on = [];
  resources = codes "db" ∷ [];
  read_only = true;
}

abbrev build_gate : Gate
build_gate = record {
  id = codes "build";
  depends_on = codes "unit" ∷ [];
  resources = [];
  read_only = false;
}

abbrev web_gate : Gate
web_gate = record {
  id = codes "web";
  depends_on = codes "build" ∷ [];
  resources = [];
  read_only = true;
}

abbrev listed : List Gate
listed = unit_gate ∷ build_gate ∷ web_gate ∷ []

abbrev options : Options
options = record { concurrency = 3; fail_fast = false }

abbrev receipt_of : Gate → Bool → Receipt
receipt_of g true = record { gate_id = g.id; status = passed; diagnostic = [] }
receipt_of g false = record { gate_id = g.id; status = failed; diagnostic = [] }

listed_distinct : (id : Text) → count (named id) listed ≤ 1
unfolding count eq_text
listed_distinct id = ground arith

abbrev queue1 : Queue
queue1 = sweep options (new_queue listed false)

reached1 : Reach options listed queue1
reached1 = next (start false listed_distinct) swept

unit_runs :
    find_job unit_gate.id queue1.running ≡ some (record { gate = unit_gate; settled = false })
unfolding sweep_over consider failed_dependency is_launchable launch block any all get eq_text
    find_job remove_gate filter
unit_runs = refl

abbrev queue2 : Queue
queue2 = sweep options (receive options unit_gate.id (receipt_of unit_gate true) queue1)

reached2 : Reach options listed queue2
reached2 = next (next reached1 (received unit_gate (receipt_of unit_gate true) unit_runs)) swept

Reach-IsExclusive_example : IsExclusive options queue2
Reach-IsExclusive_example = Reach-IsExclusive options listed reached2

Reach-IsOrdered_example : IsOrdered listed queue2
Reach-IsOrdered_example = Reach-IsOrdered listed options reached2

listed_first : IsListedFirst listed
unfolding count eq_text
listed_first = record { none_later = ground arith; within = ground arith }

sweep-goes_on_example : is_stuck (sweep options queue2) ≡ false
sweep-goes_on_example = sweep-goes_on listed options reached2 (omega arith) listed_first

-- A schedule that was cancelled before it started.
abbrev cancelled_queue : Queue
cancelled_queue = sweep options (new_queue listed true)

cancelled_reached : Reach options listed cancelled_queue
cancelled_reached = next (start true listed_distinct) swept

cancelled_pending : cancelled_queue.pending ≡ []
unfolding sweep_over consider failed_dependency block remove_gate filter eq_text any get
cancelled_pending = refl

cancelled_running : cancelled_queue.running ≡ []
unfolding sweep_over consider failed_dependency block remove_gate filter eq_text any get
cancelled_running = refl

outcome_complete_example :
    ((e : Text) × (cancelled_queue.fatal ≡ some e) × (outcome listed cancelled_queue ≡ thrown e))
    ⊎ ((rs : List Receipt) × (map (λ g. get g.id cancelled_queue.done) listed
          ≡ map (λ r. some r) rs)
        × (outcome listed cancelled_queue ≡ receipts (map (λ r. some r) rs)))
outcome_complete_example =
    outcome_complete listed options cancelled_reached cancelled_pending cancelled_running

-- Listed after the gates that depend on them, with failures that do not stop the schedule.
abbrev pub backwards : List Gate
backwards = web_gate ∷ build_gate ∷ unit_gate ∷ []

abbrev failed_queue : Queue
failed_queue = release unit_gate (
    receive options unit_gate.id (receipt_of unit_gate false)
      (sweep options (new_queue backwards false)))

-- The sweep blocks `build` after it looked at `web`: nothing runs and `web` is still pending.
backwards_stuck : is_stuck (sweep options failed_queue) ≡ true
unfolding receive release sweep_over consider failed_dependency is_launchable launch block any all
    get put eq_text find_job remove_gate remove_job filter
backwards_stuck = refl

-- The same gates when a failure stops the schedule.
abbrev pub stopping : Options
stopping = record { concurrency = 3; fail_fast = true }

backwards_distinct : (id : Text) → count (named id) backwards ≤ 1
unfolding count eq_text
backwards_distinct id = ground arith

backwards_within : All (DependsWithin backwards) backwards
unfolding count eq_text
backwards_within = ground arith

abbrev depth : Text → ℕ
depth id = if eq_text id web_gate.id then 2 else if eq_text id build_gate.id then 1 else 0

backwards-IsAbove : All (IsAbove depth) backwards
unfolding eq_text
backwards-IsAbove = ground arith

pub stopping_reached : Reach stopping backwards (sweep stopping (new_queue backwards false))
stopping_reached = next (start false backwards_distinct) swept

sweep-goes_on_fail_fast_example :
    is_stuck (sweep stopping (sweep stopping (new_queue backwards false))) ≡ false
sweep-goes_on_fail_fast_example =
    sweep-goes_on_fail_fast backwards depth stopping stopping_reached refl (omega arith)
      backwards_within backwards-IsAbove

callbacks_le_example : callbacks options reached2 + weight queue2 ≤ 2 * length listed
callbacks_le_example = callbacks_le options listed reached2
