-- ===== src/Run/Set/Inversion.antt =====
-- What a successful `apply_set` tells of its checks and of the state that it returns.
use agent_pipeline_v.Base.{ℕ, ◌≡◌, Option, some, List, arith, Text, ok, bind-ok}
use agent_pipeline_v.Run.State.{Status, Event, RunState}
use agent_pipeline_v.Run.Target.{Target}
use agent_pipeline_v.Run.Schema.{parse_state, parse_state-ok}
use agent_pipeline_v.Run.Set.{set_state, set_event, apply_set}
use agent_pipeline_v.Run.Check.{
  SetOptions, entry_of, find_entry, check_set, check_move, check_entry, check_confidence,
}

module _ (s : RunState) (target : Target) (o : SetOptions) where
  pub record Checked (from : Status) (forced : Option (List Text)) : Type 0 where
    pub commit : Option Text
    pub entry : entry_of s target ≡ some (from, commit)
    pub move : check_move target from commit o ≡ ok tt
    pub forced_ok : check_entry s target o ≡ ok forced
    pub confidence_ok : check_confidence target o ≡ ok tt

  pub check_set-ok :
      {from : Status} {forced : Option (List Text)}
      → check_set s target o ≡ ok (from, forced)
      → Checked from forced
  unfolding check_set
  check_set-ok {from} {forced} h =
      let (entry, found, h1) = bind-ok (find_entry s target) _ h in
      let (_, moved, h2) = bind-ok (check_move target entry.0 entry.1 o) _ h1 in
      let (forced', started, h3) = bind-ok (check_entry s target o) _ h2 in
      let (_, confident, h4) = bind-ok (check_confidence target o) _ h3 in
      record {
        commit = entry.1;
        entry = ground arith;
        move = ground arith;
        forced_ok = ground arith;
        confidence_ok = ground arith;
      }

  pub apply_set-ok :
      (now : ℕ) {t : RunState} {from : Status} {e : Event}
      → apply_set s target o now ≡ ok (t, from, e)
      → (forced : Option (List Text)) × (check_set s target o ≡ ok (from, forced))
        × (t ≡ set_state s target from forced o now)
        × (e ≡ set_event now target from forced o)
  unfolding apply_set
  apply_set-ok now h =
      let (checked, held, h1) = bind-ok (check_set s target o) _ h in
      let (next, parsed, h2) =
        bind-ok (parse_state (set_state s target checked.0 checked.1 o now)) _ h1 in
      let same = parse_state-ok (set_state s target checked.0 checked.1 o now) parsed in
      (checked.1, ground arith, ground arith, ground arith)
