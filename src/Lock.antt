-- ===== src/Lock.antt =====
-- src/lock/store.ts: the file of one lock and what a process does to it. The file is what the
-- processes share; between two of its calls a process finds what the others made of it. A critical
-- section of `withMutex` is one step. An instant is a number of milliseconds.
pub mod Takeover
pub mod Owner
mod Tests
use agent_pipeline_v.Base.{
  ℕ, ◌+◌, ◌-◌, ◌*◌, Bool, true, false, ◌&&◌, ◌||◌, not, Option, none, some, List, Text, eq_text,
  any, leb, ltb, ◌==◌, is_empty, if◌then◌else◌, [], ◌≡◌,
}

-- LockOwner
pub record LockOwner : Type 0 where
  pub pid : Option ℕ
  pub host : Text
  pub label : Text

-- LockRecord, at its only version
pub record LockRecord : Type 0 where
  pub resource : Text
  pub owner : LockOwner
  pub token : Text
  pub acquired_at : ℕ
  pub expires_at : ℕ
  pub heartbeat_at : ℕ
  pub ttl_seconds : ℕ
  pub purpose : Text

-- StaleReason
pub data StaleReason : Type 0 where
  expired owner_dead corrupt : StaleReason

-- LockSnapshot
pub record LockSnapshot : Type 0 where
  pub exists : Bool
  pub raw : Text
  pub content : Option LockRecord
  pub mtime : ℕ

-- What the file system keeps of the file of the lock. Each creation gives another inode.
pub record LockFile : Type 0 where
  pub raw : Text
  pub mtime : ℕ
  pub inode : ℕ

abbrev pub Disk : Type 0
Disk = Option LockFile

-- ReleaseResult
pub data ReleaseResult : Type 0 where
  released forced refused : Option LockRecord → ReleaseResult
  not_held : ReleaseResult

-- AcquireResult of `tryAcquire`: the lock with what was taken over, or its holder.
pub data AcquireResult : Type 0 where
  acquired : LockRecord → Option (StaleReason × Option LockRecord) → AcquireResult
  held : Option LockRecord → AcquireResult

-- The store of one process: its host and its grace period.
pub record LockStore : Type 0 where
  pub host : Text
  pub init_grace : ℕ

-- What a process asks for, with the token that it draws.
pub record Request : Type 0 where
  pub resource : Text
  pub owner : LockOwner
  pub token : Text
  pub ttl_seconds : ℕ
  pub purpose : Text
  pub inode : ℕ

-- What the other processes make of the disk before its critical section, before its
-- creation and before its write.
pub record Others : Type 0 where
  pub before_removal : Disk → Disk
  pub before_creation : Disk → Disk
  pub before_write : Disk → Disk

abbrev pub no_snapshot : LockSnapshot
no_snapshot = record { exists = false; raw = []; content = none; mtime = 0 }

-- The text of a record, and `parseRecord`.
module _ (print : LockRecord → Text) (parse : Text → Option LockRecord) where
  -- read
  unfoldable pub read : Disk → LockSnapshot
  read none = no_snapshot
  read (some f) = record { exists = true; raw = f.raw; content = parse f.raw; mtime = f.mtime }

  -- The process of the owner is gone, seen from its host.
  abbrev pub is_dead : LockStore → (ℕ → Bool) → LockOwner → Bool
  is_dead store alive o =
      eq_text o.host store.host && elim o.pid [ none ↦ false | some p ↦ not (alive p) ]

  -- staleness
  unfoldable pub staleness : LockStore → (ℕ → Bool) → LockSnapshot → ℕ → Option StaleReason
  staleness store alive s now = if not s.exists then none else elim s.content [
    | none ↦ if ltb store.init_grace (now - s.mtime) then some corrupt else none
    | some r ↦
        if leb r.expires_at now
        then some expired
        else if is_dead store alive r.owner
        then some owner_dead
        else none
  ]

  -- The critical section of a takeover: whether it removed the file, and the disk.
  unfoldable pub remove_same : LockSnapshot → Disk → Bool × Disk
  unfolding read
  remove_same s d =
      let again = read d in
      if not again.exists || not (eq_text again.raw s.raw) then (false, d) else (true, none)

  -- `openSync(path, 'wx')`: fails on a file that is there.
  unfoldable pub create : ℕ → ℕ → Disk → Bool × Disk
  create inode now none = (true, some (record { raw = []; mtime = now; inode = inode }))
  create inode now (some f) = (false, some f)

  -- `writeSync(fd, text)` on the file that the process created: it stays on its inode, so that nothing
  -- is written at the path if the file was removed meanwhile.
  unfoldable pub write : ℕ → Text → ℕ → Disk → Disk
  write inode text now none = none
  write inode text now (some f) =
      if f.inode == inode then some (record { raw = text; mtime = now; inode = inode }) else some f

  -- The record that a process writes.
  unfoldable pub new_record : Text → LockOwner → Text → ℕ → Text → ℕ → LockRecord
  new_record resource owner token ttl_seconds purpose now = record {
    resource = resource;
    owner = owner;
    token = token;
    acquired_at = now;
    expires_at = now + 1000 * ttl_seconds;
    heartbeat_at = now;
    ttl_seconds = ttl_seconds;
    purpose = purpose;
  }

  abbrev pub renewed : ℕ → ℕ → LockRecord → LockRecord
  renewed ttl_seconds now r = record r { heartbeat_at = now; expires_at = now + 1000 * ttl_seconds }

  -- renew: whether the lock is still that of the token, and the disk. The file is replaced by another.
  unfoldable pub renew : Text → ℕ → ℕ → ℕ → Disk → Bool × Disk
  unfolding read
  renew token ttl_seconds inode now d = elim (read d).content [
    | none ↦ (false, d)
    | some r ↦
        if eq_text r.token token
        then (
          true,
          some (record { raw = print (renewed ttl_seconds now r); mtime = now; inode = inode }),
        )
        else (false, d)
  ]

  -- `options.token && record && record.token === options.token`
  abbrev pub by_token : Option Text → LockRecord → Bool
  by_token none r = false
  by_token (some token) r = not (is_empty token) && eq_text r.token token

  -- The owner is one of the processes of the caller, on this host.
  abbrev pub by_pid : LockStore → List ℕ → LockOwner → Bool
  by_pid store pids o =
      elim o.pid [ none ↦ false | some p ↦ any (λ q. q == p) pids ] && eq_text o.host store.host

  -- release
  unfoldable pub release : LockStore → Option Text → List ℕ → Bool → Disk → ReleaseResult × Disk
  unfolding read any
  release store token pids force none = (not_held, none)
  release store token pids force (some f) =
      let owned : Bool = elim (parse f.raw) [
        | none ↦ false
        | some r ↦ by_token token r || by_pid store pids r.owner
      ] in
      if owned
      then (released (parse f.raw), none)
      else if force
      then (forced (parse f.raw), none)
      else (refused (parse f.raw), some f)

  abbrev pub taken_over :
      Bool → StaleReason → Option LockRecord → Option (StaleReason × Option LockRecord)
  taken_over removed reason previous = if removed then some (reason, previous) else none

  unfoldable pub create_lock :
      Request → Others → ℕ → Option (StaleReason × Option LockRecord) → Disk → AcquireResult × Disk
  create_lock q others now takeover d =
      let made = create q.inode now (others.before_creation d) in
      let r : LockRecord = new_record q.resource q.owner q.token q.ttl_seconds q.purpose now in
      if made.0
      then (acquired r takeover, write q.inode (print r) now (others.before_write made.1))
      else (held (read made.1).content, made.1)

  -- tryAcquire
  unfoldable pub try_acquire :
      LockStore → (ℕ → Bool) → Request → Others → ℕ → ℕ → Disk → AcquireResult × Disk
  try_acquire store alive q others seen_at now d =
      let current = read d in
      if not current.exists
      then create_lock q others now none d
      else elim (staleness store alive current seen_at) [
        | none ↦ (held current.content, d)
        | some reason ↦
            let removal = remove_same current (others.before_removal d) in
            create_lock q others now (taken_over removal.0 reason current.content) removal.1
      ]
