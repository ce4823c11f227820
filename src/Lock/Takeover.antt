-- ===== src/Lock/Takeover.antt =====
-- src/lock/store.ts: `tryAcquire` among other processes.
use agent_pipeline_v.Base.{
  ℕ, ◌≡◌, ◌≤◌, refl, sym, subst, Bool, true, false, Option, none, some, arith, Text, eq_text_iff,
  is_some, Bool-cases, Option-cases, inl, inr,
}
use agent_pipeline_v.Lock.{
  LockRecord, LockSnapshot, LockFile, LockStore, StaleReason, Disk, Request, Others, acquired, read,
  staleness, remove_same, create, create_lock, try_acquire, taken_over,
}

module _ (print : LockRecord → Text) (parse : Text → Option LockRecord) (store : LockStore) where
  -- A lease that is over stays over, and so does the process of its owner.
  still_stale :
      (before after : ℕ → Bool) (seen_at now : ℕ) (s : LockSnapshot) (f : LockFile) (r : LockRecord)
      → ((p : ℕ) → before p ≡ false → after p ≡ false)
      → seen_at ≤ now
      → s.content ≡ some r
      → parse f.raw ≡ some r
      → is_some (staleness print parse store before s seen_at) ≡ true
      → is_some (staleness print parse store after (read print parse (some f)) now) ≡ true
  unfolding staleness read
  still_stale before after seen_at now s f r gone later old same h =
      elim (Option-cases r.owner.pid) [
        | inl unknown ↦ ground arith
        | inr (p, known) ↦ ground (arith, gone p)
      ]

  content-parse :
      (d : Disk) (r : LockRecord)
      → (read print parse d).content ≡ some r
      → parse (read print parse d).raw ≡ some r
  unfolding read
  content-parse none r h = absurd (ground arith)
  content-parse (some f) r h = h

  removed_same :
      (seen : Disk) (d : Disk)
      → (remove_same print parse (read print parse seen) d).0 ≡ true
      → (f : LockFile) × (d ≡ some f) × (f.raw ≡ (read print parse seen).raw)
  unfolding remove_same read
  removed_same seen none h = absurd (ground arith)
  removed_same seen (some f) h =
      (f, refl, (eq_text_iff f.raw (read print parse seen).raw).0 (ground arith))

  module _ (q : Request) (others : Others) (now : ℕ) where
    create_lock-takeover :
        (t t' : Option (StaleReason × Option LockRecord)) (d : Disk) (r : LockRecord)
        → (create_lock print parse q others now t d).0 ≡ acquired r t'
        → t ≡ t'
    unfolding create_lock
    create_lock-takeover t t' d r h =
        elim (Bool-cases (create print parse q.inode now (others.before_creation d)).0) [
          | inl made ↦ ground arith
          | inr failed ↦ absurd (ground arith)
        ]

    -- What a successful call says that it took over is what it read, and it removed it.
    try_acquire-takeover :
        (alive : ℕ → Bool) (seen_at : ℕ) (d : Disk) (r : LockRecord) (reason : StaleReason)
        (previous : Option LockRecord)
        → (try_acquire print parse store alive q others seen_at now d).0
          ≡ acquired r (some (reason, previous))
        → (staleness print parse store alive (read print parse d) seen_at ≡ some reason)
          × ((read print parse d).content ≡ previous)
          × ((remove_same print parse (read print parse d) (others.before_removal d)).0 ≡ true)
    unfolding try_acquire read
    try_acquire-takeover alive seen_at none r reason previous h =
        absurd (ground (arith, create_lock-takeover none (some (reason, previous)) none r h))
    try_acquire-takeover alive seen_at (some f) r reason previous h =
        let seen = read print parse (some f) in
        elim (Option-cases (staleness print parse store alive seen seen_at)) [
          | inl fresh ↦ absurd (ground arith)
          | inr (found, why) ↦
              let removal = remove_same print parse seen (others.before_removal (some f)) in
              let same : taken_over print parse removal.0 found seen.content
                  ≡ some (reason, previous) =
                create_lock-takeover (taken_over print parse removal.0 found seen.content)
                  (some (reason, previous)) removal.1 r (ground arith) in
              elim (Bool-cases removal.0) [
                | inr kept ↦ absurd (ground arith)
                | inl gone ↦ (ground arith, ground arith, gone)
              ]
        ]

  -- Whatever the other processes do between the calls of `tryAcquire`, a readable lock that it says it
  -- took over was there, stale, when it removed it, at any time `removed_at` after it was read, if the
  -- processes that are gone by then stay gone.
  pub try_acquire-stale :
      (q : Request) (others : Others) (before after : ℕ → Bool) (seen_at removed_at now : ℕ)
      (d : Disk) (r previous : LockRecord) (reason : StaleReason)
      → ((p : ℕ) → before p ≡ false → after p ≡ false)
      → seen_at ≤ removed_at
      → (try_acquire print parse store before q others seen_at now d).0
        ≡ acquired r (some (reason, some previous))
      → ((read print parse (others.before_removal d)).content ≡ some previous)
        × (is_some (
              staleness print parse store after
                (read print parse (others.before_removal d))
                removed_at)
            ≡ true)
  unfolding read
  try_acquire-stale q others before after seen_at removed_at now d r previous reason gone later h =
      let (stale, content, removed) =
        try_acquire-takeover q others now before seen_at d r reason (some previous) h in
      let (f, there, same) = removed_same d (others.before_removal d) removed in
      let readable : parse f.raw ≡ some previous =
        subst (λ x. parse x ≡ some previous) (sym same) (content-parse d previous content) in
      subst
        (λ x.
          ((read print parse x).content ≡ some previous)
          × (is_some (staleness print parse store after (read print parse x) removed_at) ≡ true))
        (sym there)
        (
          readable,
          still_stale before after seen_at removed_at (read print parse d) f previous gone later
              content readable (ground arith),
        )
