-- ===== src/Lock/Owner.antt =====
-- src/lock/store.ts: who keeps, extends and releases a lock.
use agent_pipeline_v.Base.{
  ℕ, ◌+◌, ◌*◌, ◌≡◌, ◌⊎◌, ◌↔◌, ◌&&◌, ◌==◌, not, refl, subst, ap, sym, Bool, true, false, Option,
  none, some, List, [], arith, Text, eq_text, eq_text_iff, leb, any, is_empty, Bool-cases,
  Option-cases, inl, inr, if◌then◌else◌,
}
use agent_pipeline_v.Lock.{
  LockRecord, LockFile, LockStore, StaleReason, Disk, Request, Others, AcquireResult, acquired,
  expired, read, is_dead, staleness, remove_same, create, write, new_record, create_lock,
  try_acquire, taken_over, LockOwner, release, by_token, by_pid, refused,
}

module _ (print : LockRecord → Text) (parse : Text → Option LockRecord) (store : LockStore) where
  -- The caller has the token of the lock, or its owner is one of the caller's processes, on this host.
  abbrev pub Owns : Option Text → List ℕ → LockRecord → Type 0
  Owns token pids r =
      ((token ≡ some r.token) × (is_empty r.token ≡ false))
      ⊎ ((p : ℕ) × (r.owner.pid ≡ some p)
          × (any (λ q. q == p) pids ≡ true)
          × (r.owner.host ≡ store.host))

  some_injective : {s t : Text} → some s ≡ some t → s ≡ t
  some_injective h = ground arith

  by_token_iff :
      (token : Option Text) (r : LockRecord)
      → (by_token print parse token r ≡ true)
        ↔ ((token ≡ some r.token) × (is_empty r.token ≡ false))
  by_token_iff none r = (λ h. absurd (ground arith), λ h. absurd (ground arith))
  by_token_iff (some t) r = (
    λ h.
        let same : r.token ≡ t = (eq_text_iff r.token t).0 (ground arith) in
        (ap some (sym same), subst (λ x. is_empty x ≡ false) (sym same) (ground arith)),
    λ (given, full).
        let same : eq_text r.token t ≡ true =
          (eq_text_iff r.token t).1 (some_injective (sym given)) in
        rw same (
          subst (λ x. not (is_empty x) && true ≡ true) (some_injective (sym given)) (ground arith)),
  )

  by_pid_iff :
      (pids : List ℕ) (o : LockOwner)
      → (by_pid print parse store pids o ≡ true)
        ↔ ((p : ℕ) × (o.pid ≡ some p) × (any (λ q. q == p) pids ≡ true) × (o.host ≡ store.host))
  by_pid_iff pids o = elim (Option-cases o.pid) [
    | inl absent ↦ (λ h. absurd (ground arith), λ (p, there, own, here). absurd (ground arith))
    | inr (p, there) ↦ (
      λ h. (p, there, ground arith, (eq_text_iff o.host store.host).0 (ground arith)),
      λ (q, same, own, here).
          let host = (eq_text_iff o.host store.host).1 here in rw same (rw own (rw host refl)),
    )
  ]

  -- `release` without force removes a readable lock exactly when the caller owns it: it has the token of
  -- the lock, not empty, or the process of the owner is one of the caller's and the owner is on this
  -- host. Otherwise it is refused and leaves the lock as it is.
  pub release_iff :
      (token : Option Text) (pids : List ℕ) (f : LockFile) (r : LockRecord)
      → parse f.raw ≡ some r
      → let after = release print parse store token pids false (some f) in
        ((after.1 ≡ none) ↔ Owns token pids r)
        × ((after.1 ≡ none) ⊎ (after ≡ (refused (some r), some f)))
  unfolding release
  release_iff token pids f r there =
      let own = by_token print parse token r in
      let near = by_pid print parse store pids r.owner in
      rw there (elim (Bool-cases own) [
        | inl h ↦ rw h ((λ k. inl ((by_token_iff token r).0 h), λ k. refl), inl refl)
        | inr n ↦ elim (Bool-cases near) [
          | inl h ↦ rw (n, h) ((λ k. inr ((by_pid_iff pids r.owner).0 h), λ k. refl), inl refl)
          | inr m ↦
              rw (n, m)
                (
                  (
                    λ k. absurd (ground arith),
                    λ k. elim k [
                      | inl t ↦ absurd (ground (arith, (by_token_iff token r).1 t))
                      | inr q ↦ absurd (ground (arith, (by_pid_iff pids r.owner).1 q))
                    ],
                  ),
                  inr refl,
                )
        ]
      ])

  module _ (parse-print : (r : LockRecord) → parse (print r) ≡ some r) where
    -- The lock is read back, and at the instant `seen_at` it is stale only if `end` has come.
    abbrev Fresh : (ℕ → Bool) → ℕ → ℕ → LockRecord → Disk → Type 0
    Fresh alive end seen_at r d =
        ((read print parse d).content ≡ some r)
        × (staleness print parse store alive (read print parse d) seen_at
            ≡ (if leb end seen_at then some expired else none))

    written-Fresh :
        (alive : ℕ → Bool) (seen_at mtime inode : ℕ) (r : LockRecord)
        → is_dead print parse store alive r.owner ≡ false
        → Fresh alive r.expires_at seen_at r
            (some (record { raw = print r; mtime = mtime; inode = inode }))
    unfolding read staleness
    written-Fresh alive seen_at mtime inode r runs = (parse-print r, rw (parse-print r, runs) refl)

    create_lock-Fresh :
        (alive : ℕ → Bool) (q : Request) (others : Others) (now seen_at : ℕ) (d d' : Disk)
        (r : LockRecord) (t t' : Option (StaleReason × Option LockRecord))
        → create_lock print parse q others now t d ≡ (acquired r t', d')
        → ((x : Disk) → others.before_write x ≡ x)
        → is_dead print parse store alive q.owner ≡ false
        → (r.token ≡ q.token)
          × (r.owner ≡ q.owner)
          × Fresh alive (now + 1000 * q.ttl_seconds) seen_at r d'
    unfolding create_lock create write new_record
    create_lock-Fresh alive q others now seen_at d d' r t t' h quiet runs =
        let mine = new_record print parse q.resource q.owner q.token q.ttl_seconds q.purpose now in
        elim (Option-cases (others.before_creation d)) [
          | inr (f, there) ↦ absurd (ground (arith, ap (λ (x : AcquireResult × Disk). x.0) h))
          | inl free ↦
              let same : mine ≡ r = ground (arith, ap (λ (x : AcquireResult × Disk). x.0) h) in
              let disk : some (record { raw = print mine; mtime = now; inode = q.inode }) ≡ d' =
                ground (
                  arith,
                  ap (λ (x : AcquireResult × Disk). x.1) h,
                  quiet (some (record { raw = []; mtime = now; inode = q.inode })),
                ) in
              subst
                (λ (x : LockRecord).
                  (x.token ≡ q.token)
                  × (x.owner ≡ q.owner)
                  × Fresh alive (now + 1000 * q.ttl_seconds) seen_at x d')
                same
                (
                  refl,
                  refl,
                  subst (Fresh alive (now + 1000 * q.ttl_seconds) seen_at mine) disk
                      (written-Fresh alive seen_at now q.inode mine runs),
                )
        ]

    -- If a record is read back as it was written, a call of `tryAcquire` that succeeds, if the others
    -- leave its file in place until it is written, leaves a lock with the owner and the token of the
    -- call. While the owner runs it is not stale at any instant before the time asked for, in seconds,
    -- has passed from the creation, and from then on it is expired.
    pub try_acquire-Fresh :
        (alive alive' : ℕ → Bool) (q : Request) (others : Others) (start now seen_at : ℕ)
        (d d' : Disk) (r : LockRecord) (t : Option (StaleReason × Option LockRecord))
        → try_acquire print parse store alive q others start now d ≡ (acquired r t, d')
        → ((x : Disk) → others.before_write x ≡ x)
        → is_dead print parse store alive' q.owner ≡ false
        → (r.token ≡ q.token)
          × (r.owner ≡ q.owner)
          × Fresh alive' (now + 1000 * q.ttl_seconds) seen_at r d'
    unfolding try_acquire read
    try_acquire-Fresh alive alive' q others start now seen_at none d' r t h quiet runs =
        create_lock-Fresh alive' q others now seen_at none d' r none t h quiet runs
    try_acquire-Fresh alive alive' q others start now seen_at (some f) d' r t h quiet runs =
        let seen = read print parse (some f) in
        elim (Option-cases (staleness print parse store alive seen start)) [
          | inl valid ↦
              let refused = rw valid at h in
              absurd (ground (arith, ap (λ (x : AcquireResult × Disk). x.0) refused))
          | inr (reason, stale) ↦
              let removal = remove_same print parse seen (others.before_removal (some f)) in
              create_lock-Fresh alive' q others now seen_at removal.1 d' r
                (taken_over print parse removal.0 reason seen.content) t (rw stale at h) quiet runs
        ]
