-- ===== src/Lock/Laws.antt =====
-- What the answer of `acquire` of lock.rs is backed by.
use forcola.Prelude.{
  ℕ, zero, suc, ◌≡◌, ◌≢◌, refl, ap, ◌∙◌, Bool, true, false, ◌||◌, none, some, ◌==◌, Bool-cases,
  Option-cases, inl, inr, ◌⊎◌, arith,
}
use forcola.Errors.{os, Result, ok, err}
use forcola.Lock.{
  attempts, eintr, eacces, eagain, Attempt, acquired, held, Probe, failed, unlocked, locked, Fcntl,
  probed, tried, acquire_from, acquire,
}

-- The errnos of a conflicting lock.
abbrev pub is_conflict : ℕ → Bool
is_conflict errno = (errno == eacces) || (errno == eagain)

module _ (fcntl : Fcntl) where
  -- Attempt `i` came to nothing: it was interrupted, or met a lock that was gone when probed.
  pub data Passed (i : ℕ) : Type 0 where
    interrupted : fcntl.set i ≡ some eintr → Passed i
    released :
        (errno : ℕ)
        → fcntl.set i ≡ some errno
        → is_conflict errno ≡ true
        → fcntl.get i ≡ unlocked
        → Passed i

  -- An answer of the attempts from `i` on, with the answers of `fcntl` that it rests on.
  pub data Backed : ℕ → ℕ → Result Attempt → Type 0 where
    used_up : {i : ℕ} → Backed zero i (ok (held 0))
    granted : {left i : ℕ} → fcntl.set i ≡ none → Backed (suc left) i (ok acquired)
    conflict :
        {left i pid : ℕ} (errno : ℕ)
        → fcntl.set i ≡ some errno
        → is_conflict errno ≡ true
        → fcntl.get i ≡ locked pid
        → Backed (suc left) i (ok (held pid))
    unknown :
        {left i : ℕ} (errno : ℕ)
        → fcntl.set i ≡ some errno
        → is_conflict errno ≡ true
        → fcntl.get i ≡ failed
        → Backed (suc left) i (ok (held 0))
    broken :
        {left i : ℕ} (errno : ℕ)
        → fcntl.set i ≡ some errno
        → is_conflict errno ≡ false
        → errno ≢ eintr
        → Backed (suc left) i (err (os errno))
    next :
        {left i : ℕ} {r : Result Attempt} → Passed i → Backed left (suc i) r → Backed (suc left) i r

  Probe-cases : (p : Probe) → (p ≡ failed) ⊎ ((p ≡ unlocked) ⊎ ((pid : ℕ) × (p ≡ locked pid)))
  Probe-cases failed = inl refl
  Probe-cases unlocked = inr (inl refl)
  Probe-cases (locked pid) = inr (inr (pid, refl))

  acquire_from-Backed : (left i : ℕ) → Backed left i (acquire_from fcntl left i)
  unfolding acquire_from tried probed
  acquire_from-Backed zero i = used_up
  acquire_from-Backed (suc left) i =
      let rest = acquire_from-Backed left (suc i) in
      elim (Option-cases (fcntl.set i)) [
        | inl e ↦ rw (e, acquire_from, tried) (granted e)
        | inr (errno, e) ↦ elim (Bool-cases (errno == eintr)) [
          | inl again ↦
              let eq : errno ≡ eintr = ground arith in
              rw (e, acquire_from, tried, again) (next (interrupted (e ∙ ap some eq)) rest)
          | inr other ↦ elim (Bool-cases (is_conflict errno)) [
            | inr hard ↦
                rw (e, acquire_from, tried, other, hard) (broken errno e hard (ground arith))
            | inl soft ↦ elim (Probe-cases (fcntl.get i)) [
              | inl p ↦ rw (e, acquire_from, tried, other, soft, p, probed) (unknown errno e soft p)
              | inr (inl p) ↦
                  rw (e, acquire_from, tried, other, soft, p, probed)
                    (next (released errno e soft p) rest)
              | inr (inr (pid, p)) ↦
                  rw (e, acquire_from, tried, other, soft, p, probed) (conflict errno e soft p)
            ]
          ]
        ]
      ]

  -- `acquire` answers that the lock is held by this process only when `fcntl` granted it, names a
  -- holder only when a probe behind a conflict named it, and fails only with an errno of `fcntl` that
  -- is neither a conflict nor an interruption; each attempt before was interrupted or met a lock that
  -- was gone when probed. After three attempts it answers pid 0.
  pub acquire-Backed : Backed attempts 0 (acquire fcntl)
  unfolding acquire
  acquire-Backed = acquire_from-Backed attempts 0
