-- ===== src/Groups/Signalling.antt =====
-- `signal` of groups.rs signals only what a read right before the signal has verified.
use forcola.Prelude.{
  ◌≡◌, refl, List, [], ◌∷◌, Bool, true, false, ◌&&◌, none, leb, if◌then◌else◌, i32_max, Bool-cases,
  inl, inr, arith,
}
use forcola.Errors.{IoError, Result, ok, err}
use forcola.Identity.{ProcessIdentity, ProcessRecord, same_identity-eq, same_process-eq}
use forcola.Os.{Signal, signal_group, read_process, signal_process, History, Env, ◌>>◌, when}
use forcola.Os.Laws.{here, add, Grows-trans}
use forcola.Groups.{
  Recorded, group, invalid, State, gone, led, leaderless, unknown, present, disappeared, found,
  in_group, members, verified_member, verified_leader, signal_members, signal_leaderless,
  signal_fallback, signal_group_or, group_answer, signal, signal_one, signal_all,
}
use forcola.Groups.Seen.{
  Observed, Clear, Clear-Grows, AllObserved, AllObserved-Grows, Backed, BackedOf, AllBacked,
  AllBacked-Grows,
}
use forcola.Groups.Safety.{
  Among, first, later, to_group, to_member, FineAt, FineAt->>=, ret-Fine, Justified-read, read_then,
}
use forcola.Groups.Observing.{in_group-fields, members-Backed}

module _ (env : Env) (rs : List Recorded) where
  unseen :
      (e m : ProcessIdentity) (b : Bool) (x : IoError)
      → verified_member env e.pgid m (if b then ok none else err x) ≡ false
  unseen e m true x = refl
  unseen e m false x = refl

  unseen_leader :
      (e : ProcessIdentity) (b : Bool) (x : IoError)
      → verified_leader env e (if b then ok none else err x) ≡ false
  unseen_leader e true x = refl
  unseen_leader e false x = refl

  -- What a read that verifies a member, or the leader, has shown.
  shown :
      (e m : ProcessIdentity) (x : Result ProcessRecord)
      → verified_member env e.pgid m (found x) ≡ true
      → (r : ProcessRecord) × (x ≡ ok r)
        × ((r.identity.pid ≡ m.pid) × (r.identity.start_time ≡ m.start_time))
        × (in_group e.pgid r ≡ true)
  shown e m (ok r) v = (r, refl, same_process-eq r.identity m (ground arith), ground arith)
  shown e m (err x) v = ground (arith, unseen e m (disappeared x) x)

  shown_leader :
      (e : ProcessIdentity) (x : Result ProcessRecord)
      → verified_leader env e (found x) ≡ true
      → (r : ProcessRecord) × (x ≡ ok r) × (r.identity ≡ e) × (r.exited ≡ false)
  shown_leader e (ok r) v = (r, refl, same_identity-eq r.identity e (ground arith), ground arith)
  shown_leader e (err x) v = ground (arith, unseen_leader e (disappeared x) x)

  module _ (e : ProcessIdentity) (known : Among e rs) where
    signal_member-FineAt :
        (s : Signal) (m : ProcessIdentity) (h : History)
        → Observed env e.pgid m h
        → Clear env e h
        → FineAt env rs
            (when
              (verified_member env e.pgid m (found (env.process h m.pid)) && leb m.pid i32_max)
              (signal_process m.pid s))
            (read_process m.pid ∷ h)
    signal_member-FineAt s m h o c =
        elim (Bool-cases
          (verified_member env e.pgid m (found (env.process h m.pid)) && leb m.pid i32_max)) [
            | inr hidden ↦ rw hidden (ret-Fine env rs tt (read_process m.pid ∷ h))
            | inl seen ↦
                let (r, x, same, g) = shown e m (env.process h m.pid) (ground arith) in
                let (p, q) = in_group-fields e.pgid r g in
                rw seen (record {
                  answer = tt;
                  after = signal_process m.pid s ∷ read_process m.pid ∷ h;
                  returns = refl;
                  grows = add (signal_process m.pid s) here;
                  justified = λ j. to_member e m r s known c o x same p q (Justified-read env rs j);
                })
          ]

    signal_members-FineAt :
        (s : Signal) (live : List ProcessIdentity) (h : History)
        → AllObserved env e.pgid h live
        → Clear env e h
        → FineAt env rs (signal_members env e.pgid s live) h
    unfolding signal_members
    signal_members-FineAt s [] h o c = ret-Fine env rs tt h
    signal_members-FineAt s (m ∷ live) h (o, os) c =
        let x = signal_member-FineAt s m h o c in
        let g = Grows-trans (add (read_process m.pid) here) x.grows in
        read_then env rs m.pid
          (λ r.
            when (verified_member env e.pgid m r && leb m.pid i32_max) (signal_process m.pid s)
            >> signal_members env e.pgid s live)
          h
          (FineAt->>= env rs _ (λ _. signal_members env e.pgid s live) (read_process m.pid ∷ h) x
            (signal_members-FineAt s live x.after (AllObserved-Grows env e.pgid live g os)
              (Clear-Grows env g c)))

    signal_leaderless-FineAt :
        (s : Signal) (x : State) (h : History)
        → Backed env e x h
        → FineAt env rs (signal_leaderless env e.pgid s x) h
    unfolding signal_leaderless
    signal_leaderless-FineAt s (leaderless live) h (o, c) = signal_members-FineAt s live h o c
    signal_leaderless-FineAt s gone h b = ret-Fine env rs tt h
    signal_leaderless-FineAt s led h b = ret-Fine env rs tt h
    signal_leaderless-FineAt s (unknown r) h b = ret-Fine env rs tt h

    signal_fallback-FineAt :
        (s : Signal) (h : History) → Clear env e h → FineAt env rs (signal_fallback env e s) h
    unfolding signal_fallback
    signal_fallback-FineAt s h c =
        let (x, b) = members-Backed env rs e h c in
        FineAt->>= env rs (members env e.pgid) (signal_leaderless env e.pgid s) h x
          (signal_leaderless-FineAt s x.answer x.after b)

    group_answer-FineAt :
        (s : Signal) (b : Bool) (h : History)
        → Clear env e h
        → FineAt env rs (group_answer env e s b) h
    unfolding group_answer
    group_answer-FineAt s true h c = ret-Fine env rs tt h
    group_answer-FineAt s false h c = signal_fallback-FineAt s h c

    -- The signal to a group whose leader the read before has verified.
    signal_leader :
        (s : Signal) (r : ProcessRecord) (h : History)
        → Clear env e h
        → env.process h e.pid ≡ ok r
        → r.identity ≡ e
        → r.exited ≡ false
        → FineAt env rs (signal_group_or env e s true) (read_process e.pid ∷ h)
    unfolding signal_group_or
    signal_leader s r h c x p q =
        let after = signal_group e.pgid s ∷ read_process e.pid ∷ h in
        let y =
          group_answer-FineAt s (env.killed (read_process e.pid ∷ h)) after
            (Clear-Grows env (add (signal_group e.pgid s) (add (read_process e.pid) here)) c) in
        record {
          answer = y.answer;
          after = y.after;
          returns = y.returns;
          grows = Grows-trans (add (signal_group e.pgid s) here) y.grows;
          justified = λ j. y.justified (to_group e r s known x p q (Justified-read env rs j));
        }

    unverified :
        (s : Signal) (h : History)
        → Clear env e h
        → FineAt env rs (signal_group_or env e s false) (read_process e.pid ∷ h)
    unfolding signal_group_or
    unverified s h c =
        signal_fallback-FineAt s (read_process e.pid ∷ h)
          (Clear-Grows env (add (read_process e.pid) here) c)

    signal_group_or-FineAt :
        (s : Signal) (h : History)
        → Clear env e h
        → FineAt env rs
            (signal_group_or env e s (verified_leader env e (found (env.process h e.pid))))
            (read_process e.pid ∷ h)
    signal_group_or-FineAt s h c =
        elim (Bool-cases (verified_leader env e (found (env.process h e.pid)))) [
          | inr hidden ↦ rw hidden (unverified s h c)
          | inl seen ↦
              let (r, x, p, q) = shown_leader e (env.process h e.pid) seen in
              rw seen (signal_leader s r h c x p q)
        ]

    signal-FineAt :
        (x : State) (s : Signal) (h : History)
        → Backed env e x h
        → FineAt env rs (signal env e x s) h
    unfolding signal
    signal-FineAt led s h c =
        read_then env rs e.pid (λ r. signal_group_or env e s (verified_leader env e r)) h
          (signal_group_or-FineAt s h c)
    signal-FineAt (leaderless live) s h b = signal_leaderless-FineAt s (leaderless live) h b
    signal-FineAt gone s h b = ret-Fine env rs tt h
    signal-FineAt (unknown r) s h b = ret-Fine env rs tt h

  signal_one-FineAt :
      (q : Recorded) (x : State) (s : Signal) (h : History)
      → ((e : ProcessIdentity) → q ≡ group e → Among e rs)
      → BackedOf env q x h
      → FineAt env rs (signal_one env q x s) h
  unfolding signal_one
  signal_one-FineAt (group e) x s h known b = elim (Bool-cases (present x)) [
    | inl there ↦ rw there (signal-FineAt e (known e refl) x s h b)
    | inr absent ↦ rw absent (ret-Fine env rs tt h)
  ]
  signal_one-FineAt (invalid r) x s h known b = ret-Fine env rs tt h

  pub signal_all-FineAt :
      (qs : List Recorded) (xs : List State) (s : Signal) (h : History)
      → ((e : ProcessIdentity) → Among e qs → Among e rs)
      → AllBacked env qs h xs
      → FineAt env rs (signal_all env qs xs s) h
  unfolding signal_all
  signal_all-FineAt [] xs s h known b = ret-Fine env rs tt h
  signal_all-FineAt (q ∷ qs) [] s h known b = ret-Fine env rs tt h
  signal_all-FineAt (q ∷ qs) (x ∷ xs) s h known (b, bs) =
      let y = signal_one-FineAt q x s h (λ e p. known e (rw p first)) b in
      FineAt->>= env rs (signal_one env q x s) (λ _. signal_all env qs xs s) h y
        (signal_all-FineAt qs xs s y.after (λ e a. known e (later a))
          (AllBacked-Grows env qs xs y.grows bs))
