-- ===== src/Groups/Observing.antt =====
-- `members` of groups.rs answers live processes that its reads have found in the group.
use forcola.Prelude.{ℕ, ◌≡◌, refl, ◌∙◌, List, [], ◌∷◌, true, false, Bool-cases, inl, inr, arith}
use forcola.Errors.{Result, ok, err}
use forcola.Identity.{ProcessIdentity, ProcessRecord}
use forcola.Os.{read_process, History, Env, M, ◌>>=◌, ret}
use forcola.Os.Laws.{here, add, Grows-trans, >>=-returned}
use forcola.Groups.{
  Recorded, State, gone, led, leaderless, unknown, failed, disappeared, found, in_group, keep_live,
  from_members, read, group_members, live_found, live_members, members_of, members,
}
use forcola.Groups.Seen.{Observed, now, Clear, Observed-Grows, Clear-Grows, AllObserved, Backed}
use forcola.Groups.Safety.{other, FineAt, group_members-Fine}

pub in_group-fields :
    (pgid : ℕ) (r : ProcessRecord)
    → in_group pgid r ≡ true
    → (r.identity.pgid ≡ pgid) × (r.exited ≡ false)
in_group-fields pgid r e = ground arith

module _ (env : Env) (rs : List Recorded) where
  -- A call that returns, with an answer of which the reads made so far tell.
  abbrev pub Yields : {A : Type 0} → (A → History → Type 0) → M A → History → Type 0
  Yields Q m h = (x : FineAt env rs m h) × Q x.answer x.after

  pub ret-Yields :
      {A : Type 0} (Q : A → History → Type 0) (a : A) (h : History) → Q a h → Yields Q (ret a) h
  ret-Yields Q a h q =
      (record { answer = a; after = h; returns = refl; grows = here; justified = λ j. j }, q)

  pub bind-Yields :
      {A B : Type 0} (Q : B → History → Type 0) (m : M A) (f : A → M B) (h : History)
      → (x : FineAt env rs m h) → Yields Q (f x.answer) x.after
      → Yields Q (m >>= f) h
  bind-Yields Q m f h x (y, q) = (
    record {
      answer = y.answer;
      after = y.after;
      returns = >>=-returned m f x.answer h x.after x.returns ∙ y.returns;
      grows = Grows-trans x.grows y.grows;
      justified = λ j. y.justified (x.justified j);
    },
    q,
  )

  pub read-Yields :
      {B : Type 0} (Q : B → History → Type 0) (pid : ℕ) (f : Result _ → M B) (h : History)
      → Yields Q (f (found (env.process h pid))) (read_process pid ∷ h)
      → Yields Q (read env pid >>= f) h
  unfolding read
  read-Yields Q pid f h (x, q) = (
    record {
      answer = x.answer;
      after = x.after;
      returns = x.returns;
      grows = Grows-trans (add (read_process pid) here) x.grows;
      justified = λ j. x.justified (other (read_process pid) refl j);
    },
    q,
  )

  abbrev Live : ℕ → Result (List ProcessIdentity) → History → Type 0
  Live pgid (ok ids) h = AllObserved env pgid h ids
  Live pgid (err x) h = Unit {0}

  abbrev Members : ℕ → State → History → Type 0
  Members pgid (leaderless live) h = AllObserved env pgid h live
  Members pgid _ h = Unit {0}

  keep_live-Live :
      (pgid : ℕ) (m : ProcessIdentity) (x : Result (List ProcessIdentity)) (h : History)
      → Observed env pgid m h
      → Live pgid x h
      → Live pgid (keep_live m x) h
  keep_live-Live pgid m (ok ids) h o l = (o, l)
  keep_live-Live pgid m (err x) h o l = tt

  live_found-Yields :
      (pgid pid : ℕ) (rest : M (Result (List ProcessIdentity))) (h : History)
      (x : Result ProcessRecord)
      → env.process h pid ≡ x
      → Yields (Live pgid) rest (read_process pid ∷ h)
      → Yields (Live pgid) (live_found env pgid rest (found x)) (read_process pid ∷ h)
  unfolding live_found
  live_found-Yields pgid pid rest h (ok r) e y = elim (Bool-cases (in_group pgid r)) [
    | inr outside ↦ rw outside y
    | inl inside ↦
        let (p, q) = in_group-fields pgid r inside in
        rw inside (
          bind-Yields (Live pgid) rest (λ ids. ret (keep_live r.identity ids))
            (read_process pid ∷ h) y.0
            (ret-Yields (Live pgid) (keep_live r.identity y.0.answer) y.0.after (
              keep_live-Live pgid r.identity y.0.answer y.0.after
                (Observed-Grows env y.0.grows (now e refl p q)) y.1)))
  ]
  live_found-Yields pgid pid rest h (err x) e y = elim (Bool-cases (disappeared x)) [
    | inl none_left ↦ rw none_left y
    | inr broken ↦ rw broken (ret-Yields (Live pgid) (err x) (read_process pid ∷ h) tt)
  ]

  live_members-Yields :
      (pgid : ℕ) (pids : List ℕ) (h : History) → Yields (Live pgid) (live_members env pgid pids) h
  unfolding live_members
  live_members-Yields pgid [] h = ret-Yields (Live pgid) (ok []) h tt
  live_members-Yields pgid (pid ∷ pids) h =
      read-Yields (Live pgid) pid (live_found env pgid (live_members env pgid pids)) h (
        live_found-Yields pgid pid (live_members env pgid pids) h (env.process h pid) refl
          (live_members-Yields pgid pids (read_process pid ∷ h)))

  from_members-Members :
      (pgid : ℕ) (x : Result (List ProcessIdentity)) (h : History)
      → Live pgid x h
      → Members pgid (from_members x) h
  from_members-Members pgid (ok []) h l = tt
  from_members-Members pgid (ok (id ∷ ids)) h l = l
  from_members-Members pgid (err x) h l = tt

  members_of-Yields :
      (pgid : ℕ) (x : Result (List ℕ)) (h : History)
      → Yields (Members pgid) (members_of env pgid x) h
  unfolding members_of
  members_of-Yields pgid (ok pids) h =
      let y = live_members-Yields pgid pids h in
      bind-Yields (Members pgid) (live_members env pgid pids) (λ ids. ret (from_members ids)) h y.0
        (ret-Yields (Members pgid) (from_members y.0.answer) y.0.after
          (from_members-Members pgid y.0.answer y.0.after y.1))
  members_of-Yields pgid (err x) h = ret-Yields (Members pgid) (unknown (failed x)) h tt

  pub members-Yields : (pgid : ℕ) (h : History) → Yields (Members pgid) (members env pgid) h
  unfolding members
  members-Yields pgid h =
      let x = group_members-Fine env rs pgid h in
      bind-Yields (Members pgid) (group_members env pgid) (members_of env pgid) h x
        (members_of-Yields pgid x.answer x.after)

  Members-Backed :
      (e : ProcessIdentity) (s : State) (h : History)
      → Members e.pgid s h
      → Clear env e h
      → Backed env e s h
  Members-Backed e gone h o c = tt
  Members-Backed e led h o c = c
  Members-Backed e (leaderless live) h o c = (o, c)
  Members-Backed e (unknown x) h o c = tt

  -- The members of a group whose leader's pid is clear.
  pub members-Backed :
      (e : ProcessIdentity) (h : History)
      → Clear env e h
      → Yields (Backed env e) (members env e.pgid) h
  members-Backed e h c =
      let (x, o) = members-Yields e.pgid h in
      (x, Members-Backed e x.answer x.after o (Clear-Grows env x.grows c))
