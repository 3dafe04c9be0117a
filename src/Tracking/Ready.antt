-- ===== src/Tracking/Ready.antt =====
-- The phases of the targets of tracking.rs while `advance` goes through them.
use forcola.Prelude.{
  ℕ, ◌+◌, ◌≡◌, refl, List, [], ◌∷◌, Bool, true, false, Option, none, some, Option-cases, inl, inr,
  lookup, AllValues, insert-AllValues, lookup-AllValues,
}
use forcola.Identity.{ProcessIdentity, same_identity}
use forcola.Os.{Signal}
use forcola.Tracking.{
  Sequence, Cleanup, Due, after_signal, expired, grace_of, Phase, interrupting, terminating,
  killing,
}
use forcola.Tracking.Phases.{IsPhaseOf, with_grace, terminates, kills, IsOpen, next_signal-Step}
use forcola.Tracking.World.{Source, Tracker, T, ◌>>=◌, ret, failing}
use forcola.Tracking.Advance.{
  send_checked, now_from, due, after, settled, fail_if, set_group, set_member, set_members,
  of_group, group_sent, is_due, advance_group, advance_groups, member_sent, member_due,
  advance_member, advance_members, phases,
}
use forcola.Tracking.Panics.{
  Runs, Any, Runs->>=, Runs->>, ret-Runs, gets-Runs, modify-Runs, ask-Runs, if-Runs, unwrap-Runs,
  fail-Runs, send_checked-Runs,
}

-- A tracker that is cleaning up, each of its targets in a phase that the cleanup can be in.
pub record IsReady (c : Cleanup) (t : Tracker) : Type 0 where
  pub begun : t.cleanup ≡ some c
  pub groups_open : AllValues (IsOpen c) t.groups
  pub members_open : AllValues (λ s. IsPhaseOf c s.phase) t.members

failing-IsReady : (c : Cleanup) (t : Tracker) → IsReady c t → IsReady c (failing t)
failing-IsReady c t r = record {
  begun = r.begun;
  groups_open = r.groups_open;
  members_open = r.members_open;
}

set_group-IsReady :
    (c : Cleanup) (id : ProcessIdentity) (s : Sequence) (t : Tracker)
    → IsPhaseOf c s.phase
    → IsReady c t
    → IsReady c (set_group id s t)
set_group-IsReady c id s t p r = record {
  begun = r.begun;
  groups_open = insert-AllValues same_identity (IsOpen c) id (some s) t.groups p r.groups_open;
  members_open = r.members_open;
}

set_member-IsReady :
    (c : Cleanup) (id : ProcessIdentity) (s : Sequence) (t : Tracker)
    → IsPhaseOf c s.phase
    → IsReady c t
    → IsReady c (set_member id s t)
set_member-IsReady c id s t p r = record {
  begun = r.begun;
  groups_open = r.groups_open;
  members_open =
      insert-AllValues same_identity (λ x. IsPhaseOf c x.phase) id s t.members p r.members_open;
}

set_members-IsReady :
    (c : Cleanup) (ids : List ProcessIdentity) (s : Sequence) (t : Tracker)
    → IsPhaseOf c s.phase
    → IsReady c t
    → IsReady c (set_members ids s t)
set_members-IsReady c [] s t p r = r
set_members-IsReady c (id ∷ ids) s t p r =
    set_members-IsReady c ids s (set_member id s t) p (set_member-IsReady c id s t p r)

grace_known : (c : Cleanup) (p : Phase) → IsPhaseOf c p → (g : ℕ) × (grace_of c p ≡ some g)
unfolding grace_of
grace_known c interrupting (with_grace {g} e) = (g, e)
grace_known c terminating terminates = (c.term, refl)
grace_known c killing kills = (_, refl)

module _ (source : Source) (c : Cleanup) where
  abbrev Ready : {A : Type 0} → T A → (A → Type 0) → Type 0
  Ready m Q = Runs (IsReady c) m Q

  due-Ready :
      (s : Option Sequence) (n : ℕ)
      → IsOpen c s
      → Ready (due source s n) (λ d. IsPhaseOf c d.0.phase)
  unfolding due
  due-Ready s n valid =
      Runs->>= (IsReady c) _ _
        (gets-Runs (IsReady c) {Q = λ o. o ≡ some c} (λ t. t.cleanup) (λ t r. r.begun))
        (λ o e.
          let (d, q, step, p) = next_signal-Step c s n (expired n (some c)) valid in
          unwrap-Runs (IsReady c) _ d (rw e q) p)

  after-Ready :
      (s : Sequence) (n : ℕ)
      → IsPhaseOf c s.phase
      → Ready (after source s n) (λ s'. IsPhaseOf c s'.phase)
  unfolding after now_from after_signal
  after-Ready s n p =
      Runs->>= (IsReady c) _ _
        (gets-Runs (IsReady c) {Q = λ o. o ≡ some c} (λ t. t.cleanup) (λ t r. r.begun))
        (λ o e. Runs->>= (IsReady c) _ _ (ask-Runs (IsReady c) _ _) (λ later _.
          let (g, q) = grace_known c s.phase p in
          unwrap-Runs (IsReady c) _ (record { phase = s.phase; next = later + g })
            (rw (e, after_signal) (rw (q, after_signal) refl)) p))

  settled-Ready :
      (d : Due) (n : ℕ)
      → IsPhaseOf c d.0.phase
      → Ready (settled source d n) (λ s. IsPhaseOf c s.phase)
  unfolding settled
  settled-Ready d n p = at_signal d.1
    where
      at_signal :
          (o : Option Signal)
          → Ready
              (elim o [ none ↦ ret d.0 | some s ↦ after source d.0 n ])
              (λ s. IsPhaseOf c s.phase)
      at_signal none = ret-Runs (IsReady c) d.0 p
      at_signal (some s) = after-Ready d.0 n p

  fail_if-Ready : (b : Bool) → Ready (fail_if source b) Any
  unfolding fail_if
  fail_if-Ready b =
      if-Runs (IsReady c) b _ _ (fail-Runs (IsReady c) source (failing-IsReady c))
        (ret-Runs (IsReady c) tt tt)

  send_checked-Ready :
      (id : ProcessIdentity) (group : Bool) (s : Option Signal)
      → Ready (send_checked source id group s) Any
  send_checked-Ready = send_checked-Runs (IsReady c) source (failing-IsReady c)

  now-Ready : (n : ℕ) → Ready (now_from source n) Any
  unfolding now_from
  now-Ready n = ask-Runs (IsReady c) _ _

  group_sent-Ready :
      (g : ProcessIdentity) (ids : List ProcessIdentity) (d : Due) (n : ℕ) (b : Bool)
      → IsPhaseOf c d.0.phase
      → Ready (group_sent source g ids d n b) Any
  unfolding group_sent
  group_sent-Ready g ids d n true p = Runs->>= (IsReady c) _ _ (settled-Ready d n p) (λ s q.
      Runs->> (IsReady c) _ _
        (modify-Runs (IsReady c) (set_group g s) (λ t r. set_group-IsReady c g s t q r))
        (Runs->> (IsReady c) _ _ (fail_if-Ready d.2) (
          Runs->> (IsReady c) _ _
            (modify-Runs (IsReady c) (set_members (of_group g ids) s)
              (λ t r. set_members-IsReady c (of_group g ids) s t q r))
            (ret-Runs (IsReady c) _ tt))))
  group_sent-Ready g ids d n false p = ret-Runs (IsReady c) [] tt

  advance_group-Ready :
      (ids : List ProcessIdentity) (n : ℕ) (g : ProcessIdentity) (previous : Option Sequence)
      → IsOpen c previous
      → Ready (advance_group source ids n (g, previous)) Any
  unfolding advance_group
  advance_group-Ready ids n g previous valid =
      Runs->>= (IsReady c) _ _ (gets-Runs (IsReady c) {Q = Any} (is_due ids g) (λ t r. tt))
        (λ wanted _.
          if-Runs (IsReady c) wanted _ _
            (Runs->>= (IsReady c) _ _ (now-Ready n) (λ now _.
              Runs->>= (IsReady c) _ _ (due-Ready previous now valid) (λ d p.
                Runs->>= (IsReady c) _ _ (send_checked-Ready g true d.1)
                  (λ sent _. group_sent-Ready g ids d now sent p))))
            (ret-Runs (IsReady c) [] tt))

  advance_groups-Ready :
      (ids : List ProcessIdentity) (n : ℕ) (gs : List (ProcessIdentity × Option Sequence))
      → AllValues (IsOpen c) gs
      → Ready (advance_groups source ids n gs) Any
  unfolding advance_groups
  advance_groups-Ready ids n [] all = ret-Runs (IsReady c) [] tt
  advance_groups-Ready ids n ((g, previous) ∷ gs) (valid, all) =
      Runs->>= (IsReady c) _ _ (advance_group-Ready ids n g previous valid) (λ covered _.
        Runs->>= (IsReady c) _ _ (advance_groups-Ready ids n gs all)
          (λ rest _. ret-Runs (IsReady c) _ tt))

  member_sent-Ready :
      (m : ProcessIdentity) (d : Due) (n : ℕ) (b : Bool)
      → IsPhaseOf c d.0.phase
      → Ready (member_sent source m d n b) Any
  unfolding member_sent
  member_sent-Ready m d n true p = Runs->>= (IsReady c) _ _ (after-Ready d.0 n p) (λ s q.
      Runs->> (IsReady c) _ _
        (modify-Runs (IsReady c) (set_member m s) (λ t r. set_member-IsReady c m s t q r))
        (fail_if-Ready d.2))
  member_sent-Ready m d n false p = ret-Runs (IsReady c) tt tt

  member_due-Ready :
      (m : ProcessIdentity) (n : ℕ) (d : Due)
      → IsPhaseOf c d.0.phase
      → Ready (member_due source m n d) Any
  unfolding member_due
  member_due-Ready m n d p = at_signal d.1
    where
      at_signal :
          (o : Option Signal)
          → Ready
              (elim o [
                | none ↦ ret tt
                | some s ↦ send_checked source m false (some s) >>= member_sent source m d n
              ])
              Any
      at_signal none = ret-Runs (IsReady c) tt tt
      at_signal (some s) =
          Runs->>= (IsReady c) _ _ (send_checked-Ready m false (some s))
            (λ sent _. member_sent-Ready m d n sent p)

  lookup-IsOpen :
      (m : ProcessIdentity) (t : Tracker)
      → IsReady c t
      → IsOpen c (lookup same_identity m t.members)
  lookup-IsOpen m t r = elim (Option-cases (lookup same_identity m t.members)) [
    | inl e ↦ rw e tt
    | inr (s, e) ↦
        rw e
          (lookup-AllValues same_identity (λ x. IsPhaseOf c x.phase) m t.members r.members_open e)
  ]

  advance_member-Ready : (n : ℕ) (m : ProcessIdentity) → Ready (advance_member source n m) Any
  unfolding advance_member
  advance_member-Ready n m =
      Runs->>= (IsReady c) _ _
        (gets-Runs (IsReady c) {Q = IsOpen c} (λ t. lookup same_identity m t.members)
          (lookup-IsOpen m))
        (λ previous valid. Runs->>= (IsReady c) _ _ (now-Ready n) (λ now _.
          Runs->>= (IsReady c) _ _ (due-Ready previous now valid)
            (λ d p. member_due-Ready m now d p)))

  advance_members-Ready :
      (n : ℕ) (ms : List ProcessIdentity) → Ready (advance_members source n ms) Any
  unfolding advance_members
  advance_members-Ready n [] = ret-Runs (IsReady c) tt tt
  advance_members-Ready n (m ∷ ms) =
      Runs->> (IsReady c) _ _ (advance_member-Ready n m) (advance_members-Ready n ms)

  pub phases-Ready : (n : ℕ) (ids : List ProcessIdentity) → Ready (phases source n ids) Any
  unfolding phases
  phases-Ready n ids =
      Runs->>= (IsReady c) _ _
        (gets-Runs (IsReady c) {Q = AllValues (IsOpen c)} (λ t. t.groups) (λ t r. r.groups_open))
        (λ gs all.
          Runs->>= (IsReady c) _ _ (advance_groups-Ready ids n gs all)
            (λ covered _. advance_members-Ready n _))
