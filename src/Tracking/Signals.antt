-- ===== src/Tracking/Signals.antt =====
-- `send_checked` of tracking.rs, and the loops over groups and members that call it.
use forcola.Prelude.{
  All, All-keep_if, ℕ, ◌≡◌, refl, ◌∙◌, List, [], ◌∷◌, ◌++◌, Bool, true, false, ◌||◌, Option, none,
  some, ◌==◌, ltb, Bool-cases, inl, inr, arith, i32_max,
}
use forcola.Errors.{Result, ok, err}
use forcola.Identity.{ProcessIdentity, ProcessRecord}
use forcola.Os.{Signal, kill, read_process}
use forcola.Tracking.{Sequence, Due}
use forcola.Tracking.World.{Source, Tracker, World, T, ◌>>=◌, ◌>>◌, ret, ask, gets, fail, failing}
use forcola.Tracking.Scan.{read}
use forcola.Tracking.Advance.{
  allows, target, unwrap, signalled, send, checked, send_checked, now_from, due, after, settled,
  fail_if, set_group, set_member, set_members, group_sent, advance_group, advance_groups,
  member_sent, member_due, advance_member, advance_members, phases, kill_late,
}
use forcola.Tracking.Evolves.{
  allows-Matches, Evolves, stay, acts, signals, Evolves-trans, Fine, Fine->>=, Fine->>, ret-Fine,
  gets-Fine, modify-Fine, ask-Fine, if-Fine,
}

-- A change of the tracker by the phases: they forget no process and take back no failure.
pub record Holds (t t' : Tracker) : Type 0 where
  pub sticky : t.uncertain ≡ true → t'.uncertain ≡ true
  pub processes : t'.processes ≡ t.processes
  pub scans : t'.incomplete_scans ≡ t.incomplete_scans

pub refl-Holds : (t : Tracker) → Holds t t
refl-Holds t = record { sticky = λ e. e; processes = refl; scans = refl }

pub failing-Holds : (t : Tracker) → Holds t (failing t)
failing-Holds t = record { sticky = λ e. refl; processes = refl; scans = refl }

pub trans-Holds : (t u v : Tracker) → Holds t u → Holds u v → Holds t v
trans-Holds t u v a b = record {
  sticky = λ e. b.sticky (a.sticky e);
  processes = b.processes ∙ a.processes;
  scans = b.scans ∙ a.scans;
}

set_group-Holds : (id : ProcessIdentity) (s : Sequence) (t : Tracker) → Holds t (set_group id s t)
set_group-Holds id s t = record { sticky = λ e. e; processes = refl; scans = refl }

set_member-Holds : (id : ProcessIdentity) (s : Sequence) (t : Tracker) → Holds t (set_member id s t)
set_member-Holds id s t = record { sticky = λ e. e; processes = refl; scans = refl }

set_members-Holds :
    (ids : List ProcessIdentity) (s : Sequence) (t : Tracker) → Holds t (set_members ids s t)
set_members-Holds [] s t = refl-Holds t
set_members-Holds (id ∷ ids) s t =
    trans-Holds t (set_member id s t) (set_members ids s (set_member id s t))
      (set_member-Holds id s t) (set_members-Holds ids s (set_member id s t))

module _ (source : Source) (Target : Bool → ProcessIdentity → Type 0) where
  abbrev Sends : {A : Type 0} → T A → Type 0
  Sends m = Fine source Holds Target (Unit {0}) m

  ruleset steps = (Fine->>=, Fine->>, ret-Fine, gets-Fine, modify-Fine, if-Fine, failing-Holds)

  fail-Sends : Sends fail
  fail-Sends = modify-Fine source Holds Target (Unit {0}) failing-Holds

  signalled-Sends : (r : Result (Unit {0})) → Sends (signalled source r)
  unfolding signalled
  signalled-Sends (ok u) = search steps
  signalled-Sends (err e) = search (steps, fail-Sends)

  refused-Sends : Sends (fail >> ret false)
  refused-Sends = search (steps, fail-Sends)

  -- Behind the read of its target.
  send_at :
      (id : ProcessIdentity) (group : Bool) (s : Option Signal) (r : ProcessRecord) (w : World)
      → source.read w.1 id.pid ≡ ok (some r)
      → Target group id
      → allows id group r ≡ true
      → Evolves source Holds Target
          (Unit {0})
          w
          (send source id group s (w.0, read_process id.pid ∷ w.1)).1
  unfolding send ret ◌>>=◌ ask
  send_at id group none r w p z q = acts (read_process id.pid) refl stay
  send_at id group (some s) r w p z q = elim (Bool-cases ((id.pid == 0) || ltb i32_max id.pid)) [
    | inl out ↦ rw out (
        Evolves-trans source Holds Target (Unit {0}) (acts (read_process id.pid) refl stay)
          (refused-Sends.at (w.0, read_process id.pid ∷ w.1)))
    | inr within ↦ rw within (
        Evolves-trans source Holds Target (Unit {0})
          (signals id group s r z p (allows-Matches id group r q) (ground arith)
            (acts (read_process id.pid) refl stay))
          ((signalled-Sends (source.signal (target id group s ∷ read_process id.pid ∷ w.1))).at
            (w.0, target id group s ∷ read_process id.pid ∷ w.1)))
  ]

  checked_at :
      (id : ProcessIdentity) (group : Bool) (s : Option Signal) (r : Result (Option ProcessRecord))
      (w : World)
      → source.read w.1 id.pid ≡ r
      → Target group id
      → Evolves source Holds Target
          (Unit {0})
          w
          (checked source id group s r (w.0, read_process id.pid ∷ w.1)).1
  unfolding checked ret
  checked_at id group s (err e) w p z =
      Evolves-trans source Holds Target (Unit {0}) (acts (read_process id.pid) refl stay)
        (refused-Sends.at (w.0, read_process id.pid ∷ w.1))
  checked_at id group s (ok none) w p z = acts (read_process id.pid) refl stay
  checked_at id group s (ok (some r)) w p z = elim (Bool-cases (allows id group r)) [
    | inl good ↦ rw (good, checked) (send_at id group s r w p z good)
    | inr bad ↦ rw (bad, checked) (acts (read_process id.pid) refl stay)
  ]

  send_checked-Sends :
      (id : ProcessIdentity) (group : Bool) (s : Option Signal)
      → Target group id
      → Sends (send_checked source id group s)
  unfolding send_checked read ◌>>=◌ ask
  send_checked-Sends id group s z = record {
    at = λ w. checked_at id group s (source.read w.1 id.pid) w refl z;
    returns = λ w. inr tt;
  }

  unwrap-Sends : {A : Type 0} (o : Option A) → Sends (unwrap o)
  unwrap-Sends o = record { at = λ w. stay; returns = λ w. inr tt }

  now_from-Sends : (n : ℕ) → Sends (now_from source n)
  unfolding now_from
  now_from-Sends n = ask-Fine source Holds Target (Unit {0}) _ _ refl

  due-Sends : (s : Option Sequence) (n : ℕ) → Sends (due source s n)
  unfolding due
  due-Sends s n = search (steps, unwrap-Sends)

  after-Sends : (s : Sequence) (n : ℕ) → Sends (after source s n)
  unfolding after
  after-Sends s n = search (steps, now_from-Sends, unwrap-Sends)

  settled-Sends : (d : Due) (n : ℕ) → Sends (settled source d n)
  unfolding settled
  settled-Sends d n = at_signal d.1
    where
      at_signal :
          (o : Option Signal) → Sends (elim o [ none ↦ ret d.0 | some s ↦ after source d.0 n ])
      at_signal none = search steps
      at_signal (some s) = search (after-Sends)

  fail_if-Sends : (b : Bool) → Sends (fail_if source b)
  unfolding fail_if
  fail_if-Sends b = search (steps, fail-Sends)

  ruleset phase_steps = (
    steps, fail_if-Sends, settled-Sends, after-Sends, due-Sends, now_from-Sends, send_checked-Sends,
    set_group-Holds, set_member-Holds, set_members-Holds,
  )

  group_sent-Sends :
      (g : ProcessIdentity) (ids : List ProcessIdentity) (d : Due) (n : ℕ) (b : Bool)
      → Sends (group_sent source g ids d n b)
  unfolding group_sent
  group_sent-Sends g ids d n true = search phase_steps depth 20
  group_sent-Sends g ids d n false = search steps

  advance_group-Sends :
      (ids : List ProcessIdentity) (n : ℕ) (g : ProcessIdentity × Option Sequence)
      → Target true g.0
      → Sends (advance_group source ids n g)
  unfolding advance_group
  advance_group-Sends ids n (g, previous) z = search (phase_steps, group_sent-Sends) depth 20

  pub advance_groups-Sends :
      (ids : List ProcessIdentity) (n : ℕ) (gs : List (ProcessIdentity × Option Sequence))
      → All (λ g. Target true g.0) gs
      → Sends (advance_groups source ids n gs)
  unfolding advance_groups
  advance_groups-Sends ids n [] z = search steps
  advance_groups-Sends ids n (g ∷ gs) (z, zs) =
      Fine->>= source Holds Target (Unit {0}) (advance_group-Sends ids n g z) (λ covered.
        Fine->>= source Holds Target (Unit {0}) (advance_groups-Sends ids n gs zs)
          (λ rest. ret-Fine source Holds Target (Unit {0}) (covered ++ rest)))

  member_sent-Sends :
      (m : ProcessIdentity) (d : Due) (n : ℕ) (b : Bool) → Sends (member_sent source m d n b)
  unfolding member_sent
  member_sent-Sends m d n true = search phase_steps depth 20
  member_sent-Sends m d n false = search steps

  member_due-Sends :
      (m : ProcessIdentity) (n : ℕ) (d : Due) → Target false m → Sends (member_due source m n d)
  unfolding member_due
  member_due-Sends m n d z = at_signal d.1
    where
      at_signal :
          (o : Option Signal)
          → Sends (elim o [
            | none ↦ ret tt
            | some s ↦ send_checked source m false (some s) >>= member_sent source m d n
          ])
      at_signal none = search steps
      at_signal (some s) = search (steps, send_checked-Sends m false (some s) z, member_sent-Sends)

  advance_member-Sends :
      (n : ℕ) (m : ProcessIdentity) → Target false m → Sends (advance_member source n m)
  unfolding advance_member
  advance_member-Sends n m z = search (phase_steps, member_due-Sends) depth 20

  pub advance_members-Sends :
      (n : ℕ) (ms : List ProcessIdentity)
      → All (Target false) ms
      → Sends (advance_members source n ms)
  unfolding advance_members
  advance_members-Sends n [] z = search steps
  advance_members-Sends n (m ∷ ms) (z, zs) =
      Fine->> source Holds Target (Unit {0}) (advance_member-Sends n m z)
        (advance_members-Sends n ms zs)

  pub kill_late-Sends :
      (ids : List ProcessIdentity) → All (Target false) ids → Sends (kill_late source ids)
  unfolding kill_late
  kill_late-Sends [] z = search steps
  kill_late-Sends (id ∷ ids) (z, zs) =
      Fine->>= source Holds Target (Unit {0}) (send_checked-Sends id false (some kill) z)
        (λ sent. kill_late-Sends ids zs)

  -- The targets come from the tracker that the loops begin with, so that this stands for one world.
  pub phases_at :
      (n : ℕ) (ids : List ProcessIdentity) (w : World)
      → All (λ g. Target true g.0) w.0.groups
      → All (Target false) ids
      → Evolves source Holds Target (Unit {0}) w (phases source n ids w).1
  unfolding phases ◌>>=◌ gets
  phases_at n ids w groups members =
      (Fine->>= source Holds Target (Unit {0}) (advance_groups-Sends ids n w.0.groups groups)
          (λ covered. advance_members-Sends n _ (All-keep_if _ (Target false) ids members))).at
        w
