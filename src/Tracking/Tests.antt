-- ===== src/Tracking/Tests.antt =====
-- A target that got SIGINT and outlived its grace.
use forcola.Prelude.{
  ℕ, ◌≡◌, ◌≢◌, refl, true, false, Option, none, some, [], ◌∷◌, ◌==◌, Bool, if◌then◌else◌,
}
use forcola.Errors.{ok, other_kind}
use forcola.Identity.{ProcessIdentity, ProcessRecord}
use forcola.Tracking.{interrupting, Sequence, Cleanup, Due, next_signal}
use forcola.Tracking.World.{Source, World, with_source, ◌>>=◌, ◌>>◌, gets, modify, ask, ret}
use forcola.Tracking.Refresh.{scan}
use forcola.Tracking.Advance.{live, Progress, advance, finish_scan}
use forcola.Tracking.Evolves.{Evolves}
use forcola.Tracking.Scanned.{Scanned, scan_lem}
use forcola.Tracking.Ready.{IsReady}
use forcola.Tracking.Outcome.{IsVerdict, advance-IsVerdict, finish_scan_lem}
use forcola.Tracking.Phases.{IsPhaseOf, with_grace, Step, next_signal-Step}

abbrev cleanup : Cleanup
cleanup = record { interrupt = some 10; term = 20; deadline = 1000; empty_scans = 0 }

abbrev interrupted : Sequence
interrupted = record { phase = interrupting; next = 15 }

next_signal-Step_example :
    (due : Due) × (next_signal cleanup (some interrupted) 16 false ≡ some due)
    × Step cleanup 16 (some interrupted) false due
    × IsPhaseOf cleanup due.0.phase
next_signal-Step_example = next_signal-Step cleanup (some interrupted) 16 false (with_grace refl)

abbrev identity : ℕ → ℕ → ProcessIdentity
identity pid pgid = record {
  pid = pid;
  pgid = pgid;
  start_time = record { boot_id = 7 ∷ []; ticks = 100 };
}

-- The root 20 leads a group of its own, and its child 21 is in that group.
abbrev found : ℕ → Option ProcessRecord
found pid =
    if pid == 20
    then some (record { identity = identity 20 20; ppid = 10; exited = false })
    else if pid == 21
    then some (record { identity = identity 21 20; ppid = 20; exited = false })
    else none

abbrev source : Source
source = record {
  read = λ h pid. ok (found pid);
  children = λ h pid. if pid == 20 then ok (21 ∷ []) else ok [];
  group_members = λ h pgid. ok [];
  signal = λ h. ok tt;
  reap = λ h. ok tt;
  now = λ h. 16;
  kind_of = λ n. other_kind;
}

abbrev shim : ProcessIdentity
shim = identity 10 10

abbrev started : World
started = (with_source shim (identity 20 20), [])

-- The child is found.
scan_test : live (scan source started).1.0 ≡ identity 20 20 ∷ identity 21 20 ∷ []
unfolding scan with_source ◌>>=◌ ◌>>◌ gets modify ask ret
scan_test = refl

scan_lem_example : ((scan source started).0 ≡ some tt) × Scanned started (scan source started).1
scan_lem_example = scan_lem source started

abbrev stopping : World
stopping = (
  record (with_source shim (identity 20 20)) {
    cleanup = some cleanup;
    groups = (identity 20 20, some interrupted) ∷ [];
  },
  [],
)

advance-IsVerdict_example :
    (p : Progress) × (advance source 16 stopping).0 ≡ some p
    × IsVerdict (live stopping.0) cleanup 16 stopping p (advance source 16 stopping).1
    × ((c' : Cleanup) × IsReady c' (advance source 16 stopping).1.0)
    × (stopping.0.uncertain ≡ true → (advance source 16 stopping).1.0.uncertain ≡ true)
unfolding with_source
advance-IsVerdict_example =
    advance-IsVerdict source cleanup 16 stopping
      (record { begun = refl; groups_open = (with_grace refl, tt); members_open = tt })

finish_scan_lem_example :
    (b : Bool) × ((finish_scan source stopping).0 ≡ some b)
    × (b ≡ true
        → (live (scan source stopping).1.0 ≡ [])
          × ((scan source stopping).1.0.incomplete_scans ≡ 0)
          × ((finish_scan source stopping).1.0.uncertain ≡ false))
    × (live (scan source stopping).1.0 ≢ [] → (finish_scan source stopping).1.0.uncertain ≡ true)
finish_scan_lem_example = finish_scan_lem source stopping
