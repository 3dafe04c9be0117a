-- ===== src/Tracking/Verified.antt =====
-- The targets of the signals that `advance` and `finish_scan` of tracking.rs send.
use mathlib.Core.List.{Memᴰ}
use forcola.Prelude.{◌≡◌, List, map, Bool, true, false, not, ◌&&◌, ◌==◌, if◌then◌else◌}
use forcola.Identity.{ProcessIdentity, ProcessRecord}
use forcola.Tracking.World.{Source, Tracker, World, T, ◌>>=◌, ◌>>◌, ret, gets, fail}
use forcola.Tracking.Advance.{is_empty, live, kill_late}
use forcola.Tracking.Evolves.{
  Evolves, Fine, Fine->>=, Fine->>, ret-Fine, gets-Fine, modify-Fine, if-Fine,
}

abbrev pub IsSticky : Tracker → Tracker → Type 0
IsSticky t t' = t.uncertain ≡ true → t'.uncertain ≡ true

-- What the cleanup of a tracker may signal: the groups that it holds, and the processes that it holds and that had not exited.
pub data IsTracked (t : Tracker) : Bool → ProcessIdentity → Type 0 where
  held_group : {e : ProcessIdentity} → Memᴰ e (map (λ g. g.0) t.groups) → IsTracked t true e
  held_process :
      {r : ProcessRecord}
      → Memᴰ r (map (λ p. p.1) t.processes)
      → r.exited ≡ false
      → IsTracked t false r.identity

-- What the last scan may signal: no group.
pub data ScanTarget (t : Tracker) : Bool → ProcessIdentity → Type 0 where
  late : {e : ProcessIdentity} → IsTracked t false e → ScanTarget t false e

module _ (source : Source) (Target : Bool → ProcessIdentity → Type 0) where
  abbrev Sends : {A : Type 0} → T A → Type 0
  Sends m = Fine source IsSticky Target (Unit {0}) m

  ruleset steps = (Fine->>=, Fine->>, ret-Fine, gets-Fine, modify-Fine, if-Fine)

module _ (source : Source) where
  -- Behind the scan.
  abbrev late_kills : T Bool
  late_kills = gets live >>= λ ids.
      (if is_empty ids then ret tt else fail)
      >> (kill_late source ids >> gets (λ t. not t.uncertain && (t.incomplete_scans == 0)))
