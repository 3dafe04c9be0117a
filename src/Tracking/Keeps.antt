-- ===== src/Tracking/Keeps.antt =====
-- How `scan` of tracking.rs changes a tracker, up to its count of the incomplete scans.
use forcola.Prelude.{
  ℕ, ◌≤◌, ◌≡◌, refl, sym, ◌∙◌, List, [], ◌∷◌, ◌++◌, Bool, true, false, Option, none, some, ◌==◌,
  leb, if◌then◌else◌, length, insert, lookup, length-keep_if, length-insert, Bool-cases, inl, inr,
  arith, leb→lt,
}
use forcola.Identity.{ProcessIdentity, ProcessRecord, same_identity, same_process}
use forcola.Tracking.World.{Tracker, failing}
use forcola.Tracking.Scan.{insert_at, remove_process, forgetting, refreshed}
use forcola.Tracking.Refresh.{
  unresolved, keeps_group, add_group, add_groups, keep_groups, keep_members, check_scans,
  max_incomplete_scans,
}

-- A change of the tracker by a scan.
pub record Keeps (t t' : Tracker) : Type 0 where
  pub sticky : t.uncertain ≡ true → t'.uncertain ≡ true
  pub limit : t'.group_limit ≡ t.group_limit
  pub scans : t'.incomplete_scans ≡ t.incomplete_scans
  pub bounded : length t.groups ≤ t.group_limit → length t'.groups ≤ t.group_limit

pub refl-Keeps : (t : Tracker) → Keeps t t
refl-Keeps t = record { sticky = λ e. e; limit = refl; scans = refl; bounded = λ e. e }

pub failing-Keeps : (t : Tracker) → Keeps t (failing t)
failing-Keeps t = record { sticky = λ e. refl; limit = refl; scans = refl; bounded = λ e. e }

pub trans-Keeps : (t u v : Tracker) → Keeps t u → Keeps u v → Keeps t v
trans-Keeps t u v a b = record {
  sticky = λ e. b.sticky (a.sticky e);
  limit = b.limit ∙ a.limit;
  scans = b.scans ∙ a.scans;
  bounded = λ e. rw (sym a.limit) (b.bounded (rw a.limit (a.bounded e)));
}

pub if-Keeps : (t u v : Tracker) (b : Bool) → Keeps t u → Keeps t v → Keeps t (if b then u else v)
if-Keeps t u v true x y = x
if-Keeps t u v false x y = y

pub insert_at-Keeps : (pid : ℕ) (r : ProcessRecord) (t : Tracker) → Keeps t (insert_at pid r t)
insert_at-Keeps pid r t = record { sticky = λ e. e; limit = refl; scans = refl; bounded = λ e. e }

pub remove_process-Keeps : (pid : ℕ) (t : Tracker) → Keeps t (remove_process pid t)
remove_process-Keeps pid t = record {
  sticky = λ e. e;
  limit = refl;
  scans = refl;
  bounded = λ e. e;
}

pub forgetting-Keeps : (id : ProcessIdentity) (t : Tracker) → Keeps t (forgetting id t)
forgetting-Keeps id t = at_found (lookup (λ a b. a == b) id.pid t.processes)
  where
    at_found :
        (o : Option ProcessRecord)
        → Keeps t (elim o [
          | none ↦ t
          | some p ↦ if same_process p.identity id then remove_process id.pid t else t
        ])
    at_found none = refl-Keeps t
    at_found (some p) =
        if-Keeps t (remove_process id.pid t) t (same_process p.identity id)
          (remove_process-Keeps id.pid t) (refl-Keeps t)

pub add_group-Keeps : (id : ProcessIdentity) (t : Tracker) → Keeps t (add_group id t)
add_group-Keeps id t = if-Keeps t _ t _ room (refl-Keeps t)
  where
    room : Keeps t (
        if leb t.group_limit (length t.groups) then failing t else record t {
          groups = insert same_identity id none t.groups;
          pending = t.pending ++ id ∷ [];
        })
    room = elim (Bool-cases (leb t.group_limit (length t.groups))) [
      | inl no_room ↦ rw no_room (failing-Keeps t)
      | inr free ↦ rw free (record {
        sticky = λ e. e;
        limit = refl;
        scans = refl;
        bounded = λ e. omega (
          arith,
          leb→lt t.group_limit (length t.groups) free,
          length-insert same_identity id none t.groups,
        );
      })
    ]

pub add_groups-Keeps : (rs : List ProcessRecord) (t : Tracker) → Keeps t (add_groups rs t)
add_groups-Keeps [] t = refl-Keeps t
add_groups-Keeps (r ∷ rs) t =
    trans-Keeps t (add_group r.identity t) (add_groups rs (add_group r.identity t))
      (add_group-Keeps r.identity t) (add_groups-Keeps rs (add_group r.identity t))

pub keep_groups-Keeps : (t : Tracker) → Keeps t (keep_groups t)
keep_groups-Keeps t = record {
  sticky = λ e. e;
  limit = refl;
  scans = refl;
  bounded = λ e. omega (arith, length-keep_if (keeps_group t) t.groups);
}

pub keep_members-Keeps : (t : Tracker) → Keeps t (keep_members t)
keep_members-Keeps t = record { sticky = λ e. e; limit = refl; scans = refl; bounded = λ e. e }

pub check_scans-Keeps : (t : Tracker) → Keeps t (check_scans t)
check_scans-Keeps t =
    if-Keeps t (failing t) t (leb max_incomplete_scans t.incomplete_scans) (failing-Keeps t)
      (refl-Keeps t)

pub unresolved-Keeps : (b : Bool) (t : Tracker) → Keeps t (unresolved b t)
unresolved-Keeps b t = record { sticky = λ e. e; limit = refl; scans = refl; bounded = λ e. e }

pub refreshed-Keeps :
    (id : ProcessIdentity) (r : ProcessRecord) (t : Tracker) → Keeps t (refreshed id r t)
refreshed-Keeps id r t =
    if-Keeps t t (insert_at id.pid r t) (id.pid == t.shim.pid) (refl-Keeps t)
      (insert_at-Keeps id.pid r t)
