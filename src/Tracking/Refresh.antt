-- ===== src/Tracking/Refresh.antt =====
-- `scan` of tracking.rs behind its walk: the root's group, adopted zombies, and which groups and members
-- are kept.
use forcola.Prelude.{
  ℕ, suc, ◌+◌, ◌*◌, List, [], ◌∷◌, ◌++◌, map, Bool, true, false, not, ◌&&◌, ◌||◌, Option, none,
  some, ◌==◌, leb, if◌then◌else◌, length, insert, lookup, has_key, keep_if, any,
}
use forcola.Errors.{Result, ok, err}
use forcola.Identity.{ProcessIdentity, ProcessRecord, same_identity, same_process}
use forcola.Os.{reap}
use forcola.Tracking.{Sequence}
use forcola.Tracking.World.{Source, Tracker, T, ◌>>=◌, ◌>>◌, ret, gets, modify, ask, fail, failing}
use forcola.Tracking.Scan.{
  retained, insert_at, remove_process, full, read, group_members, scan_error, walk,
}

abbrev pub max_incomplete_scans : ℕ
max_incomplete_scans = 3

abbrev pub find_process : ℕ → Tracker → Option ProcessRecord
find_process pid t = lookup (λ a b. a == b) pid t.processes

abbrev pub unresolved : Bool → Tracker → Tracker
unresolved b t = record t { root_group_unresolved = b }

-- The identity of an exited root that leads its group, when orphans are not adopted.
abbrev pub root_anchor : Tracker → Option ProcessIdentity
root_anchor t = if t.adopt_orphans then none else elim (find_process t.root_pid t) [
  | none ↦ none
  | some root ↦
      if not root.exited || not (root.identity.pid == root.identity.pgid)
      then none
      else some root.identity
]

-- A group whose leader's pid has been taken over, or of which no process is left, is forgotten.
abbrev pub keeps_group : Tracker → ProcessIdentity × Option Sequence → Bool
keeps_group t (id, s) =
    let shared = any (λ r. r.identity.pgid == id.pgid) (retained t) in
    elim (find_process id.pid t) [
      | none ↦ shared
      | some leader ↦
          same_process leader.identity id && (same_identity leader.identity id || shared)
    ]

abbrev pub keeps_member : Tracker → ProcessIdentity × Sequence → Bool
keeps_member t (id, s) = elim (find_process id.pid t) [
  | none ↦ false
  | some p ↦ not p.exited && same_identity p.identity id
]

-- A process that leads its group makes a group of it, if there is room.
abbrev pub add_group : ProcessIdentity → Tracker → Tracker
add_group id t =
    if (id.pid == id.pgid) && not (has_key same_identity id t.groups)
    then (if leb t.group_limit (length t.groups) then failing t else record t {
      groups = insert same_identity id none t.groups;
      pending = t.pending ++ id ∷ [];
    })
    else t

abbrev pub add_groups : List ProcessRecord → Tracker → Tracker
add_groups [] t = t
add_groups (r ∷ rs) t = add_groups rs (add_group r.identity t)

abbrev pub keep_groups : Tracker → Tracker
keep_groups t = record t { groups = keep_if (keeps_group t) t.groups }

abbrev pub keep_members : Tracker → Tracker
keep_members t = record t { members = keep_if (keeps_member t) t.members }

-- `incomplete_scans` is a `u8`.
abbrev pub saturating_suc : ℕ → ℕ
saturating_suc n = if leb 255 n then 255 else suc n

abbrev pub count_scan : Bool → Tracker → Tracker
count_scan incomplete t = record t {
  incomplete_scans = if incomplete then saturating_suc t.incomplete_scans else 0;
}

abbrev pub check_scans : Tracker → Tracker
check_scans t = if leb max_incomplete_scans t.incomplete_scans then failing t else t

-- An adopted process that has exited.
abbrev pub is_zombie : ProcessRecord → Tracker → Bool
is_zombie r t =
    t.adopt_orphans && (not (r.identity.pid == t.root_pid) && ((r.ppid == t.shim.pid) && r.exited))

abbrev pub start_queue : Tracker → List ProcessIdentity
start_queue t =
    let anchors = map (λ r. r.identity) (retained t) in
    if t.adopt_orphans then t.shim ∷ anchors else anchors

module _ (source : Source) where
  -- The loop over the members of the root's group: whether the scan is incomplete, and whether a member
  -- is unresolved.
  unfoldable pub member_found :
      ProcessIdentity → ℕ → Bool × Bool → Result (Option ProcessRecord) → T ((Bool × Bool) × Bool)
  unfolding scan_error
  member_found expected pid w (err e) = do scan_error source e; ret ((true, true), true)
  member_found expected pid w (ok none) = ret (w, true)
  member_found expected pid w (ok (some member)) =
      if member.identity.pgid == expected.pgid
      then (gets (full pid) >>= λ is_full.
          if is_full
          then (do fail; ret ((w.0, true), false))
          else (do modify (insert_at pid member); ret (w, true)))
      else ret (w, true)

  unfoldable pub add_members : ProcessIdentity → List ℕ → Bool × Bool → T (Bool × Bool)
  unfolding read member_found
  add_members expected [] w = ret w
  add_members expected (pid ∷ pids) w = (read source pid >>= member_found expected pid w) >>= λ r.
      if r.1 then add_members expected pids r.0 else ret r.0

  -- The root's second read, behind the list of its group.
  unfoldable pub root_again :
      ProcessIdentity → List ℕ → Bool → Result (Option ProcessRecord) → T Bool
  unfolding add_members scan_error
  root_again expected pids incomplete (ok (some root)) =
      if same_identity root.identity expected
      then (add_members expected pids (incomplete, false) >>= λ r. do
        modify (unresolved r.1)
        ret r.0)
      else (do fail; ret incomplete)
  root_again expected pids incomplete (ok none) = do fail; ret incomplete
  root_again expected pids incomplete (err e) = do scan_error source e; ret true

  unfoldable pub root_members : ProcessIdentity → Bool → Result (List ℕ) → T Bool
  unfolding read root_again scan_error
  root_members expected incomplete (ok pids) =
      read source expected.pid >>= root_again expected pids incomplete
  root_members expected incomplete (err e) = do scan_error source e; ret true

  unfoldable pub anchored : Bool → Option ProcessIdentity → T Bool
  unfolding group_members root_members
  anchored incomplete none = ret incomplete
  anchored incomplete (some expected) = do
    modify (unresolved true)
    answer ← group_members source expected.pgid
    root_members expected incomplete answer

  unfoldable pub scan_root_group : Bool → T Bool
  unfolding anchored
  scan_root_group incomplete = do
    modify (unresolved false)
    anchor ← gets root_anchor
    anchored incomplete anchor

  unfoldable pub reaped : ℕ → Result (Unit {0}) → T (Unit {0})
  reaped pid (ok u) = modify (remove_process pid)
  reaped pid (err e) = fail

  unfoldable pub reap_all : List ProcessRecord → T (Unit {0})
  unfolding reaped
  reap_all [] = ret tt
  reap_all (r ∷ rs) = gets (is_zombie r) >>= λ zombie.
      (if zombie then (ask source.reap (reap r.identity.pid) >>= reaped r.identity.pid) else ret tt)
      >> reap_all rs

  -- `scan` up to its count of the incomplete scans: whether this one is.
  unfoldable pub inventory : T Bool
  unfolding walk scan_root_group reap_all
  inventory = do
    queue ← gets start_queue
    limit ← gets (λ t. t.process_limit)
    w ← walk source (limit * 2 + 1) (record { queue = queue; visited = []; incomplete = false })
    incomplete ← scan_root_group w.incomplete
    records ← gets retained
    reap_all records
    modify keep_groups
    records' ← gets retained
    modify (add_groups records')
    modify keep_members
    ret incomplete

  unfoldable pub scan : T (Unit {0})
  unfolding inventory
  scan = do incomplete ← inventory; modify (count_scan incomplete); modify check_scans
