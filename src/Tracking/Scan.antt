-- ===== src/Tracking/Scan.antt =====
-- `scan` of tracking.rs: the retained processes are refreshed and every verified child edge followed.
use forcola.Prelude.{
  ℕ, zero, suc, List, [], ◌∷◌, ◌++◌, map, Bool, true, false, not, ◌&&◌, Option, none, some, ◌==◌,
  leb, if◌then◌else◌, length, insert, remove, lookup, has_key,
}
use forcola.Errors.{IoError, Result, ok, err}
use forcola.Identity.{StartTime, ProcessIdentity, ProcessRecord, same_start, same_process}
use forcola.Os.{read_process, list_children, list_group}
use forcola.Tracking.World.{
  Source, Tracker, T, ◌>>=◌, ◌>>◌, ret, gets, modify, ask, fail, is_gone_error, is_fatal_kind, kind,
}

-- The locals of `scan`.
pub record Walk : Type 0 where
  pub queue : List ProcessIdentity
  pub visited : List (ℕ × StartTime)
  pub incomplete : Bool

-- `visited.get(&pid) == Some(&start_time)`
abbrev pub seen : List (ℕ × StartTime) → ℕ → StartTime → Bool
seen visited pid start = elim (lookup (λ a b. a == b) pid visited) [
  | none ↦ false
  | some old ↦ same_start old start
]

-- The first of the queue that is not visited yet, and the queue behind it.
abbrev pub pop :
    List (ℕ × StartTime) → List ProcessIdentity → Option (ProcessIdentity × List ProcessIdentity)
pop visited [] = none
pop visited (id ∷ queue) =
    if seen visited id.pid id.start_time then pop visited queue else some (id, queue)

abbrev pub retained : Tracker → List ProcessRecord
retained t = map (λ p. p.1) t.processes

-- `processes.insert(pid, r)`, where `pid` is the key that was asked for.
abbrev pub insert_at : ℕ → ProcessRecord → Tracker → Tracker
insert_at pid r t = record t { processes = insert (λ a b. a == b) pid r t.processes }

abbrev pub remove_process : ℕ → Tracker → Tracker
remove_process pid t = record t { processes = remove (λ a b. a == b) pid t.processes }

-- A stale anchor goes only if it is still the same process.
abbrev pub forgetting : ProcessIdentity → Tracker → Tracker
forgetting expected t = elim (lookup (λ a b. a == b) expected.pid t.processes) [
  | none ↦ t
  | some p ↦ if same_process p.identity expected then remove_process expected.pid t else t
]

-- No room for a new process.
abbrev pub full : ℕ → Tracker → Bool
full pid t =
    not (has_key (λ a b. a == b) pid t.processes) && leb t.process_limit (length t.processes)

abbrev pub marked : Walk → Walk
marked w = record w { incomplete = true }

-- A process that is still the one expected.
abbrev pub refreshed : ProcessIdentity → ProcessRecord → Tracker → Tracker
refreshed expected current t =
    if expected.pid == t.shim.pid then t else insert_at expected.pid current t

module _ (source : Source) where
  unfoldable pub read : ℕ → T (Result (Option ProcessRecord))
  read pid = ask (λ h. source.read h pid) (read_process pid)

  unfoldable pub children : ℕ → T (Result (List ℕ))
  children pid = ask (λ h. source.children h pid) (list_children pid)

  unfoldable pub group_members : ℕ → T (Result (List ℕ))
  group_members pgid = ask (λ h. source.group_members h pgid) (list_group pgid)

  -- `scan_error`; the caller marks the scan as incomplete.
  unfoldable pub scan_error : IoError → T (Unit {0})
  scan_error e = if is_fatal_kind (kind source e) then fail else ret tt

  -- An error of a read: the scan is incomplete, and goes on.
  unfoldable pub broken : Walk → IoError → T Walk
  unfolding scan_error
  broken w e = do scan_error e; ret (marked w)

  -- The read of a child of `expected`; the flag says whether the loop over the children goes on.
  unfoldable pub child_found :
      ProcessIdentity → ℕ → Walk → Result (Option ProcessRecord) → T (Walk × Bool)
  unfolding broken
  child_found expected pid w (err e) = do w' ← broken w e; ret (w', true)
  child_found expected pid w (ok none) = ret (w, true)
  child_found expected pid w (ok (some child)) =
      if child.ppid == expected.pid && not (seen w.visited pid child.identity.start_time)
      then (gets (full pid) >>= λ is_full. if is_full then (do fail; ret (w, false)) else (do
        modify (insert_at pid child)
        ret (record w { queue = w.queue ++ child.identity ∷ [] }, true)))
      else ret (w, true)

  -- `for pid in children`
  unfoldable pub add_children : ProcessIdentity → List ℕ → Walk → T Walk
  unfolding read child_found
  add_children expected [] w = ret w
  add_children expected (pid ∷ pids) w = gets (λ t. pid == t.shim.pid) >>= λ own.
      if own
      then add_children expected pids w
      else (read pid >>= child_found expected pid w) >>= λ r.
          if r.1 then add_children expected pids r.0 else ret r.0

  -- The second read of the parent, behind the list of its children.
  unfoldable pub parent_again :
      ProcessIdentity → List ℕ → Walk → Result (Option ProcessRecord) → T Walk
  unfolding broken add_children
  parent_again expected pids w (ok (some parent)) =
      if same_process parent.identity expected then add_children expected pids w else ret w
  parent_again expected pids w (ok none) = ret w
  parent_again expected pids w (err e) = broken w e

  unfoldable pub with_children : ProcessIdentity → Walk → Result (List ℕ) → T Walk
  unfolding read broken parent_again
  with_children expected w (ok pids) = read expected.pid >>= parent_again expected pids w
  with_children expected w (err e) = if is_gone_error e then ret w else broken w e

  unfoldable pub visit_current : ProcessIdentity → ProcessRecord → Walk → T Walk
  unfolding children with_children
  visit_current expected current w = do
    modify (refreshed expected current)
    answer ← children expected.pid
    with_children expected
        (record w {
          visited = insert (λ a b. a == b) expected.pid current.identity.start_time w.visited;
        })
        answer

  unfoldable pub visit_found : ProcessIdentity → Walk → Result (Option ProcessRecord) → T Walk
  unfolding visit_current broken
  visit_found expected w (ok (some current)) =
      if same_process current.identity expected
      then visit_current expected current w
      else (do modify (forgetting expected); ret w)
  visit_found expected w (ok none) = do modify (forgetting expected); ret w
  visit_found expected w (err e) = broken w e

  -- `while let Some(expected) = queue.pop_front()`, with the attempts that are left.
  unfoldable pub walk : ℕ → Walk → T Walk
  unfolding read visit_found
  walk zero w = elim (pop w.visited w.queue) [ none ↦ ret w | some next ↦ do fail; ret w ]
  walk (suc left) w = elim (pop w.visited w.queue) [
    | none ↦ ret w
    | some (expected, queue) ↦
        (read expected.pid >>= visit_found expected (record w { queue = queue })) >>= walk left
  ]
