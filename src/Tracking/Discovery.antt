-- ===== src/Tracking/Discovery.antt =====
-- The steps of `scan` of tracking.rs, up to its count of the incomplete scans.
use forcola.Prelude.{
  ℕ, zero, suc, refl, List, [], ◌∷◌, Bool, Option, none, some, Option-cases, inl, inr,
}
use forcola.Errors.{IoError, Result, ok, err}
use forcola.Identity.{ProcessIdentity, ProcessRecord}
use forcola.Os.{reap}
use forcola.Tracking.World.{Source, T, ask, fail}
use forcola.Tracking.Scan.{
  Walk, pop, read, children, group_members, scan_error, broken, child_found, add_children,
  parent_again, with_children, visit_current, visit_found, walk,
}
use forcola.Tracking.Refresh.{
  member_found, add_members, root_again, root_members, anchored, scan_root_group, reaped, is_zombie,
  reap_all, inventory,
}
use forcola.Tracking.Evolves.{
  NoTarget, Fine, Fine->>=, Fine->>, ret-Fine, gets-Fine, modify-Fine, ask-Fine, if-Fine,
}
use forcola.Tracking.Keeps.{
  Keeps, failing-Keeps, insert_at-Keeps, remove_process-Keeps, forgetting-Keeps, add_groups-Keeps,
  keep_groups-Keeps, keep_members-Keeps, unresolved-Keeps, refreshed-Keeps,
}

module _ (source : Source) where
  abbrev pub Scans : {A : Type 0} → T A → Type 0
  Scans m = Fine source Keeps NoTarget ⊥ m

  ruleset steps = (Fine->>=, Fine->>, ret-Fine, gets-Fine, modify-Fine, if-Fine, failing-Keeps)

  fail-Scans : Scans fail
  fail-Scans = modify-Fine source Keeps NoTarget ⊥ failing-Keeps

  read-Scans : (pid : ℕ) → Scans (read source pid)
  unfolding read
  read-Scans pid = ask-Fine source Keeps NoTarget ⊥ _ _ refl

  scan_error-Scans : (e : IoError) → Scans (scan_error source e)
  unfolding scan_error
  scan_error-Scans e = search steps

  broken-Scans : (w : Walk) (e : IoError) → Scans (broken source w e)
  unfolding broken
  broken-Scans w e = search (steps, scan_error-Scans)

  child_found-Scans :
      (id : ProcessIdentity) (pid : ℕ) (w : Walk) (r : Result (Option ProcessRecord))
      → Scans (child_found source id pid w r)
  unfolding child_found
  child_found-Scans id pid w (err e) = search (steps, broken-Scans)
  child_found-Scans id pid w (ok none) = search steps
  child_found-Scans id pid w (ok (some child)) = search (steps, insert_at-Keeps) depth 12

  add_children-Scans :
      (id : ProcessIdentity) (pids : List ℕ) (w : Walk) → Scans (add_children source id pids w)
  unfolding add_children
  add_children-Scans id [] w = search steps
  add_children-Scans id (pid ∷ pids) w =
      search (steps, read-Scans, child_found-Scans, add_children-Scans id pids) depth 12

  parent_again-Scans :
      (id : ProcessIdentity) (pids : List ℕ) (w : Walk) (r : Result (Option ProcessRecord))
      → Scans (parent_again source id pids w r)
  unfolding parent_again
  parent_again-Scans id pids w (ok (some p)) = search (steps, add_children-Scans)
  parent_again-Scans id pids w (ok none) = search steps
  parent_again-Scans id pids w (err e) = search (broken-Scans)

  with_children-Scans :
      (id : ProcessIdentity) (w : Walk) (r : Result (List ℕ)) → Scans (with_children source id w r)
  unfolding with_children
  with_children-Scans id w (ok pids) = search (steps, read-Scans, parent_again-Scans)
  with_children-Scans id w (err e) = search (steps, broken-Scans)

  children-Scans : (pid : ℕ) → Scans (children source pid)
  unfolding children
  children-Scans pid = ask-Fine source Keeps NoTarget ⊥ _ _ refl

  visit_current-Scans :
      (id : ProcessIdentity) (p : ProcessRecord) (w : Walk) → Scans (visit_current source id p w)
  unfolding visit_current
  visit_current-Scans id p w =
      search (steps, children-Scans, with_children-Scans, refreshed-Keeps) depth 12

  visit_found-Scans :
      (id : ProcessIdentity) (w : Walk) (r : Result (Option ProcessRecord))
      → Scans (visit_found source id w r)
  unfolding visit_found
  visit_found-Scans id w (ok (some p)) = search (steps, visit_current-Scans, forgetting-Keeps)
  visit_found-Scans id w (ok none) = search (steps, forgetting-Keeps)
  visit_found-Scans id w (err e) = search (broken-Scans)

  walk-Scans : (left : ℕ) (w : Walk) → Scans (walk source left w)
  unfolding walk
  walk-Scans zero w = elim (Option-cases (pop w.visited w.queue)) [
    | inl e ↦ rw (e, walk) (ret-Fine source Keeps NoTarget ⊥ w)
    | inr (next, e) ↦ rw (e, walk) (search (steps, fail-Scans))
  ]
  walk-Scans (suc left) w = elim (Option-cases (pop w.visited w.queue)) [
    | inl e ↦ rw (e, walk) (ret-Fine source Keeps NoTarget ⊥ w)
    | inr ((id, queue), e) ↦
        rw (e, walk) (search (steps, read-Scans, visit_found-Scans, walk-Scans left))
  ]

  member_found-Scans :
      (id : ProcessIdentity) (pid : ℕ) (w : Bool × Bool) (r : Result (Option ProcessRecord))
      → Scans (member_found source id pid w r)
  unfolding member_found
  member_found-Scans id pid w (err e) = search (steps, scan_error-Scans)
  member_found-Scans id pid w (ok none) = search steps
  member_found-Scans id pid w (ok (some member)) = search (steps, insert_at-Keeps) depth 12

  add_members-Scans :
      (id : ProcessIdentity) (pids : List ℕ) (w : Bool × Bool)
      → Scans (add_members source id pids w)
  unfolding add_members
  add_members-Scans id [] w = search steps
  add_members-Scans id (pid ∷ pids) w =
      search (steps, read-Scans, member_found-Scans, add_members-Scans id pids) depth 12

  root_again-Scans :
      (id : ProcessIdentity) (pids : List ℕ) (b : Bool) (r : Result (Option ProcessRecord))
      → Scans (root_again source id pids b r)
  unfolding root_again
  root_again-Scans id pids b (ok (some root)) =
      search (steps, fail-Scans, add_members-Scans, unresolved-Keeps) depth 12
  root_again-Scans id pids b (ok none) = search (steps, fail-Scans)
  root_again-Scans id pids b (err e) = search (steps, scan_error-Scans)

  root_members-Scans :
      (id : ProcessIdentity) (b : Bool) (r : Result (List ℕ)) → Scans (root_members source id b r)
  unfolding root_members
  root_members-Scans id b (ok pids) = search (steps, read-Scans, root_again-Scans)
  root_members-Scans id b (err e) = search (steps, scan_error-Scans)

  group_members-Scans : (pgid : ℕ) → Scans (group_members source pgid)
  unfolding group_members
  group_members-Scans pgid = ask-Fine source Keeps NoTarget ⊥ _ _ refl

  anchored-Scans : (b : Bool) (o : Option ProcessIdentity) → Scans (anchored source b o)
  unfolding anchored
  anchored-Scans b none = search steps
  anchored-Scans b (some id) =
      search (steps, unresolved-Keeps, group_members-Scans, root_members-Scans) depth 12

  scan_root_group-Scans : (b : Bool) → Scans (scan_root_group source b)
  unfolding scan_root_group
  scan_root_group-Scans b = search (steps, unresolved-Keeps, anchored-Scans) depth 12

  reaped-Scans : (pid : ℕ) (r : Result (Unit {0})) → Scans (reaped source pid r)
  unfolding reaped
  reaped-Scans pid (ok u) = search (steps, remove_process-Keeps)
  reaped-Scans pid (err e) = fail-Scans

  reap-Scans : (pid : ℕ) → Scans (ask source.reap (reap pid))
  reap-Scans pid = ask-Fine source Keeps NoTarget ⊥ _ _ refl

  reap_all-Scans : (rs : List ProcessRecord) → Scans (reap_all source rs)
  unfolding reap_all
  reap_all-Scans [] = search steps
  reap_all-Scans (r ∷ rs) =
      Fine->>= source Keeps NoTarget ⊥ (gets-Fine source Keeps NoTarget ⊥ (is_zombie r)) (λ zombie.
        Fine->> source Keeps NoTarget ⊥
          (if-Fine source Keeps NoTarget ⊥ zombie _ _
            (Fine->>= source Keeps NoTarget ⊥ (reap-Scans r.identity.pid)
              (reaped-Scans r.identity.pid))
            (ret-Fine source Keeps NoTarget ⊥ tt))
          (reap_all-Scans rs))

  pub inventory-Scans : Scans (inventory source)
  unfolding inventory
  inventory-Scans =
      search
        (
          steps, walk-Scans, scan_root_group-Scans, reap_all-Scans, keep_groups-Keeps,
          add_groups-Keeps, keep_members-Keeps,
        )
        depth 30
