-- ===== src/Spawn/Run.antt =====
-- The steps of a `ChildSetup`, and the order that `apply` makes them in.
use forcola.Prelude.{
  ℕ, ◌≡◌, refl, ap, sym, ◌∙◌, List, [], ◌∷◌, ◌++◌, Bool, true, false, Option, none, some, list,
  mapped, if◌then◌else◌,
}
use mathlib.Core.List.{append-nil, append_assoc}
use forcola.Errors.{IoError, Result, ok, err}
use forcola.PrivDrop.{Process}
use forcola.Spawn.{
  ChildSetup, Syscalls, Step, change_dir, set_session, control_terminal, set_size, join_cgroup,
  drop_privileges, Child, C, and_then, ◌>>◌, skip, optional, perform, reported, checked, prepare,
}

-- The steps of a setup: the directory first, then the session, the terminal, the cgroup, and the identity last.
abbrev pub planned : ChildSetup → List Step
planned setup =
    (((list (mapped change_dir setup.cwd) ++ (set_session ∷ []))
        ++ (if setup.pty
            then (control_terminal ∷ []) ++ list (mapped set_size setup.winsize)
            else []))
      ++ (if setup.placement then join_cgroup ∷ [] else []))
    ++ list (mapped drop_privileges setup.plan)

-- How a run of steps ended: all of them succeeded, or one failed and the others were not begun.
pub data Ended (sys : Syscalls) (reports : Bool) (c : Child)
    : List Step → Option (Result (Unit {0})) × Child → Type 0 where
  all_done :
      {steps : List Step} {c' : Child}
      → c'.done ≡ c.done ++ steps
      → c'.pipe ≡ c.pipe
      → Ended sys reports c steps (some (ok tt), c')
  failed :
      {steps : List Step} {c' : Child} (before : List Step) (step : Step) (later : List Step)
      (p : Process) (e : IoError)
      → steps ≡ before ++ (step ∷ later)
      → c'.done ≡ c.done ++ before
      → (perform sys step p).0 ≡ err e
      → c'.pipe ≡ reported sys reports step e c.pipe
      → Ended sys reports c steps (some (err e), c')

module _ (sys : Syscalls) (reports : Bool) where
  skip-Ended : (c : Child) → Ended sys reports c [] (skip c)
  skip-Ended c = all_done (sym (append-nil c.done)) refl

  checked-Ended :
      (step : Step) (c : Child) → Ended sys reports c (step ∷ []) (checked sys reports step c)
  unfolding checked
  checked-Ended step c = at_result (perform sys step c.process).0 refl
    where
      at_result :
          (r : Result (Unit {0}))
          → (perform sys step c.process).0 ≡ r
          → Ended sys reports c (step ∷ []) (elim r [
            | ok u ↦ (
              some (ok u),
              record c { process = (perform sys step c.process).1; done = c.done ++ (step ∷ []) },
            )
            | err e ↦ (
              some (err e),
              record c {
                process = (perform sys step c.process).1;
                pipe = reported sys reports step e c.pipe;
              },
            )
          ])
      at_result (ok u) q = all_done refl refl
      at_result (err e) q = failed [] step [] c.process e refl (sym (append-nil c.done)) q refl

  Ended->> :
      {steps more : List Step} (k : C) {c : Child} {x : Option (Result (Unit {0})) × Child}
      → Ended sys reports c steps x
      → ((c' : Child) → Ended sys reports c' more (k c'))
      → Ended sys reports c (steps ++ more) (and_then x k)
  Ended->> {steps} {more} k {c} (all_done {c'} d p) f = later (k c') (f c')
    where
      later :
          (y : Option (Result (Unit {0})) × Child)
          → Ended sys reports c' more y
          → Ended sys reports c (steps ++ more) y
      later _ (all_done d' p') =
          all_done (d' ∙ ap (λ l. l ++ more) d ∙ append_assoc c.done steps more) (p' ∙ p)
      later _ (failed before step after q e s d' r p') =
          failed (steps ++ before) step after q e
            (ap (λ l. steps ++ l) s ∙ sym (append_assoc steps before (step ∷ after)))
            (d' ∙ ap (λ l. l ++ before) d ∙ append_assoc c.done steps before) r
            (p' ∙ ap (reported sys reports step e) p)
  Ended->> {steps} {more} k {c} (failed before step after q e s d r p) f =
      failed before step (after ++ more) q e
        (ap (λ l. l ++ more) s ∙ append_assoc before (step ∷ after) more) d r p

  optional-Ended :
      {A : Type 0} (f : A → Step) (o : Option A) (c : Child)
      → Ended sys reports c (list (mapped f o)) (optional (λ a. checked sys reports (f a)) o c)
  optional-Ended f none c = skip-Ended c
  optional-Ended f (some a) c = checked-Ended (f a) c

  terminal-Ended :
      (b : Bool) (o : Option (ℕ × ℕ)) (c : Child)
      → Ended sys reports c
          (if b then (control_terminal ∷ []) ++ list (mapped set_size o) else [])
          ((if b
              then checked sys reports control_terminal
                >> optional (λ s. checked sys reports (set_size s)) o
              else skip)
            c)
  unfolding ◌>>◌
  terminal-Ended true o c =
      Ended->> _ (checked-Ended control_terminal c) (optional-Ended set_size o)
  terminal-Ended false o c = skip-Ended c

joins-Ended :
    (sys : Syscalls) (reports b : Bool) (c : Child)
    → Ended sys reports c
        (if b then join_cgroup ∷ [] else [])
        ((if b then checked sys reports join_cgroup else skip) c)
joins-Ended sys reports true c = checked-Ended sys reports join_cgroup c
joins-Ended sys reports false c = skip-Ended sys reports c

pub prepare-Ended :
    (sys : Syscalls) (setup : ChildSetup) (c : Child)
    → Ended sys setup.reporter c (planned setup) (prepare sys setup c)
unfolding prepare ◌>>◌
prepare-Ended sys setup c =
    let b = setup.reporter in
    Ended->> sys b _
      (Ended->> sys b _
        (Ended->> sys b _
          (Ended->> sys b _ (optional-Ended sys b change_dir setup.cwd c)
            (checked-Ended sys b set_session))
          (terminal-Ended sys b setup.pty setup.winsize))
        (joins-Ended sys b setup.placement))
      (optional-Ended sys b drop_privileges setup.plan)
