-- ===== src/Spawn.antt =====
-- What the child does between fork and exec: `ChildSetup::apply` and `finish_spawn` of
-- native/forcola_shim/src/supervisor.rs.
pub mod Run
pub mod Report
pub mod Parent
pub mod Prepared
mod Tests
use Prim.Native.String.{String}
use forcola.Prelude.{
  ℕ, List, [], ◌∷◌, ◌++◌, Bool, true, false, Option, none, some, if◌then◌else◌, ◌⊎◌, inl, inr,
}
use forcola.Errors.{IoError, os, Result, ok, err}
use forcola.PrivDrop
use forcola.PrivDrop.{DropPlan, Process, Kernel}
use forcola.Cgroup.{Written, join_in_child}
use forcola.SpawnError.{
  Stage, spawn, cwd, exec, privdrop, cgroup, pty, SpawnFailure, WriteAnswer, check, ready_for_exec,
  failure,
}

-- `winsize` is rows and columns; `placement` says whether there is a cgroup to join.
pub record ChildSetup : Type 0 where
  pub cwd : Option String
  pub reporter : Bool
  pub plan : Option DropPlan
  pub placement : Bool
  pub pty : Bool
  pub winsize : Option (ℕ × ℕ)

-- What the kernel answers the child, each call being made once at most: `none`, or an errno.
pub record Syscalls : Type 0 where
  pub chdir : String → Option ℕ
  pub setsid : Option ℕ
  pub tiocsctty : Option ℕ
  pub tcsetwinsize : ℕ × ℕ → Option ℕ
  pub pid_text : List ℕ  -- the child's pid as `format_pid` writes it
  pub cgroup_write : Written
  pub identity : Kernel
  pub report : List WriteAnswer

pub data Step : Type 0 where
  change_dir : String → Step
  set_session : Step
  control_terminal : Step
  set_size : ℕ × ℕ → Step
  join_cgroup : Step
  drop_privileges : DropPlan → Step

abbrev pub stage : Step → Stage
stage (change_dir d) = cwd
stage set_session = spawn
stage control_terminal = pty
stage (set_size s) = pty
stage join_cgroup = cgroup
stage (drop_privileges plan) = privdrop

-- The child's identity, what the report pipe holds, and the steps that succeeded in their order.
pub record Child : Type 0 where
  pub process : Process
  pub pipe : List ℕ
  pub done : List Step

-- The errno of a call, if it has one, as a result.
abbrev pub answer : Option ℕ → Result (Unit {0})
answer none = ok tt
answer (some errno) = err (os errno)

-- `none` is a write of the report that has no answer yet.
abbrev pub C : Type 0
C = Child → Option (Result (Unit {0})) × Child

-- The operator `?` on a step.
abbrev pub and_then : Option (Result (Unit {0})) × Child → C → Option (Result (Unit {0})) × Child
and_then (none, c) k = (none, c)
and_then (some (ok u), c) k = k c
and_then (some (err e), c) k = (some (err e), c)

infixl 5 ◌>>◌
unfoldable pub ◌>>◌ : C → C → C
(m >> k) c = and_then (m c) k

abbrev pub skip : C
skip c = (some (ok tt), c)

abbrev pub optional {ℓ} : {A : Type ℓ} → (A → C) → Option A → C
optional f none = skip
optional f (some a) = f a

module _ (sys : Syscalls) where
  -- The call of a step, and the identity behind it.
  unfoldable pub perform : Step → Process → Result (Unit {0}) × Process
  perform (change_dir d) p = (answer (sys.chdir d), p)
  perform set_session p = (answer sys.setsid, p)
  perform control_terminal p = (answer sys.tiocsctty, p)
  perform (set_size s) p = (answer (sys.tcsetwinsize s), p)
  perform join_cgroup p = (join_in_child sys.pid_text sys.cgroup_write, p)
  perform (drop_privileges plan) p =
      let (r, q, calls) = PrivDrop.apply sys.identity plan p in (r, q)

  abbrev pub reported : Bool → Step → IoError → List ℕ → List ℕ
  reported reports step e pipe =
      if reports then (check (stage step) (err e) pipe sys.report).1 else pipe

  -- `ChildSetup::check` around a step.
  unfoldable pub checked : Bool → Step → C
  unfolding perform
  checked reports step c =
      let (r, p) = perform step c.process in
      elim r [
        | ok u ↦ (some (ok u), record c { process = p; done = c.done ++ (step ∷ []) })
        | err e ↦ (some (err e), record c { process = p; pipe = reported reports step e c.pipe })
      ]

  unfoldable pub ready : Bool → C
  ready false c = skip c
  ready true c = let (r, pipe) = ready_for_exec c.pipe sys.report in (r, record c { pipe = pipe })

  -- `apply` up to the report that all is ready.
  unfoldable pub prepare : ChildSetup → C
  unfolding checked
  prepare setup =
      optional (λ d. checked setup.reporter (change_dir d)) setup.cwd
      >> checked setup.reporter set_session
      >> (if setup.pty
          then checked setup.reporter control_terminal
            >> optional (λ s. checked setup.reporter (set_size s)) setup.winsize
          else skip)
      >> (if setup.placement then checked setup.reporter join_cgroup else skip)
      >> optional (λ plan. checked setup.reporter (drop_privileges plan)) setup.plan

  unfoldable pub apply : ChildSetup → C
  unfolding prepare ready
  apply setup = prepare setup >> ready setup.reporter

-- `finish_spawn`: the failure of a spawn. The pipe is there in a structured session only.
unfoldable pub finish_spawn :
    {A : Type 0}
    → Result A
    → Option (List ℕ)
    → String
    → Option String
    → Option String
    → A ⊎ SpawnFailure
finish_spawn (ok child) reader argv0 cwd_path cgroup_path = inl child
finish_spawn (err e) (some pipe) argv0 cwd_path cgroup_path =
    inr (failure pipe e argv0 cwd_path cgroup_path)
finish_spawn (err e) none argv0 cwd_path cgroup_path =
    inr (record { stage = spawn; error = e; path = none })
