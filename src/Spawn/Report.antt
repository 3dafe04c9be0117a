-- ===== src/Spawn/Report.antt =====
-- Which step failed, as the parent reads it.
use Prim.Native.String.{String}
use forcola.Prelude.{
  ℕ, ◌≤◌, ◌<◌, ◌≡◌, refl, ap, sym, ◌∙◌, List, [], ◌∷◌, ◌++◌, true, Option, none, some, inl, inr,
  i32_max, arith, Bool-cases, ◌==◌, length,
}
use mathlib.Core.Path.{subst}
use forcola.Errors.{IoError, os, Result, ok, err}
use forcola.PrivDrop.{Process, Kernel, Call}
use forcola.PrivDrop.Laws.{Ran, done, refused, carried, apply-Ran}
use forcola.Cgroup.{Written, join_in_child}
use forcola.SpawnError.{
  spawn, cwd, exec, privdrop, cgroup, pty, check, ready_for_exec, failure, report_bytes, write,
  read_stage, stage_of, path_of, WriteAnswer,
}
use forcola.SpawnError.Laws.{Completes, failure-check, write-Completes, read_stage-report_bytes}
use forcola.Spawn.{
  ChildSetup, Syscalls, Step, change_dir, set_session, control_terminal, set_size, join_cgroup,
  drop_privileges, stage, Child, answer, and_then, ◌>>◌, perform, reported, ready, prepare, apply,
  finish_spawn,
}
use forcola.Spawn.Run.{planned, Ended, all_done, failed, prepare-Ended}

abbrev pub IsErrno : ℕ → Type 0
IsErrno n = (0 < n) × (n ≤ i32_max)

-- The kernel's errnos are positive and fit an `i32`.
pub record HasErrnos (sys : Syscalls) : Type 0 where
  pub chdir : (d : String) (n : ℕ) → sys.chdir d ≡ some n → IsErrno n
  pub setsid : (n : ℕ) → sys.setsid ≡ some n → IsErrno n
  pub tiocsctty : (n : ℕ) → sys.tiocsctty ≡ some n → IsErrno n
  pub tcsetwinsize : (s : ℕ × ℕ) (n : ℕ) → sys.tcsetwinsize s ≡ some n → IsErrno n
  pub cgroup_write : (n : ℕ) → sys.cgroup_write ≡ Written.refused n → IsErrno n
  pub identity : (c : Call) (p : Process) (n : ℕ) → sys.identity c p ≡ some n → IsErrno n

-- An error that is an errno.
abbrev pub IsOs : IoError → Type 0
IsOs e = (n : ℕ) × (e ≡ os n) × IsErrno n

answer-IsOs :
    {o : Option ℕ} {e : IoError} → ((n : ℕ) → o ≡ some n → IsErrno n) → answer o ≡ err e → IsOs e
answer-IsOs {o = none} f q = cc
answer-IsOs {o = some n} f q = (n, cc, f n refl)

join-IsOs :
    (text : List ℕ) {w : Written} {e : IoError}
    → ((n : ℕ) → w ≡ Written.refused n → IsErrno n)
    → join_in_child text w ≡ err e
    → IsOs e
unfolding join_in_child
join-IsOs text {w = Written.refused n} f q = (n, cc, f n refl)
join-IsOs text {w = Written.wrote count} f q = elim (Bool-cases (count == length text)) [
  | inl whole ↦ absurd (ground arith)
  | inr short ↦ (5, ground arith, omega arith)
]

Ran-IsOs :
    {kernel : Kernel} {p : Process} {cs : List Call} {x : Result (Unit {0}) × Process × List Call}
    {e : IoError}
    → ((c : Call) (p : Process) (n : ℕ) → kernel c p ≡ some n → IsErrno n)
    → Ran kernel p cs x
    → x.0 ≡ err e
    → IsOs e
Ran-IsOs f done q = cc
Ran-IsOs {p = p} f (refused {c = c} n r) q = (n, cc, f c p n r)
Ran-IsOs f (carried r x) q = Ran-IsOs f x q

perform-IsOs :
    (sys : Syscalls) (step : Step) (p : Process) (e : IoError)
    → HasErrnos sys
    → (perform sys step p).0 ≡ err e
    → IsOs e
unfolding perform
perform-IsOs sys (change_dir d) p e h q = answer-IsOs (h.chdir d) q
perform-IsOs sys set_session p e h q = answer-IsOs h.setsid q
perform-IsOs sys control_terminal p e h q = answer-IsOs h.tiocsctty q
perform-IsOs sys (set_size s) p e h q = answer-IsOs (h.tcsetwinsize s) q
perform-IsOs sys join_cgroup p e h q = join-IsOs sys.pid_text h.cgroup_write q
perform-IsOs sys (drop_privileges plan) p e h q =
    Ran-IsOs h.identity (apply-Ran sys.identity plan p) q

-- What the parent makes of the report of a step that failed.
failure-step :
    (step : Step) (n : ℕ) (answers : List WriteAnswer) (argv0 : String)
    (cwd_path cgroup_path : Option String)
    → IsErrno n
    → Completes answers
    → failure (check (stage step) (err (os n)) [] answers).1 (os n) argv0 cwd_path cgroup_path
      ≡ record {
        stage = stage step;
        error = os n;
        path = path_of (stage step) argv0 cwd_path cgroup_path;
      }
unfolding failure check stage_of
failure-step set_session n answers argv0 cwd_path cgroup_path (p, l) c =
    ap (λ s. record { stage = s; error = os n; path = path_of s argv0 cwd_path cgroup_path })
      (ap (λ r. read_stage r.1 (os n)) (write-Completes spawn n answers c)
        ∙ read_stage-report_bytes spawn n (os n) l)
failure-step (change_dir d) n answers argv0 cwd_path cgroup_path (p, l) c =
    failure-check cwd n answers argv0 cwd_path cgroup_path refl p l c
failure-step control_terminal n answers argv0 cwd_path cgroup_path (p, l) c =
    failure-check pty n answers argv0 cwd_path cgroup_path refl p l c
failure-step (set_size s) n answers argv0 cwd_path cgroup_path (p, l) c =
    failure-check pty n answers argv0 cwd_path cgroup_path refl p l c
failure-step join_cgroup n answers argv0 cwd_path cgroup_path (p, l) c =
    failure-check cgroup n answers argv0 cwd_path cgroup_path refl p l c
failure-step (drop_privileges plan) n answers argv0 cwd_path cgroup_path (p, l) c =
    failure-check privdrop n answers argv0 cwd_path cgroup_path refl p l c

abbrev pub forked : Process → Child
forked p = record { process = p; pipe = []; done = [] }

-- What the parent is told. Of a child that is ready, any later failure is one of exec; of one that failed, the
-- failure is that of the first step that did not succeed.
pub data Tells (setup : ChildSetup) (argv0 : String) (cwd_path cgroup_path : Option String)
    : Option (Result (Unit {0})) × Child → Type 0 where
  is_ready :
      {c : Child}
      → c.done ≡ planned setup
      → ((e : IoError)
          → finish_spawn {A = Unit {0}} (err e) (some c.pipe) argv0 cwd_path cgroup_path
            ≡ inr (record { stage = exec; error = e; path = some argv0 }))
      → Tells setup argv0 cwd_path cgroup_path (some (ok tt), c)
  stopped :
      {c : Child} (step : Step) (later : List Step) (n : ℕ)
      → planned setup ≡ c.done ++ (step ∷ later)
      → finish_spawn {A = Unit {0}} (err (os n)) (some c.pipe) argv0 cwd_path cgroup_path
        ≡ inr (record {
          stage = stage step;
          error = os n;
          path = path_of (stage step) argv0 cwd_path cgroup_path;
        })
      → Tells setup argv0 cwd_path cgroup_path (some (err (os n)), c)

module _ (sys : Syscalls) (setup : ChildSetup) (argv0 : String)
    (cwd_path cgroup_path : Option String) (structured : setup.reporter ≡ true)
    (errnos : HasErrnos sys) (completes : Completes sys.report) where
  ready-Tells :
      (c : Child)
      → c.done ≡ planned setup
      → c.pipe ≡ []
      → Tells setup argv0 cwd_path cgroup_path (ready sys true c)
  unfolding ready finish_spawn failure ready_for_exec stage_of
  ready-Tells c d p =
      let told : ready_for_exec c.pipe sys.report ≡ (some (ok tt), report_bytes exec 0) =
        ap (λ l. write exec 0 l sys.report) p ∙ write-Completes exec 0 sys.report completes in
      subst (λ x. Tells setup argv0 cwd_path cgroup_path (x.0, record c { pipe = x.1 })) (sym told)
        (is_ready d (λ e.
          ap
            (λ s.
              inr (record { stage = s; error = e; path = path_of s argv0 cwd_path cgroup_path }))
            (read_stage-report_bytes exec 0 e (omega arith))))

  Ended-Tells :
      {p : Process} {x : Option (Result (Unit {0})) × Child}
      → Ended sys setup.reporter (forked p) (planned setup) x
      → Tells setup argv0 cwd_path cgroup_path (and_then x (ready sys true))
  unfolding finish_spawn
  Ended-Tells (all_done {c' = c'} d q) = ready-Tells c' d q
  Ended-Tells (failed {c' = c'} before step later q e s d r p) =
      let (n, same, errno) = perform-IsOs sys step q e errnos r in
      let told : c'.pipe ≡ (check (stage step) (err (os n)) [] sys.report).1 =
        p
        ∙ ap (λ b. reported sys b step e []) structured
        ∙ ap (λ x. reported sys true step x []) same in
      subst (λ x. Tells setup argv0 cwd_path cgroup_path (some (err x), c')) (sym same)
        (stopped step later n (s ∙ ap (λ l. l ++ (step ∷ later)) (sym d)) (
          ap (λ l. inr (failure l (os n) argv0 cwd_path cgroup_path)) told
          ∙ ap inr (failure-step step n sys.report argv0 cwd_path cgroup_path errno completes)))

  -- In a session with structured errors, with errnos that are positive and a report pipe that completes its
  -- write however often it is interrupted, the parent names what failed: if a step of the child fails,
  -- the stage and the errno of the first that did, with the path of that stage, and the steps
  -- before it are those of the plan in their order and no other; if none fails, every step of the plan
  -- was made in its order, and any failure is one of exec, with the program as its path.
  pub apply-Tells :
      (p : Process) → Tells setup argv0 cwd_path cgroup_path (apply sys setup (forked p))
  unfolding apply ◌>>◌
  apply-Tells p =
      subst
        (λ b.
          Tells setup argv0 cwd_path cgroup_path
            (and_then (prepare sys setup (forked p)) (ready sys b)))
        (sym structured) (Ended-Tells (prepare-Ended sys setup (forked p)))
