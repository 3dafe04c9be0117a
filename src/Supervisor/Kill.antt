-- ===== src/Supervisor/Kill.antt =====
-- `kill_group` of supervisor.rs: the escalation against a process group.
pub mod Escalation
pub mod Quiet
use forcola.Prelude.{
  ℕ, zero, suc, ◌+◌, ◌≤◌, ◌<◌, ◌≡◌, refl, ap, sym, ◌∙◌, List, [], ◌∷◌, ◌++◌, map, Bool, true, false,
  not, Option, none, some, arith, Bool-cases, inl, inr,
}
use forcola.Os.{
  Signal, int, term, kill, Action, clock, sleep, signal_group, probe_group, cgroup_kill, History,
  Probe, delivered, no_process, refused, Env, IsClock, M, ◌>>=◌, ◌>>◌, ret, act, when, ms,
}
use forcola.Os.Laws.{Extends, Grows, here, add}
use forcola.Supervisor.Wait.{wait_until, Ends, wait_until-Ends, wait_until-Keeps}

-- Only ESRCH says that a group is gone.
unfoldable pub probe_says_alive : Probe → Bool
probe_says_alive delivered = true
probe_says_alive no_process = false
probe_says_alive refused = true

module _ (env : Env) where
  unfoldable pub group_alive : ℕ → M Bool
  group_alive pgid h = (some (probe_says_alive (env.probe h pgid)), probe_group pgid ∷ h)

  -- The test `|| !group_alive(pgid)` of each wait.
  unfoldable pub group_gone : ℕ → M Bool
  unfolding group_alive
  group_gone pgid = do alive ← group_alive pgid; ret (not alive)

  module _ (pgid grace : ℕ) (cgroup : Bool) where
    -- The SIGINT stage, if the request has one; `true` returns early.
    interrupt : Option ℕ → M Bool
    unfolding group_gone
    interrupt none = ret false
    interrupt (some int_grace) = do
      act (signal_group pgid int)
      wait_until env int_grace (ms 10) (group_gone pgid)

    force : Bool → M Bool
    unfolding group_gone
    force true = ret true
    force false = do act (signal_group pgid kill); wait_until env (ms 500) (ms 10) (group_gone pgid)

    -- From the end of SIGTERM's grace on.
    after_term : Bool → M Bool
    unfolding force
    after_term confirmed = do confirmed' ← force confirmed; when cgroup cgroup_kill; ret confirmed'

    terminate : M Bool
    unfolding group_gone after_term
    terminate = do
      act (signal_group pgid term)
      confirmed ← wait_until env grace (ms 20) (group_gone pgid)
      after_term confirmed

    after_interrupt : Bool → M Bool
    unfolding terminate
    after_interrupt true = do when cgroup cgroup_kill; ret true
    after_interrupt false = terminate

    unfoldable pub kill_group : Option ℕ → M Bool
    unfolding interrupt after_interrupt
    kill_group interrupt_grace = do gone ← interrupt interrupt_grace; after_interrupt gone
