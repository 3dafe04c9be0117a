-- ===== src/Supervisor/Tests.antt =====
-- A run of the supervisor in an environment whose clock moves with the waits.
use forcola.Prelude.{
  ℕ, ◌+◌, ◌≤◌, ◌≡◌, refl, List, [], ◌∷◌, Bool, true, false, Option, none, some, arith,
}
use forcola.Protocol.{ExitReport}
use forcola.Frame.{tag_credit}
use forcola.Errors.{ok, err, os, other_kind}
use forcola.Os.{
  Action, sleep, pump_wait, signal_group, kill, probe_group, History, Probe, delivered, no_process,
  finished, Env, IsClock,
}
use forcola.Os.Laws.{add, here}
use forcola.Supervisor.Wait.{wait_until, wait_until-Ends, Ends}
use forcola.Supervisor.Kill.{group_gone, group_alive, kill_group}
use forcola.Supervisor.Kill.Escalation.{Killed, kill_group-Killed}
use forcola.Supervisor.Drain.{Event, stdin, stdin_closed, child_exited, timed_out, Config}
use forcola.Supervisor.Loop.{supervise, fresh}
use forcola.Supervisor.Loop.Events.{Looped, run_loop-Looped, before_exit, is_goodbye}
use forcola.Supervisor.Loop.Report.{Concluded, supervise-Concluded}

abbrev time : History → ℕ
time [] = 0
time (sleep d ∷ h) = time h + d
time (pump_wait d ∷ h) = time h + d
time (_ ∷ h) = time h

-- A group that only SIGKILL ends.
abbrev stubborn : History → Probe
stubborn [] = delivered
stubborn (signal_group pgid kill ∷ h) = no_process
stubborn (_ ∷ h) = stubborn h

abbrev env : Env
env = record {
  now = time;
  probe = λ h pgid. stubborn h;
  drained = λ h. true;
  pump_done = λ h d. finished;
  peer_gone = λ h. false;
  ready = λ h. false;
  boot = λ h. ok [];
  process = λ h pid. err (os 3);
  processes = λ h. ok [];
  killed = λ h. true;
  kind_of = λ n. other_kind;
}

time_forward : (a : Action) (h : History) → time h ≤ time (a ∷ h)
time_forward (sleep d) h = omega arith
time_forward (pump_wait d) h = omega arith
time_forward _ h = omega arith

env-IsClock : IsClock env
env-IsClock = record { forward = time_forward; slept = λ d h. omega arith }

abbrev cfg : Config
cfg = record {
  pgid = 42;
  kill_grace = 5;
  interrupt_grace = none;
  cgroup = false;
  credit = true;
  stderr_credit = false;
  strict_output = false;
  peer = false;
  pumps = 2;
}

-- A credit grant, the timeout, then the killed child.
abbrev events : List Event
events =
    stdin (record { tag = tag_credit; payload = 0 ∷ 0 ∷ 0 ∷ 0 ∷ 0 ∷ 0 ∷ 0 ∷ 9 ∷ [] })
    ∷ timed_out
    ∷ child_exited (record { status = none; signal = some 9 })
    ∷ stdin_closed
    ∷ []

abbrev encode : ExitReport → Option (List ℕ)
encode r = some (123 ∷ 125 ∷ [])

wait_until-Ends_example :
    (b : Bool) × ((wait_until env 30 10 (group_gone env 42) []).0 ≡ some b)
    × Ends env (time [] + 30) (group_gone env 42) b (wait_until env 30 10 (group_gone env 42) []).1
unfolding group_gone group_alive
wait_until-Ends_example =
    wait_until-Ends env 30 10 (group_gone env 42) [] env-IsClock (omega arith)
      (λ k. add (probe_group 42) here) (λ k. (_, refl))

kill_group-Killed_example :
    (b : Bool) × ((kill_group env 42 5 false (some 10) []).0 ≡ some b)
    × Killed env 42 false (some 10) b [] (kill_group env 42 5 false (some 10) []).1
kill_group-Killed_example = kill_group-Killed env 42 5 false (some 10) [] env-IsClock

run_loop-Looped_example : Looped env cfg env-IsClock events fresh []
run_loop-Looped_example = run_loop-Looped env cfg env-IsClock events fresh []

supervise-Concluded_example :
    (after : History) × (supervise env cfg encode 0 events []
      ≡ (some (before_exit is_goodbye events), after))
    × Concluded env cfg encode events [] (before_exit is_goodbye events) after
supervise-Concluded_example = supervise-Concluded env cfg encode 0 events [] env-IsClock refl
