-- ===== src/Groups/Tests.antt =====
-- One recorded group whose leader lives, in an environment whose clock moves with the sleeps.
use forcola.Prelude.{
  ℕ, ◌+◌, ◌≤◌, ◌≡◌, refl, List, [], ◌∷◌, Bool, true, false, if◌then◌else◌, none, some, arith,
}
use forcola.Errors.{ok, err, os, other_kind}
use forcola.Identity.{ProcessIdentity}
use forcola.Os.{
  Action, sleep, signal_group, signal_process, read_process, list_processes, term, History, Env,
  IsClock, delivered, finished,
}
use forcola.Groups.{group, State, gone, led, signal, observe_all, stop}
use forcola.Groups.Safety.{Justified}
use forcola.Groups.Sticky.{Sticky, stop-Sticky}
use forcola.Groups.Stopping.{stop-Justified}

abbrev leader : ProcessIdentity
leader = record { pid = 42; pgid = 42; start_time = record { boot_id = 7 ∷ []; ticks = 99 } }

abbrev time : History → ℕ
time [] = 0
time (sleep d ∷ h) = time h + d
time (_ ∷ h) = time h

-- Whether a signal was sent to a group.
abbrev hit : History → Bool
hit [] = false
hit (signal_group pgid s ∷ h) = true
hit (_ ∷ h) = hit h

abbrev env : Env
env = record {
  now = time;
  probe = λ h pgid. delivered;
  drained = λ h. true;
  pump_done = λ h d. finished;
  peer_gone = λ h. false;
  ready = λ h. false;
  boot = λ h. ok (7 ∷ []);
  process = λ h pid.
      if hit h then err (os 3) else ok (record { identity = leader; ppid = 1; exited = false });
  processes = λ h. ok [];
  killed = λ h. true;
  kind_of = λ n. other_kind;
}

time_forward : (a : Action) (h : History) → time h ≤ time (a ∷ h)
time_forward (sleep d) h = omega arith
time_forward _ h = omega arith

env-IsClock : IsClock env
env-IsClock = record { forward = time_forward; slept = λ d h. omega arith }

stop-Justified_example :
    (states : List State) × (after : History) × (stop env (group leader ∷ []) (some 10) 5 []
      ≡ (some states, after))
    × Justified env (group leader ∷ []) after
stop-Justified_example = stop-Justified env (group leader ∷ []) env-IsClock (some 10) 5

-- A leader that has taken over the pid: the group is not signalled as one, but its processes are.
abbrev taken : Env
taken = record env {
  process = λ h pid. ok (record {
    identity = record {
      pid = 42;
      pgid = 42;
      start_time = record { boot_id = 7 ∷ []; ticks = 500 };
    };
    ppid = 1;
    exited = false;
  });
  processes = λ h. ok (ok (some 42) ∷ []);
}

taken_test :
    (signal taken leader led term []).1
    ≡ signal_process 42 term
      ∷ read_process 42
      ∷ read_process 42
      ∷ read_process 42
      ∷ list_processes
      ∷ read_process 42
      ∷ []
unfolding signal
taken_test = refl

-- Recorded before the machine was started again.
abbrev earlier : ProcessIdentity
earlier = record { pid = 42; pgid = 42; start_time = record { boot_id = 6 ∷ []; ticks = 99 } }

stop-Sticky_example :
    (xs : List State) × ((observe_all env (group earlier ∷ group leader ∷ []) []).0 ≡ some xs)
    × Sticky xs (gone ∷ gone ∷ [])
unfolding stop
stop-Sticky_example =
    stop-Sticky env (group earlier ∷ group leader ∷ []) none 5 [] (gone ∷ gone ∷ []) refl
