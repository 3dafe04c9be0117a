-- ===== src/Spawn/Tests.antt =====
-- A child in a directory, a cgroup and on a pty, whose change of identity is refused.
use forcola.Prelude.{ℕ, ◌≡◌, ◌<◌, ◌≤◌, ◌^◌, ◌-◌, refl, [], ◌∷◌, true, false, none, some, inl, arith}
use forcola.Errors.{os, ok, err}
use forcola.PrivDrop
use forcola.PrivDrop.{DropPlan, Process, Kernel, Call, setgroups, setgid, setuid}
use forcola.Protocol.{SpawnRequest, inherit, required}
use forcola.Cgroup.{wrote, join_in_child}
use forcola.SpawnError.{refused, whole, eintr}
use forcola.SpawnError.Laws.{at_once, again}
use forcola.Spawn.{ChildSetup, Syscalls, ◌>>◌, apply}
use forcola.Spawn.Report.{HasErrnos, forked, Tells, apply-Tells}
use forcola.Spawn.Parent
use forcola.Spawn.Parent.{Command, Prepared, spawn_child}
use forcola.Spawn.Prepared.{IsSpawned, spawn_child-IsSpawned}

abbrev setup : ChildSetup
setup = record {
  cwd = some "/srv";
  reporter = true;
  plan = some (record { groups = some []; gid = some 100; uid = some 1000 });
  placement = true;
  pty = true;
  winsize = some (24, 80);
}

-- `setgid` is refused with EPERM, and the first write of the report is interrupted.
abbrev kernel : Kernel
kernel (setgid g) p = some 1
kernel _ p = none

abbrev sys : Syscalls
sys = record {
  chdir = λ d. none;
  setsid = none;
  tiocsctty = none;
  tcsetwinsize = λ s. none;
  pid_text = 49 ∷ 50 ∷ [];
  cgroup_write = wrote 2;
  identity = kernel;
  report = refused eintr ∷ whole ∷ [];
}

abbrev process : Process
process = record { uid = 0; gid = 0; groups = 0 ∷ [] }

kernel_errnos : (c : Call) (p : Process) (n : ℕ) → kernel c p ≡ some n → (0 < n) × (n ≤ 2 ^ 31 - 1)
kernel_errnos (setgroups g) p n e = cc
kernel_errnos (setgid g) p n e = ground arith
kernel_errnos (setuid u) p n e = cc

errnos : HasErrnos sys
errnos = record {
  chdir = λ d n e. cc;
  setsid = λ n e. cc;
  tiocsctty = λ n e. cc;
  tcsetwinsize = λ s n e. cc;
  cgroup_write = λ n e. cc;
  identity = kernel_errnos;
}

apply_test : (apply sys setup (forked process)).0 ≡ some (err (os 1))
unfolding apply ◌>>◌ join_in_child PrivDrop.apply
apply_test = refl

apply-Tells_example :
    Tells setup "/bin/true"
      (some "/srv")
      (some "/sys/fs/cgroup/a")
      (apply sys setup (forked process))
apply-Tells_example =
    apply-Tells sys setup "/bin/true" (some "/srv") (some "/sys/fs/cgroup/a") refl errnos
      (again at_once) process

abbrev request : SpawnRequest
request = record {
  argv = "/bin/true" ∷ "-v" ∷ [];
  cd = some "/srv";
  env = [];
  merge_stderr = false;
  env_mode = inherit;
  interrupt_signal = none;
  interrupt_grace_ms = none;
  timeout_ms = none;
  kill_grace_ms = 5000;
  pty = true;
  pty_rows = some 24;
  pty_cols = none;
  user = none;
  group = none;
  cgroup = required;
  window_bytes = none;
  stderr_window_bytes = none;
  strict_output = false;
}

-- Cgroups, ptys and children are numbers.
abbrev parent : Parent.Parent ℕ ℕ ℕ
parent = record {
  resolve = ok none;
  prepare = none;
  prepare_required = inl 7;
  placement_path = λ c. "/sys/fs/cgroup/a";
  prepare_child_pty = ok 5;
  channel = ok tt;
  has_nul = λ s. false;
  spawn = λ c s. (ok 42, []);
}

spawned : spawn_child parent request true ≡ inl (42, some 5, some 7)
unfolding spawn_child Parent.◌>>=◌
spawned = refl

spawn_child-IsSpawned_example : IsSpawned parent request true (42, some 5, some 7)
spawn_child-IsSpawned_example =
    spawn_child-IsSpawned parent request true (42, some 5, some 7) spawned
