-- ===== src/Os.antt =====
-- What the shim does to the world around it, as a history of actions, and what it is answered. The
-- operating system, the clock, the child and the other threads are not the shim's code: each answer
-- is a function of all that happened before the call, so an environment may do anything that it does
-- not do by looking ahead. A model's action returns the longer history; `none` is a loop that ran out
-- of fuel.
pub mod Laws
use forcola.Prelude.{ℕ, ◌+◌, ◌*◌, ◌≤◌, List, [], ◌∷◌, ◌++◌, Bool, true, false, Option, none, some}
use forcola.Errors.{Result, Kind}
use forcola.Identity.{ProcessRecord}

-- The signals that the shim sends to a process group.
pub data Signal : Type 0 where
  int term kill : Signal

-- The two output pipes that can have a read budget.
pub data Pipe : Type 0 where
  stdout stderr : Pipe

pub data Action : Type 0 where
  clock : Action  -- `Instant::now()`
  sleep : (d : ℕ) → Action  -- `thread::sleep`
  signal_group : (pgid : ℕ) (s : Signal) → Action  -- `process::kill_process_group`
  probe_group : (pgid : ℕ) → Action  -- `process::test_kill_process_group`
  cgroup_kill : Action  -- `Cgroup::kill`
  cgroup_probe : Action  -- `Cgroup::drained`
  cgroup_remove : Action  -- `Cgroup::remove`
  grant : (p : Pipe) (n : ℕ) → Action  -- `Credit::grant`
  uncork : (p : Pipe) → Action  -- `Credit::uncork`
  cancel : (p : Pipe) → Action  -- `Credit::cancel`
  close_input : Action  -- `ChildInput::close`
  pump_wait : (d : ℕ) → Action  -- `pump_done.recv_timeout`
  peer_probe : Action  -- `PeerMonitor::disconnected`
  poll_event : Action  -- `rx.try_recv`
  read_boot : Action  -- `/proc/sys/kernel/random/boot_id`
  read_process : (pid : ℕ) → Action  -- `identity::read_process`
  list_processes : Action  -- `read_dir("/proc")`
  signal_process : (pid : ℕ) (s : Signal) → Action  -- `kill(pid, s)`
  list_children : (pid : ℕ) → Action  -- `Source::children`
  list_group : (pgid : ℕ) → Action  -- `Source::group_members`
  reap : (pid : ℕ) → Action  -- `waitpid(pid, WNOHANG)`
  send_frame : (tag : ℕ) (payload : List ℕ) → Action  -- `frame::write_frame` on the shared writer

-- The newest action comes first.
abbrev pub History : Type 0
History = List Action

-- The answer of `kill(-pgid, 0)`: success, ESRCH, or another errno.
pub data Probe : Type 0 where
  delivered no_process refused : Probe

-- The answer of `recv_timeout` on the channel of the finished pumps.
pub data Done : Type 0 where
  finished elapsed disconnected : Done

-- Times are in nanoseconds.
pub record Env : Type 0 where
  pub now : History → ℕ
  pub probe : History → ℕ → Probe
  pub drained : History → Bool
  pub pump_done : History → ℕ → Done
  pub peer_gone : History → Bool
  pub ready : History → Bool  -- whether `try_recv` has an event
  pub boot : History → Result (List ℕ)  -- trimmed
  pub process : History → ℕ → Result ProcessRecord
  pub processes : History → Result (List (Result (Option ℕ)))  -- entries, with the pid of a number
  pub killed : History → Bool  -- whether `kill` of a group gave 0
  pub kind_of : ℕ → Kind  -- the kind that the standard library gives an errno

-- The clock does not go back, and a sleep takes at least its time.
pub record IsClock (env : Env) : Type 0 where
  pub forward : (a : Action) (h : History) → env.now h ≤ env.now (a ∷ h)
  pub slept : (d : ℕ) (h : History) → env.now h + d ≤ env.now (sleep d ∷ h)

abbrev pub M : Type 0 → Type 0
M A = History → Option A × History

infixl 5 ◌>>=◌ ◌>>◌
abbrev pub ◌>>=◌ : {A B : Type 0} → M A → (A → M B) → M B
◌>>=◌ m f h = let (r, h') = m h in elim r [ none ↦ (none, h') | some a ↦ f a h' ]

abbrev pub ◌>>◌ : {B : Type 0} → M (Unit {0}) → M B → M B
◌>>◌ m k = m >>= λ _. k

abbrev pub ret : {A : Type 0} → A → M A
ret a h = (some a, h)

abbrev pub act : Action → M (Unit {0})
act a h = (some tt, a ∷ h)

abbrev pub when : Bool → Action → M (Unit {0})
when true a = act a
when false a = ret tt

-- A whole number of milliseconds.
abbrev pub ms : ℕ → ℕ
ms n = n * 1_000_000
