-- ===== src/Tracking/World.antt =====
-- The state of a `Tracker`, the `Source` that it reads processes from, and what it does to both.
use forcola.Prelude.{ℕ, List, [], ◌∷◌, Bool, true, false, Option, none, some, ◌==◌, has_key}
use forcola.Errors.{IoError, os, simple, Kind, invalid_data, unsupported, Result}
use forcola.Identity.{ProcessIdentity, ProcessRecord}
use forcola.Os.{Action, History}
use forcola.Tracking.{Sequence, Cleanup}

-- What the operating system answers, each answer a function of all that the shim did before.
pub record Source : Type 0 where
  pub read : History → ℕ → Result (Option ProcessRecord)
  pub children : History → ℕ → Result (List ℕ)
  pub group_members : History → ℕ → Result (List ℕ)
  pub signal : History → Result (Unit {0})  -- of the signal that the history ends with
  pub reap : History → Result (Unit {0})
  pub now : History → ℕ
  pub kind_of : ℕ → Kind  -- the kind that the standard library gives an errno

-- The hash maps keep the order of insertion here; the source iterates them in an order of its own.
pub record Tracker : Type 0 where
  pub shim : ProcessIdentity
  pub root_pid : ℕ
  pub processes : List (ℕ × ProcessRecord)
  pub groups : List (ProcessIdentity × Option Sequence)
  pub members : List (ProcessIdentity × Sequence)
  pub pending : List ProcessIdentity
  pub cleanup : Option Cleanup
  pub uncertain : Bool
  pub incomplete_scans : ℕ
  pub root_group_unresolved : Bool
  pub group_limit : ℕ
  pub process_limit : ℕ
  pub adopt_orphans : Bool

abbrev pub max_groups : ℕ
max_groups = 4096

abbrev pub max_processes : ℕ
max_processes = 65_536

-- `cfg!(target_os = "linux")` is true here.
unfoldable pub empty : ProcessIdentity → ℕ → Tracker
empty shim root_pid = record {
  shim = shim;
  root_pid = root_pid;
  processes = [];
  groups = [];
  members = [];
  pending = [];
  cleanup = none;
  uncertain = false;
  incomplete_scans = 0;
  root_group_unresolved = false;
  group_limit = max_groups;
  process_limit = max_processes;
  adopt_orphans = true;
}

unfoldable pub with_source : ProcessIdentity → ProcessIdentity → Tracker
unfolding empty
with_source shim root = record (empty shim root.pid) {
  processes = (root.pid, record { identity = root; ppid = shim.pid; exited = false }) ∷ [];
  groups = (root, none) ∷ [];
  pending = root ∷ [];
}

unfoldable pub failed_start : ProcessIdentity → ℕ → Tracker
unfolding empty
failed_start shim root_pid = record (empty shim root_pid) { uncertain = true }

pub root_known : Tracker → Bool
root_known t = has_key (λ a b. a == b) t.root_pid t.processes

pub take_new_groups : Tracker → Tracker × List ProcessIdentity
take_new_groups t = (record t { pending = [] }, t.pending)

pub cleaning : Tracker → Bool
cleaning t = elim t.cleanup [ none ↦ false | some c ↦ true ]

abbrev pub World : Type 0
World = Tracker × History

-- A method: `none` is a panic.
abbrev pub T : Type 0 → Type 0
T A = World → Option A × World

infixl 5 ◌>>=◌ ◌>>◌
unfoldable pub ◌>>=◌ : {A B : Type 0} → T A → (A → T B) → T B
◌>>=◌ m f w = let (r, w') = m w in elim r [ none ↦ (none, w') | some a ↦ f a w' ]

unfoldable pub ◌>>◌ : {B : Type 0} → T (Unit {0}) → T B → T B
unfolding ◌>>=◌
◌>>◌ m k = m >>= λ _. k

unfoldable pub ret : {A : Type 0} → A → T A
ret a w = (some a, w)

unfoldable pub gets : {A : Type 0} → (Tracker → A) → T A
gets f w = (some (f w.0), w)

unfoldable pub modify : (Tracker → Tracker) → T (Unit {0})
modify f w = (some tt, (f w.0, w.1))

-- A call of the source: its answer, and the action in the history.
unfoldable pub ask : {A : Type 0} → (History → A) → Action → T A
ask answer a w = (some (answer w.1), (w.0, a ∷ w.1))

-- `fail`
abbrev pub failing : Tracker → Tracker
failing t = record t { uncertain = true }

abbrev pub fail : T (Unit {0})
fail = modify failing

-- The source's `disappeared`, with `libc::ESRCH` and `libc::ENOENT`.
abbrev pub is_gone_error : IoError → Bool
is_gone_error (os errno) = elim (errno == 3) [ true ↦ true | false ↦ errno == 2 ]
is_gone_error (simple k) = false

abbrev pub is_fatal_kind : Kind → Bool
is_fatal_kind invalid_data = true
is_fatal_kind unsupported = true
is_fatal_kind _ = false

abbrev pub kind : Source → IoError → Kind
kind source (os errno) = source.kind_of errno
kind source (simple k) = k
