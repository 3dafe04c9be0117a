-- ===== src/Protocol.antt =====
-- native/forcola_shim/src/protocol.rs: the payloads of the SPAWN, EXIT and ERROR frames. Their JSON
-- is serde's and stays a parameter of what uses it. Of a signed status or signal number the kernel
-- gives only values from 0 on.
use forcola.Prelude.{ℕ, List, Bool, false, Option}
use Prim.Native.String.{String}

pub record HelloRequest : Type 0 where
  pub features : List String

pub record Capabilities : Type 0 where
  pub protocol : ℕ
  pub features : List String

pub data EnvMode : Type 0 where
  inherit replace : EnvMode

pub data InterruptSignal : Type 0 where
  int : InterruptSignal

pub data CgroupMode : Type 0 where
  best_effort : Bool → CgroupMode
  required : CgroupMode

-- `impl Default for CgroupMode`
abbrev pub default_cgroup : CgroupMode
default_cgroup = best_effort false

pub data UserSpec : Type 0 where
  id : ℕ → UserSpec
  name : String → UserSpec

pub data GroupSpec : Type 0 where
  id : ℕ → GroupSpec
  name : String → GroupSpec

abbrev pub default_kill_grace_ms : ℕ
default_kill_grace_ms = 5_000

-- `env` maps a name to a value to set or, with `none`, to a removal.
pub record SpawnRequest : Type 0 where
  pub argv : List String
  pub cd : Option String
  pub env : List (String × Option String)
  pub merge_stderr : Bool
  pub env_mode : EnvMode
  pub interrupt_signal : Option InterruptSignal
  pub interrupt_grace_ms : Option ℕ
  pub timeout_ms : Option ℕ
  pub kill_grace_ms : ℕ
  pub pty : Bool
  pub pty_rows : Option ℕ
  pub pty_cols : Option ℕ
  pub user : Option UserSpec
  pub group : Option GroupSpec
  pub cgroup : CgroupMode
  pub window_bytes : Option ℕ
  pub stderr_window_bytes : Option ℕ
  pub strict_output : Bool

pub record ExitReport : Type 0 where
  pub status : Option ℕ
  pub signal : Option ℕ
  pub timed_out : Bool
  pub confirmed : Bool
  pub contained : Bool
  pub output_truncated : Bool
  pub scope : Option String
  pub tracked_groups_truncated : Option Bool
