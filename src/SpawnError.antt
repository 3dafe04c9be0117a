-- ===== src/SpawnError.antt =====
-- native/forcola_shim/src/spawn_error.rs: the report that a failing child writes to its parent, and the
-- stage that the parent reads from it.
pub mod Laws
mod Tests
use Prim.Native.String.{String}
use forcola.Prelude.{
  ℕ, ◌+◌, List, [], ◌∷◌, ◌++◌, take, Bool, true, false, ◌&&◌, Option, none, some, ltb, leb, ◌==◌,
  if◌then◌else◌, lookup, i32_max, to_be_bytes, from_be_bytes,
}
use forcola.Errors.{
  IoError, os, simple, Kind, not_found, permission_denied, invalid_input, invalid_data, unsupported,
  already_exists, would_block, interrupted, timed_out, broken_pipe, write_zero, unexpected_eof,
  out_of_memory, other_kind, Result, ok, err, raw_os_error,
}

pub data Stage : Type 0 where
  spawn cwd exec privdrop cgroup pty : Stage

-- `stage as u8`
abbrev pub stage_code : Stage → ℕ
stage_code spawn = 1
stage_code cwd = 2
stage_code exec = 3
stage_code privdrop = 4
stage_code cgroup = 5
stage_code pty = 6

pub record SpawnFailure : Type 0 where
  pub stage : Stage
  pub error : IoError
  pub path : Option String

-- What `write(2)` answers for the eight bytes: all, some of them, or an errno.
pub data WriteAnswer : Type 0 where
  whole : WriteAnswer
  short : ℕ → WriteAnswer
  refused : ℕ → WriteAnswer

-- `libc::EINTR`, `libc::EIO` and `libc::EINVAL`
abbrev pub eintr : ℕ
eintr = 4

abbrev pub eio : ℕ
eio = 5

abbrev pub einval : ℕ
einval = 22

-- An errno is a positive `i32`.
unfoldable pub report_bytes : Stage → ℕ → List ℕ
report_bytes stage errno = 70 ∷ 83 ∷ stage_code stage ∷ 0 ∷ to_be_bytes 4 errno

-- `ChildReporter::write` against the answers to come, with what the pipe holds behind it; `none` when
-- no answer is left.
unfoldable pub write : Stage → ℕ → List ℕ → List WriteAnswer → Option (Result (Unit {0})) × List ℕ
unfolding report_bytes
write stage errno pipe [] = (none, pipe)
write stage errno pipe (whole ∷ answers) = (some (ok tt), pipe ++ report_bytes stage errno)
write stage errno pipe (short n ∷ answers) =
    (some (err (os eio)), pipe ++ take n (report_bytes stage errno))
write stage errno pipe (refused e ∷ answers) =
    let rest = write stage errno pipe answers in
    if e == eintr then rest else (some (err (os e)), pipe)

abbrev pub errno_or : ℕ → IoError → ℕ
errno_or other (os errno) = errno
errno_or other (simple k) = other

-- `ChildReporter::check`: the result of the operation, and the pipe.
unfoldable pub check :
    Stage → Result (Unit {0}) → List ℕ → List WriteAnswer → Result (Unit {0}) × List ℕ
unfolding write
check stage (ok u) pipe answers = (ok u, pipe)
check stage (err e) pipe answers = (err e, (write stage (errno_or einval e) pipe answers).1)

unfoldable pub ready_for_exec : List ℕ → List WriteAnswer → Option (Result (Unit {0})) × List ℕ
unfolding write
ready_for_exec = write exec 0

-- `n > 0 && error.raw_os_error() == Some(n)`, where `n` is read as an `i32`.
abbrev pub is_errno : ℕ → IoError → Bool
is_errno n (os errno) = ltb 0 n && leb n i32_max && (errno == n)
is_errno n (simple k) = false

unfoldable pub stage_of : ℕ → ℕ → IoError → Stage
stage_of code n error =
    if (code == 2) && is_errno n error
    then cwd
    else if (code == 3) && (n == 0)
    then exec
    else if (code == 4) && is_errno n error
    then privdrop
    else if (code == 5) && is_errno n error
    then cgroup
    else if (code == 6) && is_errno n error
    then pty
    else spawn

-- `read_exact` of eight bytes, and the stage in them.
unfoldable pub read_stage : List ℕ → IoError → Stage
unfolding stage_of
read_stage (f ∷ s ∷ code ∷ z ∷ a ∷ b ∷ c ∷ d ∷ rest) error =
    if (f == 70) && ((s == 83) && (z == 0))
    then stage_of code (from_be_bytes (a ∷ b ∷ c ∷ d ∷ [])) error
    else spawn
read_stage _ error = spawn

abbrev pub path_of : Stage → String → Option String → Option String → Option String
path_of cwd argv0 cwd_path cgroup_path = cwd_path
path_of exec argv0 cwd_path cgroup_path = some argv0
path_of cgroup argv0 cwd_path cgroup_path = cgroup_path
path_of _ argv0 cwd_path cgroup_path = none

-- `ReportReader::failure`
unfoldable pub failure : List ℕ → IoError → String → Option String → Option String → SpawnFailure
unfolding read_stage
failure pipe error argv0 cwd_path cgroup_path =
    let stage = read_stage pipe error in
    record { stage = stage; error = error; path = path_of stage argv0 cwd_path cgroup_path }

abbrev pub os_names : List (ℕ × String)
os_names =
    (2, "enoent")
    ∷ (20, "enotdir")
    ∷ (13, "eacces")
    ∷ (1, "eperm")
    ∷ (22, "einval")
    ∷ (8, "enoexec")
    ∷ (7, "e2big")
    ∷ (40, "eloop")
    ∷ (36, "enametoolong")
    ∷ (12, "enomem")
    ∷ (24, "emfile")
    ∷ (23, "enfile")
    ∷ (5, "eio")
    ∷ (9, "ebadf")
    ∷ (30, "erofs")
    ∷ (28, "enospc")
    ∷ (16, "ebusy")
    ∷ (26, "etxtbsy")
    ∷ (11, "eagain")
    ∷ (4, "eintr")
    ∷ (32, "epipe")
    ∷ (3, "esrch")
    ∷ (17, "eexist")
    ∷ (38, "enosys")
    ∷ (95, "enotsup")
    ∷ (37, "enolck")
    ∷ []

abbrev pub kind_name : Kind → String
kind_name not_found = "not_found"
kind_name permission_denied = "permission_denied"
kind_name invalid_input = "invalid_input"
kind_name invalid_data = "invalid_data"
kind_name unsupported = "unsupported"
kind_name already_exists = "already_exists"
kind_name would_block = "would_block"
kind_name interrupted = "interrupted"
kind_name timed_out = "timed_out"
kind_name broken_pipe = "broken_pipe"
kind_name write_zero = "write_zero"
kind_name unexpected_eof = "unexpected_eof"
kind_name out_of_memory = "out_of_memory"
kind_name other_kind = "other"

-- `error_reason` with Linux's errnos; `kind_of` is the kind that the standard library gives an errno.
unfoldable pub error_reason : (ℕ → Kind) → IoError → String
error_reason kind_of (os errno) = elim (lookup (λ a b. a == b) errno os_names) [
  | some name ↦ name
  | none ↦ kind_name (kind_of errno)
]
error_reason kind_of (simple k) = kind_name k

pub record SpawnErrorReport : Type 0 where
  pub stage : Stage
  pub reason : String
  pub errno : Option ℕ
  pub path : Option String

-- `SpawnFailure::report`
unfoldable pub report : (ℕ → Kind) → SpawnFailure → SpawnErrorReport
unfolding error_reason
report kind_of failure = record {
  stage = failure.stage;
  reason = error_reason kind_of failure.error;
  errno = raw_os_error failure.error;
  path = failure.path;
}
