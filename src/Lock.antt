-- ===== src/Lock.antt =====
-- native/forcola_shim/src/lock.rs: lock mode, which holds a whole-file write lock for the BEAM.
pub mod Laws
mod Tests
use forcola.Prelude.{
  ℕ, zero, suc, ◌+◌, ◌-◌, List, [], ◌∷◌, Bool, true, false, ◌||◌, Option, none, some, ◌==◌,
  if◌then◌else◌,
}
use forcola.Errors.{IoError, os, Result, ok, err}

-- Attempts at `F_SETLK`.
abbrev pub attempts : ℕ
attempts = 3

-- `libc::EINTR`, `libc::EACCES` and `libc::EAGAIN`
abbrev pub eintr : ℕ
eintr = 4

abbrev pub eacces : ℕ
eacces = 13

abbrev pub eagain : ℕ
eagain = 11

pub data Attempt : Type 0 where
  acquired : Attempt
  held : (pid : ℕ) → Attempt

-- The answer of `fcntl(F_GETLK)`: an error, no conflicting lock, or one with its pid.
pub data Probe : Type 0 where
  failed unlocked : Probe
  locked : (pid : ℕ) → Probe

-- What `fcntl` answers on each attempt: an errno or success for `F_SETLK`, and the probe.
pub record Fcntl : Type 0 where
  pub set : ℕ → Option ℕ
  pub get : ℕ → Probe

module _ (fcntl : Fcntl) where
  -- Behind a probe; `rest` is the attempts that follow.
  probed : Result Attempt → Probe → Result Attempt
  probed rest failed = ok (held 0)
  probed rest unlocked = rest
  probed rest (locked pid) = ok (held pid)

  tried : ℕ → Result Attempt → Option ℕ → Result Attempt
  unfolding probed
  tried i rest none = ok acquired
  tried i rest (some errno) =
      if errno == eintr
      then rest
      else if (errno == eacces) || (errno == eagain)
      then probed rest (fcntl.get i)
      else err (os errno)

  -- The last `left` attempts, from the one with index `i` on.
  acquire_from : ℕ → ℕ → Result Attempt
  unfolding tried
  acquire_from zero i = ok (held 0)
  acquire_from (suc left) i = tried i (acquire_from left (suc i)) (fcntl.set i)

  unfoldable pub acquire : Result Attempt
  unfolding acquire_from
  acquire = acquire_from attempts 0

-- The line on stdout.
pub data Line : Type 0 where
  error_usage ok_line : Line
  held_line : (pid : ℕ) → Line
  error_open error_lock : IoError → Line

-- A run: its line, whether it then waited for stdin, and its exit status.
pub record Run : Type 0 where
  pub line : Line
  pub waited : Bool
  pub status : ℕ

abbrev pub exit_released : ℕ
exit_released = 0

abbrev pub exit_usage : ℕ
exit_usage = 2

abbrev pub exit_held : ℕ
exit_held = 3

abbrev pub exit_open : ℕ
exit_open = 4

abbrev pub exit_lock : ℕ
exit_lock = 5

abbrev pub finish : Line → ℕ → Run
finish line status = record { line = line; waited = false; status = status }

-- `write_ok` is whether the line `ok` could be written.
abbrev pub answered : Bool → Result Attempt → Run
answered write_ok (ok acquired) = record {
  line = ok_line;
  waited = write_ok;
  status = exit_released;
}
answered write_ok (ok (held pid)) = finish (held_line pid) exit_held
answered write_ok (err e) = finish (error_lock e) exit_lock

-- `run`, given whether there is exactly one argument that is not empty, and what `open` answered.
unfoldable pub run : Bool → Result Fcntl → Bool → Run
unfolding acquire
run one_path (ok fcntl) write_ok =
    if one_path then answered write_ok (acquire fcntl) else finish error_usage exit_usage
run one_path (err e) write_ok =
    if one_path then finish (error_open e) exit_open else finish error_usage exit_usage
