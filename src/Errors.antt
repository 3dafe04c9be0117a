-- ===== src/Errors.antt =====
-- `io::Error` and `io::Result` of the standard library, as far as the shim reads them.
use forcola.Prelude.{ℕ, Option, none, some}

-- `io::ErrorKind`, with the kinds that spawn_error.rs names.
pub data Kind : Type 0 where
  not_found permission_denied invalid_input invalid_data unsupported already_exists would_block :
      Kind
  interrupted timed_out broken_pipe write_zero unexpected_eof out_of_memory other_kind : Kind

-- An error of the system, with its errno, or of a kind alone.
pub data IoError : Type 0 where
  os : (errno : ℕ) → IoError
  simple : Kind → IoError

abbrev pub raw_os_error : IoError → Option ℕ
raw_os_error (os errno) = some errno
raw_os_error (simple k) = none

pub data Result {ℓ} (A : Type ℓ) : Type ℓ where
  ok : A → Result A
  err : IoError → Result A

-- The operator `?`.
infixl 5 ◌>>=◌
abbrev pub ◌>>=◌ {ℓ ℓ'} : {A : Type ℓ} {B : Type ℓ'} → Result A → (A → Result B) → Result B
ok a >>= f = f a
err e >>= f = err e

-- `Option::ok_or_else`
abbrev pub ok_or {ℓ} : {A : Type ℓ} → IoError → Option A → Result A
ok_or e none = err e
ok_or e (some a) = ok a
