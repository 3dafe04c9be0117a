-- ===== src/Identity.antt =====
-- native/forcola_shim/src/identity.rs: what the shim knows a process by, on Linux.
pub mod Stat
pub mod Fields
pub mod Printed
pub mod Bounds
mod Tests
use forcola.Prelude.{ℕ, ◌≡◌, refl, List, [], ◌∷◌, Bool, true, false, ◌&&◌, ◌==◌, arith}

pub record StartTime : Type 0 where
  pub boot_id : List ℕ
  pub ticks : ℕ

pub record ProcessIdentity : Type 0 where
  pub pid : ℕ
  pub pgid : ℕ
  pub start_time : StartTime

pub record ProcessRecord : Type 0 where
  pub identity : ProcessIdentity
  pub ppid : ℕ
  pub exited : Bool

-- The derived `==` of the types.
abbrev pub same_text : List ℕ → List ℕ → Bool
same_text [] [] = true
same_text (a ∷ xs) (b ∷ ys) = (a == b) && same_text xs ys
same_text _ _ = false

abbrev pub same_start : StartTime → StartTime → Bool
same_start a b = same_text a.boot_id b.boot_id && (a.ticks == b.ticks)

abbrev pub same_identity : ProcessIdentity → ProcessIdentity → Bool
same_identity a b = (a.pid == b.pid) && ((a.pgid == b.pgid) && same_start a.start_time b.start_time)

abbrev pub same_process : ProcessIdentity → ProcessIdentity → Bool
same_process a b = (a.pid == b.pid) && same_start a.start_time b.start_time

same_text-eq : (xs ys : List ℕ) → same_text xs ys ≡ true → xs ≡ ys
same_text-eq [] [] e = refl
same_text-eq (a ∷ xs) (b ∷ ys) e = ground (arith, same_text-eq xs ys)
same_text-eq [] (b ∷ ys) e = cc
same_text-eq (a ∷ xs) [] e = cc

same_start-eq : (a b : StartTime) → same_start a b ≡ true → a ≡ b
same_start-eq a b e = ground (arith, same_text-eq a.boot_id b.boot_id)

pub same_identity-eq : (a b : ProcessIdentity) → same_identity a b ≡ true → a ≡ b
same_identity-eq a b e = ground (arith, same_text-eq a.start_time.boot_id b.start_time.boot_id)

pub same_process-eq :
    (a b : ProcessIdentity)
    → same_process a b ≡ true
    → (a.pid ≡ b.pid) × (a.start_time ≡ b.start_time)
same_process-eq a b e =
    let start : same_start a.start_time b.start_time ≡ true = ground arith in
    (ground arith, same_start-eq a.start_time b.start_time start)
