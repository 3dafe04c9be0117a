-- ===== src/Prelude/Options.antt =====
-- Options: as a list, under a function, and with a default.
use Prim.Native.Nat.{ℕ}
use mathlib.Core.Option.{Option, none, some}
use mathlib.Core.List.{List, [], ◌∷◌}

abbrev pub list {ℓ} : {A : Type ℓ} → Option A → List A
list none = []
list (some a) = a ∷ []

abbrev pub mapped {ℓ ℓ'} : {A : Type ℓ} {B : Type ℓ'} → (A → B) → Option A → Option B
mapped f none = none
mapped f (some a) = some (f a)

abbrev pub or_zero : Option ℕ → ℕ
or_zero none = 0
or_zero (some n) = n
