-- ===== src/Prelude/Maps.antt =====
-- Maps as association lists under a test for equal keys; a new key goes to the end.
use Prim.Native.Nat.{suc, ◌≤◌}
use mathlib.Core.Path.{◌≡◌, refl, subst}
use mathlib.Core.Bool.{Bool, true, false, ◌||◌}
use mathlib.Core.Logic.{inl, inr}
use mathlib.Core.Option.{Option, none, some}
use mathlib.Core.List.{List, [], ◌∷◌}
use native.Mathlib.Omega.{arith}
use forcola.Prelude.Tests.{if◌then◌else◌, Bool-cases}
use forcola.Prelude.Lists.{length, All}

-- The elements that pass a test, in their order.
abbrev pub keep_if {ℓ} : {A : Type ℓ} → (A → Bool) → List A → List A
keep_if p [] = []
keep_if p (x ∷ xs) = if p x then x ∷ keep_if p xs else keep_if p xs

abbrev pub any {ℓ} : {A : Type ℓ} → (A → Bool) → List A → Bool
any p [] = false
any p (x ∷ xs) = p x || any p xs

module _ {ℓ} {A : Type ℓ} (p : A → Bool) where
  pub length-keep_if : (xs : List A) → length (keep_if p xs) ≤ length xs
  length-keep_if [] = omega arith
  length-keep_if (x ∷ xs) = ground (arith, length-keep_if xs)

  pub All-keep_if {κ} : (P : A → Type κ) (xs : List A) → All P xs → All P (keep_if p xs)
  All-keep_if P [] h = tt
  All-keep_if P (x ∷ xs) (h, hs) = elim (Bool-cases (p x)) [
    | inl kept ↦ rw kept (h, All-keep_if P xs hs)
    | inr dropped ↦ rw dropped (All-keep_if P xs hs)
  ]

or_later : {b c : Bool} (a : Bool) → (a || b) ≡ true → (b ≡ true → c ≡ true) → (a || c) ≡ true
or_later true e f = refl
or_later false e f = f e

abbrev pub AllValues : {K V : Type 0} → (V → Type 0) → List (K × V) → Type 0
AllValues P [] = Unit {0}
AllValues P ((k, v) ∷ m) = P v × AllValues P m

pub AllValues-map :
    {K V : Type 0} {P Q : V → Type 0} (m : List (K × V))
    → ((v : V) → P v → Q v)
    → AllValues P m
    → AllValues Q m
AllValues-map [] f all = tt
AllValues-map ((k, v) ∷ m) f (p, all) = (f v p, AllValues-map m f all)

module _ {K V : Type 0} (eq : K → K → Bool) where
  abbrev pub lookup : K → List (K × V) → Option V
  lookup k [] = none
  lookup k ((k', v) ∷ m) = if eq k k' then some v else lookup k m

  abbrev pub has_key : K → List (K × V) → Bool
  has_key k [] = false
  has_key k ((k', v) ∷ m) = eq k k' || has_key k m

  abbrev pub insert : K → V → List (K × V) → List (K × V)
  insert k v [] = (k, v) ∷ []
  insert k v ((k', v') ∷ m) = if eq k k' then (k, v) ∷ m else (k', v') ∷ insert k v m

  abbrev pub remove : K → List (K × V) → List (K × V)
  remove k [] = []
  remove k ((k', v') ∷ m) = if eq k k' then m else (k', v') ∷ remove k m

  -- A new key makes the map one longer, a known one does not.
  pub length-insert : (k : K) (v : V) (m : List (K × V)) → length (insert k v m) ≤ suc (length m)
  length-insert k v [] = omega arith
  length-insert k v ((k', v') ∷ m) = ground (arith, length-insert k v m)

  pub length-insert_known :
      (k : K) (v : V) (m : List (K × V)) → has_key k m ≡ true → length (insert k v m) ≡ length m
  length-insert_known k v [] h = cc
  length-insert_known k v ((k', v') ∷ m) h = ground (arith, length-insert_known k v m)

  module _ (sound : (a b : K) → eq a b ≡ true → a ≡ b) where
    pub has_key-insert_old :
        (k j : K) (v : V) (m : List (K × V)) → has_key j m ≡ true → has_key j (insert k v m) ≡ true
    has_key-insert_old k j v [] h = cc
    has_key-insert_old k j v ((k', v') ∷ m) h = elim (Bool-cases (eq k k')) [
      | inl same ↦ rw same (rw (sound k k' same) h)
      | inr other ↦ rw other (or_later (eq j k') h (has_key-insert_old k j v m))
    ]

  module _ (P : V → Type 0) where
    pub insert-AllValues :
        (k : K) (v : V) (m : List (K × V)) → P v → AllValues P m → AllValues P (insert k v m)
    insert-AllValues k v [] p all = (p, tt)
    insert-AllValues k v ((k', v') ∷ m) p (q, all) = elim (Bool-cases (eq k k')) [
      | inl same ↦ rw same (p, all)
      | inr other ↦ rw other (q, insert-AllValues k v m p all)
    ]

    pub lookup-AllValues :
        (k : K) (m : List (K × V)) {v : V} → AllValues P m → lookup k m ≡ some v → P v
    lookup-AllValues k [] all e = cc
    lookup-AllValues k ((k', v') ∷ m) {v} (q, all) e = elim (Bool-cases (eq k k')) [
      | inl same ↦ subst P (ground arith) q
      | inr other ↦ lookup-AllValues k m all (rw other at e)
    ]
