-- ===== src/Prelude/Words.antt =====
-- Machine integers: their limits and their big-endian bytes.
use Prim.Native.Nat.{ℕ, zero, suc, ◌+◌, ◌*◌, ◌/◌, ◌%◌, ◌^◌, ◌<◌}
use mathlib.Core.Path.{◌≡◌, refl}
use mathlib.Core.List.{List, [], ◌∷◌, ◌++◌}
use native.Mathlib.Omega.{arith}
use native.Mathlib.Nat.{pow-suc}
use forcola.Prelude.Lists.{length, length-append, All, All-append}

abbrev pub IsByte : ℕ → Type 0
IsByte b = b < 256

abbrev pub u32_mod : ℕ
u32_mod = 0x1_0000_0000

abbrev pub u64_max : ℕ
u64_max = 0xffff_ffff_ffff_ffff

abbrev pub i32_max : ℕ
i32_max = 0x7fff_ffff

-- `to_be_bytes` of a word of `k` bytes: the low byte comes last.
unfoldable pub to_be_bytes : ℕ → ℕ → List ℕ
to_be_bytes zero v = []
to_be_bytes (suc k) v = to_be_bytes k (v / 256) ++ (v % 256 ∷ [])

-- `from_be_bytes`, over the value of the bytes in front.
unfoldable pub from_be_acc : ℕ → List ℕ → ℕ
from_be_acc acc [] = acc
from_be_acc acc (b ∷ bs) = from_be_acc (acc * 256 + b) bs

unfoldable pub from_be_bytes : List ℕ → ℕ
unfolding from_be_acc
from_be_bytes bs = from_be_acc 0 bs

pub length-to_be_bytes : (k v : ℕ) → length (to_be_bytes k v) ≡ k
unfolding to_be_bytes
length-to_be_bytes zero v = refl
length-to_be_bytes (suc k) v =
    omega (
      arith,
      length-append (to_be_bytes k (v / 256)) (v % 256 ∷ []),
      length-to_be_bytes k (v / 256),
    )

pub to_be_bytes-IsByte : (k v : ℕ) → All IsByte (to_be_bytes k v)
unfolding to_be_bytes
to_be_bytes-IsByte zero v = tt
to_be_bytes-IsByte (suc k) v =
    All-append IsByte (to_be_bytes k (v / 256)) (v % 256 ∷ []) (to_be_bytes-IsByte k (v / 256))
      (omega arith, tt)

from_be_acc-append :
    (acc : ℕ) (bs : List ℕ) (b : ℕ)
    → from_be_acc acc (bs ++ (b ∷ [])) ≡ from_be_acc acc bs * 256 + b
unfolding from_be_acc
from_be_acc-append acc [] b = refl
from_be_acc-append acc (c ∷ bs) b = from_be_acc-append (acc * 256 + c) bs b

pow_256_suc : (k : ℕ) → 256 ^ suc k ≡ 256 * 256 ^ k
pow_256_suc k = omega (arith, pow-suc 256 k)

-- Reading back a word that fits gives the word.
pub from_be_bytes-to_be_bytes : (k v : ℕ) → v < 256 ^ k → from_be_bytes (to_be_bytes k v) ≡ v
unfolding from_be_bytes to_be_bytes
from_be_bytes-to_be_bytes zero v h = omega arith
from_be_bytes-to_be_bytes (suc k) v h = omega (
  arith,
  from_be_acc-append 0 (to_be_bytes k (v / 256)) (v % 256),
  from_be_bytes-to_be_bytes k (v / 256) (omega (arith, pow_256_suc k)),
)

-- Four bytes are the encoding of the word that they stand for.
pub to_be_bytes-from_be_bytes :
    (bs : List ℕ) → length bs ≡ 4 → All IsByte bs → to_be_bytes 4 (from_be_bytes bs) ≡ bs
unfolding from_be_bytes to_be_bytes
to_be_bytes-from_be_bytes [] n h = absurd (omega arith)
to_be_bytes-from_be_bytes (a ∷ []) n h = absurd (omega arith)
to_be_bytes-from_be_bytes (a ∷ b ∷ []) n h = absurd (omega arith)
to_be_bytes-from_be_bytes (a ∷ b ∷ c ∷ []) n h = absurd (omega arith)
to_be_bytes-from_be_bytes (a ∷ b ∷ c ∷ d ∷ []) n h = ground arith
to_be_bytes-from_be_bytes (a ∷ b ∷ c ∷ d ∷ e ∷ bs) n h = absurd (omega arith)

from_be_acc-lt :
    (acc k : ℕ) (bs : List ℕ)
    → All IsByte bs
    → acc < 256 ^ k
    → from_be_acc acc bs < 256 ^ (k + length bs)
unfolding from_be_acc
from_be_acc-lt acc k [] h lt = ground arith
from_be_acc-lt acc k (b ∷ bs) h lt =
    let shift : suc k + length bs ≡ k + suc (length bs) = omega arith in
    rw shift at (from_be_acc-lt (acc * 256 + b) (suc k) bs h.1 (omega (arith, pow_256_suc k)))

-- The value of `k` bytes is below 256 ^ k.
pub from_be_bytes-lt : (bs : List ℕ) → All IsByte bs → from_be_bytes bs < 256 ^ length bs
unfolding from_be_bytes
from_be_bytes-lt bs h =
    let start : 0 + length bs ≡ length bs = omega arith in
    rw start at (from_be_acc-lt 0 0 bs h (omega arith))
