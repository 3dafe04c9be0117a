-- ===== src/Frame/Fill.antt =====
-- The read loop of frame.rs: what `fill` returns on a stream that delivers its bytes in any pieces.
use forcola.Prelude.{
  ℕ, zero, suc, ◌+◌, ◌-◌, ◌≤◌, ◌<◌, ◌≡◌, refl, ap, sym, ◌∙◌, ◌≢◌, List, [], ◌∷◌, ◌++◌, length, take,
  drop, length-append, length-take, length-drop, take-append, drop-append, take-append-drop, arith,
}
use forcola.Frame.{
  bytes, interrupted, failed, Source, read, put_back, size, Filled, full, ended, broken, stuck,
  fill,
}
use mathlib.Core.List.{append_assoc, append-nil}

-- The bytes that a stream has in store, whatever the pieces.
abbrev pub content : Source → List ℕ
content [] = []
content (bytes bs ∷ src) = bs ++ content src
content (interrupted ∷ src) = content src
content (failed ∷ src) = content src

-- A stream that ends only behind its last piece, and has no error but `Interrupted`.
abbrev pub IsOpen : Source → Type 0
IsOpen [] = Unit {0}
IsOpen (bytes [] ∷ src) = ⊥
IsOpen (bytes (b ∷ bs) ∷ src) = IsOpen src
IsOpen (interrupted ∷ src) = IsOpen src
IsOpen (failed ∷ src) = ⊥

pub content-put_back : (ds : List ℕ) (src : Source) → content (put_back ds src) ≡ ds ++ content src
unfolding put_back
content-put_back [] src = refl
content-put_back (d ∷ ds) src = refl

pub put_back-IsOpen : (ds : List ℕ) (src : Source) → IsOpen src → IsOpen (put_back ds src)
unfolding put_back
put_back-IsOpen [] src h = h
put_back-IsOpen (d ∷ ds) src h = h

pub size-put_back : (ds : List ℕ) (src : Source) → size (put_back ds src) ≤ length ds + size src + 1
unfolding put_back size
size-put_back [] src = omega arith
size-put_back (d ∷ ds) src = omega arith

-- What one round leaves in store fits the fuel that is left.
round_fuel :
    (need f b : ℕ) (bs : List ℕ) (src : Source)
    → size (bytes (b ∷ bs) ∷ src) < suc f
    → size (put_back (drop need bs) src) < f
unfolding size
round_fuel need f b bs src h = omega (arith, size-put_back (drop need bs) src, length-drop need bs)

fill_round :
    (f need b : ℕ) (bs : List ℕ) (src : Source) (filled : List ℕ)
    → fill (suc f) (bytes (b ∷ bs) ∷ src) filled (suc need)
      ≡ fill f
          (put_back (drop need bs) src)
          (filled ++ (b ∷ take need bs))
          (need - length (take need bs))
unfolding fill read
fill_round f need b bs src filled = refl

module _ (filled : List ℕ) (need b : ℕ) (bs : List ℕ) (src : Source) where
  round_take :
      (filled ++ (b ∷ take need bs))
        ++ take (need - length (take need bs)) (content (put_back (drop need bs) src))
      ≡ filled ++ take (suc need) (b ∷ bs ++ content src)
  round_take = rw (content-put_back, append_assoc, take-append need bs (content src))

  round_drop :
      drop (need - length (take need bs)) (content (put_back (drop need bs) src))
      ≡ drop (suc need) (b ∷ bs ++ content src)
  round_drop = rw (content-put_back, drop-append need bs (content src))

  round_all :
      (filled ++ (b ∷ take need bs)) ++ content (put_back (drop need bs) src)
      ≡ filled ++ (b ∷ bs ++ content src)
  round_all =
      rw (content-put_back, append_assoc)
        (ap (λ t. filled ++ (b ∷ t))
          (sym (append_assoc (take need bs) (drop need bs) (content src))
            ∙ ap (λ t. t ++ content src) (take-append-drop need bs)))

  -- What is left in store, and the bytes that the round took.
  round_length :
      length (content (put_back (drop need bs) src)) + length (take need bs)
      ≡ length (bs ++ content src)
  round_length = rw (content-put_back) (
      omega (
        arith,
        length-append (drop need bs) (content src),
        length-append bs (content src),
        length-take need bs,
        length-drop need bs,
      ))

-- The buffer is filled with the next bytes, and the rest stays in store.
pub record Fills (filled : List ℕ) (need : ℕ) (bs : List ℕ) (out : Filled × Source) : Type 0 where
  pub buffer : out.0 ≡ full (filled ++ take need bs)
  pub left : content out.1 ≡ drop need bs
  pub still_open : IsOpen out.1

pub fill-Fills :
    (fuel : ℕ) (src : Source) (filled : List ℕ) (need : ℕ)
    → IsOpen src
    → size src < fuel
    → need ≤ length (content src)
    → Fills filled need (content src) (fill fuel src filled need)
unfolding fill read size
fill-Fills fuel src filled zero o h enough = record {
  buffer = rw (append-nil filled);
  left = refl;
  still_open = o;
}
fill-Fills zero src filled (suc need) o h enough = absurd (omega arith)
fill-Fills (suc fuel) [] filled (suc need) o h enough = absurd (omega arith)
fill-Fills (suc fuel) (bytes [] ∷ src) filled (suc need) o h enough = absurd o
fill-Fills (suc fuel) (bytes (b ∷ bs) ∷ src) filled (suc need) o h enough =
    let ih : Fills (filled ++ (b ∷ take need bs)) (need - length (take need bs))
        (content (put_back (drop need bs) src))
        (fill fuel (put_back (drop need bs) src) (filled ++ (b ∷ take need bs))
          (need - length (take need bs))) =
      fill-Fills fuel (put_back (drop need bs) src) (filled ++ (b ∷ take need bs))
        (need - length (take need bs)) (put_back-IsOpen (drop need bs) src o)
        (round_fuel need fuel b bs src h)
        (omega (arith, round_length filled need b bs src, length-take need bs)) in
    rw (fill_round fuel need b bs src filled) (record {
      buffer = ih.buffer ∙ ap full (round_take filled need b bs src);
      left = ih.left ∙ round_drop filled need b bs src;
      still_open = ih.still_open;
    })
fill-Fills (suc fuel) (interrupted ∷ src) filled (suc need) o h enough =
    fill-Fills fuel src filled (suc need) o (omega arith) enough
fill-Fills (suc fuel) (failed ∷ src) filled (suc need) o h enough = absurd o

-- A stream with too few bytes ends in the middle of the buffer.
pub fill-ended :
    (fuel : ℕ) (src : Source) (filled : List ℕ) (need : ℕ)
    → IsOpen src
    → size src < fuel
    → length (content src) < need
    → (fill fuel src filled need).0 ≡ ended (filled ++ content src)
unfolding fill read size
fill-ended fuel src filled zero o h few = absurd (omega arith)
fill-ended zero src filled (suc need) o h few = absurd (omega arith)
fill-ended (suc fuel) [] filled (suc need) o h few = rw (append-nil filled)
fill-ended (suc fuel) (bytes [] ∷ src) filled (suc need) o h few = absurd o
fill-ended (suc fuel) (bytes (b ∷ bs) ∷ src) filled (suc need) o h few =
    fill-ended fuel (put_back (drop need bs) src) (filled ++ (b ∷ take need bs))
      (need - length (take need bs)) (put_back-IsOpen (drop need bs) src o)
      (round_fuel need fuel b bs src h)
      (omega (arith, round_length filled need b bs src, length-take need bs))
    ∙ ap ended (round_all filled need b bs src)
fill-ended (suc fuel) (interrupted ∷ src) filled (suc need) o h few =
    fill-ended fuel src filled (suc need) o (omega arith) few
fill-ended (suc fuel) (failed ∷ src) filled (suc need) o h few = absurd o

-- On any stream, errors included, the loop has fuel enough.
pub fill-ne-stuck :
    (fuel : ℕ) (src : Source) (filled : List ℕ) (need : ℕ)
    → size src < fuel
    → (fill fuel src filled need).0 ≢ broken stuck
unfolding fill read size
fill-ne-stuck fuel src filled zero h = λ e. cc
fill-ne-stuck zero src filled (suc need) h = absurd (omega arith)
fill-ne-stuck (suc fuel) [] filled (suc need) h = λ e. cc
fill-ne-stuck (suc fuel) (bytes [] ∷ src) filled (suc need) h = λ e. cc
fill-ne-stuck (suc fuel) (bytes (b ∷ bs) ∷ src) filled (suc need) h =
    fill-ne-stuck fuel (put_back (drop need bs) src) (filled ++ (b ∷ take need bs))
      (need - length (take need bs)) (round_fuel need fuel b bs src h)
fill-ne-stuck (suc fuel) (interrupted ∷ src) filled (suc need) h =
    fill-ne-stuck fuel src filled (suc need) (omega arith)
fill-ne-stuck (suc fuel) (failed ∷ src) filled (suc need) h = λ e. cc

-- A full buffer holds what was in it and the next `need` bytes of the stream, in order.
pub fill-full :
    (fuel : ℕ) (src : Source) (filled : List ℕ) (need : ℕ) (buf : List ℕ)
    → (fill fuel src filled need).0 ≡ full buf
    → (buf ++ content (fill fuel src filled need).1 ≡ filled ++ content src)
      × (length buf ≡ length filled + need)
unfolding fill read
fill-full fuel src filled zero buf e = ground arith
fill-full zero src filled (suc need) buf e = cc
fill-full (suc fuel) [] filled (suc need) buf e = cc
fill-full (suc fuel) (bytes [] ∷ src) filled (suc need) buf e = cc
fill-full (suc fuel) (bytes (b ∷ bs) ∷ src) filled (suc need) buf e =
    let (all, count) =
      fill-full fuel (put_back (drop need bs) src) (filled ++ (b ∷ take need bs))
        (need - length (take need bs)) buf e in
    (
      all ∙ round_all filled need b bs src,
      omega (arith, count, length-append filled (b ∷ take need bs), length-take need bs),
    )
fill-full (suc fuel) (interrupted ∷ src) filled (suc need) buf e =
    fill-full fuel src filled (suc need) buf e
fill-full (suc fuel) (failed ∷ src) filled (suc need) buf e = cc

-- Reading leaves a stream that still ends only behind its last piece.
pub fill-IsOpen :
    (fuel : ℕ) (src : Source) (filled : List ℕ) (need : ℕ)
    → IsOpen src
    → IsOpen (fill fuel src filled need).1
unfolding fill read
fill-IsOpen fuel src filled zero o = o
fill-IsOpen zero src filled (suc need) o = o
fill-IsOpen (suc fuel) [] filled (suc need) o = tt
fill-IsOpen (suc fuel) (bytes [] ∷ src) filled (suc need) o = absurd o
fill-IsOpen (suc fuel) (bytes (b ∷ bs) ∷ src) filled (suc need) o =
    fill-IsOpen fuel (put_back (drop need bs) src) (filled ++ (b ∷ take need bs))
      (need - length (take need bs)) (put_back-IsOpen (drop need bs) src o)
fill-IsOpen (suc fuel) (interrupted ∷ src) filled (suc need) o =
    fill-IsOpen fuel src filled (suc need) o
fill-IsOpen (suc fuel) (failed ∷ src) filled (suc need) o = absurd o
