-- ===== src/Pump/Reads.antt =====
-- One `read` of a pipe: the bytes that it hands over come off the front of what the pipe holds.
use forcola.Prelude.{
  ℕ, zero, suc, ◌≤◌, ◌<◌, ◌≡◌, ◌≢◌, refl, sym, ap, ◌∙◌, List, [], ◌∷◌, ◌++◌, length, take, drop,
  length-take, take-append-drop, arith,
}
use forcola.Frame.{
  Source, bytes, interrupted, failed, ReadResult, read, read_ok, read_interrupted, read_failed,
}
use forcola.Frame.Fill.{content, IsOpen, content-put_back, put_back-IsOpen}
use mathlib.Core.List.{append_assoc}

-- The bytes of an answer.
abbrev pub handed : ReadResult → List ℕ
handed (read_ok bs) = bs
handed read_interrupted = []
handed read_failed = []

pub read-content :
    (n : ℕ) (src : Source) → handed (read n src).0 ++ content (read n src).1 ≡ content src
unfolding read
read-content n [] = refl
read-content n (bytes bs ∷ src) =
    ap (λ t. take n bs ++ t) (content-put_back (drop n bs) src)
    ∙ sym (append_assoc (take n bs) (drop n bs) (content src))
    ∙ ap (λ t. t ++ content src) (take-append-drop n bs)
read-content n (interrupted ∷ src) = refl
read-content n (failed ∷ src) = refl

pub length-read : (n : ℕ) (src : Source) → length (handed (read n src).0) ≤ n
unfolding read
length-read n [] = omega arith
length-read n (bytes bs ∷ src) = omega (arith, length-take n bs)
length-read n (interrupted ∷ src) = omega arith
length-read n (failed ∷ src) = omega arith

pub read-IsOpen : (n : ℕ) (src : Source) → IsOpen src → IsOpen (read n src).1
unfolding read
read-IsOpen n [] o = o
read-IsOpen n (bytes [] ∷ src) o = absurd o
read-IsOpen n (bytes (b ∷ bs) ∷ src) o = put_back-IsOpen (drop n (b ∷ bs)) src o
read-IsOpen n (interrupted ∷ src) o = o
read-IsOpen n (failed ∷ src) o = absurd o

-- With a buffer that is not empty, an empty answer is the end of an open stream.
pub read_eof :
    (n : ℕ) (src : Source)
    → IsOpen src
    → 0 < n
    → (read n src).0 ≡ read_ok []
    → content (read n src).1 ≡ []
unfolding read
read_eof n [] o h e = refl
read_eof n (bytes [] ∷ src) o h e = absurd o
read_eof zero (bytes (b ∷ bs) ∷ src) o h e = absurd (omega arith)
read_eof (suc n) (bytes (b ∷ bs) ∷ src) o h e = cc
read_eof n (interrupted ∷ src) o h e = cc
read_eof n (failed ∷ src) o h e = absurd o

pub read-ne-failed : (n : ℕ) (src : Source) → IsOpen src → (read n src).0 ≢ read_failed
unfolding read
read-ne-failed n [] o = λ e. cc
read-ne-failed n (bytes [] ∷ src) o = absurd o
read-ne-failed n (bytes (b ∷ bs) ∷ src) o = λ e. cc
read-ne-failed n (interrupted ∷ src) o = λ e. cc
read-ne-failed n (failed ∷ src) o = absurd o
