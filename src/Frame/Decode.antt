-- ===== src/Frame/Decode.antt =====
-- `read_frame` of frame.rs against a decoder that sees all bytes at once.
use forcola.Prelude.{
  ℕ, suc, ◌≤◌, ◌<◌, ◌≡◌, refl, ap, ◌∙◌, ◌≢◌, List, [], ◌∷◌, Option, none, some, length, take, drop,
  leb, ltb, ◌==◌, if◌then◌else◌, leb→le, leb→lt, le→leb, lt→leb, Bool-cases, inl, inr,
  from_be_bytes, arith,
}
use forcola.Frame.{
  Source, size, Filled, fill, full, ended, broken, Result, ok, err, stuck, invalid_data,
  unexpected_eof, Frame, max_frame_len, read_exact_or_eof, read_exact, read_body, read_frame,
  split_body, or_eof, after_prefix, exact,
}
use forcola.Frame.Fill.{content, IsOpen, Fills, fill-Fills, fill-ended, fill-ne-stuck, fill-full}

-- The answer for a stream that holds `bs` and then ends.
abbrev pub decode_body : ℕ → List ℕ → Result (Option Frame)
decode_body len body =
    if leb len (length body) then split_body (ok (take len body)) else err unexpected_eof

abbrev pub decode_len : ℕ → List ℕ → Result (Option Frame)
decode_len len body =
    if len == 0
    then err invalid_data
    else if ltb max_frame_len len
    then err invalid_data
    else decode_body len body

abbrev pub decode : List ℕ → Result (Option Frame)
decode [] = ok none
decode (b ∷ bs) =
    if leb 4 (length (b ∷ bs))
    then decode_len (from_be_bytes (take 4 (b ∷ bs))) (drop 4 (b ∷ bs))
    else err unexpected_eof

module _ (src : Source) (o : IsOpen src) (n : ℕ) where
  exact-Fills : n ≤ length (content src) → Fills [] n (content src) (fill (suc (size src)) src [] n)
  exact-Fills h = fill-Fills (suc (size src)) src [] n o (omega arith) h

  read_exact_or_eof-take :
      n ≤ length (content src) → (read_exact_or_eof n src).0 ≡ ok (some (take n (content src)))
  unfolding read_exact_or_eof
  read_exact_or_eof-take h = rw ((exact-Fills h).buffer)

  read_exact_or_eof-left :
      n ≤ length (content src)
      → (content (read_exact_or_eof n src).1 ≡ drop n (content src))
        × IsOpen (read_exact_or_eof n src).1
  unfolding read_exact_or_eof
  read_exact_or_eof-left h =
      let fills : Fills [] n (content src) (fill (suc (size src)) src [] n) = exact-Fills h in
      (fills.left, fills.still_open)

  read_exact-take : n ≤ length (content src) → (read_exact n src).0 ≡ ok (take n (content src))
  unfolding read_exact
  read_exact-take h = rw ((exact-Fills h).buffer)

  read_exact-left :
      n ≤ length (content src)
      → (content (read_exact n src).1 ≡ drop n (content src)) × IsOpen (read_exact n src).1
  unfolding read_exact
  read_exact-left h =
      let fills : Fills [] n (content src) (fill (suc (size src)) src [] n) = exact-Fills h in
      (fills.left, fills.still_open)

  too_short : length (content src) < n → (fill (suc (size src)) src [] n).0 ≡ ended (content src)
  too_short h = fill-ended (suc (size src)) src [] n o (omega arith) h

  read_exact_short : length (content src) < n → (read_exact n src).0 ≡ err unexpected_eof
  unfolding read_exact
  read_exact_short h = rw (too_short h)

read_body-decode :
    (src : Source) (len : ℕ) → IsOpen src → (read_body len src).0 ≡ decode_body len (content src)
unfolding read_body
read_body-decode src len o = elim (Bool-cases (leb len (length (content src)))) [
  | inl enough ↦ rw (enough, read_exact-take src o len (leb→le _ _ enough))
  | inr few ↦ rw (few, read_exact_short src o len (leb→lt _ _ few))
]

pub decode_whole_prefix :
    (bs : List ℕ) → 4 ≤ length bs → decode bs ≡ decode_len (from_be_bytes (take 4 bs)) (drop 4 bs)
decode_whole_prefix [] h = absurd (omega arith)
decode_whole_prefix (b ∷ bs) h = rw (le→leb 4 (length (b ∷ bs)) h)

decode_short_prefix :
    (bs : List ℕ) (rest : Source)
    → length bs < 4
    → (after_prefix (or_eof (ended bs)) rest).0 ≡ decode bs
decode_short_prefix [] rest h = refl
decode_short_prefix (b ∷ bs) rest h = rw (lt→leb 4 (length (b ∷ bs)) h)

after_prefix-decode :
    (buf : List ℕ) (rest : Source)
    → IsOpen rest
    → (after_prefix (ok (some buf)) rest).0 ≡ decode_len (from_be_bytes buf) (content rest)
after_prefix-decode buf rest o = ground (arith, read_body-decode rest (from_be_bytes buf) o)

-- On a stream that delivers `bs` in any pieces, with any interruptions, `read_frame` answers what the
-- decoder answers on `bs`: a frame, a clean end, or the error for a truncated or invalid frame.
pub read_frame-decode : (src : Source) → IsOpen src → (read_frame src).0 ≡ decode (content src)
unfolding read_frame
read_frame-decode src o = elim (Bool-cases (leb 4 (length (content src)))) [
  | inl enough ↦
      let four : 4 ≤ length (content src) = leb→le _ _ enough in
      let left : (content (read_exact_or_eof 4 src).1 ≡ drop 4 (content src))
          × IsOpen (read_exact_or_eof 4 src).1 =
        read_exact_or_eof-left src o 4 four in
      rw (decode_whole_prefix (content src) four) (
        rw (read_exact_or_eof-take src o 4 four) (
          after_prefix-decode (take 4 (content src)) (read_exact_or_eof 4 src).1 left.1
          ∙ ap (decode_len (from_be_bytes (take 4 (content src)))) left.0))
  | inr few ↦
      rw (too_short src o 4 (leb→lt _ _ few)) (decode_short_prefix (content src) _ (leb→lt _ _ few))
]

split_body-ne-stuck :
    (len : ℕ) (f : Filled)
    → 0 < len
    → f ≢ broken stuck
    → ((buf : List ℕ) → f ≡ full buf → length buf ≡ len)
    → split_body (exact f) ≢ err stuck
split_body-ne-stuck len (full []) pos live size_of e = omega (arith, size_of [] refl)
split_body-ne-stuck len (full (b ∷ bs)) pos live size_of e = cc
split_body-ne-stuck len (ended buf) pos live size_of e = cc
split_body-ne-stuck len (broken x) pos live size_of e = live (cc)

read_body-ne-stuck : (len : ℕ) (src : Source) → 0 < len → (read_body len src).0 ≢ err stuck
unfolding read_body
read_body-ne-stuck len src pos =
    split_body-ne-stuck len (fill (suc (size src)) src [] len).0 pos
      (fill-ne-stuck (suc (size src)) src [] len (omega arith))
      (λ buf e. omega (arith, (fill-full (suc (size src)) src [] len buf e).1))

after_prefix-ne-stuck :
    (f : Filled) (rest : Source) → f ≢ broken stuck → (after_prefix (or_eof f) rest).0 ≢ err stuck
after_prefix-ne-stuck (full buf) rest live =
    ground (arith, read_body-ne-stuck (from_be_bytes buf) rest)
after_prefix-ne-stuck (ended []) rest live = λ e. cc
after_prefix-ne-stuck (ended (b ∷ bs)) rest live = λ e. cc
after_prefix-ne-stuck (broken x) rest live = λ e. live (cc)

-- `read_frame` ends on every stream, also one with errors: its loops never run out of fuel, and the
-- tag byte that it indexes is always there.
pub read_frame-ne-stuck : (src : Source) → (read_frame src).0 ≢ err stuck
unfolding read_frame
read_frame-ne-stuck src =
    after_prefix-ne-stuck (fill (suc (size src)) src [] 4).0 _
      (fill-ne-stuck (suc (size src)) src [] 4 (omega arith))
