-- ===== src/Frame/RoundTrip.antt =====
-- `write_frame` of frame.rs, and what `read_frame` makes of its output.
use forcola.Prelude.{
  ℕ, suc, ◌+◌, ◌-◌, ◌%◌, ◌≤◌, ◌<◌, ◌≡◌, refl, ap, ◌∙◌, List, [], ◌∷◌, ◌++◌, true, some, length,
  take, leb, Bool-cases, inl, inr, take-append_long, take-append_short, length-append,
  take-length_append, take-append_exact, drop-append_exact, append_cancel_left, length-to_be_bytes,
  u32_mod, to_be_bytes, from_be_bytes, from_be_bytes-to_be_bytes, to_be_bytes-from_be_bytes, All,
  All-append_left, IsByte, arith,
}
use forcola.Frame.{
  Source, size, Filled, fill, full, ended, broken, ok, Frame, max_frame_len, read_body, read_frame,
  split_body, or_eof, after_prefix, exact, Writer, write_all, and_then, write_frame,
}
use forcola.Frame.Fill.{content, IsOpen, fill-full, fill-IsOpen}
use forcola.Frame.Decode.{decode, decode_len, decode_whole_prefix, read_frame-decode}
use mathlib.Core.List.{append_assoc}

-- The bytes of a frame.
abbrev pub encode : ℕ → List ℕ → List ℕ
encode tag payload = to_be_bytes 4 ((length payload + 1) % u32_mod) ++ (tag ∷ payload)

write_all_sent :
    (w : Writer) (bs : List ℕ)
    → (write_all w bs).0 ≡ true
    → (write_all w bs).1.written ≡ w.written ++ bs
unfolding write_all
write_all_sent w bs e = ground arith

-- Two calls of `write_all`, the second under the `?` of the first, are one.
write_all-append :
    (w : Writer) (xs ys : List ℕ)
    → and_then (write_all w xs) (λ w'. write_all w' ys) ≡ write_all w (xs ++ ys)
unfolding write_all
write_all-append w xs ys = elim (Bool-cases (leb (length xs) w.room)) [
  | inl fits ↦
      rw (fits, length-append, ← append_assoc)
        (ground (
          arith,
          take-append_long w.room xs ys,
          append_assoc w.written xs (take (w.room - length xs) ys),
        ))
  | inr over ↦ rw (over, length-append) (ground (arith, take-append_short w.room xs ys))
]

-- `write_frame` is one write of the encoded frame: on success exactly the frame is behind what was
-- written before, and on an error a part of it that the room of the pipe decides.
pub write_frame-encode :
    (w : Writer) (tag : ℕ) (payload : List ℕ)
    → write_frame w tag payload ≡ write_all w (encode tag payload)
unfolding write_frame
write_frame-encode w tag payload = simp (write_all-append)

-- A `write_frame` that reports success has put the whole frame behind what was there.
pub write_frame_sent :
    (w : Writer) (tag : ℕ) (payload : List ℕ)
    → (write_frame w tag payload).0 ≡ true
    → (write_frame w tag payload).1.written ≡ w.written ++ encode tag payload
write_frame_sent w tag payload e =
    rw (write_frame-encode w tag payload)
      (write_all_sent w (encode tag payload) (rw (write_frame-encode w tag payload) at e))

-- A successful read of a body: its first byte is the tag, and the buffer holds the bytes in order.
read_body_inv :
    (len : ℕ) (src : Source) (f : Frame)
    → (read_body len src).0 ≡ ok (some f)
    → (f.tag ∷ f.payload ++ content (read_body len src).1 ≡ content src)
      × (length f.payload + 1 ≡ len)
unfolding read_body
read_body_inv len src f e =
    ground (arith, fill-full (suc (size src)) src [] len (f.tag ∷ f.payload) (split_exact _ f e))
  where
    split_exact :
        (r : Filled) (g : Frame) → split_body (exact r) ≡ ok (some g) → r ≡ full (g.tag ∷ g.payload)
    split_exact (full []) g h = cc
    split_exact (full (b ∷ bs)) g h = ground arith
    split_exact (ended bs) g h = cc
    split_exact (broken x) g h = cc

-- What a successful read passed through: a whole prefix, a length in range, and a body.
record Passed (r : Filled) (rest : Source) (f : Frame) (left : Source) : Type 0 where
  prefix : List ℕ
  whole : r ≡ full prefix
  in_range : from_be_bytes prefix ≤ max_frame_len
  body : (read_body (from_be_bytes prefix) rest).0 ≡ ok (some f)
  left_eq : left ≡ (read_body (from_be_bytes prefix) rest).1

after_prefix_inv :
    (r : Filled) (rest : Source) (f : Frame)
    → (after_prefix (or_eof r) rest).0 ≡ ok (some f)
    → Passed r rest f (after_prefix (or_eof r) rest).1
after_prefix_inv (full buf) rest f e = record {
  prefix = buf;
  whole = refl;
  in_range = ground arith;
  body = ground arith;
  left_eq = ground arith;
}
after_prefix_inv (ended []) rest f e = cc
after_prefix_inv (ended (b ∷ bs)) rest f e = cc
after_prefix_inv (broken x) rest f e = cc

-- Whatever the pieces, and also on a stream that breaks later: a frame that `read_frame` returns is
-- encoded by exactly the bytes that it took, and its payload is shorter than the cap.
pub read_frame_consumes :
    (src : Source) (f : Frame)
    → All IsByte (content src)
    → (read_frame src).0 ≡ ok (some f)
    → (encode f.tag f.payload ++ content (read_frame src).1 ≡ content src)
      × (length f.payload < max_frame_len)
unfolding read_frame
read_frame_consumes src f all e =
    let rest : Source = (fill (suc (size src)) src [] 4).1 in
    let p : Passed (fill (suc (size src)) src [] 4).0 rest f (read_frame src).1 =
      after_prefix_inv (fill (suc (size src)) src [] 4).0 rest f e in
    let taken : (p.prefix ++ content rest ≡ content src) × (length p.prefix ≡ 0 + 4) =
      fill-full (suc (size src)) src [] 4 p.prefix p.whole in
    let body : (f.tag ∷ f.payload ++ content (read_body (from_be_bytes p.prefix) rest).1
          ≡ content rest)
        × (length f.payload + 1 ≡ from_be_bytes p.prefix) =
      read_body_inv (from_be_bytes p.prefix) rest f p.body in
    let small : (length f.payload + 1) % u32_mod ≡ from_be_bytes p.prefix =
      omega (arith, body.1, p.in_range) in
    let left_bytes : All IsByte p.prefix =
      All-append_left IsByte p.prefix (content rest) (rw (taken.0) all) in
    let same : to_be_bytes 4 ((length f.payload + 1) % u32_mod) ≡ p.prefix =
      rw small (to_be_bytes-from_be_bytes p.prefix (omega (arith, taken.1)) left_bytes) in
    (
      ap (λ t. (t ++ (f.tag ∷ f.payload)) ++ content (read_frame src).1) same
          ∙ append_assoc p.prefix (f.tag ∷ f.payload) (content (read_frame src).1)
          ∙ ap (λ s. p.prefix ++ (f.tag ∷ f.payload ++ content s)) p.left_eq
          ∙ ap (λ t. p.prefix ++ t) (body.0)
          ∙ taken.0,
      omega (arith, body.1, p.in_range),
    )

decode-encode :
    (tag : ℕ) (payload rest : List ℕ)
    → length payload < max_frame_len
    → decode (encode tag payload ++ rest) ≡ ok (some (record { tag = tag; payload = payload }))
decode-encode tag payload rest h =
    let n = length payload + 1 in
    let front : List ℕ = to_be_bytes 4 (n % u32_mod) in
    let body : List ℕ = tag ∷ payload ++ rest in
    let whole : encode tag payload ++ rest ≡ front ++ body =
      append_assoc front (tag ∷ payload) rest in
    let four : length front ≡ 4 = length-to_be_bytes 4 (n % u32_mod) in
    let len : from_be_bytes front ≡ suc (length payload) =
      omega (arith, from_be_bytes-to_be_bytes 4 (n % u32_mod) (omega arith)) in
    rw whole (
      decode_whole_prefix (front ++ body) (omega (arith, length-append front body))
      ∙ rw (take-append_exact 4 front body four, drop-append_exact 4 front body four)
          (decode_len-body len))
  where
    decode_len-body :
        {m : ℕ}
        → m ≡ suc (length payload)
        → decode_len m (tag ∷ payload ++ rest) ≡ ok (some (record { tag = tag; payload = payload }))
    decode_len-body e =
        rw e (ground (arith, length-append payload rest, take-length_append payload rest))

after_prefix-IsOpen :
    (r : Filled) (rest : Source) → IsOpen rest → IsOpen (after_prefix (or_eof r) rest).1
unfolding read_body
after_prefix-IsOpen (full buf) rest o =
    ground (arith, fill-IsOpen (suc (size rest)) rest [] (from_be_bytes buf) o)
after_prefix-IsOpen (ended []) rest o = o
after_prefix-IsOpen (ended (b ∷ bs)) rest o = o
after_prefix-IsOpen (broken x) rest o = o

read_frame-IsOpen : (src : Source) → IsOpen src → IsOpen (read_frame src).1
unfolding read_frame
read_frame-IsOpen src o =
    after_prefix-IsOpen (fill (suc (size src)) src [] 4).0 (fill (suc (size src)) src [] 4).1
      (fill-IsOpen (suc (size src)) src [] 4 o)

-- An encoded frame in front of the rest of a stream.
pub read_frame-encode :
    (src : Source) (tag : ℕ) (payload rest : List ℕ)
    → IsOpen src
    → All IsByte (content src)
    → length payload < max_frame_len
    → content src ≡ encode tag payload ++ rest
    → ((read_frame src).0 ≡ ok (some (record { tag = tag; payload = payload })))
      × (content (read_frame src).1 ≡ rest)
      × IsOpen (read_frame src).1
read_frame-encode src tag payload rest o all h whole =
    let found : (read_frame src).0 ≡ ok (some (record { tag = tag; payload = payload })) =
      read_frame-decode src o ∙ ap decode whole ∙ decode-encode tag payload rest h in
    (
      found,
      append_cancel_left (encode tag payload) _ rest
          ((read_frame_consumes src (record { tag = tag; payload = payload }) all found).0 ∙ whole),
      read_frame-IsOpen src o,
    )

-- What `write_frame` wrote is read back by `read_frame`, in whatever pieces and with whatever
-- interruptions it comes, and the stream is left at the byte behind the frame;
-- the payload is below the cap and the write succeeded.
pub read_frame-write_frame :
    (src : Source) (room tag : ℕ) (payload rest : List ℕ)
    → IsOpen src
    → All IsByte (content src)
    → length payload < max_frame_len
    → (write_frame (record { written = []; room = room }) tag payload).0 ≡ true
    → content src
      ≡ (write_frame (record { written = []; room = room }) tag payload).1.written ++ rest
    → ((read_frame src).0 ≡ ok (some (record { tag = tag; payload = payload })))
      × (content (read_frame src).1 ≡ rest)
      × IsOpen (read_frame src).1
read_frame-write_frame src room tag payload rest o all h sent arrived =
    let w : Writer = record { written = []; room = room } in
    read_frame-encode src tag payload rest o all h
      (arrived ∙ ap (λ t. t ++ rest) (write_frame_sent w tag payload sent))
