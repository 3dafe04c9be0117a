-- ===== src/Frame.antt =====
-- native/forcola_shim/src/frame.rs: frames are a 4-byte big-endian length, a tag byte and a payload.
-- A byte stream (Rust's `Read`) is the list of the answers that its next calls of `read` have in
-- store, so one frame may come in any number of pieces; a writer (`Write`) takes bytes until its
-- peer closes.
pub mod Fill
pub mod Decode
pub mod RoundTrip
mod Tests
use forcola.Prelude.{
  ℕ, zero, suc, ◌+◌, ◌-◌, ◌*◌, ◌%◌, List, [], ◌∷◌, ◌++◌, Bool, true, false, Option, none, some,
  length, take, drop, leb, ltb, ◌==◌, if◌then◌else◌, u32_mod, to_be_bytes, from_be_bytes,
}

abbrev pub tag_spawn : ℕ
tag_spawn = 0x01

abbrev pub tag_stdin : ℕ
tag_stdin = 0x02

abbrev pub tag_eof : ℕ
tag_eof = 0x03

abbrev pub tag_kill : ℕ
tag_kill = 0x04

abbrev pub tag_credit : ℕ
tag_credit = 0x05

abbrev pub tag_stderr_credit : ℕ
tag_stderr_credit = 0x06

abbrev pub tag_hello : ℕ
tag_hello = 0x07

abbrev pub tag_stdout : ℕ
tag_stdout = 0x11

abbrev pub tag_stderr : ℕ
tag_stderr = 0x12

abbrev pub tag_exit : ℕ
tag_exit = 0x13

abbrev pub tag_error : ℕ
tag_error = 0x14

abbrev pub tag_capabilities : ℕ
tag_capabilities = 0x15

abbrev pub tag_spawned : ℕ
tag_spawned = 0x16

abbrev pub tag_tracked : ℕ
tag_tracked = 0x17

abbrev pub max_frame_len : ℕ
max_frame_len = 64 * 1024 * 1024

pub record Frame : Type 0 where
  pub tag : ℕ
  pub payload : List ℕ

-- One answer of `read`: bytes that are at hand (none of them: end of stream), `Interrupted`, or
-- another error.
pub data Chunk : Type 0 where
  bytes : List ℕ → Chunk
  interrupted : Chunk
  failed : Chunk

abbrev pub Source : Type 0
Source = List Chunk

pub data ReadResult : Type 0 where
  read_ok : List ℕ → ReadResult
  read_interrupted : ReadResult
  read_failed : ReadResult

-- The part of a piece that a short buffer left behind.
pub put_back : List ℕ → Source → Source
put_back [] src = src
put_back (b ∷ bs) src = bytes (b ∷ bs) ∷ src

-- `r.read(buf)` with a buffer of `n` bytes. Behind its last piece a stream is at its end.
unfoldable pub read : ℕ → Source → ReadResult × Source
unfolding put_back
read n [] = (read_ok [], [])
read n (bytes bs ∷ src) = (read_ok (take n bs), put_back (drop n bs) src)
read n (interrupted ∷ src) = (read_interrupted, src)
read n (failed ∷ src) = (read_failed, src)

-- Why a frame cannot be read. `stuck` is no value of the program: the loop's fuel ran out.
pub data Error : Type 0 where
  invalid_data unexpected_eof io_error stuck : Error

pub data Result {ℓ} (A : Type ℓ) : Type ℓ where
  ok : A → Result A
  err : Error → Result A

-- How the loop over `read` ended: the buffer is full, or the stream ended with that much in it.
pub data Filled : Type 0 where
  full : List ℕ → Filled
  ended : List ℕ → Filled
  broken : Error → Filled

-- Pieces and bytes that a stream has in store: each round of the loop takes one at least.
unfoldable pub size : Source → ℕ
size [] = 0
size (bytes bs ∷ src) = suc (length bs + size src)
size (interrupted ∷ src) = suc (size src)
size (failed ∷ src) = suc (size src)

-- The loop of `read_exact_or_eof` and of the library's `read_exact`: `filled` bytes are read, and
-- `need` more fit in the buffer.
unfoldable pub fill : ℕ → Source → List ℕ → ℕ → Filled × Source
fill fuel src filled zero = (full filled, src)
fill zero src filled (suc need) = (broken stuck, src)
fill (suc fuel) src filled (suc need) =
    let (answer, rest) = read (suc need) src in
    elim answer [
      | read_ok [] ↦ (ended filled, rest)
      | read_ok (b ∷ bs) ↦ fill fuel rest (filled ++ (b ∷ bs)) (need - length bs)
      | read_interrupted ↦ fill fuel rest filled (suc need)
      | read_failed ↦ (broken io_error, rest)
    ]

-- `Ok(false)` is `none`; `Ok(true)` comes with the filled buffer.
abbrev or_eof : Filled → Result (Option (List ℕ))
or_eof (full buf) = ok (some buf)
or_eof (ended []) = ok none
or_eof (ended (b ∷ bs)) = err unexpected_eof
or_eof (broken e) = err e

unfoldable pub read_exact_or_eof : ℕ → Source → Result (Option (List ℕ)) × Source
read_exact_or_eof n src =
    let (filled, rest) = fill (suc (size src)) src [] n in (or_eof filled, rest)

abbrev exact : Filled → Result (List ℕ)
exact (full buf) = ok buf
exact (ended buf) = err unexpected_eof
exact (broken e) = err e

unfoldable pub read_exact : ℕ → Source → Result (List ℕ) × Source
read_exact n src = let (filled, rest) = fill (suc (size src)) src [] n in (exact filled, rest)

-- `body[0]` and `body[1..]`; an empty body would be a panic.
abbrev split_body : Result (List ℕ) → Result (Option Frame)
split_body (ok []) = err stuck
split_body (ok (tag ∷ payload)) = ok (some (record { tag = tag; payload = payload }))
split_body (err e) = err e

unfoldable pub read_body : ℕ → Source → Result (Option Frame) × Source
unfolding read_exact
read_body len src = let (body, rest) = read_exact len src in (split_body body, rest)

-- What `read_frame` does once the length prefix is there, is missing, or cannot be read.
abbrev after_prefix : Result (Option (List ℕ)) → Source → Result (Option Frame) × Source
after_prefix (ok none) rest = (ok none, rest)
after_prefix (ok (some len_buf)) rest =
    let len = from_be_bytes len_buf in
    if len == 0
    then (err invalid_data, rest)
    else if ltb max_frame_len len
    then (err invalid_data, rest)
    else read_body len rest
after_prefix (err e) rest = (err e, rest)

unfoldable pub read_frame : Source → Result (Option Frame) × Source
unfolding read_exact_or_eof read_body
read_frame src = let (prefix, rest) = read_exact_or_eof 4 src in after_prefix prefix rest

-- A pipe to a peer that reads `room` more bytes before it closes its end.
pub record Writer : Type 0 where
  pub written : List ℕ
  pub room : ℕ

-- `false` is an error: part of the bytes may have gone out before it.
unfoldable pub write_all : Writer → List ℕ → Bool × Writer
write_all w bs =
    if leb (length bs) w.room
    then (true, record { written = w.written ++ bs; room = w.room - length bs })
    else (false, record { written = w.written ++ take w.room bs; room = 0 })

-- The `?` after a call: the rest runs only if the call succeeded.
abbrev and_then : Bool × Writer → (Writer → Bool × Writer) → Bool × Writer
and_then (true, w) k = k w
and_then (false, w) k = (false, w)

-- The writers of the shim keep nothing back, so `flush` does nothing more.
unfoldable pub write_frame : Writer → ℕ → List ℕ → Bool × Writer
unfolding write_all
write_frame w tag payload =
    let len = (length payload + 1) % u32_mod in
    and_then (write_all w (to_be_bytes 4 len))
      λ w₁. and_then (write_all w₁ (tag ∷ [])) λ w₂. write_all w₂ payload
