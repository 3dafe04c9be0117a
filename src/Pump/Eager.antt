-- ===== src/Pump/Eager.antt =====
-- `pump_eager` of supervisor.rs: with no budget it forwards the whole pipe.
use forcola.Prelude.{
  ℕ, zero, suc, ◌+◌, ◌-◌, ◌*◌, ◌≤◌, ◌<◌, ◌≡◌, ◌≢◌, refl, sym, ap, ◌∙◌, List, [], ◌∷◌, ◌++◌, length,
  drop, length-drop, arith, true, inl, inr, All, ◌⊎◌, ◌%◌, length-append, length-to_be_bytes,
  to_be_bytes, u32_mod,
}
use forcola.Frame.{
  Source, bytes, interrupted, failed, size, Writer, ReadResult, read, read_ok, read_interrupted,
  read_failed, write_frame, write_all,
}
use forcola.Frame.Fill.{content, IsOpen, size-put_back}
use forcola.Frame.RoundTrip.{encode, write_frame-encode}
use forcola.Pump.{buf_len, pump_eager}
use forcola.Pump.Reads.{handed, read-content, read-IsOpen, read_eof, read-ne-failed, length-read}
use mathlib.Core.List.{append_assoc, append-nil}

-- The frames of some payloads, one behind the other, and the payloads as one text.
abbrev pub frames : ℕ → List (List ℕ) → List ℕ
frames tag [] = []
frames tag (p ∷ ps) = encode tag p ++ frames tag ps

abbrev pub joined : List (List ℕ) → List ℕ
joined [] = []
joined (p ∷ ps) = p ++ joined ps

-- Each read of an open pipe that hands something over, or is interrupted, uses up some of it.
size-read :
    (n : ℕ) (src : Source)
    → (read (suc n) src).0 ≡ read_ok [] ⊎ (size (read (suc n) src).1 < size src)
unfolding read size
size-read n [] = inl refl
size-read n (bytes [] ∷ src) = inl refl
size-read n (bytes (b ∷ bs) ∷ src) =
    inr (omega (arith, size-put_back (drop n bs) src, length-drop n bs))
size-read n (interrupted ∷ src) = inr (omega arith)
size-read n (failed ∷ src) = inr (omega arith)

pub length-encode : (tag : ℕ) (payload : List ℕ) → length (encode tag payload) ≡ 5 + length payload
length-encode tag payload = omega (
  arith,
  length-append (to_be_bytes 4 ((length payload + 1) % u32_mod)) (tag ∷ payload),
  length-to_be_bytes 4 ((length payload + 1) % u32_mod),
)

write_frame_fits :
    (w : Writer) (tag : ℕ) (payload : List ℕ)
    → 5 + length payload ≤ w.room
    → write_frame w tag payload ≡ (
      true,
      record { written = w.written ++ encode tag payload; room = w.room - (5 + length payload) },
    )
unfolding write_all
write_frame_fits w tag payload h =
    write_frame-encode w tag payload ∙ ground (arith, length-encode tag payload)

-- What a whole forwarding of a pipe's content leaves in the writer.
pub record Forwards (tag : ℕ) (text : List ℕ) (out out' : Writer) : Type 0 where
  pub payloads : List (List ℕ)
  pub framed : out'.written ≡ out.written ++ frames tag payloads
  pub whole : joined payloads ≡ text
  pub sized : All (λ p. (0 < length p) × (length p ≤ buf_len)) payloads

module _ (fuel tag : ℕ) (pipe : Source) (out : Writer) (b : ℕ) (bs : List ℕ) where
  eager_round :
      (read buf_len pipe).0 ≡ read_ok (b ∷ bs)
      → 5 + length (b ∷ bs) ≤ out.room
      → pump_eager (suc fuel) tag pipe out
        ≡ pump_eager fuel tag (read buf_len pipe).1 (record {
          written = out.written ++ encode tag (b ∷ bs);
          room = out.room - (5 + length (b ∷ bs));
        })
  unfolding pump_eager
  eager_round e h = ground (
    arith,
    e,
    ap (λ r. r.0) (write_frame_fits out tag (b ∷ bs) h),
    ap (λ r. r.1) (write_frame_fits out tag (b ∷ bs) h),
  )

module _ (fuel tag : ℕ) (pipe : Source) (out : Writer) where
  eager_eof : (read buf_len pipe).0 ≡ read_ok [] → pump_eager (suc fuel) tag pipe out ≡ out
  unfolding pump_eager
  eager_eof e = rw (e, pump_eager)

  eager_again :
      (read buf_len pipe).0 ≡ read_interrupted
      → pump_eager (suc fuel) tag pipe out ≡ pump_eager fuel tag (read buf_len pipe).1 out
  unfolding pump_eager
  eager_again e = rw (e, pump_eager)

-- Of the two cases of `size-read` the second holds, if the answer was not empty.
smaller :
    (pipe : Source)
    → (read buf_len pipe).0 ≢ read_ok []
    → ((read buf_len pipe).0 ≡ read_ok []) ⊎ (size (read buf_len pipe).1 < size pipe)
    → size (read buf_len pipe).1 < size pipe
smaller pipe ne (inl e) = absurd (ne e)
smaller pipe ne (inr h) = h

module _ (tag : ℕ) where
  -- One more payload in front of what the rest of the loop forwards.
  Forwards-cons :
      (b : ℕ) (bs text : List ℕ) (out mid out' : Writer)
      → length (b ∷ bs) ≤ buf_len
      → mid.written ≡ out.written ++ encode tag (b ∷ bs)
      → Forwards tag text mid out'
      → Forwards tag ((b ∷ bs) ++ text) out out'
  Forwards-cons b bs text out mid out' n e f = record {
    payloads = (b ∷ bs) ∷ f.payloads;
    framed =
        f.framed
        ∙ ap (λ t. t ++ frames tag f.payloads) e
        ∙ append_assoc out.written (encode tag (b ∷ bs)) (frames tag f.payloads);
    whole = ap (λ t. (b ∷ bs) ++ t) f.whole;
    sized = ((omega arith, n), f.sized);
  }

  Forwards-nil : (out : Writer) (text : List ℕ) → text ≡ [] → Forwards tag text out out
  Forwards-nil out text e = record {
    payloads = [];
    framed = sym (append-nil out.written);
    whole = sym e;
    sized = tt;
  }

  module _ (fuel : ℕ) (pipe : Source) (out : Writer) (o : IsOpen pipe) where
    abbrev rest : Source
    rest = (read buf_len pipe).1

    -- What the rest of the loop forwards, on every writer with room.
    abbrev Later : Type 0
    Later =
        (out' : Writer)
        → size rest < size pipe
        → 6 * length (content rest) ≤ out'.room
        → Forwards tag (content rest) out' (pump_eager fuel tag rest out')

    eager_answer :
        (answer : ReadResult)
        → (read buf_len pipe).0 ≡ answer
        → 6 * length (content pipe) ≤ out.room
        → Later
        → Forwards tag (content pipe) out (pump_eager (suc fuel) tag pipe out)
    eager_answer (read_ok []) e room ih = rw (eager_eof fuel tag pipe out e) (
        Forwards-nil out (content pipe) (
          sym (read-content buf_len pipe)
          ∙ ap (λ a. handed a ++ content rest) e
          ∙ read_eof buf_len pipe o (omega arith) e))
    eager_answer (read_ok (b ∷ bs)) e room ih =
        let split : (b ∷ bs) ++ content rest ≡ content pipe =
          ap (λ a. handed a ++ content rest) (sym e) ∙ read-content buf_len pipe in
        let few : length (b ∷ bs) ≤ buf_len =
          omega (arith, ap (λ a. length (handed a)) e, length-read buf_len pipe) in
        let count : length (b ∷ bs) + length (content rest) ≡ length (content pipe) =
          sym (length-append (b ∷ bs) (content rest)) ∙ ap length split in
        rw (← split, eager_round fuel tag pipe out b bs e (omega arith))
          (Forwards-cons b bs (content rest) out
            (record {
              written = out.written ++ encode tag (b ∷ bs);
              room = out.room - (5 + length (b ∷ bs));
            })
            _ few refl (ih _ (smaller pipe (λ q. cc) (size-read 8191 pipe)) (omega arith)))
    eager_answer read_interrupted e room ih =
        let split : content rest ≡ content pipe =
          ap (λ a. handed a ++ content rest) (sym e) ∙ read-content buf_len pipe in
        rw (← split, eager_again fuel tag pipe out e)
          (ih out (smaller pipe (λ q. cc) (size-read 8191 pipe)) (omega (arith, ap length split)))
    eager_answer read_failed e room ih = absurd (read-ne-failed buf_len pipe o e)

  -- The eager pump forwards all that an open pipe holds, in order, in frames of one to 8192 bytes,
  -- and ends; the writer has room for five bytes of framing with every byte.
  pub pump_eager-Forwards :
      (fuel : ℕ) (pipe : Source) (out : Writer)
      → IsOpen pipe
      → size pipe < fuel
      → 6 * length (content pipe) ≤ out.room
      → Forwards tag (content pipe) out (pump_eager fuel tag pipe out)
  pump_eager-Forwards zero pipe out o h room = absurd (omega arith)
  pump_eager-Forwards (suc fuel) pipe out o h room =
      eager_answer fuel pipe out o (read buf_len pipe).0 refl room (λ out' less room'.
        pump_eager-Forwards fuel (read buf_len pipe).1 out' (read-IsOpen buf_len pipe o)
          (omega arith) room')
