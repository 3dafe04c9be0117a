-- ===== src/Supervisor/Reader/Order.antt =====
-- The frames of a stream, against what the protocol reader forwards.
use forcola.Prelude.{
  ℕ, suc, ◌<◌, ◌≡◌, refl, ap, ◌∙◌, List, [], ◌∷◌, ◌++◌, map, some, mapped, length, All, IsByte,
  All-append_right,
}
use forcola.Frame.{Frame, Source, read_frame, max_frame_len}
use forcola.Frame.Fill.{content, IsOpen}
use forcola.Frame.Decode.{decode, read_frame-decode}
use forcola.Frame.RoundTrip.{encode, read_frame-encode}
use forcola.Supervisor.Drain.{stdin_closed}
use forcola.Supervisor.Reader.{event, forward, stdin_reader}

-- The bytes of frames, one behind the other.
abbrev pub encoded : List Frame → List ℕ
encoded [] = []
encoded (f ∷ fs) = encode f.tag f.payload ++ encoded fs

-- Frames below the cap.
abbrev pub AllFit : List Frame → Type 0
AllFit [] = Unit {0}
AllFit (f ∷ fs) = (length f.payload < max_frame_len) × AllFit fs

-- A stream of whole frames, in whatever pieces and with whatever interruptions it comes: the reader
-- forwards each frame in its order, then the end of the stream, and stops.
pub stdin_reader-encoded :
    (src : Source) (fs : List Frame)
    → IsOpen src
    → All IsByte (content src)
    → AllFit fs
    → content src ≡ encoded fs
    → stdin_reader (suc (length fs)) src ≡ some (map forward fs ++ (event stdin_closed ∷ []))
unfolding stdin_reader
stdin_reader-encoded src [] o all fit whole =
    rw (read_frame-decode src o ∙ ap decode whole, stdin_reader) refl
stdin_reader-encoded src (f ∷ fs) o all (fit, fits) whole =
    let (found, left, o') = read_frame-encode src f.tag f.payload (encoded fs) o all fit whole in
    rw (found, stdin_reader)
      (ap (mapped (λ l. forward f ∷ l)) (
        stdin_reader-encoded (read_frame src).1 fs o'
          (rw left
            (All-append_right IsByte (encode f.tag f.payload) (encoded fs) (rw whole at all)))
          fits left))
