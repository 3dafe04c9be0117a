-- ===== src/Frame/Tests.antt =====
-- Frames on concrete streams.
use forcola.Prelude.{
  ◌<◌, ◌≡◌, ◌≢◌, refl, [], ◌∷◌, ◌++◌, some, length, to_be_bytes, from_be_bytes, arith,
}
use forcola.Frame.{
  Source, bytes, interrupted, Frame, ok, err, stuck, read_frame, write_frame, write_all, Writer,
  tag_stdout, max_frame_len, unexpected_eof,
}
use forcola.Frame.Fill.{content, IsOpen}
use forcola.Frame.Decode.{decode, read_frame-decode, read_frame-ne-stuck}
use forcola.Frame.RoundTrip.{
  encode, write_frame-encode, read_frame_consumes, read_frame-write_frame,
}

-- "hi" as a STDOUT frame in three pieces, with an interruption, and one byte of the next frame.
abbrev pieces : Source
pieces =
    bytes (0 ∷ 0 ∷ []) ∷ interrupted ∷ bytes (0 ∷ 3 ∷ 17 ∷ []) ∷ bytes (104 ∷ 105 ∷ 9 ∷ []) ∷ []

abbrev hi : Frame
hi = record { tag = 17; payload = 104 ∷ 105 ∷ [] }

abbrev empty_out : Writer
empty_out = record { written = []; room = 100 }

read_frame-decode_example : (read_frame pieces).0 ≡ decode (content pieces)
read_frame-decode_example = read_frame-decode pieces tt

read_frame-ne-stuck_example : (read_frame pieces).0 ≢ err stuck
read_frame-ne-stuck_example = read_frame-ne-stuck pieces

reads_hi : (read_frame pieces).0 ≡ ok (some hi)
unfolding from_be_bytes
reads_hi = read_frame-decode pieces tt

read_frame_consumes_example :
    (encode 17 (104 ∷ 105 ∷ []) ++ content (read_frame pieces).1 ≡ content pieces)
    × (length hi.payload < max_frame_len)
read_frame_consumes_example = read_frame_consumes pieces hi (omega arith) reads_hi

write_frame-encode_example :
    write_frame empty_out tag_stdout (104 ∷ 105 ∷ [])
    ≡ write_all empty_out (encode tag_stdout (104 ∷ 105 ∷ []))
write_frame-encode_example = write_frame-encode empty_out tag_stdout (104 ∷ 105 ∷ [])

read_frame-write_frame_example :
    ((read_frame pieces).0 ≡ ok (some hi))
    × (content (read_frame pieces).1 ≡ 9 ∷ [])
    × IsOpen (read_frame pieces).1
unfolding write_frame to_be_bytes
read_frame-write_frame_example =
    read_frame-write_frame pieces 100 17 (104 ∷ 105 ∷ []) (9 ∷ []) tt (omega arith) (omega arith)
      refl refl

truncated : (read_frame (bytes (0 ∷ 0 ∷ 0 ∷ 10 ∷ 17 ∷ 104 ∷ []) ∷ [])).0 ≡ err unexpected_eof
unfolding from_be_bytes
truncated = read_frame-decode (bytes (0 ∷ 0 ∷ 0 ∷ 10 ∷ 17 ∷ 104 ∷ []) ∷ []) tt
