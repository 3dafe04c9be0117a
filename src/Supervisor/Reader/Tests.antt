-- ===== src/Supervisor/Reader/Tests.antt =====
-- Input, a KILL and the end of the stream, in pieces.
use forcola.Prelude.{◌≡◌, refl, List, [], ◌∷◌, ◌++◌, map, some, length, to_be_bytes, arith, suc}
use forcola.Frame.{Frame, Source, bytes, interrupted}
use forcola.Supervisor.Drain.{stdin_closed}
use forcola.Supervisor.Reader.{event, forward, stdin_reader}
use forcola.Supervisor.Reader.Order.{stdin_reader-encoded}

abbrev frames : List Frame
frames = record { tag = 2; payload = 104 ∷ [] } ∷ record { tag = 4; payload = [] } ∷ []

abbrev pieces : Source
pieces =
    bytes (0 ∷ 0 ∷ 0 ∷ 2 ∷ 2 ∷ [])
    ∷ interrupted
    ∷ bytes (104 ∷ 0 ∷ 0 ∷ [])
    ∷ bytes (0 ∷ 1 ∷ 4 ∷ [])
    ∷ []

stdin_reader-encoded_example :
    stdin_reader (suc (length frames)) pieces
    ≡ some (map forward frames ++ (event stdin_closed ∷ []))
unfolding to_be_bytes
stdin_reader-encoded_example =
    stdin_reader-encoded pieces frames tt (omega arith) (omega arith) refl
