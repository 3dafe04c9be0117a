-- ===== src/Pump/Delivery.antt =====
-- What `pump_gated` forwards: the child's bytes in order, none of them lost or repeated.
use forcola.Prelude.{ℕ, ◌≡◌, List, [], ◌++◌}
use forcola.Frame.{Source}
use forcola.Frame.Fill.{content, IsOpen}
use forcola.Pump.{Pc, took, forwarding, at_eof, write_failed, System}
use forcola.Pump.Carried.{Carried}
use forcola.Pump.Budget

-- Bytes taken from the pipe that no frame carries yet, or that a failed write lost.
abbrev pub in_hand : Pc → List ℕ
in_hand (took bs) = bs
in_hand (forwarding bs) = bs
in_hand (write_failed bs) = bs
in_hand _ = []

-- All that the child wrote, at where it is now.
abbrev pub accounted : System → List ℕ
accounted s = s.forwarded ++ in_hand s.pc ++ content s.pipe

-- At the end of an open pipe nothing is left in it.
abbrev Ended : Pc → Source → Type 0
Ended at_eof pipe = content pipe ≡ []
Ended _ pipe = Unit {0}

record Open (s : System) : Type 0 where
  open_pipe : IsOpen s.pipe
  ended : Ended s.pc s.pipe
