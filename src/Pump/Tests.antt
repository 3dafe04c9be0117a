-- ===== src/Pump/Tests.antt =====
-- Runs of the two pumps of supervisor.rs.
use forcola.Prelude.{◌+◌, ◌≤◌, ◌≡◌, refl, [], ◌∷◌, arith, to_be_bytes}
use forcola.Frame.{Source, bytes, interrupted, Writer, tag_stdout, size, read, write_frame}
use forcola.Frame.Fill.{content}
use forcola.Credit.{try_permit, grant, consume, new, set_uncorked}
use forcola.Pump.{System, pump_step, start, pump, grants, Reach, begin, later, pump_eager}
use forcola.Pump.Budget.{pending, gated-le-granted, consume_exact}
use forcola.Pump.Carried.{Carried}
use forcola.Pump.Eager.{Forwards, frames, pump_eager-Forwards}

-- The child has written "hi!", which comes in two pieces.
abbrev pipe : Source
pipe = bytes (104 ∷ 105 ∷ []) ∷ interrupted ∷ bytes (33 ∷ []) ∷ []

abbrev out : Writer
out = record { written = []; room = 100 }

abbrev credited : System
credited = record (start pipe out) { credit = grant 2 (start pipe out).credit; granted = 0 + 2 }

abbrev reads_hi : System
reads_hi = pump_step tag_stdout (pump_step tag_stdout credited)

abbrev step : System → System
step = pump_step tag_stdout

to_reads_hi : Reach tag_stdout pipe out reads_hi
unfolding start
to_reads_hi = later (later (later begin (grants 2)) pump) pump

gated-le-granted_example : reads_hi.gated + pending reads_hi.pc ≤ reads_hi.granted
gated-le-granted_example = gated-le-granted to_reads_hi

consume_exact_example : (consume 2 reads_hi.credit).available + 2 ≡ reads_hi.credit.available
unfolding pump_step start grant new try_permit read
consume_exact_example = consume_exact (104 ∷ 105 ∷ []) to_reads_hi refl

-- The child exits; the pump forwards what it has, and then the rest without credit.
abbrev parked : System
parked = step (step (step reads_hi))

abbrev uncorked : System
uncorked = record parked { credit = set_uncorked parked.credit }

abbrev finished : System
finished = step (step (step (step (step (step (step uncorked))))))

pump_eager-Forwards_example :
    Forwards tag_stdout (content pipe) out (pump_eager 9 tag_stdout pipe out)
unfolding size
pump_eager-Forwards_example =
    pump_eager-Forwards tag_stdout 9 pipe out tt (omega arith) (omega arith)

eager_run :
    (pump_eager 9 tag_stdout pipe out).written
    ≡ frames tag_stdout ((104 ∷ 105 ∷ []) ∷ (33 ∷ []) ∷ [])
unfolding pump_eager read write_frame to_be_bytes
eager_run = refl
