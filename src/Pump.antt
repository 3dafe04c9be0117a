-- ===== src/Pump.antt =====
-- native/forcola_shim/src/supervisor.rs, `pump_gated` and `pump_eager`: a thread that forwards one
-- output pipe of the child in frames. `pump_gated` shares its credit with the supervisor and the
-- protocol writer with the other threads, so it is a program counter whose steps interleave with
-- theirs: a step is one call that takes a lock or reads the pipe. `granted`, `gated` and `forwarded`
-- keep count and are no part of the program; Carried ties `forwarded` to the bytes of the writer.
pub mod Reads
pub mod Budget
pub mod Delivery
pub mod Eager
pub mod Carried
mod Tests
use forcola.Prelude.{
  ℕ, zero, suc, ◌+◌, ◌*◌, List, [], ◌∷◌, ◌++◌, Bool, true, false, Option, none, some, length,
  if◌then◌else◌,
}
use forcola.Frame.{
  Source, ReadResult, read, read_ok, read_interrupted, read_failed, Writer, write_frame,
}
use forcola.Credit
use forcola.Credit.{State, Permit}

-- `let mut buf = [0u8; 8192]` of `spawn_output_pump`
abbrev pub buf_len : ℕ
buf_len = 8192

-- Where the pump stands. The last four are the ways out of its loop; `write_failed` keeps the bytes
-- that the failed `write_frame` was given.
pub data Pc : Type 0 where
  awaiting : Pc  -- before `credit.await_permit`
  reading : (cap : ℕ) → Pc  -- before `pipe.read(&mut buf[..cap])`
  took : (bs : List ℕ) → Pc  -- before `credit.consume`
  draining : Pc  -- before `pipe.read(buf)`
  forwarding : (bs : List ℕ) → Pc  -- before `write_frame`
  at_eof : Pc
  read_error : Pc
  cancelled : Pc
  write_failed : (bs : List ℕ) → Pc

pub record System : Type 0 where
  pub pipe : Source
  pub credit : State
  pub out : Writer
  pub pc : Pc
  pub granted : ℕ  -- by all grants so far
  pub gated : ℕ  -- deducted from the budget so far
  pub forwarded : List ℕ  -- payloads of the frames written so far

-- The `match` on a permit; without one the pump goes on waiting.
on_permit : Option Permit → System → System
on_permit none s = s
on_permit (some (Permit.read cap)) s = record s { pc = reading cap }
on_permit (some Permit.uncork) s = record s { pc = draining }
on_permit (some Permit.cancel) s = record s { pc = cancelled }

-- The `match` on `pipe.read`, where `next` is what `Ok(n)` goes on with.
on_read : (List ℕ → Pc) → ReadResult → Source → System → System
on_read next (read_ok []) rest s = record s { pipe = rest; pc = at_eof }
on_read next (read_ok (b ∷ bs)) rest s = record s { pipe = rest; pc = next (b ∷ bs) }
on_read next read_interrupted rest s = record s { pipe = rest; pc = awaiting }
on_read next read_failed rest s = record s { pipe = rest; pc = read_error }

on_write : List ℕ → Bool → Writer → System → System
on_write bs true out s = record s { out = out; pc = awaiting; forwarded = s.forwarded ++ bs }
on_write bs false out s = record s { out = out; pc = write_failed bs }

-- The next step of `pump_gated`, which writes frames of one tag.
run_pc : ℕ → Pc → System → System
unfolding on_permit on_read on_write
run_pc tag awaiting s = on_permit (Credit.try_permit buf_len s.credit) s
run_pc tag (reading cap) s = let (answer, rest) = read cap s.pipe in on_read took answer rest s
run_pc tag (took bs) s = record s {
  credit = Credit.consume (length bs) s.credit;
  gated = s.gated + length bs;
  pc = forwarding bs;
}
run_pc tag draining s = let (answer, rest) = read buf_len s.pipe in on_read forwarding answer rest s
run_pc tag (forwarding bs) s = let (sent, out) = write_frame s.out tag bs in on_write bs sent out s
run_pc tag at_eof s = s
run_pc tag read_error s = s
run_pc tag cancelled s = s
run_pc tag (write_failed bs) s = s

unfoldable pub pump_step : ℕ → System → System
unfolding run_pc
pump_step tag s = run_pc tag s.pc s

-- `pump_gated` at the start, over a fresh budget.
unfoldable pub start : Source → Writer → System
start pipe out = record {
  pipe = pipe;
  credit = Credit.new;
  out = out;
  pc = awaiting;
  granted = 0;
  gated = 0;
  forwarded = [];
}

-- The pump and the threads beside it, in any order: the supervisor grants, uncorks and cancels, and
-- the other threads write frames of theirs.
pub data Step (tag : ℕ) (s : System) : System → Type 0 where
  pump : Step tag s (pump_step tag s)
  grants :
      (n : ℕ) → Step tag s (record s { credit = Credit.grant n s.credit; granted = s.granted + n })
  uncorks : Step tag s (record s { credit = Credit.set_uncorked s.credit })
  cancels : Step tag s (record s { credit = Credit.set_cancelled s.credit })
  others :
      (t : ℕ) (payload : List ℕ) → Step tag s (record s { out = (write_frame s.out t payload).1 })

pub data Reach (tag : ℕ) (pipe : Source) (out : Writer) : System → Type 0 where
  begin : Reach tag pipe out (start pipe out)
  later : {s t : System} → Reach tag pipe out s → Step tag s t → Reach tag pipe out t

-- The loop of `pump_eager`. The fuel is spent by the pieces and bytes of the pipe.
unfoldable pub pump_eager : ℕ → ℕ → Source → Writer → Writer
pump_eager zero tag pipe out = out
pump_eager (suc fuel) tag pipe out =
    let (answer, rest) = read buf_len pipe in
    elim answer [
      | read_ok [] ↦ out
      | read_ok (b ∷ bs) ↦
          let (sent, out') = write_frame out tag (b ∷ bs) in
          elim sent [ true ↦ pump_eager fuel tag rest out' | false ↦ out' ]
      | read_interrupted ↦ pump_eager fuel tag rest out
      | read_failed ↦ out
    ]
