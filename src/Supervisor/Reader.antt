-- ===== src/Supervisor/Reader.antt =====
-- The protocol reader, `spawn_stdin_reader` of native/forcola_shim/src/supervisor.rs, and the waiter that reports the
-- child's exit.
pub mod Order
mod Tests
use forcola.Prelude.{
  ℕ, zero, suc, List, [], ◌∷◌, Bool, true, false, Option, none, some, mapped, ◌==◌, if◌then◌else◌,
}
use forcola.Frame
use forcola.Frame.{Frame, Source, read_frame, tag_stdin, tag_eof}
use forcola.Errors.{Result, ok, err}
use forcola.Supervisor.Drain.{
  Outcome, Event, stdin, stdin_closed, stdin_error, child_exited, child_wait_failed,
}

-- What the reader does with a frame: input for the child, the end of the input, or an event.
pub data Forward : Type 0 where
  input : List ℕ → Forward
  end_of_input : Forward
  event : Event → Forward

unfoldable pub forward : Frame → Forward
forward f =
    if f.tag == tag_stdin
    then input f.payload
    else if f.tag == tag_eof
    then end_of_input
    else event (stdin f)

-- The loop of the reader, with as much fuel as it may read frames; `none` is a reader that still runs. The channel's
-- receiver is there for as long as the reader.
unfoldable pub stdin_reader : ℕ → Source → Option (List Forward)
unfolding forward
stdin_reader zero src = none
stdin_reader (suc fuel) src =
    let (r, rest) = read_frame src in
    elim r [
      | Frame.Result.err e ↦ some (event stdin_error ∷ [])
      | Frame.Result.ok o ↦ elim o [
        | none ↦ some (event stdin_closed ∷ [])
        | some f ↦ mapped (λ fs. forward f ∷ fs) (stdin_reader fuel rest)
      ]
    ]

-- `spawn_waiter`: a status that cannot be read is an exit without one.
unfoldable pub spawn_waiter : Result Outcome → Event
spawn_waiter (ok outcome) = child_exited outcome
spawn_waiter (err e) = child_exited (record { status = none; signal = none })

-- `spawn_tracked_waiter`, with what `peek_child_exit` answers.
unfoldable pub spawn_tracked_waiter : Result (Option Outcome) → Event
spawn_tracked_waiter (ok (some outcome)) = child_exited outcome
spawn_tracked_waiter _ = child_wait_failed
