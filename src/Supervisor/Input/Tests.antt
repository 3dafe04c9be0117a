-- ===== src/Supervisor/Input/Tests.antt =====
-- Two pieces of input, the second of which is dropped when the supervisor closes the input.
use forcola.Prelude.{ℕ, ◌≡◌, refl, List, [], ◌∷◌, ◌++◌, false}
use forcola.Supervisor.Input.{
  Input, flushed, new, send, close, receive, wrote, sends, receives, writes, closes, Reach, begins,
  steps,
}
use forcola.Supervisor.Input.Order.{concat, written-accepted}

abbrev last : Input
last = receive (2 ∷ []) [] (
    close (
      wrote (1 ∷ [])
        (receive (1 ∷ []) ((2 ∷ []) ∷ []) (send (2 ∷ []) (send (1 ∷ []) (new false))))))

last_reached : Reach last
unfolding new send wrote receive close
last_reached =
    steps
      (steps
        (steps
          (steps (steps (steps (begins false) (sends (1 ∷ []) refl)) (sends (2 ∷ []) refl))
            (receives (1 ∷ []) ((2 ∷ []) ∷ []) refl refl))
          (writes (1 ∷ []) refl))
        closes)
      (receives (2 ∷ []) [] refl refl)

written-accepted_example :
    ((rest : List ℕ) × (concat last.accepted ≡ last.written ++ rest))
    × (last.writer ≡ flushed → concat last.accepted ≡ last.written)
written-accepted_example = written-accepted last last_reached
