-- ===== src/Supervisor/Input.antt =====
-- The forwarding of input to the child: `ChildInput`, `ChildInputSender` and the writer's thread of
-- native/forcola_shim/src/supervisor.rs, among the steps of the protocol reader and of the supervisor.
pub mod Order
mod Tests
use forcola.Prelude.{
  ℕ, ◌≤◌, ◌<◌, ◌≡◌, List, [], ◌∷◌, ◌++◌, Bool, true, false, ◌&&◌, Option, none, some, length, ltb,
  take, if◌then◌else◌,
}

-- Where the writer's thread is: in `recv`, in `write_all`, or gone. It is gone with the queue empty and the sender dropped,
-- or early: cancelled, or with a write that failed.
pub data Writer : Type 0 where
  waiting : Writer
  writing : List ℕ → Writer
  flushed : Writer
  gone : Writer

-- `accepted` is what went into the queue so far, in its order; no code reads it.
pub record Input : Type 0 where
  pub bounded : Bool
  pub closed : Bool
  pub open_sender : Bool
  pub queue : List (List ℕ)
  pub writer : Writer
  pub written : List ℕ
  pub accepted : List (List ℕ)

-- `ChildInput::new` for a child with an input.
unfoldable pub new : Bool → Input
new bounded = record {
  bounded = bounded;
  closed = false;
  open_sender = true;
  queue = [];
  writer = waiting;
  written = [];
  accepted = [];
}

abbrev pub is_alive : Writer → Bool
is_alive waiting = true
is_alive (writing b) = true
is_alive flushed = false
is_alive gone = false

-- `ChildInput::close`
unfoldable pub close : Input → Input
close i = record i { closed = true }

-- `ChildInputSender::finish`
unfoldable pub finish : Input → Input
finish i = record i { open_sender = false }

-- `InputQueue::send`: it fails once the receiver is dropped.
unfoldable pub enqueue : List ℕ → Input → Input
enqueue bytes i =
    if is_alive i.writer
    then record i { queue = i.queue ++ (bytes ∷ []); accepted = i.accepted ++ (bytes ∷ []) }
    else record i { open_sender = false }

-- `ChildInputSender::send`
unfoldable pub send : List ℕ → Input → Input
unfolding enqueue finish
send bytes i = if i.closed then finish i else if i.open_sender then enqueue bytes i else i

-- Whether a `send` returns at once: a bounded channel holds one element.
abbrev pub has_space : Input → Bool
has_space i = elim i.bounded [ false ↦ true | true ↦ ltb (length i.queue) 1 ]

-- The writer's loop: a received piece is dropped if the input is closed, and else written.
unfoldable pub receive : List ℕ → List (List ℕ) → Input → Input
receive bytes queue i = record i {
  queue = queue;
  writer = if i.closed then gone else writing bytes;
}

unfoldable pub wrote : List ℕ → Input → Input
wrote bytes i = record i { writer = waiting; written = i.written ++ bytes }

unfoldable pub broke : ℕ → List ℕ → Input → Input
broke n bytes i = record i { writer = gone; written = i.written ++ take n bytes }

pub data Step (i : Input) : Input → Type 0 where
  closes : Step i (close i)
  finishes : Step i (finish i)
  sends : (bytes : List ℕ) → has_space i ≡ true → Step i (send bytes i)
  receives :
      (bytes : List ℕ) (queue : List (List ℕ))
      → i.writer ≡ waiting
      → i.queue ≡ bytes ∷ queue
      → Step i (receive bytes queue i)
  writes : (bytes : List ℕ) → i.writer ≡ writing bytes → Step i (wrote bytes i)
  breaks : (n : ℕ) (bytes : List ℕ) → i.writer ≡ writing bytes → Step i (broke n bytes i)
  ends :
      i.writer ≡ waiting
      → i.queue ≡ []
      → i.open_sender ≡ false
      → Step i (record i { writer = flushed })

pub data Reach : Input → Type 0 where
  begins : (bounded : Bool) → Reach (new bounded)
  steps : {i j : Input} → Reach i → Step i j → Reach j
