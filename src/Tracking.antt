-- ===== src/Tracking.antt =====
-- native/forcola_shim/src/tracking.rs: when the cleanup of tracked processes sends which signal to a
-- target.
pub mod Phases
pub mod World
pub mod Scan
pub mod Refresh
pub mod Advance
pub mod Evolves
pub mod Keeps
pub mod Discovery
pub mod Scanned
pub mod Signals
pub mod Panics
pub mod Ready
pub mod Outcome
pub mod Verified
mod Tests
use forcola.Prelude.{
  ℕ, ◌+◌, ◌≤◌, Bool, true, false, not, ◌&&◌, Option, none, some, or_zero, leb, ltb, if◌then◌else◌,
}
use forcola.Os.{Signal, int, term, kill, ms}

abbrev pub sample_interval : ℕ
sample_interval = ms 50

abbrev pub confirm_grace : ℕ
confirm_grace = ms 500

pub data Phase : Type 0 where
  interrupting terminating killing : Phase

pub record Sequence : Type 0 where
  pub phase : Phase
  pub next : ℕ

pub record Cleanup : Type 0 where
  pub interrupt : Option ℕ
  pub term : ℕ
  pub deadline : ℕ
  pub empty_scans : ℕ

-- The cleanup that was begun first stays.
unfoldable pub begin_cleanup : ℕ → Option ℕ → ℕ → Option Cleanup → Option Cleanup
begin_cleanup now interrupt term_grace (some c) = some c
begin_cleanup now interrupt term_grace none = some (record {
  interrupt = interrupt;
  term = term_grace;
  deadline = now + or_zero interrupt + term_grace + confirm_grace;
  empty_scans = 0;
})

unfoldable pub expired : ℕ → Option Cleanup → Bool
expired now none = false
expired now (some c) = leb c.deadline now

-- The grace of a phase; `cleanup.interrupt.unwrap()` panics without one: `none`.
unfoldable pub grace_of : Cleanup → Phase → Option ℕ
grace_of c interrupting = c.interrupt
grace_of c terminating = some c.term
grace_of c killing = some sample_interval

abbrev pub signal_of : Phase → Signal
signal_of interrupting = int
signal_of terminating = term
signal_of killing = kill

abbrev pub first_phase : Option ℕ → Phase
first_phase none = terminating
first_phase (some grace) = interrupting

abbrev pub later_phase : Phase → Phase
later_phase interrupting = terminating
later_phase terminating = killing
later_phase killing = killing

abbrev pub is_killing : Phase → Bool
is_killing killing = true
is_killing _ = false

-- The new sequence, the signal that is due, and whether a stage was cut short.
abbrev pub Due : Type 0
Due = Sequence × Option Signal × Bool

-- A phase that begins now.
unfoldable pub enter : Cleanup → ℕ → Phase → Option Due
unfolding grace_of
enter c now phase = elim (grace_of c phase) [
  | none ↦ none
  | some grace ↦ some (record { phase = phase; next = now + grace }, some (signal_of phase), false)
]

unfoldable pub next_signal : Cleanup → Option Sequence → ℕ → Bool → Option Due
unfolding enter
next_signal c none now true = some (record { phase = killing; next = now }, some kill, true)
next_signal c none now false = enter c now (first_phase c.interrupt)
next_signal c (some s) now true =
    some (record { phase = killing; next = now }, some kill, not (is_killing s.phase))
next_signal c (some s) now false =
    if ltb now s.next then some (s, none, false) else enter c now (later_phase s.phase)

-- `later` is the clock behind the signal's system call.
unfoldable pub after_signal : Cleanup → Sequence → ℕ → Option Sequence
unfolding grace_of
after_signal c s later = elim (grace_of c s.phase) [
  | none ↦ none
  | some grace ↦ some (record { phase = s.phase; next = later + grace })
]
