-- ===== src/Tracking/Phases.antt =====
-- The phases of a target go forward, and each has its grace.
use forcola.Prelude.{
  ℕ, ◌+◌, ◌≤◌, ◌<◌, ◌≡◌, refl, ap, ◌∙◌, Bool, true, false, not, Option, none, some, ltb,
  if◌then◌else◌, Bool-cases, inl, inr, arith,
}
use forcola.Os.{int, term, kill}
use forcola.Tracking.{
  Phase, interrupting, terminating, killing, Sequence, Cleanup, grace_of, first_phase, later_phase,
  is_killing, enter, Due, next_signal,
}

-- A phase that a cleanup can be in: INT only with a grace for it.
pub data IsPhaseOf (c : Cleanup) : Phase → Type 0 where
  with_grace : {g : ℕ} → c.interrupt ≡ some g → IsPhaseOf c interrupting
  terminates : IsPhaseOf c terminating
  kills : IsPhaseOf c killing

abbrev pub IsOpen : Cleanup → Option Sequence → Type 0
IsOpen c none = Unit {0}
IsOpen c (some s) = IsPhaseOf c s.phase

-- Whether a target has not come to its KILL yet.
pub data IsEarly : Option Sequence → Type 0 where
  fresh : IsEarly none
  in_int : {next : ℕ} → IsEarly (some (record { phase = interrupting; next = next }))
  in_term : {next : ℕ} → IsEarly (some (record { phase = terminating; next = next }))

-- The schedule of a target at the time `now`, with the next state, the signal that is due and whether it cuts a stage
-- short: INT first if the cleanup has a grace for it, and TERM otherwise; TERM when INT's grace has passed; KILL when TERM's grace has
-- passed, and again every 50 ms; nothing before that; and KILL at once when the cleanup's bound forces it.
pub data Step (c : Cleanup) (now : ℕ) : Option Sequence → Bool → Due → Type 0 where
  begins_int :
      {grace : ℕ}
      → c.interrupt ≡ some grace
      → Step c now none false (record { phase = interrupting; next = now + grace }, some int, false)
  begins_term :
      c.interrupt ≡ none
      → Step c now none false
          (record { phase = terminating; next = now + c.term }, some term, false)
  waits : {s : Sequence} → now < s.next → Step c now (some s) false (s, none, false)
  to_term :
      {next : ℕ}
      → next ≤ now
      → Step c now
          (some (record { phase = interrupting; next = next }))
          false
          (record { phase = terminating; next = now + c.term }, some term, false)
  to_kill :
      {next : ℕ}
      → next ≤ now
      → Step c now
          (some (record { phase = terminating; next = next }))
          false
          (record { phase = killing; next = now + 50_000_000 }, some kill, false)
  again :
      {next : ℕ}
      → next ≤ now
      → Step c now
          (some (record { phase = killing; next = next }))
          false
          (record { phase = killing; next = now + 50_000_000 }, some kill, false)
  forced_early :
      {old : Option Sequence}
      → IsEarly old
      → Step c now old true (record { phase = killing; next = now }, some kill, true)
  forced_again :
      {next : ℕ}
      → Step c now
          (some (record { phase = killing; next = next }))
          true
          (record { phase = killing; next = now }, some kill, false)

-- A state, signal and mark that `x` answers and that stand in the schedule.
abbrev Steps : Cleanup → ℕ → Option Sequence → Bool → Option Due → Type 0
Steps c now old force x =
    (due : Due) × (x ≡ some due) × Step c now old force due × IsPhaseOf c due.0.phase

first_phase-Steps :
    (c : Cleanup) (now : ℕ) (o : Option ℕ)
    → c.interrupt ≡ o
    → Steps c now none false (enter c now (first_phase o))
unfolding enter grace_of
first_phase-Steps c now none e = (_, refl, begins_term e, terminates)
first_phase-Steps c now (some grace) e = (
  (record { phase = interrupting; next = now + grace }, some int, false),
  rw (e, enter) refl,
  begins_int e,
  with_grace e,
)

later_phase-Steps :
    (c : Cleanup) (now next : ℕ) (p : Phase)
    → next ≤ now
    → Steps c now (some (record { phase = p; next = next })) false (enter c now (later_phase p))
unfolding enter grace_of
later_phase-Steps c now next interrupting l = (_, refl, to_term l, terminates)
later_phase-Steps c now next terminating l = (_, refl, to_kill l, kills)
later_phase-Steps c now next killing l = (_, refl, again l, kills)

forced-Steps :
    (c : Cleanup) (now next : ℕ) (p : Phase)
    → Steps c now
        (some (record { phase = p; next = next }))
        true
        (some (record { phase = killing; next = now }, some kill, not (is_killing p)))
forced-Steps c now next interrupting = (_, refl, forced_early in_int, kills)
forced-Steps c now next terminating = (_, refl, forced_early in_term, kills)
forced-Steps c now next killing = (_, refl, forced_again, kills)

-- For a target whose phase is INT only if the cleanup has a grace for it: `next_signal` never meets an INT phase without a grace, so that it does not panic; its
-- answer follows the schedule that `Step` writes out, with the signal of each phase and the time of the next step, and the
-- phase behind it has its grace again.
pub next_signal-Step :
    (c : Cleanup) (old : Option Sequence) (now : ℕ) (force : Bool)
    → IsOpen c old
    → (due : Due) × (next_signal c old now force ≡ some due)
      × Step c now old force due
      × IsPhaseOf c due.0.phase
unfolding next_signal
next_signal-Step c none now true valid = (_, refl, forced_early fresh, kills)
next_signal-Step c none now false valid = first_phase-Steps c now c.interrupt refl
next_signal-Step c (some s) now true valid = forced-Steps c now s.next s.phase
next_signal-Step c (some s) now false valid = elim (Bool-cases (ltb now s.next)) [
  | inl early ↦ (
    (s, none, false),
    ap (λ b. if b then some (s, none, false) else enter c now (later_phase s.phase)) early,
    waits (ground arith),
    valid,
  )
  | inr due ↦
      let (d, e, step, p) = later_phase-Steps c now s.next s.phase (ground arith) in
      (
        d,
        ap (λ b. if b then some (s, none, false) else enter c now (later_phase s.phase)) due ∙ e,
        step,
        p,
      )
]
