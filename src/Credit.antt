-- ===== src/Credit.antt =====
-- native/forcola_shim/src/credit.rs: the read budget that an output pump and the supervisor share.
-- Each method holds the mutex from its first line to its last, so it is one function on the state;
-- `await_permit` gives the mutex up in `wait`, so it sees one state at each of its wake-ups.
pub mod Laws
mod Tests
use forcola.Prelude.{
  ℕ, zero, suc, ◌+◌, ◌-◌, List, [], ◌∷◌, Bool, true, false, Option, none, some, length, ltb, ◌==◌,
  if◌then◌else◌, u64_max, from_be_bytes, min,
}

pub record State : Type 0 where
  pub available : ℕ  -- u64
  pub uncorked : Bool
  pub cancelled : Bool

pub data Permit : Type 0 where
  read : ℕ → Permit
  uncork : Permit
  cancel : Permit

-- `Credit::new`
unfoldable pub new : State
new = record { available = 0; uncorked = false; cancelled = false }

-- `saturating_add` on u64
unfoldable pub saturating_add : ℕ → ℕ → ℕ
saturating_add a b = min (a + b) u64_max

unfoldable pub grant : ℕ → State → State
unfolding saturating_add
grant n st = record st { available = saturating_add st.available n }

unfoldable pub set_uncorked : State → State
set_uncorked st = record st { uncorked = true }

unfoldable pub set_cancelled : State → State
set_cancelled st = record st { cancelled = true }

-- One round of the loop of `await_permit`; `none` goes to `cvar.wait`.
unfoldable pub try_permit : ℕ → State → Option Permit
try_permit max st =
    if st.cancelled
    then some cancel
    else if st.uncorked
    then some uncork
    else if ltb 0 st.available
    then some (read (min st.available max))
    else none

-- `await_permit`, over the states that it finds when it takes the mutex, at first and after each
-- wake-up, spurious ones included; `none` is a call that still waits.
unfoldable pub await_permit : ℕ → List State → Option Permit
await_permit max [] = none
await_permit max (st ∷ later) = elim (try_permit max st) [
  | some p ↦ some p
  | none ↦ await_permit max later
]

unfoldable pub consume : ℕ → State → State
consume n st = record st { available = st.available - n }

-- `try_into` a `[u8; 8]` fails on any other length.
unfoldable pub parse_grant : List ℕ → Option ℕ
parse_grant payload = if length payload == 8 then some (from_be_bytes payload) else none
