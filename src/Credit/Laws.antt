-- ===== src/Credit/Laws.antt =====
-- credit.rs: what a grant, a permit and a deduction do to the budget.
use forcola.Prelude.{
  ℕ, ◌+◌, ◌≤◌, ◌<◌, ◌≡◌, ◌≢◌, ap, List, [], ◌∷◌, ◌++◌, true, false, none, some, u64_max,
  to_be_bytes, arith, ◌⊎◌, length-to_be_bytes, from_be_bytes-to_be_bytes,
}
use forcola.Credit.{State, read, grant, try_permit, await_permit, parse_grant}

-- A budget fits its u64.
abbrev pub Fits : State → Type 0
Fits st = st.available ≤ u64_max

-- A permit to read is for at least one byte, for no more than the budget has and for no more than
-- the buffer holds; and it is given only to a pump that is neither uncorked nor cancelled.
pub try_permit-read :
    (max : ℕ) (st : State) (cap : ℕ)
    → 0 < max
    → try_permit max st ≡ some (read cap)
    → (0 < cap)
      × (cap ≤ st.available)
      × (cap ≤ max)
      × (st.cancelled ≡ false)
      × (st.uncorked ≡ false)
unfolding try_permit
try_permit-read max st cap h e = ground arith

-- A pump parks exactly when the budget is empty and it is neither uncorked nor cancelled.
pub try_permit-none :
    (max : ℕ) (st : State)
    → (try_permit max st ≡ none
        → (st.available ≡ 0) × (st.cancelled ≡ false) × (st.uncorked ≡ false))
      × ((st.available ≡ 0) × (st.cancelled ≡ false) × (st.uncorked ≡ false)
          → try_permit max st ≡ none)
unfolding try_permit
try_permit-none max st = (λ e. ground arith, λ h. ground arith)

-- A call that waits is woken with a permit by the first state with a positive grant, an uncork or a
-- cancel in it.
abbrev pub Wakes : State → Type 0
Wakes st = (0 < st.available) ⊎ (st.uncorked ≡ true) ⊎ (st.cancelled ≡ true)

-- A call of `await_permit` returns with a permit as soon as one of the states that it wakes up to has
-- budget, is uncorked or is cancelled, whatever states it parked on before.
pub await_permit-Wakes :
    (max : ℕ) (before : List State) (st : State) (later : List State)
    → Wakes st
    → await_permit max (before ++ (st ∷ later)) ≢ none
unfolding await_permit try_permit
await_permit-Wakes max [] st later h = ground arith
await_permit-Wakes max (parked ∷ before) st later h =
    ground (arith, await_permit-Wakes max before st later h)

-- Granting never lowers a budget that fits, never takes it past the grant, and keeps it a u64.
pub grant_bounds :
    (n : ℕ) (st : State)
    → Fits st
    → (st.available ≤ (grant n st).available)
      × ((grant n st).available ≤ st.available + n)
      × Fits (grant n st)
unfolding grant
grant_bounds n st h = (omega arith, omega arith, omega arith)

-- The eight big-endian bytes of a grant that fits a u64 are parsed back as that grant.
pub parse_grant-to_be_bytes : (n : ℕ) → n ≤ u64_max → parse_grant (to_be_bytes 8 n) ≡ some n
unfolding parse_grant
parse_grant-to_be_bytes n h =
    rw (length-to_be_bytes 8 n) (ap some (from_be_bytes-to_be_bytes 8 n (omega arith)))
