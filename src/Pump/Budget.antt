-- ===== src/Pump/Budget.antt =====
-- The backpressure of `pump_gated`: what it takes from the child under the budget never passes what
-- was granted.
use forcola.Prelude.{ℕ, ◌+◌, ◌≤◌, ◌<◌, ◌≡◌, refl, List, [], ◌∷◌, length, u64_max, arith}
use forcola.Frame.{Source, Writer, ReadResult, read, read_ok, read_interrupted, read_failed}
use forcola.Credit.{State, try_permit, grant, consume, set_uncorked, set_cancelled, new}
use forcola.Pump.{
  buf_len, Pc, awaiting, reading, took, draining, forwarding, at_eof, read_error, cancelled,
  write_failed, System, on_permit, on_read, on_write, run_pc, pump_step, start, Step, pump, grants,
  uncorks, cancels, others, Reach, begin, later,
}
use forcola.Pump.Reads.{handed, length-read}

-- Bytes read under the budget that `consume` has not yet deducted.
abbrev pub pending : Pc → ℕ
pending (took bs) = length bs
pending _ = 0

-- What the pump's position promises of the budget.
abbrev pub Covered : State → Pc → Type 0
Covered c (reading cap) = (0 < cap) × (cap ≤ c.available) × (cap ≤ buf_len)
Covered c (took bs) = length bs ≤ c.available
Covered c _ = Unit {0}

pub record Inv (s : System) : Type 0 where
  pub fits : s.credit.available ≤ u64_max
  pub covered : Covered s.credit s.pc
  pub balance : s.credit.available + s.gated ≤ s.granted

on_permit-Inv :
    (s : System) → Inv s → s.pc ≡ awaiting → Inv (on_permit (try_permit buf_len s.credit) s)
unfolding on_permit try_permit
on_permit-Inv s v e = ground arith

on_read-Inv :
    (s : System) (cap : ℕ) (answer : ReadResult) (rest : Source)
    → Inv s
    → length (handed answer) ≤ cap
    → cap ≤ s.credit.available
    → Inv (on_read took answer rest s)
unfolding on_read
on_read-Inv s cap (read_ok []) rest v n h = ground arith
on_read-Inv s cap (read_ok (b ∷ bs)) rest v n h = ground arith
on_read-Inv s cap read_interrupted rest v n h = ground arith
on_read-Inv s cap read_failed rest v n h = ground arith

on_read_drain-Inv :
    (s : System) (answer : ReadResult) (rest : Source)
    → Inv s
    → Inv (on_read forwarding answer rest s)
unfolding on_read
on_read_drain-Inv s (read_ok []) rest v = ground arith
on_read_drain-Inv s (read_ok (b ∷ bs)) rest v = ground arith
on_read_drain-Inv s read_interrupted rest v = ground arith
on_read_drain-Inv s read_failed rest v = ground arith

run_pc-Inv : (tag : ℕ) (pc : Pc) (s : System) → Inv s → s.pc ≡ pc → Inv (run_pc tag pc s)
unfolding run_pc on_write consume
run_pc-Inv tag awaiting s v e = on_permit-Inv s v e
run_pc-Inv tag (reading cap) s v e =
    on_read-Inv s cap (read cap s.pipe).0 (read cap s.pipe).1 v (length-read cap s.pipe)
      (ground arith)
run_pc-Inv tag (took bs) s v e = ground arith
run_pc-Inv tag draining s v e =
    on_read_drain-Inv s (read buf_len s.pipe).0 (read buf_len s.pipe).1 v
run_pc-Inv tag (forwarding bs) s v e = ground arith
run_pc-Inv tag at_eof s v e = v
run_pc-Inv tag read_error s v e = v
run_pc-Inv tag cancelled s v e = v
run_pc-Inv tag (write_failed bs) s v e = v

grant-Inv :
    (n : ℕ) (s : System)
    → Inv s
    → Inv (record s { credit = grant n s.credit; granted = s.granted + n })
unfolding grant
grant-Inv n s v = ground arith

pub Step-Inv : {tag : ℕ} {s t : System} → Step tag s t → Inv s → Inv t
unfolding pump_step set_uncorked set_cancelled
Step-Inv {tag} {s} pump v = run_pc-Inv tag s.pc s v refl
Step-Inv {s = s} (grants n) v = grant-Inv n s v
Step-Inv {s = s} uncorks v = ground arith
Step-Inv {s = s} cancels v = ground arith
Step-Inv {s = s} (others t payload) v = ground arith

pub Reach-Inv : {tag : ℕ} {pipe : Source} {out : Writer} {s : System} → Reach tag pipe out s → Inv s
unfolding start new
Reach-Inv begin = ground arith
Reach-Inv (later r st) = Step-Inv st (Reach-Inv r)

-- Backpressure: in every state that the pump and the other threads can reach, the bytes that it took
-- from the child under the budget, those not yet deducted included, are at most the bytes granted.
pub gated-le-granted :
    {tag : ℕ} {pipe : Source} {out : Writer} {s : System}
    → Reach tag pipe out s
    → s.gated + pending s.pc ≤ s.granted
gated-le-granted {s} r = ground (arith, Reach-Inv r)

-- The gap between the peek of `await_permit` and `consume` cannot underflow: whatever the other
-- threads did in between, the budget still covers the bytes read, so `consume` deducts them exactly.
pub consume_exact :
    {tag : ℕ} {pipe : Source} {out : Writer} {s : System} (bs : List ℕ)
    → Reach tag pipe out s
    → s.pc ≡ took bs
    → (consume (length bs) s.credit).available + length bs ≡ s.credit.available
unfolding consume
consume_exact bs r e = ground (arith, Reach-Inv r)
