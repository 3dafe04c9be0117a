-- ===== src/Identity/Bounds.antt =====
-- The records that `read_process` of native/forcola_shim/src/identity.rs can answer.
use mathlib.Core.Path.{subst}
use forcola.Prelude.{
  ℕ, ◌+◌, ◌*◌, ◌-◌, ◌^◌, ◌<◌, ◌≡◌, ◌≢◌, refl, List, [], ◌∷◌, ◌||◌, Option, none, some, ◌==◌,
  if◌then◌else◌, arith, Bool-cases, Option-cases, inl, inr,
}
use forcola.Errors.{Result, ok, err, ◌>>=◌, ok_or}
use forcola.Identity.{ProcessRecord, same_text}
use forcola.Identity.Stat.{
  behind_last, split_whitespace, parse_digits, parse_unsigned, invalid, field, number, group_number,
  Stat, no_process, parse_fields, parse_stat, trim, checked_boot, read_process,
}

-- What holds of the result, if there is one.
abbrev Ensures : {A : Type 0} → (A → Type 0) → Result A → Type 0
Ensures P (ok a) = P a
Ensures P (err e) = Unit {0}

Ensures->>= :
    {A B : Type 0} (Q : A → Type 0) (P : B → Type 0) (m : Result A) (f : A → Result B)
    → Ensures Q m
    → ((a : A) → Q a → Ensures P (f a))
    → Ensures P (m >>= f)
Ensures->>= Q P (ok a) f q k = k a q
Ensures->>= Q P (err e) f q k = tt

any-Ensures : {A : Type 0} (m : Result A) → Ensures (λ a. Unit {0}) m
any-Ensures (ok a) = tt
any-Ensures (err e) = tt

parse_digits-lt :
    (limit value : ℕ) (w : List ℕ) (n : ℕ)
    → value < limit
    → parse_digits limit value w ≡ some n
    → n < limit
unfolding parse_digits
parse_digits-lt limit value [] n l e = ground arith
parse_digits-lt limit value (c ∷ cs) n l e =
    ground (arith, parse_digits-lt limit (value * 10 + (c - 48)) cs n)

parse_unsigned-lt :
    (limit : ℕ) (w : List ℕ) (n : ℕ) → 0 < limit → parse_unsigned limit w ≡ some n → n < limit
unfolding parse_unsigned
parse_unsigned-lt limit [] n l e = cc
parse_unsigned-lt limit (c ∷ []) n l e = ground (arith, parse_digits-lt limit 0 (c ∷ []) n)
parse_unsigned-lt limit (c ∷ d ∷ ds) n l e =
    ground (arith, parse_digits-lt limit 0 (c ∷ d ∷ ds) n, parse_digits-lt limit 0 (d ∷ ds) n)

number-Ensures :
    (limit : ℕ) (o : Option (List ℕ)) → 0 < limit → Ensures (λ n. n < limit) (number limit o)
unfolding number
number-Ensures limit none l = tt
number-Ensures limit (some w) l = elim (Option-cases (parse_unsigned limit w)) [
  | inl e ↦ rw e tt
  | inr (n, e) ↦ rw e (parse_unsigned-lt limit w n l e)
]

group_number-Ensures : (o : Option (List ℕ)) → Ensures (λ n. n < 2 ^ 32) (group_number o)
unfolding group_number
group_number-Ensures none = tt
group_number-Ensures (some w) = elim (Bool-cases (same_text w (b'-' ∷ b'1' ∷ []))) [
  | inl e ↦ rw e (omega arith)
  | inr e ↦ rw e (number-Ensures (2 ^ 32) (some w) (omega arith))
]

-- Numbers that fit their types, and a group that can be signalled.
abbrev IsStat : Stat → Type 0
IsStat (ppid, pgid, ticks, exited) =
    (ppid < 2 ^ 32) × (0 < pgid) × (pgid < 2 ^ 32) × (ticks < 2 ^ 64)

checked_group :
    (state : List ℕ) (ppid pgid ticks : ℕ)
    → ppid < 2 ^ 32
    → pgid < 2 ^ 32
    → ticks < 2 ^ 64
    → Ensures IsStat (
        if (pgid == 0) || (same_text state (b'X' ∷ []) || same_text state (b'x' ∷ []))
        then err no_process
        else ok (ppid, pgid, ticks, same_text state (b'Z' ∷ [])))
checked_group state ppid pgid ticks a b c =
    elim (Bool-cases
      ((pgid == 0) || (same_text state (b'X' ∷ []) || same_text state (b'x' ∷ [])))) [
        | inl e ↦ rw e tt
        | inr e ↦ rw e (a, ground arith, b, c)
      ]

parse_fields-Ensures : (words : List (List ℕ)) → Ensures IsStat (parse_fields words)
unfolding parse_fields
parse_fields-Ensures words =
    Ensures->>= _ IsStat (ok_or invalid (field 0 words)) _ (any-Ensures _) λ state _.
      Ensures->>= _ IsStat (number (2 ^ 32) (field 1 words)) _
        (number-Ensures (2 ^ 32) (field 1 words) (omega arith))
        λ ppid a.
          Ensures->>= _ IsStat (group_number (field 2 words)) _
            (group_number-Ensures (field 2 words))
            λ pgid b.
              Ensures->>= _ IsStat (number (2 ^ 64) (field 19 words)) _
                (number-Ensures (2 ^ 64) (field 19 words) (omega arith))
                λ ticks c. checked_group state ppid pgid ticks a b c

parse_stat-Ensures :
    (decode : List ℕ → Option (List ℕ)) (stat : List ℕ) → Ensures IsStat (parse_stat decode stat)
unfolding parse_stat
parse_stat-Ensures decode stat =
    Ensures->>= _ IsStat (ok_or invalid (behind_last stat)) _ (any-Ensures _) λ suffix _.
      Ensures->>= _ IsStat (ok_or invalid (decode suffix)) _ (any-Ensures _)
        λ text _. parse_fields-Ensures (split_whitespace text)

-- A record of the process `pid` within the types of its fields.
pub record IsRecordOf (pid : ℕ) (r : ProcessRecord) : Type 0 where
  pub pid_asked : r.identity.pid ≡ pid
  pub group : (0 < r.identity.pgid) × (r.identity.pgid < 2 ^ 32)
  pub parent : r.ppid < 2 ^ 32
  pub ticks : r.identity.start_time.ticks < 2 ^ 64
  pub boot : r.identity.start_time.boot_id ≢ []

checked_boot-Ensures :
    (pid : ℕ) (stat : Stat) (boot : List ℕ)
    → IsStat stat
    → Ensures (IsRecordOf pid) (checked_boot pid stat boot)
checked_boot-Ensures pid stat [] p = tt
checked_boot-Ensures pid (ppid, pgid, ticks, exited) (c ∷ cs) (a, b, d, e) = record {
  pid_asked = refl;
  group = (b, d);
  parent = a;
  ticks = e;
  boot = λ q. cc;
}

result_of : {A : Type 0} (P : A → Type 0) (m : Result A) (a : A) → Ensures P m → m ≡ ok a → P a
result_of P (ok b) a p e = subst P (cc) p
result_of P (err x) a p e = cc

-- A record that `read_process` answers is of the pid asked for, its numbers fit their types, its group is not 0 and
-- its boot id is not empty, whatever the files hold.
pub read_process-IsRecordOf :
    (decode : List ℕ → Option (List ℕ)) (pid : ℕ) (stat_file boot_file : Result (List ℕ))
    (r : ProcessRecord)
    → read_process decode pid stat_file boot_file ≡ ok r
    → IsRecordOf pid r
unfolding read_process
read_process-IsRecordOf decode pid stat_file boot_file r e =
    result_of (IsRecordOf pid) (read_process decode pid stat_file boot_file) r
      (Ensures->>= _ (IsRecordOf pid) stat_file _ (any-Ensures _) λ stat _.
        Ensures->>= IsStat (IsRecordOf pid) (parse_stat decode stat) _
          (parse_stat-Ensures decode stat)
          λ parsed p.
            Ensures->>= _ (IsRecordOf pid) boot_file _ (any-Ensures _)
              λ boot _. checked_boot-Ensures pid parsed (trim boot) p)
      e
