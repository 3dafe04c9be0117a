-- ===== src/Cgroup/Laws.antt =====
-- The text of a pid fits its buffer and can be read back.
use forcola.Prelude.{
  ℕ, zero, suc, ◌+◌, ◌-◌, ◌*◌, ◌/◌, ◌%◌, ◌^◌, ◌≤◌, ◌<◌, ◌≡◌, refl, ap, sym, ◌∙◌, List, [], ◌∷◌,
  ◌++◌, Bool, true, false, some, ◌==◌, if◌then◌else◌, length, length-append, All, All-append,
  Bool-cases, inl, inr, arith,
}
use native.Mathlib.Nat.{pow-suc}
use forcola.Cgroup.{max_pid_digits, fill_digits, push_front, digits, signed, format_pid}

-- The number that decimal digits stand for, behind `acc`.
abbrev pub parse_digits : ℕ → List ℕ → ℕ
parse_digits acc [] = acc
parse_digits acc (d ∷ ds) = parse_digits (acc * 10 + (d - 48)) ds

parse_last :
    (acc : ℕ) (ds : List ℕ) (d : ℕ)
    → parse_digits acc (ds ++ d ∷ []) ≡ parse_digits acc ds * 10 + (d - 48)
parse_last acc [] d = refl
parse_last acc (e ∷ ds) d = parse_last (acc * 10 + (e - 48)) ds d

append_one : (ds : List ℕ) (d : ℕ) (text : List ℕ) → (ds ++ d ∷ []) ++ text ≡ ds ++ d ∷ text
append_one [] d text = refl
append_one (e ∷ ds) d text = ap (◌∷◌ e) (append_one ds d text)

abbrev pub IsDigit : ℕ → Type 0
IsDigit b = (48 ≤ b) × (b ≤ 57)

-- The digits of a value in front of a text, `k` at most.
record Filled (k room value : ℕ) (text : List ℕ) : Type 0 where
  ds : List ℕ
  left : ℕ
  returns : fill_digits room value text ≡ some (left, ds ++ text)
  counted : left + length ds ≡ room
  short : length ds ≤ k
  means : parse_digits 0 ds ≡ value
  decimal : All IsDigit ds

fill_digits-zero : (room : ℕ) (text : List ℕ) → fill_digits room 0 text ≡ some (room, text)
unfolding fill_digits
fill_digits-zero zero text = refl
fill_digits-zero (suc room) text = refl

fill_digits-Filled :
    (k room value : ℕ) (text : List ℕ) → value < 10 ^ k → k ≤ room → Filled k room value text
unfolding fill_digits
fill_digits-Filled zero room value text l enough =
    let none_left : value ≡ 0 = omega arith in
    record {
      ds = [];
      left = room;
      returns = rw none_left (fill_digits-zero room text);
      counted = omega arith;
      short = omega arith;
      means = sym none_left;
      decimal = tt;
    }
fill_digits-Filled (suc k) zero value text l enough = absurd (omega arith)
fill_digits-Filled (suc k) (suc room) value text l enough = elim (Bool-cases (value == 0)) [
  | inl z ↦ record {
    ds = [];
    left = suc room;
    returns = rw (z, fill_digits);
    counted = omega arith;
    short = omega arith;
    means = ground arith;
    decimal = tt;
  }
  | inr p ↦
      let d = 48 + value % 10 in
      let small : value / 10 < 10 ^ k = omega (arith, pow-suc 10 k) in
      let r = fill_digits-Filled k room (value / 10) (d ∷ text) small (omega arith) in
      record {
        ds = r.ds ++ d ∷ [];
        left = r.left;
        returns = rw (p, fill_digits, append_one r.ds d text) r.returns;
        counted = omega (arith, length-append r.ds (d ∷ []), r.counted);
        short = omega (arith, length-append r.ds (d ∷ []), r.short);
        means = parse_last 0 r.ds d ∙ omega (arith, r.means);
        decimal = All-append IsDigit r.ds (d ∷ []) r.decimal ((omega arith, omega arith), tt);
      }
]

append_nil : (ds : List ℕ) → ds ++ [] ≡ ds
append_nil [] = refl
append_nil (d ∷ ds) = ap (◌∷◌ d) (append_nil ds)

abbrev pub sign_of : Bool → List ℕ
sign_of true = 45 ∷ []
sign_of false = []

-- The text of a pid: a minus sign if it is negative, then decimal digits that stand for its value, in
-- eleven bytes at most.
pub record Formatted (negative : Bool) (value : ℕ) : Type 0 where
  pub ds : List ℕ
  pub returns : format_pid negative value ≡ some (sign_of negative ++ ds)
  pub fits : length (sign_of negative ++ ds) ≤ max_pid_digits
  pub means : parse_digits 0 ds ≡ value
  pub decimal : All IsDigit ds

-- `digits` leaves a byte for the sign.
record Counted (value : ℕ) : Type 0 where
  ds : List ℕ
  left : ℕ
  returns : digits value ≡ some (suc left, ds)
  counted : suc left + length ds ≡ max_pid_digits
  means : parse_digits 0 ds ≡ value
  decimal : All IsDigit ds

digits_other :
    (value : ℕ) → (value == 0) ≡ false → digits value ≡ fill_digits max_pid_digits value []
unfolding digits
digits_other value p =
    ap (λ b. if b then push_front 48 (max_pid_digits, []) else fill_digits max_pid_digits value [])
      p

room_counted :
    (left : ℕ) (ds : List ℕ)
    → suc (left - 1) ≡ left
    → left + length ds ≡ 11
    → suc (left - 1) + length ds ≡ max_pid_digits
room_counted left ds e c = rw e c

digits-Counted : (value : ℕ) → value ≤ 2_147_483_648 → Counted value
unfolding digits push_front
digits-Counted value l = elim (Bool-cases (value == 0)) [
  | inl z ↦ record {
    ds = 48 ∷ [];
    left = 9;
    returns = rw (z, digits);
    counted = refl;
    means = ground arith;
    decimal = ((omega arith, omega arith), tt);
  }
  | inr p ↦
      let r = fill_digits-Filled 10 11 value [] (omega arith) (omega arith) in
      let room : suc (r.left - 1) ≡ r.left = omega (arith, r.counted, r.short) in
      record {
        ds = r.ds;
        left = r.left - 1;
        returns =
            digits_other value p
            ∙ r.returns
            ∙ ap (λ x. some (x, r.ds ++ [])) (sym room)
            ∙ ap (λ x. some (suc (r.left - 1), x)) (append_nil r.ds);
        counted = room_counted r.left r.ds room r.counted;
        means = r.means;
        decimal = r.decimal;
      }
]

-- Every pid, also the least one, is formatted inside the buffer of eleven bytes, without a write before
-- its start: a minus sign if it is negative, then decimal digits that stand for its absolute value.
pub format_pid-Formatted :
    (negative : Bool) (value : ℕ) → value ≤ 2_147_483_648 → Formatted negative value
unfolding format_pid signed push_front
format_pid-Formatted true value l =
    let r = digits-Counted value l in
    record {
      ds = r.ds;
      returns = ap (signed true) r.returns;
      fits = omega (arith, r.counted);
      means = r.means;
      decimal = r.decimal;
    }
format_pid-Formatted false value l =
    let r = digits-Counted value l in
    record {
      ds = r.ds;
      returns = ap (signed false) r.returns;
      fits = omega (arith, r.counted);
      means = r.means;
      decimal = r.decimal;
    }
