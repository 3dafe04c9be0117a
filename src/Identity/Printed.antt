-- ===== src/Identity/Printed.antt =====
-- The fields of /proc/<pid>/stat as the kernel prints them, for `parse_stat` of native/forcola_shim/src/identity.rs.
use forcola.Prelude.{
  ℕ, ◌+◌, ◌*◌, ◌^◌, ◌≤◌, ◌<◌, ◌≡◌, ◌≢◌, refl, ap, sym, ◌∙◌, List, [], ◌∷◌, ◌++◌, length, ◌||◌,
  Option, none, some, ◌==◌, if◌then◌else◌, arith,
}
use forcola.Errors.{Result, ok, err, os}
use forcola.Identity.Stat.{
  parse_digits, parse_unsigned, field, number, group_number, Stat, parse_fields, parse_stat,
}
use forcola.Identity.Fields.{IsPlain, AllWords, joined, IsAscii, parse_stat-parse_fields}

-- The number that decimal digits stand for, behind `value`.
abbrev pub decimal : ℕ → List ℕ → ℕ
decimal value [] = value
decimal value (d ∷ ds) = decimal (value * 10 + d) ds

abbrev pub AllDigits : List ℕ → Type 0
AllDigits [] = Unit {0}
AllDigits (d ∷ ds) = (d < 10) × AllDigits ds

abbrev pub text : List ℕ → List ℕ
text [] = []
text (d ∷ ds) = (48 + d) ∷ text ds

-- What stands behind the command: numbers as their digits, a group as `-1` where there is none, and the words
-- that are not read.
pub record Printed : Type 0 where
  pub state : ℕ
  pub parent : List ℕ
  pub group : Option (List ℕ)
  pub between : List (List ℕ)
  pub start : List ℕ
  pub rest : List (List ℕ)

abbrev pub group_text : Option (List ℕ) → List ℕ
group_text none = b'-' ∷ b'1' ∷ []
group_text (some ds) = text ds

abbrev pub group_of : Option (List ℕ) → ℕ
group_of none = 0
group_of (some ds) = decimal 0 ds

-- The state is the third field of the file, the parent the fourth, the group the fifth, and the start time the
-- twenty-second, behind sixteen others.
abbrev pub words_of : Printed → List (List ℕ)
words_of p =
    (p.state ∷ []) ∷ text p.parent ∷ group_text p.group ∷ (p.between ++ (text p.start ∷ p.rest))

abbrev pub IsNumber : ℕ → List ℕ → Type 0
IsNumber limit ds = (ds ≢ []) × AllDigits ds × (decimal 0 ds < limit)

abbrev pub IsGroup : Option (List ℕ) → Type 0
IsGroup none = Unit {0}
IsGroup (some ds) = IsNumber (2 ^ 32) ds

pub record IsPrinted (p : Printed) : Type 0 where
  pub state_plain : IsPlain (p.state ∷ [])
  pub parent_number : IsNumber (2 ^ 32) p.parent
  pub group_number : IsGroup p.group
  pub sixteen : length p.between ≡ 16
  pub between_words : AllWords p.between
  pub start_number : IsNumber (2 ^ 64) p.start
  pub rest_words : AllWords p.rest

-- No process without a group, and none in the states `X` and `x`; a process in the state `Z` has exited.
abbrev pub stat_of : Printed → Result Stat
stat_of p =
    if (group_of p.group == 0) || ((p.state == b'X') || (p.state == b'x'))
    then err (os 3)
    else ok (decimal 0 p.parent, group_of p.group, decimal 0 p.start, p.state == b'Z')

decimal-ge : (value : ℕ) (ds : List ℕ) → value ≤ decimal value ds
decimal-ge value [] = omega arith
decimal-ge value (d ∷ ds) = ground (arith, decimal-ge (value * 10 + d) ds)

parse_digits-decimal :
    (limit value : ℕ) (ds : List ℕ)
    → AllDigits ds
    → decimal value ds < limit
    → parse_digits limit value (text ds) ≡ some (decimal value ds)
unfolding parse_digits
parse_digits-decimal limit value [] a l = refl
parse_digits-decimal limit value (d ∷ ds) (small, a) l =
    let rest = parse_digits-decimal limit (value * 10 + d) ds a l in
    let bound = decimal-ge (value * 10 + d) ds in ground arith

parse_unsigned-decimal :
    (limit : ℕ) (ds : List ℕ)
    → IsNumber limit ds
    → parse_unsigned limit (text ds) ≡ some (decimal 0 ds)
unfolding parse_unsigned
parse_unsigned-decimal limit [] (n, a, l) = absurd (n refl)
parse_unsigned-decimal limit (d ∷ ds) (n, a, l) =
    let digits = parse_digits-decimal limit 0 (d ∷ ds) a l in ground arith

text-IsPlain : (ds : List ℕ) → AllDigits ds → IsPlain (text ds)
text-IsPlain [] a = tt
text-IsPlain (d ∷ ds) (small, a) =
    (ground arith, (λ e. absurd (omega arith)), omega arith, text-IsPlain ds a)

text-ne-nil : (ds : List ℕ) → ds ≢ [] → text ds ≢ []
text-ne-nil [] n = n
text-ne-nil (d ∷ ds) n = λ e. absurd (cc)

field-append :
    (xs : List (List ℕ)) (w : List ℕ) (ws : List (List ℕ))
    → field (length xs) (xs ++ (w ∷ ws)) ≡ some w
field-append [] w ws = refl
field-append (x ∷ xs) w ws = field-append xs w ws

group_text-word : (g : Option (List ℕ)) → IsGroup g → (group_text g ≢ []) × IsPlain (group_text g)
group_text-word none p = ((λ e. absurd (cc)), ground arith)
group_text-word (some ds) (n, a, l) = (text-ne-nil ds n, text-IsPlain ds a)

group_number-group_of :
    (g : Option (List ℕ)) → IsGroup g → group_number (some (group_text g)) ≡ ok (group_of g)
unfolding group_number number
group_number-group_of none p = refl
group_number-group_of (some []) (n, a, l) = absurd (n refl)
group_number-group_of (some (d ∷ ds)) p =
    let number = parse_unsigned-decimal (2 ^ 32) (d ∷ ds) p in ground arith

AllWords-append : (xs ys : List (List ℕ)) → AllWords xs → AllWords ys → AllWords (xs ++ ys)
AllWords-append [] ys a b = b
AllWords-append (x ∷ xs) ys (n, p, a) b = (n, p, AllWords-append xs ys a b)

words_of-AllWords : (p : Printed) → IsPrinted p → AllWords (words_of p)
words_of-AllWords p v =
    let (parent_full, parent_digits, _) = v.parent_number in
    let (start_full, start_digits, _) = v.start_number in
    (
      (λ e. absurd (cc)),
      v.state_plain,
      (
        text-ne-nil p.parent parent_full,
        text-IsPlain p.parent parent_digits,
        (
          (group_text-word p.group v.group_number).0,
          (group_text-word p.group v.group_number).1,
          AllWords-append p.between (text p.start ∷ p.rest) v.between_words
              (text-ne-nil p.start start_full, text-IsPlain p.start start_digits, v.rest_words),
        ),
      ),
    )

parse_fields-stat_of : (p : Printed) → IsPrinted p → parse_fields (words_of p) ≡ stat_of p
unfolding parse_fields number
parse_fields-stat_of p v =
    let start : field 16 (p.between ++ (text p.start ∷ p.rest)) ≡ some (text p.start) =
      ap (λ n. field n (p.between ++ (text p.start ∷ p.rest))) (sym v.sixteen)
      ∙ field-append p.between (text p.start) p.rest in
    let parent_read = parse_unsigned-decimal (2 ^ 32) p.parent v.parent_number in
    let group_read = group_number-group_of p.group v.group_number in
    let start_read = parse_unsigned-decimal (2 ^ 64) p.start v.start_number in
    rw (parent_read, group_read, start, start_read) (ground arith)

-- Whatever bytes stand before the last `)`, the command's among them, `parse_stat` reads what the kernel printed behind
-- it: the parent, the group, the start time and whether the process has exited, each from the digits of its own field among the words
-- that are not read; or no process, in the group 0 or `-1` or the state `X` or `x`. The words are
-- ASCII without whitespace and `)`, the parent and the group fit 32 bits and the start time 64, and ASCII bytes are decoded as
-- themselves.
pub parse_stat-stat_of :
    (decode : List ℕ → Option (List ℕ))
    → ((cs : List ℕ) → IsAscii cs → decode cs ≡ some cs)
    → (pre : List ℕ) (p : Printed) → IsPrinted p
    → parse_stat decode (pre ++ (41 ∷ joined (words_of p))) ≡ stat_of p
parse_stat-stat_of decode ascii pre p v =
    parse_stat-parse_fields decode ascii pre (words_of p) (words_of-AllWords p v)
    ∙ parse_fields-stat_of p v
