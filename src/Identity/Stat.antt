-- ===== src/Identity/Stat.antt =====
-- The reading of /proc/<pid>/stat: `read_process` and `parse_stat` of
-- native/forcola_shim/src/identity.rs on Linux.
use forcola.Prelude.{
  ℕ, zero, suc, ◌+◌, ◌*◌, ◌-◌, ◌^◌, List, [], ◌∷◌, ◌++◌, Bool, ◌&&◌, ◌||◌, Option, none, some, ◌==◌,
  leb, ltb, if◌then◌else◌,
}
use mathlib.Core.List.{reverse}
use forcola.Errors.{IoError, os, simple, invalid_data, Result, ok, err, ◌>>=◌, ok_or}
use forcola.Identity.{ProcessRecord, same_text}

-- The bytes behind the last `)`.
unfoldable pub behind_last : List ℕ → Option (List ℕ)
behind_last [] = none
behind_last (b ∷ bs) = elim (behind_last bs) [
  | some rest ↦ some rest
  | none ↦ if b == b')' then some bs else none
]

-- Unicode's White_Space.
abbrev pub is_whitespace : ℕ → Bool
is_whitespace c =
    (leb 9 c && leb c 13)
    || ((c == 32)
        || ((c == 0x85)
            || ((c == 0xA0)
                || ((c == 0x1680)
                    || ((leb 0x2000 c && leb c 0x200A)
                        || ((c == 0x2028)
                            || ((c == 0x2029)
                                || ((c == 0x202F) || ((c == 0x205F) || (c == 0x3000))))))))))

-- A word that has ended, if it is not empty.
abbrev pub word : List ℕ → List (List ℕ) → List (List ℕ)
word [] words = words
word (c ∷ w) words = (c ∷ w) ∷ words

-- `split_whitespace`, with the word that is being read.
unfoldable pub split_from : List ℕ → List ℕ → List (List ℕ)
split_from w [] = word w []
split_from w (c ∷ cs) =
    let ended = word w (split_from [] cs) in
    let more = split_from (w ++ (c ∷ [])) cs in if is_whitespace c then ended else more

unfoldable pub split_whitespace : List ℕ → List (List ℕ)
unfolding split_from
split_whitespace cs = split_from [] cs

-- `str::parse` of an unsigned type of which `limit` is one more than the greatest value.
unfoldable pub parse_digits : ℕ → ℕ → List ℕ → Option ℕ
parse_digits limit value [] = some value
parse_digits limit value (c ∷ cs) =
    let rest = parse_digits limit (value * 10 + (c - 48)) cs in
    if (leb 48 c && leb c 57) && ltb (value * 10 + (c - 48)) limit then rest else none

unfoldable pub parse_unsigned : ℕ → List ℕ → Option ℕ
unfolding parse_digits
parse_unsigned limit [] = none
parse_unsigned limit (c ∷ cs) =
    if c == b'+'
    then (elim cs [ [] ↦ none | d ∷ ds ↦ parse_digits limit 0 (d ∷ ds) ])
    else parse_digits limit 0 (c ∷ cs)

abbrev pub invalid : IoError
invalid = simple invalid_data

abbrev pub field : ℕ → List (List ℕ) → Option (List ℕ)
field n [] = none
field zero (w ∷ ws) = some w
field (suc n) (w ∷ ws) = field n ws

unfoldable pub number : ℕ → Option (List ℕ) → Result ℕ
unfolding parse_unsigned
number limit none = err invalid
number limit (some w) = ok_or invalid (parse_unsigned limit w)

-- `pgid_field == "-1"` is 0.
unfoldable pub group_number : Option (List ℕ) → Result ℕ
unfolding number
group_number none = err invalid
group_number (some w) = if same_text w (b'-' ∷ b'1' ∷ []) then ok 0 else number (2 ^ 32) (some w)

abbrev pub Stat : Type 0
Stat = ℕ × ℕ × ℕ × Bool

-- `ESRCH`
abbrev pub no_process : IoError
no_process = os 3

-- The words behind the command: the state, the parent and the group, and the start time as the twentieth.
unfoldable pub parse_fields : List (List ℕ) → Result Stat
unfolding number group_number
parse_fields words = do
  state ← ok_or invalid (field 0 words)
  ppid ← number (2 ^ 32) (field 1 words)
  pgid ← group_number (field 2 words)
  ticks ← number (2 ^ 64) (field 19 words)
  (if (pgid == 0) || (same_text state (b'X' ∷ []) || same_text state (b'x' ∷ []))
      then err no_process
      else ok (ppid, pgid, ticks, same_text state (b'Z' ∷ [])))

-- `decode` is `str::from_utf8`, with the code points of the text.
unfoldable pub parse_stat : (List ℕ → Option (List ℕ)) → List ℕ → Result Stat
unfolding behind_last split_whitespace parse_fields
parse_stat decode stat = do
  suffix ← ok_or invalid (behind_last stat)
  text ← ok_or invalid (decode suffix)
  parse_fields (split_whitespace text)

unfoldable pub trim_start : List ℕ → List ℕ
trim_start [] = []
trim_start (c ∷ cs) = let rest = trim_start cs in if is_whitespace c then rest else c ∷ cs

unfoldable pub trim : List ℕ → List ℕ
unfolding trim_start
trim cs = reverse (trim_start (reverse (trim_start cs)))

abbrev pub checked_boot : ℕ → Stat → List ℕ → Result ProcessRecord
checked_boot pid stat [] = err invalid
checked_boot pid (ppid, pgid, ticks, exited) (c ∷ cs) = ok (record {
  identity = record {
    pid = pid;
    pgid = pgid;
    start_time = record { boot_id = c ∷ cs; ticks = ticks };
  };
  ppid = ppid;
  exited = exited;
})

-- `read_process`, with what the two files hold.
unfoldable pub read_process :
    (List ℕ → Option (List ℕ)) → ℕ → Result (List ℕ) → Result (List ℕ) → Result ProcessRecord
unfolding parse_stat trim
read_process decode pid stat_file boot_file = do
  stat ← stat_file
  parsed ← parse_stat decode stat
  boot ← boot_file
  checked_boot pid parsed (trim boot)
