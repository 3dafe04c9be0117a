-- ===== src/Identity/Tests.antt =====
-- A process whose command is `a) b`.
use forcola.Prelude.{ℕ, zero, suc, ◌≡◌, refl, List, [], ◌∷◌, ◌++◌, Option, some, false, arith}
use forcola.Errors.{ok}
use forcola.Identity.{ProcessRecord}
use forcola.Identity.Stat.{parse_stat, read_process}
use forcola.Identity.Fields.{joined}
use forcola.Identity.Printed.{Printed, words_of, IsPrinted, parse_stat-stat_of}
use forcola.Identity.Bounds.{IsRecordOf, read_process-IsRecordOf}

abbrev repeat : ℕ → List (List ℕ) → List (List ℕ)
repeat zero ws = ws
repeat (suc n) ws = (b'0' ∷ []) ∷ repeat n ws

-- State S, parent 1, group 42, sixteen zeros, and started at tick 77.
abbrev words : List (List ℕ)
words = (b'S' ∷ []) ∷ (b'1' ∷ []) ∷ (b'4' ∷ b'2' ∷ []) ∷ repeat 16 ((b'7' ∷ b'7' ∷ []) ∷ [])

abbrev before : List ℕ
before = b'4' ∷ b'2' ∷ b' ' ∷ b'(' ∷ b'a' ∷ b')' ∷ b' ' ∷ b'b' ∷ []

abbrev decode : List ℕ → Option (List ℕ)
decode bs = some bs

parse_stat_test : parse_stat decode (before ++ (41 ∷ joined words)) ≡ ok (1, 42, 77, false)
unfolding parse_stat
parse_stat_test = refl

abbrev printed : Printed
printed = record {
  state = b'S';
  parent = 1 ∷ [];
  group = some (4 ∷ 2 ∷ []);
  between = repeat 16 [];
  start = 7 ∷ 7 ∷ [];
  rest = [];
}

printed-IsPrinted : IsPrinted printed
printed-IsPrinted = record {
  state_plain = ground arith;
  parent_number = ground arith;
  group_number = ground arith;
  sixteen = refl;
  between_words = ground arith;
  start_number = ground arith;
  rest_words = tt;
}

parse_stat-stat_of_example :
    parse_stat decode (before ++ (41 ∷ joined (words_of printed))) ≡ ok (1, 42, 77, false)
parse_stat-stat_of_example =
    parse_stat-stat_of decode (λ cs a. refl) before printed printed-IsPrinted

abbrev record_42 : ProcessRecord
record_42 = record {
  identity = record {
    pid = 42;
    pgid = 42;
    start_time = record { boot_id = b'x' ∷ []; ticks = 77 };
  };
  ppid = 1;
  exited = false;
}

read_record :
    read_process decode 42 (ok (before ++ (41 ∷ joined words))) (ok (b'x' ∷ 10 ∷ [])) ≡ ok record_42
unfolding read_process
read_record = refl

read_process-IsRecordOf_example : IsRecordOf 42 record_42
read_process-IsRecordOf_example =
    read_process-IsRecordOf decode 42 (ok (before ++ (41 ∷ joined words))) (ok (b'x' ∷ 10 ∷ []))
      record_42 read_record
