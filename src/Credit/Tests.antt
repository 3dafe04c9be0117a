-- ===== src/Credit/Tests.antt =====
-- The budget at concrete states.
use forcola.Prelude.{◌≡◌, ◌≢◌, refl, [], ◌∷◌, ◌++◌, false, some, none, to_be_bytes, inl, arith}
use forcola.Credit.{State, new, await_permit, consume, parse_grant}
use forcola.Credit.Laws.{await_permit-Wakes, parse_grant-to_be_bytes}

abbrev ten : State
ten = record { available = 10; uncorked = false; cancelled = false }

await_permit-Wakes_example : await_permit 4 ((new ∷ []) ++ (ten ∷ [])) ≢ none
await_permit-Wakes_example = await_permit-Wakes 4 (new ∷ []) ten [] (inl (omega arith))

parse_grant-to_be_bytes_example : parse_grant (to_be_bytes 8 4096) ≡ some 4096
parse_grant-to_be_bytes_example = parse_grant-to_be_bytes 4096 (omega arith)

consumed : (consume 7 ten).available ≡ 3
unfolding consume
consumed = refl

refused : parse_grant (0 ∷ 0 ∷ 0 ∷ 1 ∷ []) ≡ none
unfolding parse_grant
refused = refl
