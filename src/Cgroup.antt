-- ===== src/Cgroup.antt =====
-- native/forcola_shim/src/cgroup.rs: the pid that the child formats and writes between fork and exec.
pub mod Laws
mod Tests
use forcola.Prelude.{
  ℕ, zero, suc, ◌+◌, ◌-◌, ◌*◌, ◌/◌, ◌%◌, List, [], ◌∷◌, Bool, true, false, Option, none, some, ◌==◌,
  if◌then◌else◌, length,
}
use forcola.Errors.{os, Result, ok, err}

abbrev pub max_pid_digits : ℕ
max_pid_digits = 11

-- The filled end of the buffer, with the room that is left in front of it. A write before the start
-- would panic: `none`.
unfoldable pub fill_digits : ℕ → ℕ → List ℕ → Option (ℕ × List ℕ)
fill_digits zero value text = if value == 0 then some (0, text) else none
fill_digits (suc room) value text =
    let rest = fill_digits room (value / 10) ((48 + value % 10) ∷ text) in
    if value == 0 then some (suc room, text) else rest

unfoldable pub push_front : ℕ → ℕ × List ℕ → Option (ℕ × List ℕ)
push_front b (zero, text) = none
push_front b (suc room, text) = some (room, b ∷ text)

unfoldable pub digits : ℕ → Option (ℕ × List ℕ)
unfolding fill_digits push_front
digits value =
    let filled = fill_digits max_pid_digits value [] in
    if value == 0 then push_front 48 (max_pid_digits, []) else filled

-- The sign in front.
unfoldable pub signed : Bool → Option (ℕ × List ℕ) → Option (List ℕ)
unfolding push_front
signed negative none = none
signed false (some filled) = some filled.1
signed true (some filled) = elim (push_front 45 filled) [
  | none ↦ none
  | some (room, text) ↦ some text
]

-- A pid is its sign and its absolute value.
unfoldable pub format_pid : Bool → ℕ → Option (List ℕ)
unfolding digits signed
format_pid negative value = signed negative (digits value)

-- What `write(2)` answers: an errno, or how many bytes it took.
pub data Written : Type 0 where
  refused : (errno : ℕ) → Written
  wrote : (count : ℕ) → Written

-- `libc::EIO`
abbrev pub eio : ℕ
eio = 5

unfoldable pub join_in_child : List ℕ → Written → Result (Unit {0})
join_in_child text (refused errno) = err (os errno)
join_in_child text (wrote count) = if count == length text then ok tt else err (os eio)
