-- ===== src/Cgroup/Tests.antt =====
-- The texts of some pids.
use forcola.Prelude.{◌≡◌, refl, [], ◌∷◌, true, some, arith}
use forcola.Errors.{err, os}
use forcola.Cgroup.{format_pid, join_in_child, wrote}
use forcola.Cgroup.Laws.{Formatted, format_pid-Formatted}

negative_pid : format_pid true 42 ≡ some (45 ∷ 52 ∷ 50 ∷ [])
unfolding format_pid
negative_pid = refl

short_write : join_in_child (52 ∷ 50 ∷ []) (wrote 1) ≡ err (os 5)
unfolding join_in_child
short_write = refl

format_pid-Formatted_example : Formatted true 2_147_483_648
format_pid-Formatted_example = format_pid-Formatted true 2_147_483_648 (omega arith)
