-- ===== src/Lock/Tests.antt =====
-- A lock that is released between the first two attempts.
use forcola.Prelude.{◌≡◌, refl, true, none, some, ◌==◌, if◌then◌else◌}
use forcola.Errors.{ok}
use forcola.Lock.{Fcntl, unlocked, acquire, attempts, run, exit_released, ok_line}
use forcola.Lock.Laws.{Backed, acquire-Backed}

abbrev fcntl : Fcntl
fcntl = record { set = λ i. if i == 0 then some 11 else none; get = λ i. unlocked }

second_time :
    run true (ok fcntl) true ≡ record { line = ok_line; waited = true; status = exit_released }
unfolding run
second_time = refl

acquire-Backed_example : Backed fcntl attempts 0 (acquire fcntl)
acquire-Backed_example = acquire-Backed fcntl
