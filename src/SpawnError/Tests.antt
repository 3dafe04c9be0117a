-- ===== src/SpawnError/Tests.antt =====
-- A report of a working directory that does not exist.
use forcola.Prelude.{[], ◌∷◌}
use forcola.Errors.{os}
use forcola.SpawnError.{read_stage}
use forcola.SpawnError.Laws.{Marked, read_stage-Marked}

read_stage-Marked_example :
    Marked
      (os 2)
      (read_stage (70 ∷ 83 ∷ 2 ∷ 0 ∷ 0 ∷ 0 ∷ 0 ∷ 2 ∷ []) (os 2))
      (70 ∷ 83 ∷ 2 ∷ 0 ∷ 0 ∷ 0 ∷ 0 ∷ 2 ∷ [])
read_stage-Marked_example = read_stage-Marked (70 ∷ 83 ∷ 2 ∷ 0 ∷ 0 ∷ 0 ∷ 0 ∷ 2 ∷ []) (os 2)
