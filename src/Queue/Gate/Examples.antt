-- ===== src/Queue/Gate/Examples.antt =====
-- internal/storage/postgres/job_gate.go: runs on which the theorems about the gate apply.
use pocket_advisor.Prelude.{[], ◌∷◌}
use pocket_advisor.Queue.Gate.{
  claims, finishes, parks, resumes, moves, start, Balanced, moves-Balanced,
}

moves-Balanced_example : Balanced (moves (claims 2 1 ∷ parks ∷ resumes ∷ finishes ∷ []) (start 3))
moves-Balanced_example = moves-Balanced 3 (claims 2 1 ∷ parks ∷ resumes ∷ finishes ∷ [])
