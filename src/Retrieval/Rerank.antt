-- ===== src/Retrieval/Rerank.antt =====
-- internal/retrieval/select.go: `rerank`. The reranker is an interface of the code: here a function
-- of the question and the passages that fails, or gives indices with scores.
use pocket_advisor.Prelude.{
  ℕ, Bool, true, false, not, ◌||◌, List, [], ◌∷◌, map, Option, none, some, Bytes, get_elem?,
  if◌then◌else◌,
}
use pocket_advisor.Retrieval.{Candidate}
use pocket_advisor.Retrieval.Selection.{Scored}

pub record Ranked (F : Type 0) : Type 0 where
  pub index : ℕ
  pub score : F

abbrev pub Reranker : Type 0 → Type 0
Reranker F = Bytes → List Bytes → Option (List (Ranked F))

module _ {F : Type 0} where
  abbrev pub unscored : F → List (Candidate F) → List (Scored F)
  unscored zero_score = map (λ c. record { candidate = c; score = zero_score })

  -- The results in the reranker's order; none where an index is out of range and the code panics.
  unfoldable pub rescored : List (Candidate F) → List (Ranked F) → Option (List (Scored F))
  rescored pool [] = some []
  rescored pool (r ∷ rs) =
      let rest = rescored pool rs in
      elim (get_elem? pool r.index) [
        | none ↦ none
        | some c ↦ elim rest [
          | none ↦ none
          | some out ↦ some (record { candidate = c; score = r.score } ∷ out)
        ]
      ]

  abbrev pub has_none : List (Candidate F) → Bool
  has_none [] = true
  has_none (c ∷ cs) = false

  -- `rerank`; the Boolean is the warning that the reranker was unavailable.
  unfoldable pub rerank :
      F → Bool → Option (Reranker F) → Bytes → List (Candidate F) → Option (List (Scored F)) × Bool
  unfolding rescored
  rerank zero_score enabled none question pool = (some (unscored zero_score pool), false)
  rerank zero_score enabled (some ranks) question pool =
      if not enabled || has_none pool
      then (some (unscored zero_score pool), false)
      else elim (ranks question (map (λ c. c.text) pool)) [
        | none ↦ (some (unscored zero_score pool), true)
        | some results ↦ (rescored pool results, false)
      ]
