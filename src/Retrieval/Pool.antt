-- ===== src/Retrieval/Pool.antt =====
-- internal/retrieval/select.go: `poolCandidates`, which fills the window of the reranker.
pub mod Laws
use pocket_advisor.Prelude.{
  ℕ, suc, ◌+◌, Bool, true, false, not, ◌&&◌, ◌||◌, List, [], ◌∷◌, ◌++◌, Bytes, bytes_Eq, contains,
  ltb, leb, ◌==◌, if◌then◌else◌, length, sort_by,
}
use pocket_advisor.Retrieval.{Candidate}

-- The variables of the function: `dense` counts the reservations of the dense leg.
pub record Pooling (F : Type 0) : Type 0 where
  pub seen : List Bytes
  pub pooled : List (Candidate F)
  pub floored : Bool
  pub dense : ℕ

-- The two floors of the configuration.
pub record PoolFloors : Type 0 where
  pub per_sub_query : ℕ
  pub dense_only : ℕ

module _ {F : Type 0} where
  abbrev pub is_seen : Candidate F → Pooling F → Bool
  is_seen c s = contains s.seen c.chunk_id

  -- The closure `take`.
  unfoldable pub admit : Candidate F → Pooling F → Pooling F
  admit c s =
      if is_seen c s
      then s
      else record s { seen = c.chunk_id ∷ s.seen; pooled = s.pooled ++ c ∷ [] }

  abbrev pub is_full : ℕ → Pooling F → Bool
  is_full limit s = leb limit (length s.pooled)

  unfoldable pub reserve : Candidate F → Pooling F → Pooling F
  unfolding admit
  reserve c s = record (admit c s) { floored = s.floored || not (is_seen c s) }

  -- The reservation of one sub-query, from its rank `i` on.
  unfoldable pub reserve_ranks : ℕ → ℕ → ℕ → List (Candidate F) → Pooling F → Pooling F
  unfolding reserve
  reserve_ranks floor limit i [] s = s
  reserve_ranks floor limit i (c ∷ cs) s =
      let rest = reserve_ranks floor limit (suc i) cs (reserve c s) in
      if leb floor i || is_full limit s then s else rest

  unfoldable pub reserve_groups : ℕ → ℕ → List (List (Candidate F)) → Pooling F → Pooling F
  unfolding reserve_ranks
  reserve_groups floor limit [] s = s
  reserve_groups floor limit (g ∷ gs) s =
      reserve_groups floor limit gs (reserve_ranks floor limit 0 g s)

  abbrev pub is_dense_only : Candidate F → Bool
  is_dense_only c = ltb 0 c.dense_rank && (c.lex_rank == 0)

  unfoldable pub reserve_dense_one : Candidate F → Pooling F → Pooling F
  unfolding reserve
  reserve_dense_one c s =
      if is_dense_only c && not (is_seen c s)
      then record (reserve c s) { dense = s.dense + 1 }
      else s

  unfoldable pub reserve_dense : ℕ → ℕ → List (Candidate F) → Pooling F → Pooling F
  unfolding reserve_dense_one
  reserve_dense floor limit [] s = s
  reserve_dense floor limit (c ∷ cs) s =
      let rest = reserve_dense floor limit cs (reserve_dense_one c s) in
      if leb floor s.dense || is_full limit s then s else rest

  unfoldable pub reserve_dense_groups : ℕ → ℕ → List (List (Candidate F)) → Pooling F → Pooling F
  unfolding reserve_dense
  reserve_dense_groups floor limit [] s = s
  reserve_dense_groups floor limit (g ∷ gs) s =
      reserve_dense_groups floor limit gs (reserve_dense floor limit g s)

  -- The last loop.
  unfoldable pub fill : ℕ → List (Candidate F) → Pooling F → Pooling F
  unfolding admit
  fill limit [] s = s
  fill limit (c ∷ cs) s =
      let rest = fill limit cs (admit c s) in if is_full limit s then s else rest

  unfoldable pub all_of : List (List (Candidate F)) → List (Candidate F)
  all_of [] = []
  all_of (g ∷ gs) = g ++ all_of gs

  abbrev pub no_candidates : Pooling F
  no_candidates = record { seen = []; pooled = []; floored = false; dense = 0 }

  abbrev pub many_groups : List (List (Candidate F)) → Bool
  many_groups [] = false
  many_groups (g ∷ []) = false
  many_groups (g ∷ h ∷ gs) = true

  -- `poolCandidates`, with the order of the fused scores.
  unfoldable pub pool_candidates :
      (F → F → Bool) → PoolFloors → List (List (Candidate F)) → ℕ → Pooling F
  unfolding reserve_groups reserve_dense_groups fill all_of
  pool_candidates less floors groups limit =
      let first =
        if many_groups groups && ltb 0 floors.per_sub_query
        then reserve_groups floors.per_sub_query limit groups no_candidates
        else no_candidates in
      let second =
        if ltb 0 floors.dense_only
        then reserve_dense_groups floors.dense_only limit groups first
        else first in
      let s = fill limit (sort_by (λ a b. less b.rrf a.rrf) (all_of groups)) second in
      record s { floored = s.floored && not (ltb (length s.pooled) limit) }
