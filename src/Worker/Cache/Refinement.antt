-- ===== src/Worker/Cache/Refinement.antt =====
-- internal/worker/vector_cache.go: the cache answers as a list of its entries does, the last used one
-- in front, without a map, a count of bytes or a loop.
use pocket_advisor.Prelude.{
  ℕ, ◌≡◌, refl, ap₂, ◌∙◌, List, [], ◌∷◌, Option, none, some, inl, inr, Option-cases,
}
use pocket_advisor.Worker.Cache.{
  VectorKey, VectorEntry, VectorCache, remove, new_vector_cache, get, put,
}
use pocket_advisor.Worker.Cache.Evict.{find}
use pocket_advisor.Worker.Cache.Invariant.{
  Inv, Call, gets, puts, touched, get_hit, get_miss, put_hit, put_miss-Agrees, new-Inv, get-Inv,
  put-Inv,
}
use pocket_advisor.Worker.Cache.Recency.{stored, vector_of, order-put, get-eq-find}

module _ {F : Type 0} where
  -- What the calls of `Get` return, one after the other.
  unfoldable pub answers : VectorCache F → List (Call F) → List (Option (List F))
  answers c [] = []
  answers c (gets k ∷ cs) = let (c', found) = get k c in found ∷ answers c' cs
  answers c (puts k xs ∷ cs) = answers (put k xs c) cs

  -- A list with the entry of a key moved to its front, if it holds one.
  abbrev pub used : VectorKey → List (VectorEntry F) → Option (VectorEntry F) → List (VectorEntry F)
  used k vs none = vs
  used k vs (some v) = v ∷ remove k vs

  -- The same calls on a list of entries whose bytes may make up `n`.
  unfoldable pub listed_answers : ℕ → List (VectorEntry F) → List (Call F) → List (Option (List F))
  listed_answers n vs [] = []
  listed_answers n vs (gets k ∷ cs) =
      vector_of (find k vs) ∷ listed_answers n (used k vs (find k vs)) cs
  listed_answers n vs (puts k xs ∷ cs) = listed_answers n (stored n k xs vs (find k vs)) cs

  order-get :
      (k : VectorKey) (c : VectorCache F)
      → Inv c
      → ((get k c).0.order ≡ used k c.order (find k c.order))
        × ((get k c).0.max_bytes ≡ c.max_bytes)
  unfolding touched
  order-get k c i = elim (Option-cases (find k c.order)) [
    | inl absent ↦ rw (get_miss k c i.agrees absent, absent) (refl, refl)
    | inr (v, held) ↦ rw (get_hit k c v i.agrees held, held) (refl, refl)
  ]

  max_bytes-put :
      (k : VectorKey) (xs : List F) (c : VectorCache F)
      → Inv c
      → (put k xs c).max_bytes ≡ c.max_bytes
  unfolding touched
  max_bytes-put k xs c i = elim (Option-cases (find k c.order)) [
    | inl absent ↦ (put_miss-Agrees k xs c i.agrees absent).2
    | inr (v, held) ↦ rw (put_hit k xs c v i.agrees held) refl
  ]

  answers_from :
      (cs : List (Call F)) (c : VectorCache F)
      → Inv c
      → answers c cs ≡ listed_answers c.max_bytes c.order cs
  unfolding answers listed_answers
  answers_from [] c i = refl
  answers_from (gets k ∷ cs) c i =
      let (same_order, same_bound) = order-get k c i in
      let rest = answers_from cs (get k c).0 (get-Inv k c i) in
      ap₂ (◌∷◌) (get-eq-find k c i)
        (rest ∙ ap₂ (λ n vs. listed_answers n vs cs) same_bound same_order)
  answers_from (puts k xs ∷ cs) c i =
      answers_from cs (put k xs c) (put-Inv k xs c i)
      ∙ ap₂ (λ n vs. listed_answers n vs cs) (max_bytes-put k xs c i) (order-put k xs c i)

  -- Whatever the calls on a new cache, its lookups answer as a plain list of entries does: a lookup
  -- and a store of a key that it holds move the entry to the front with the vector that it has, and
  -- a new entry enters at the front and leaves the longest front part that fits the bound.
  pub answers-refine :
      (n : ℕ) (cs : List (Call F)) → answers (new_vector_cache n) cs ≡ listed_answers n [] cs
  unfolding new_vector_cache
  answers-refine n cs = answers_from cs (new_vector_cache n) (new-Inv n)
