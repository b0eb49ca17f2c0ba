-- ===== src/Worker/Cache/Recency.antt =====
-- internal/worker/vector_cache.go: what the cache keeps, and what a later `Get` finds.
use pocket_advisor.Prelude.{
  ℕ, ◌*◌, ◌≤◌, ◌≡◌, refl, ap, List, ◌∷◌, none, some, arith, length, Option,
}
use pocket_advisor.Worker.Cache.{
  VectorKey, VectorEntry, VectorCache, key_beq_iff, remove, weight, get, put,
}
use pocket_advisor.Worker.Cache.Evict.{fit, find}
use pocket_advisor.Worker.Cache.Invariant.{
  Inv, entry, touched, get_hit, get_miss, put_hit, put_miss-Agrees, put-Inv,
}

module _ {F : Type 0} where
  -- What the order becomes when a key is stored: a key that is held moves to the front, with the
  -- vector that it has; a new one enters at the front, and the longest front part that fits the
  -- bound is kept, so that the least recently used vectors leave first.
  abbrev pub stored :
      ℕ → VectorKey → List F → List (VectorEntry F) → Option (VectorEntry F) → List (VectorEntry F)
  stored n k xs vs none = fit n (entry k xs ∷ vs)
  stored n k xs vs (some v) = v ∷ remove k vs

  order-put_of :
      (k : VectorKey) (xs : List F) (c : VectorCache F) (o : Option (VectorEntry F))
      → Inv c
      → find k c.order ≡ o
      → (put k xs c).order ≡ stored c.max_bytes k xs c.order o
  unfolding touched
  order-put_of k xs c none i h = (put_miss-Agrees k xs c i.agrees h).1
  order-put_of k xs c (some v) i h =
      ap (λ (c : VectorCache F). c.order) (put_hit k xs c v i.agrees h)

  -- On a cache that satisfies the invariant, storing a key that is held moves its entry to the
  -- front with the vector it has, and storing a new one leaves the longest front part of the new
  -- order that fits the bound.
  pub order-put :
      (k : VectorKey) (xs : List F) (c : VectorCache F)
      → Inv c
      → (put k xs c).order ≡ stored c.max_bytes k xs c.order (find k c.order)
  order-put k xs c i = order-put_of k xs c (find k c.order) i refl

  -- The vector under a key in an order.
  abbrev pub vector_of : Option (VectorEntry F) → Option (List F)
  vector_of none = none
  vector_of (some v) = some v.vector

  get-eq-find_of :
      (k : VectorKey) (c : VectorCache F) (o : Option (VectorEntry F))
      → Inv c
      → find k c.order ≡ o
      → (get k c).1 ≡ vector_of o
  get-eq-find_of k c none i h =
      ap (λ (r : VectorCache F × Option (List F)). r.1) (get_miss k c i.agrees h)
  get-eq-find_of k c (some v) i h =
      ap (λ (r : VectorCache F × Option (List F)). r.1) (get_hit k c v i.agrees h)

  -- On a cache that satisfies the invariant, a lookup answers with the vector that stands under the
  -- key in the order, or with nothing.
  pub get-eq-find :
      (k : VectorKey) (c : VectorCache F) → Inv c → (get k c).1 ≡ vector_of (find k c.order)
  get-eq-find k c i = get-eq-find_of k c (find k c.order) i refl

  find-put :
      (k : VectorKey) (xs : List F) (n : ℕ) (vs : List (VectorEntry F))
      → 4 * length xs ≤ n
      → find k (fit n (entry k xs ∷ vs)) ≡ some (entry k xs)
  unfolding find fit weight
  find-put k xs n vs h = ground (arith, key_beq_iff k k)

  -- On a cache that satisfies the invariant and does not hold the key, a vector that fits the bound
  -- by itself is found by the next lookup of its key.
  pub get-put :
      (k : VectorKey) (xs : List F) (c : VectorCache F)
      → Inv c
      → find k c.order ≡ none
      → 4 * length xs ≤ c.max_bytes
      → (get k (put k xs c)).1 ≡ some xs
  get-put k xs c i h room =
      get-eq-find_of k (put k xs c) (some (entry k xs)) (put-Inv k xs c i)
        (rw (order-put_of k xs c none i h) (find-put k xs c.max_bytes c.order room))
