-- ===== src/Worker/Cache/Evict.antt =====
-- The eviction loop of internal/worker/vector_cache.go: what it keeps.
use pocket_advisor.Prelude.{
  ℕ, zero, suc, ◌+◌, ◌-◌, ◌≤◌, ◌<◌, ◌≡◌, refl, sym, ◌∙◌, ap, lt→ltb, ltb→lt, Bool-cases, inl, inr,
  false, List, [], ◌∷◌, Option, none, some, arith, ltb, leb, if◌then◌else◌, ◌++◌, length,
  length-append,
}
use pocket_advisor.Worker.Cache.{
  VectorKey, VectorEntry, VectorCache, key_beq, key_beq_iff, lookup, delete, split_last, weight,
  evict,
}

module _ {F : Type 0} where
  unfoldable pub total : List (VectorEntry F) → ℕ
  total [] = 0
  total (v ∷ vs) = weight v + total vs

  -- The longest front part whose vectors fit in the bytes.
  unfoldable pub fit : ℕ → List (VectorEntry F) → List (VectorEntry F)
  fit b [] = []
  fit b (v ∷ vs) = if leb (weight v) b then v ∷ fit (b - weight v) vs else []

  unfoldable pub find : VectorKey → List (VectorEntry F) → Option (VectorEntry F)
  find k [] = none
  find k (v ∷ vs) = if key_beq v.key k then some v else find k vs

  -- No key stands twice in the order.
  abbrev pub Unique : List (VectorEntry F) → Type 0
  Unique [] = Unit {0}
  Unique (v ∷ vs) = (find v.key vs ≡ none) × Unique vs

  pub total-fit-le : (b : ℕ) (vs : List (VectorEntry F)) → total (fit b vs) ≤ b
  unfolding total fit
  total-fit-le b [] = omega arith
  total-fit-le b (v ∷ vs) = ground (arith, total-fit-le (b - weight v) vs)

  fit_all : (b : ℕ) (vs : List (VectorEntry F)) → total vs ≤ b → fit b vs ≡ vs
  unfolding total fit
  fit_all b [] h = refl
  fit_all b (v ∷ vs) h = ground (arith, fit_all (b - weight v) vs)

  -- A last element beyond the bound is not kept.
  fit_last :
      (b : ℕ) (vs : List (VectorEntry F)) (w : VectorEntry F)
      → b < total (vs ++ w ∷ [])
      → fit b (vs ++ w ∷ []) ≡ fit b vs
  unfolding total fit
  fit_last b [] w h = ground arith
  fit_last b (v ∷ vs) w h = ground (arith, fit_last (b - weight v) vs w)

  total_last :
      (vs : List (VectorEntry F)) (w : VectorEntry F) → total (vs ++ w ∷ []) ≡ total vs + weight w
  unfolding total
  total_last [] w = omega arith
  total_last (v ∷ vs) w = omega (arith, total_last vs w)

  -- `split_last` fails on the empty list only.
  pub split_last_cases :
      (v : VectorEntry F) (vs : List (VectorEntry F))
      → (front : List (VectorEntry F)) × (w : VectorEntry F) × (split_last (v ∷ vs)
          ≡ some (front, w))
        × (v ∷ vs ≡ front ++ w ∷ [])
  unfolding split_last
  split_last_cases v [] = ([], v, refl, refl)
  split_last_cases v (w ∷ vs) =
      let (front, x, found, parts) = split_last_cases w vs in
      (v ∷ front, x, rw found, ap (◌∷◌ v) parts)

  find-fit :
      (b : ℕ) (k : VectorKey) (vs : List (VectorEntry F))
      → find k vs ≡ none
      → find k (fit b vs) ≡ none
  unfolding find fit
  find-fit b k [] h = refl
  find-fit b k (v ∷ vs) h = ground (arith, find-fit (b - weight v) k vs)

  pub fit-Unique : (b : ℕ) (vs : List (VectorEntry F)) → Unique vs → Unique (fit b vs)
  unfolding fit
  fit-Unique b [] u = tt
  fit-Unique b (v ∷ vs) u =
      ground (arith, fit-Unique (b - weight v) vs u.1, find-fit (b - weight v) v.key vs u.0)

  find_last :
      (k : VectorKey) (vs : List (VectorEntry F)) (w : VectorEntry F)
      → find k (vs ++ w ∷ [])
        ≡ elim (find k vs) [ none ↦ if key_beq w.key k then some w else none | some x ↦ some x ]
  unfolding find
  find_last k [] w = ground arith
  find_last k (v ∷ vs) w = ground (arith, find_last k vs w)

  Unique-front :
      (vs : List (VectorEntry F)) (w : VectorEntry F)
      → Unique (vs ++ w ∷ [])
      → Unique vs × (find w.key vs ≡ none)
  unfolding find
  Unique-front [] w u = (tt, refl)
  Unique-front (v ∷ vs) w u = ground (
    arith,
    Unique-front vs w u.1,
    find_last v.key vs w,
    key_beq_iff v.key w.key,
    key_beq_iff w.key v.key,
  )

  lookup-delete :
      (k j : VectorKey) (m : List (VectorKey × VectorEntry F))
      → lookup k (delete j m) ≡ (if key_beq j k then none else lookup k m)
  unfolding lookup delete
  lookup-delete k j [] = ground arith
  lookup-delete k j ((i, v) ∷ m) =
      ground (arith, lookup-delete k j m, key_beq_iff i j, key_beq_iff i k, key_beq_iff j k)

  -- The map and the order hold the same entries, and `size` counts their bytes.
  pub record Agrees (c : VectorCache F) : Type 0 where
    pub same : (k : VectorKey) → lookup k c.entries ≡ find k c.order
    pub unique : Unique c.order
    pub counted : c.size ≡ total c.order

  dropped : VectorCache F → List (VectorEntry F) → VectorEntry F → VectorCache F
  dropped c front w = record c {
    order = front;
    entries = delete w.key c.entries;
    size = c.size - weight w;
  }

  dropped-Agrees :
      (c : VectorCache F) (front : List (VectorEntry F)) (w : VectorEntry F)
      → Agrees c
      → c.order ≡ front ++ w ∷ []
      → Agrees (dropped c front w)
  unfolding dropped
  dropped-Agrees c front w a e =
      let (u, absent) = Unique-front front w (rw e at a.unique) in
      record {
        same = λ k. ground (
          arith,
          a.same k,
          lookup-delete k w.key c.entries,
          find_last k front w,
          key_beq_iff w.key k,
          absent,
        );
        unique = u;
        counted = omega (arith, a.counted, ap total e, total_last front w);
      }

  -- What the loop leaves: the longest front part that fits.
  abbrev pub Evicted : VectorCache F → VectorCache F → Type 0
  Evicted c c' = Agrees c' × (c'.order ≡ fit c.max_bytes c.order) × (c'.max_bytes ≡ c.max_bytes)

  within-Evicted : (c : VectorCache F) → Agrees c → c.size ≤ c.max_bytes → Evicted c c
  within-Evicted c a h = (a, sym (fit_all c.max_bytes c.order (omega (arith, a.counted))), refl)

  dropped-Evicted :
      (c c' : VectorCache F) (front : List (VectorEntry F)) (w : VectorEntry F)
      → Agrees c
      → c.max_bytes < c.size
      → c.order ≡ front ++ w ∷ []
      → Evicted (dropped c front w) c'
      → Evicted c c'
  unfolding dropped
  dropped-Evicted c c' front w a h e (a', o, m) =
      (a', o ∙ sym (rw e (fit_last c.max_bytes front w (rw e at over))), m)
    where
      over : c.max_bytes < total c.order
      over = omega (arith, a.counted)

  evict_step :
      (fuel : ℕ) (c : VectorCache F) (front : List (VectorEntry F)) (w : VectorEntry F)
      → c.max_bytes < c.size
      → split_last c.order ≡ some (front, w)
      → evict (suc fuel) c ≡ evict fuel (dropped c front w)
  unfolding evict dropped
  evict_step fuel c front w h e = rw (lt→ltb c.max_bytes c.size h, e, evict)

  evict_within :
      (fuel : ℕ) (c : VectorCache F) → ltb c.max_bytes c.size ≡ false → evict (suc fuel) c ≡ c
  unfolding evict
  evict_within fuel c h = rw (h, evict)

  -- An order that is not empty has a last element.
  order_parts :
      (vs : List (VectorEntry F))
      → 0 < total vs
      → (front : List (VectorEntry F)) × (w : VectorEntry F) × (split_last vs ≡ some (front, w))
        × (vs ≡ front ++ w ∷ [])
  unfolding total
  order_parts [] h = absurd (omega arith)
  order_parts (v ∷ vs) h = split_last_cases v vs

  shorter :
      (fuel : ℕ) (c : VectorCache F) (front : List (VectorEntry F)) (w : VectorEntry F)
      → c.order ≡ front ++ w ∷ []
      → length c.order < suc fuel
      → length (dropped c front w).order < fuel
  unfolding dropped
  shorter fuel c front w e h =
      let n : length c.order ≡ length (front ++ w ∷ []) = ap length e in
      omega (arith, length-append front (w ∷ []))

  -- With an element of fuel more than the order is long, the eviction loop on a cache whose map,
  -- order and size agree leaves them in agreement, with the longest front part of the order that
  -- fits the bound.
  pub evict-Evicted :
      (fuel : ℕ) (c : VectorCache F) → Agrees c → length c.order < fuel → Evicted c (evict fuel c)
  evict-Evicted zero c a h = elim h [ ]
  evict-Evicted (suc fuel) c a h = elim (Bool-cases (ltb c.max_bytes c.size)) [
    | inl over ↦
        let big : c.max_bytes < c.size = ltb→lt _ _ over in
        let (front, w, found, parts) = order_parts c.order (omega (arith, a.counted)) in
        rw (evict_step fuel c front w big found) (
          dropped-Evicted c _ front w a big parts (
            evict-Evicted fuel (dropped c front w) (dropped-Agrees c front w a parts)
              (shorter fuel c front w parts h)))
    | inr fits ↦ rw (evict_within fuel c fits) (within-Evicted c a (ground arith))
  ]
