-- ===== src/Worker/Cache/Invariant.antt =====
-- internal/worker/vector_cache.go: the invariant of the cache, over any sequence of calls.
use pocket_advisor.Prelude.{
  ℕ, suc, ◌+◌, ◌≤◌, ◌≡◌, refl, ◌∙◌, ap, List, [], ◌∷◌, none, some, arith, inl, inr, Option-cases,
  length, if◌then◌else◌,
}
use pocket_advisor.Worker.Cache.{
  VectorKey, VectorEntry, VectorCache, key_beq, key_beq_iff, lookup, remove, weight,
  new_vector_cache, evict, get, put,
}
use pocket_advisor.Worker.Cache.Evict.{
  total, fit, find, Unique, Agrees, total-fit-le, evict-Evicted,
}

pub data Call (F : Type 0) : Type 0 where
  gets : VectorKey → Call F
  puts : VectorKey → List F → Call F

module _ {F : Type 0} where
  pub record Inv (c : VectorCache F) : Type 0 where
    pub agrees : Agrees c
    pub bounded : c.size ≤ c.max_bytes

  unfoldable pub run : VectorCache F → List (Call F) → VectorCache F
  run c [] = c
  run c (gets k ∷ cs) = run (get k c).0 cs
  run c (puts k v ∷ cs) = run (put k v c) cs

  pub find-remove :
      (k j : VectorKey) (vs : List (VectorEntry F))
      → Unique vs
      → find k (remove j vs) ≡ (if key_beq j k then none else find k vs)
  unfolding find remove
  find-remove k j [] u = ground arith
  find-remove k j (v ∷ vs) u =
      ground
        (arith, find-remove k j vs u.1, key_beq_iff v.key j, key_beq_iff v.key k, key_beq_iff j k)

  remove-Unique : (j : VectorKey) (vs : List (VectorEntry F)) → Unique vs → Unique (remove j vs)
  unfolding remove
  remove-Unique j [] u = tt
  remove-Unique j (v ∷ vs) u = ground (arith, remove-Unique j vs u.1, find-remove v.key j vs u.1)

  total-remove :
      (j : VectorKey) (vs : List (VectorEntry F)) (v : VectorEntry F)
      → find j vs ≡ some v
      → weight v + total (remove j vs) ≡ total vs
  unfolding find remove total
  total-remove j [] v h = ground arith
  total-remove j (w ∷ vs) v h = ground (arith, total-remove j vs v)

  pub find-key :
      (k : VectorKey) (vs : List (VectorEntry F)) (v : VectorEntry F)
      → find k vs ≡ some v
      → v.key ≡ k
  unfolding find
  find-key k [] v h = ground arith
  find-key k (w ∷ vs) v h = ground (arith, find-key k vs v, key_beq_iff w.key k)

  -- The entry that is used, moved to the front.
  unfoldable pub touched : VectorKey → VectorEntry F → VectorCache F → VectorCache F
  touched k v c = record c { order = v ∷ remove k c.order }

  touched-Agrees :
      (k : VectorKey) (v : VectorEntry F) (c : VectorCache F)
      → Agrees c
      → find k c.order ≡ some v
      → Agrees (touched k v c)
  unfolding touched find total
  touched-Agrees k v c a h =
      let named : v.key ≡ k = find-key k c.order v h in
      record {
        same = λ j. ground (
          arith,
          a.same j,
          find-remove j k c.order a.unique,
          key_beq_iff v.key j,
          key_beq_iff k j,
          named,
        );
        unique = ground (
          arith,
          find-remove v.key k c.order a.unique,
          remove-Unique k c.order a.unique,
          key_beq_iff k v.key,
          named,
        );
        counted = omega (arith, a.counted, total-remove k c.order v h);
      }

  -- A new entry in front, before the eviction.
  pub pushed : VectorEntry F → VectorCache F → VectorCache F
  pushed v c = record c {
    order = v ∷ c.order;
    entries = (v.key, v) ∷ c.entries;
    size = c.size + weight v;
  }

  pub pushed-Agrees :
      (v : VectorEntry F) (c : VectorCache F)
      → Agrees c
      → find v.key c.order ≡ none
      → Agrees (pushed v c)
  unfolding pushed find total lookup
  pushed-Agrees v c a h = record {
    same = λ k. ground (arith, a.same k);
    unique = (h, a.unique);
    counted = omega (arith, a.counted);
  }

  pub get_hit :
      (k : VectorKey) (c : VectorCache F) (v : VectorEntry F)
      → Agrees c
      → find k c.order ≡ some v
      → get k c ≡ (touched k v c, some v.vector)
  unfolding get touched
  get_hit k c v a h = rw (a.same k ∙ h, get)

  pub get_miss :
      (k : VectorKey) (c : VectorCache F) → Agrees c → find k c.order ≡ none → get k c ≡ (c, none)
  unfolding get
  get_miss k c a h = rw (a.same k ∙ h, get)

  pub put_hit :
      (k : VectorKey) (xs : List F) (c : VectorCache F) (v : VectorEntry F)
      → Agrees c
      → find k c.order ≡ some v
      → put k xs c ≡ touched k v c
  unfolding put touched
  put_hit k xs c v a h = rw (a.same k ∙ h, put)

  abbrev pub entry : VectorKey → List F → VectorEntry F
  entry k xs = record { key = k; vector = xs }

  pub put_miss :
      (k : VectorKey) (xs : List F) (c : VectorCache F)
      → Agrees c
      → find k c.order ≡ none
      → put k xs c ≡ evict (suc (length (◌∷◌ (entry k xs) c.order))) (pushed (entry k xs) c)
  unfolding put pushed
  put_miss k xs c a h = rw (a.same k ∙ h, put)

  pub put_miss-Agrees :
      (k : VectorKey) (xs : List F) (c : VectorCache F)
      → Agrees c
      → find k c.order ≡ none
      → Agrees (put k xs c)
        × ((put k xs c).order ≡ fit c.max_bytes (entry k xs ∷ c.order))
        × ((put k xs c).max_bytes ≡ c.max_bytes)
  unfolding pushed
  put_miss-Agrees k xs c a h =
      rw (put_miss k xs c a h)
        (evict-Evicted _ (pushed (entry k xs) c) (pushed-Agrees (entry k xs) c a h) (omega arith))

  pub new-Inv : (n : ℕ) → Inv (new_vector_cache {F = F} n)
  unfolding new_vector_cache lookup find total
  new-Inv n = record {
    agrees = record { same = λ k. refl; unique = tt; counted = refl };
    bounded = omega arith;
  }

  touched-Inv :
      (k : VectorKey) (v : VectorEntry F) (c : VectorCache F)
      → Inv c
      → find k c.order ≡ some v
      → Inv (touched k v c)
  unfolding touched
  touched-Inv k v c i h = record { agrees = touched-Agrees k v c i.agrees h; bounded = i.bounded }

  pub get-Inv : (k : VectorKey) (c : VectorCache F) → Inv c → Inv (get k c).0
  get-Inv k c i = elim (Option-cases (find k c.order)) [
    | inl absent ↦ rw (get_miss k c i.agrees absent) i
    | inr (v, held) ↦ rw (get_hit k c v i.agrees held) (touched-Inv k v c i held)
  ]

  pub put-Inv : (k : VectorKey) (xs : List F) (c : VectorCache F) → Inv c → Inv (put k xs c)
  put-Inv k xs c i = elim (Option-cases (find k c.order)) [
    | inl absent ↦
        let (agrees, kept, same) = put_miss-Agrees k xs c i.agrees absent in
        record {
          agrees = agrees;
          bounded = bound (put k xs c) c.max_bytes (entry k xs ∷ c.order) agrees.counted kept same;
        }
    | inr (v, held) ↦ rw (put_hit k xs c v i.agrees held) (touched-Inv k v c i held)
  ]
    where
      bound :
          (c' : VectorCache F) (n : ℕ) (vs : List (VectorEntry F))
          → c'.size ≡ total c'.order
          → c'.order ≡ fit n vs
          → c'.max_bytes ≡ n
          → c'.size ≤ c'.max_bytes
      bound c' n vs s o m = omega (arith, ap total o, total-fit-le n vs)

  run_from-Inv : (c : VectorCache F) (cs : List (Call F)) → Inv c → Inv (run c cs)
  unfolding run
  run_from-Inv c [] i = i
  run_from-Inv c (gets k ∷ cs) i = run_from-Inv (get k c).0 cs (get-Inv k c i)
  run_from-Inv c (puts k xs ∷ cs) i = run_from-Inv (put k xs c) cs (put-Inv k xs c i)

  -- After any calls on a new cache the map and the order hold the same entries, no key stands
  -- twice, the size counts the bytes of the vectors held, and they stay within the bound.
  pub run-Inv : (n : ℕ) (cs : List (Call F)) → Inv (run (new_vector_cache n) cs)
  run-Inv n cs = run_from-Inv (new_vector_cache n) cs (new-Inv n)
