-- ===== src/Retrieval/Pool/Laws.antt =====
-- internal/retrieval/select.go: the window that `poolCandidates` leaves.
use pocket_advisor.Prelude.{
  ℕ, suc, ◌≤◌, ◌≡◌, refl, ◌⊎◌, inl, inr, Bool, true, false, not, ◌&&◌, ◌||◌, List, [], ◌∷◌, ◌++◌,
  map, arith, Bytes, bytes_Eq, contains, Distinct, contains-append, Distinct-append, ltb, leb,
  if◌then◌else◌, length, length-append, sort_by, sort_by→All, All, Bool-cases, ap, subst, ◌∙◌, sym,
}
use pocket_advisor.Retrieval.{Candidate}
use pocket_advisor.Retrieval.Pool.{
  Pooling, PoolFloors, is_seen, admit, is_full, reserve, reserve_ranks, reserve_groups,
  is_dense_only, reserve_dense_one, reserve_dense, reserve_dense_groups, fill, all_of,
  no_candidates, many_groups, pool_candidates,
}

module _ {F : Type 0} where
  abbrev pub chunk_ids : List (Candidate F) → List Bytes
  chunk_ids = map (λ c. c.chunk_id)

  -- The window holds no chunk twice, `seen` is what it holds, and it is within its limit.
  pub record Window (limit : ℕ) (s : Pooling F) : Type 0 where
    pub within : length s.pooled ≤ limit
    pub once : Distinct (chunk_ids s.pooled)
    pub same : (k : Bytes) → contains s.seen k ≡ contains (chunk_ids s.pooled) k

  chunk_ids-append :
      (cs : List (Candidate F)) (c : Candidate F)
      → chunk_ids (cs ++ c ∷ []) ≡ chunk_ids cs ++ c.chunk_id ∷ []
  chunk_ids-append [] c = refl
  chunk_ids-append (d ∷ cs) c = ap (◌∷◌ d.chunk_id) (chunk_ids-append cs c)

  admitted-Window :
      (limit : ℕ) (c : Candidate F) (s : Pooling F)
      → Window limit s
      → is_full limit s ≡ false
      → contains s.seen c.chunk_id ≡ false
      → Window limit (record s { seen = c.chunk_id ∷ s.seen; pooled = s.pooled ++ c ∷ [] })
  admitted-Window limit c s w room new = record {
    within = rw (length-append s.pooled (c ∷ [])) (ground arith);
    once =
        rw (chunk_ids-append s.pooled c)
          (Distinct-append (chunk_ids s.pooled) c.chunk_id w.once (sym (w.same c.chunk_id) ∙ new));
    same = λ k.
        rw (chunk_ids-append s.pooled c, contains-append (chunk_ids s.pooled) c.chunk_id k)
          (ground (arith, w.same k));
  }

  admit-Window :
      (limit : ℕ) (c : Candidate F) (s : Pooling F)
      → Window limit s
      → is_full limit s ≡ false
      → Window limit (admit c s)
  unfolding admit
  admit-Window limit c s w room = elim (Bool-cases (is_seen c s)) [
    | inl old ↦ rw old w
    | inr new ↦ rw new (admitted-Window limit c s w room new)
  ]

  reserve-Window :
      (limit : ℕ) (c : Candidate F) (s : Pooling F)
      → Window limit s
      → is_full limit s ≡ false
      → Window limit (reserve c s)
  unfolding reserve
  reserve-Window limit c s w room =
      let v = admit-Window limit c s w room in
      record { within = v.within; once = v.once; same = v.same }

  reserve_ranks-Window :
      (floor limit i : ℕ) (cs : List (Candidate F)) (s : Pooling F)
      → Window limit s
      → Window limit (reserve_ranks floor limit i cs s)
  unfolding reserve_ranks
  reserve_ranks-Window floor limit i [] s w = w
  reserve_ranks-Window floor limit i (c ∷ cs) s w =
      elim (Bool-cases (leb floor i || is_full limit s)) [
        | inl stop ↦ rw stop w
        | inr go ↦ rw go (
            reserve_ranks-Window floor limit (suc i) cs (reserve c s)
              (reserve-Window limit c s w (ground arith)))
      ]

  reserve_groups-Window :
      (floor limit : ℕ) (gs : List (List (Candidate F))) (s : Pooling F)
      → Window limit s
      → Window limit (reserve_groups floor limit gs s)
  unfolding reserve_groups
  reserve_groups-Window floor limit [] s w = w
  reserve_groups-Window floor limit (g ∷ gs) s w =
      reserve_groups-Window floor limit gs _ (reserve_ranks-Window floor limit 0 g s w)

  reserve_dense_one-Window :
      (limit : ℕ) (c : Candidate F) (s : Pooling F)
      → Window limit s
      → is_full limit s ≡ false
      → Window limit (reserve_dense_one c s)
  unfolding reserve_dense_one
  reserve_dense_one-Window limit c s w room =
      elim (Bool-cases (is_dense_only c && not (is_seen c s))) [
        | inl new ↦
            let v = reserve-Window limit c s w room in
            rw new (record { within = v.within; once = v.once; same = v.same })
        | inr other ↦ rw other w
      ]

  reserve_dense-Window :
      (floor limit : ℕ) (cs : List (Candidate F)) (s : Pooling F)
      → Window limit s
      → Window limit (reserve_dense floor limit cs s)
  unfolding reserve_dense
  reserve_dense-Window floor limit [] s w = w
  reserve_dense-Window floor limit (c ∷ cs) s w =
      elim (Bool-cases (leb floor s.dense || is_full limit s)) [
        | inl stop ↦ rw stop w
        | inr go ↦ rw go (
            reserve_dense-Window floor limit cs (reserve_dense_one c s)
              (reserve_dense_one-Window limit c s w (ground arith)))
      ]

  reserve_dense_groups-Window :
      (floor limit : ℕ) (gs : List (List (Candidate F))) (s : Pooling F)
      → Window limit s
      → Window limit (reserve_dense_groups floor limit gs s)
  unfolding reserve_dense_groups
  reserve_dense_groups-Window floor limit [] s w = w
  reserve_dense_groups-Window floor limit (g ∷ gs) s w =
      reserve_dense_groups-Window floor limit gs _ (reserve_dense-Window floor limit g s w)

  fill-Window :
      (limit : ℕ) (cs : List (Candidate F)) (s : Pooling F)
      → Window limit s
      → Window limit (fill limit cs s)
  unfolding fill
  fill-Window limit [] s w = w
  fill-Window limit (c ∷ cs) s w = elim (Bool-cases (is_full limit s)) [
    | inl full ↦ rw full w
    | inr room ↦ rw room (fill-Window limit cs (admit c s) (admit-Window limit c s w room))
  ]

  fill_keeps :
      (limit : ℕ) (cs : List (Candidate F)) (s : Pooling F) (k : Bytes)
      → contains s.seen k ≡ true
      → contains (fill limit cs s).seen k ≡ true
  unfolding fill admit
  fill_keeps limit [] s k h = h
  fill_keeps limit (c ∷ cs) s k h = ground (arith, fill_keeps limit cs (admit c s) k)

  admit_seen : (c : Candidate F) (s : Pooling F) → contains (admit c s).seen c.chunk_id ≡ true
  unfolding admit
  admit_seen c s = ground (arith, bytes_Eq.beq_iff c.chunk_id c.chunk_id)

  fill_full :
      (limit : ℕ) (c : Candidate F) (cs : List (Candidate F)) (s : Pooling F)
      → is_full limit s ≡ true
      → fill limit (c ∷ cs) s ≡ s
  unfolding fill
  fill_full limit c cs s full = rw full refl

  fill_room :
      (limit : ℕ) (c : Candidate F) (cs : List (Candidate F)) (s : Pooling F)
      → is_full limit s ≡ false
      → fill limit (c ∷ cs) s ≡ fill limit cs (admit c s)
  unfolding fill
  fill_room limit c cs s room = rw room refl

  -- The last loop fills the window, or leaves no candidate out.
  abbrev Covered : ℕ → List (Candidate F) → Pooling F → Type 0
  Covered limit cs t = (is_full limit t ≡ true) ⊎ All (λ c. is_seen c t ≡ true) cs

  fill-Covered :
      (limit : ℕ) (cs : List (Candidate F)) (s : Pooling F) → Covered limit cs (fill limit cs s)
  fill-Covered limit [] s = inr tt
  fill-Covered limit (c ∷ cs) s = elim (Bool-cases (is_full limit s)) [
    | inl full ↦ subst (Covered limit (c ∷ cs)) (sym (fill_full limit c cs s full)) (inl full)
    | inr room ↦
        subst (Covered limit (c ∷ cs)) (sym (fill_room limit c cs s room))
          (elim (fill-Covered limit cs (admit c s)) [
            | inl full ↦ inl full
            | inr covered ↦
                inr (fill_keeps limit cs (admit c s) c.chunk_id (admit_seen c s), covered)
          ])
  ]

  -- The two reservations.
  reserved : PoolFloors → List (List (Candidate F)) → ℕ → Pooling F
  reserved floors groups limit =
      let first =
        if many_groups groups && ltb 0 floors.per_sub_query
        then reserve_groups floors.per_sub_query limit groups no_candidates
        else no_candidates in
      if ltb 0 floors.dense_only
      then reserve_dense_groups floors.dense_only limit groups first
      else first

  no_candidates-Window : (limit : ℕ) → Window limit no_candidates
  no_candidates-Window limit = record { within = omega arith; once = tt; same = λ k. refl }

  reserved-Window :
      (floors : PoolFloors) (groups : List (List (Candidate F))) (limit : ℕ)
      → Window limit (reserved floors groups limit)
  unfolding reserved
  reserved-Window floors groups limit = elim (Bool-cases (ltb 0 floors.dense_only)) [
    | inl on ↦ rw on (reserve_dense_groups-Window floors.dense_only limit groups _ first-Window)
    | inr off ↦ rw off first-Window
  ]
    where
      first-Window : Window limit (
          if many_groups groups && ltb 0 floors.per_sub_query
          then reserve_groups floors.per_sub_query limit groups no_candidates
          else no_candidates)
      first-Window = elim (Bool-cases (many_groups groups && ltb 0 floors.per_sub_query)) [
        | inl on ↦ rw on (
            reserve_groups-Window floors.per_sub_query limit groups no_candidates
              (no_candidates-Window limit))
        | inr off ↦ rw off (no_candidates-Window limit)
      ]

  -- The window of the reranker holds at most its limit and no chunk twice, and its set is that of
  -- the chunks it holds.
  pub pool_candidates-Window :
      (less : F → F → Bool) (floors : PoolFloors) (groups : List (List (Candidate F))) (limit : ℕ)
      → Window limit (pool_candidates less floors groups limit)
  unfolding pool_candidates reserved
  pool_candidates-Window less floors groups limit =
      let w =
        fill-Window limit (sort_by (λ a b. less b.rrf a.rrf) (all_of groups))
          (reserved floors groups limit) (reserved-Window floors groups limit) in
      record { within = w.within; once = w.once; same = w.same }

  -- The window is full, or every candidate of every sub-query has its chunk in it.
  pub pool_candidates_covers :
      (less : F → F → Bool) (floors : PoolFloors) (groups : List (List (Candidate F))) (limit : ℕ)
      → (is_full limit (pool_candidates less floors groups limit) ≡ true)
        ⊎ All (λ c. is_seen c (pool_candidates less floors groups limit) ≡ true) (all_of groups)
  unfolding pool_candidates reserved
  pool_candidates_covers less floors groups limit =
      elim (fill-Covered limit (sort_by (λ a b. less b.rrf a.rrf) (all_of groups))
        (reserved floors groups limit)) [
          | inl full ↦ inl full
          | inr covered ↦ inr (sort_by→All (λ a b. less b.rrf a.rrf) _ (all_of groups) covered)
        ]
