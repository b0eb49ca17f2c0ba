-- ===== src/Retrieval/Selection/Coverage.antt =====
-- internal/retrieval/select.go: why `selectPackets` leaves a match out.
use pocket_advisor.Prelude.{
  ℕ, ◌+◌, ◌≡◌, refl, ◌⊎◌, Bool, true, List, [], ◌∷◌, arith, Bytes, bytes_Eq, contains, leb, length,
  length-append, select, All, sym, subst,
}
use pocket_advisor.Retrieval.Selection.{
  Scored, Selection, repeats_text, pick, select_one, select_all, nothing_picked, select_packets,
}

module _ {F : Type 0} (less : F → F → Bool) (fields : Bytes → List Bytes) (min_score : F) where
  -- Why a match need not be picked any more.
  abbrev pub Answered : ℕ → Selection F → Scored F → Type 0
  Answered top_k s r =
      (less r.score min_score ≡ true)
      ⊎ ((leb top_k (length s.picked) ≡ true)
          ⊎ ((contains s.seen_doc r.candidate.doc_id ≡ true)
              ⊎ (repeats_text less fields min_score r s ≡ true)))

  select_one_answers :
      (top_k : ℕ) (r : Scored F) (s : Selection F)
      → Answered top_k (select_one less fields min_score top_k r s) r
  unfolding select_one pick
  select_one_answers top_k r s =
      ground (arith, bytes_Eq.beq_iff r.candidate.doc_id r.candidate.doc_id)

  select_one_keeps :
      (top_k : ℕ) (q r : Scored F) (s : Selection F)
      → Answered top_k s r
      → Answered top_k (select_one less fields min_score top_k q s) r
  unfolding select_one pick
  select_one_keeps top_k q r s h = ground (arith, length-append s.picked (q ∷ []))

  select_all_keeps :
      (top_k : ℕ) (rs : List (Scored F)) (r : Scored F) (s : Selection F)
      → Answered top_k s r
      → Answered top_k (select_all less fields min_score top_k rs s) r
  unfolding select_all
  select_all_keeps top_k [] r s h = h
  select_all_keeps top_k (q ∷ rs) r s h =
      select_all_keeps top_k rs r _ (select_one_keeps top_k q r s h)

  select_all_next :
      (top_k : ℕ) (r : Scored F) (rs : List (Scored F)) (s : Selection F)
      → select_all less fields min_score top_k (r ∷ rs) s
        ≡ select_all less fields min_score top_k rs (select_one less fields min_score top_k r s)
  unfolding select_all
  select_all_next top_k r rs s = refl

  select_all_answers :
      (top_k : ℕ) (rs : List (Scored F)) (s : Selection F)
      → All (Answered top_k (select_all less fields min_score top_k rs s)) rs
  select_all_answers top_k [] s = tt
  select_all_answers top_k (r ∷ rs) s =
      subst (λ t. All (Answered top_k t) (r ∷ rs)) (sym (select_all_next top_k r rs s))
        (
          select_all_keeps top_k rs r (select_one less fields min_score top_k r s)
              (select_one_answers top_k r s),
          select_all_answers top_k rs (select_one less fields min_score top_k r s),
        )

  -- Every ranked match is below the floor, or the selection has top_k matches, or its document or
  -- its passage is among those that the selection has seen: nothing is left out for another reason.
  pub select_packets_answers :
      (ranked : List (Scored F)) (top_k : ℕ)
      → All (Answered top_k (select_packets less fields min_score ranked top_k)) ranked
  unfolding select_packets
  select_packets_answers ranked top_k =
      select_all_answers top_k ranked (nothing_picked less fields min_score)

  floored_from :
      (top_k : ℕ) (rs : List (Scored F)) (s : Selection F)
      → (select_all less fields min_score top_k rs s).floored_count
        ≡ s.floored_count + length (select (λ r. less r.score min_score) rs)
  unfolding select_all select_one pick select
  floored_from top_k [] s = omega arith
  floored_from top_k (r ∷ rs) s =
      ground (arith, floored_from top_k rs (select_one less fields min_score top_k r s))

  -- The count of floored matches is the number that score below the floor.
  pub floored_count-select_packets :
      (ranked : List (Scored F)) (top_k : ℕ)
      → (select_packets less fields min_score ranked top_k).floored_count
        ≡ length (select (λ r. less r.score min_score) ranked)
  unfolding select_packets
  floored_count-select_packets ranked top_k =
      omega (arith, floored_from top_k ranked (nothing_picked less fields min_score))
