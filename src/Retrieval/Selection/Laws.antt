-- ===== src/Retrieval/Selection/Laws.antt =====
-- internal/retrieval/select.go: what `selectPackets` picks.
use pocket_advisor.Prelude.{
  ℕ, ◌≤◌, ◌≡◌, refl, inl, inr, Bool, true, false, List, [], ◌∷◌, ◌++◌, map, arith, Bytes, bytes_Eq,
  contains, Distinct, contains-append, Distinct-append, leb, if◌then◌else◌, length, length-append,
  All, All-append, Bool-cases, ap, ◌∙◌, sym,
}
use pocket_advisor.Retrieval.Selection.{
  Scored, Selection, is_blank, key_of, repeats_text, pick, select_one, select_all, select_packets,
}

module _ {F : Type 0} (less : F → F → Bool) (fields : Bytes → List Bytes) (min_score : F) where
  abbrev pub doc_ids : List (Scored F) → List Bytes
  doc_ids = map (λ r. r.candidate.doc_id)

  -- The keys of the texts that can be compared.
  unfoldable pub text_keys : List (Scored F) → List Bytes
  text_keys [] = []
  text_keys (r ∷ rs) =
      if is_blank (key_of less fields min_score r)
      then text_keys rs
      else key_of less fields min_score r ∷ text_keys rs

  -- No more than `top_k` matches, no document and no passage twice, none below the floor.
  pub record Picked (top_k : ℕ) (s : Selection F) : Type 0 where
    pub within : length s.picked ≤ top_k
    pub docs_once : Distinct (doc_ids s.picked)
    pub texts_once : Distinct (text_keys s.picked)
    pub relevant : All (λ r. less r.score min_score ≡ false) s.picked
    pub same_docs : (k : Bytes) → contains s.seen_doc k ≡ contains (doc_ids s.picked) k
    pub same_texts : (k : Bytes) → contains s.seen_text k ≡ contains (text_keys s.picked) k

  doc_ids-append :
      (rs : List (Scored F)) (r : Scored F)
      → doc_ids (rs ++ r ∷ []) ≡ doc_ids rs ++ r.candidate.doc_id ∷ []
  doc_ids-append [] r = refl
  doc_ids-append (q ∷ rs) r = ap (◌∷◌ q.candidate.doc_id) (doc_ids-append rs r)

  text_keys-blank :
      (rs : List (Scored F)) (r : Scored F)
      → is_blank (key_of less fields min_score r) ≡ true
      → text_keys (rs ++ r ∷ []) ≡ text_keys rs
  unfolding text_keys
  text_keys-blank [] r h = rw h refl
  text_keys-blank (q ∷ rs) r h = ground (arith, text_keys-blank rs r h)

  text_keys-append :
      (rs : List (Scored F)) (r : Scored F)
      → is_blank (key_of less fields min_score r) ≡ false
      → text_keys (rs ++ r ∷ []) ≡ text_keys rs ++ key_of less fields min_score r ∷ []
  unfolding text_keys
  text_keys-append [] r h = rw h refl
  text_keys-append (q ∷ rs) r h = ground (arith, text_keys-append rs r h)

  picks_texts :
      (s : Selection F) (r : Scored F) (k : Bytes)
      → contains s.seen_text k ≡ contains (text_keys s.picked) k
      → contains
          (if is_blank (key_of less fields min_score r)
            then s.seen_text
            else key_of less fields min_score r ∷ s.seen_text)
          k
        ≡ contains (text_keys (s.picked ++ r ∷ [])) k
  picks_texts s r k e = elim (Bool-cases (is_blank (key_of less fields min_score r))) [
    | inl blank ↦ rw (blank, text_keys-blank s.picked r blank) e
    | inr text ↦
        rw
          (
            text,
            text_keys-append s.picked r text,
            contains-append (text_keys s.picked) (key_of less fields min_score r) k,
          )
          (ground arith)
  ]

  picks_once :
      (s : Selection F) (r : Scored F)
      → ((k : Bytes) → contains s.seen_text k ≡ contains (text_keys s.picked) k)
      → Distinct (text_keys s.picked)
      → repeats_text less fields min_score r s ≡ false
      → Distinct (text_keys (s.picked ++ r ∷ []))
  picks_once s r same d new = elim (Bool-cases (is_blank (key_of less fields min_score r))) [
    | inl blank ↦ rw (text_keys-blank s.picked r blank) d
    | inr text ↦ rw (text_keys-append s.picked r text) (
        Distinct-append (text_keys s.picked) (key_of less fields min_score r) d
          (ground (arith, same (key_of less fields min_score r))))
  ]

  pick-Picked :
      (top_k : ℕ) (r : Scored F) (s : Selection F)
      → Picked top_k s
      → less r.score min_score ≡ false
      → leb top_k (length s.picked) ≡ false
      → contains s.seen_doc r.candidate.doc_id ≡ false
      → repeats_text less fields min_score r s ≡ false
      → Picked top_k (pick less fields min_score r s)
  unfolding pick
  pick-Picked top_k r s p good room doc text = record {
    within = rw (length-append s.picked (r ∷ [])) (ground arith);
    docs_once = rw (doc_ids-append s.picked r) (
        Distinct-append (doc_ids s.picked) r.candidate.doc_id p.docs_once
          (sym (p.same_docs r.candidate.doc_id) ∙ doc));
    texts_once = picks_once s r p.same_texts p.texts_once text;
    relevant =
        All-append (λ q. less q.score min_score ≡ false) s.picked (r ∷ []) p.relevant (good, tt);
    same_docs = λ k.
        rw (doc_ids-append s.picked r, contains-append (doc_ids s.picked) r.candidate.doc_id k)
          (ground (arith, p.same_docs k));
    same_texts = λ k. picks_texts s r k (p.same_texts k);
  }

  select_one-Picked :
      (top_k : ℕ) (r : Scored F) (s : Selection F)
      → Picked top_k s
      → Picked top_k (select_one less fields min_score top_k r s)
  unfolding select_one
  select_one-Picked top_k r s p = elim (Bool-cases (less r.score min_score)) [
    | inl low ↦ rw low (record {
      within = p.within;
      docs_once = p.docs_once;
      texts_once = p.texts_once;
      relevant = p.relevant;
      same_docs = p.same_docs;
      same_texts = p.same_texts;
    })
    | inr good ↦ rw good (elim (Bool-cases (leb top_k (length s.picked))) [
      | inl full ↦ rw full p
      | inr room ↦ rw room (elim (Bool-cases (contains s.seen_doc r.candidate.doc_id)) [
        | inl doc ↦ rw doc p
        | inr doc ↦ rw doc (elim (Bool-cases (repeats_text less fields min_score r s)) [
          | inl text ↦ rw text p
          | inr text ↦ rw text (pick-Picked top_k r s p good room doc text)
        ])
      ])
    ])
  ]

  select_all-Picked :
      (top_k : ℕ) (rs : List (Scored F)) (s : Selection F)
      → Picked top_k s
      → Picked top_k (select_all less fields min_score top_k rs s)
  unfolding select_all
  select_all-Picked top_k [] s p = p
  select_all-Picked top_k (r ∷ rs) s p =
      select_all-Picked top_k rs _ (select_one-Picked top_k r s p)

  -- The selection returns at most top_k matches, no document and no comparable passage twice, none
  -- scored below the floor, and its two sets hold the documents and passages that it returns.
  pub select_packets-Picked :
      (ranked : List (Scored F)) (top_k : ℕ)
      → Picked top_k (select_packets less fields min_score ranked top_k)
  unfolding select_packets text_keys
  select_packets-Picked ranked top_k = select_all-Picked top_k ranked _ (record {
    within = omega arith;
    docs_once = tt;
    texts_once = tt;
    relevant = tt;
    same_docs = λ k. refl;
    same_texts = λ k. refl;
  })
