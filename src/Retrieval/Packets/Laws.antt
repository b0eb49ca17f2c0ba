-- ===== src/Retrieval/Packets/Laws.antt =====
-- internal/retrieval/packets.go: the byte budget of an answer, and what is attached to its packets.
use pocket_advisor.Prelude.{
  ℕ, ◌+◌, ◌≤◌, ◌≡◌, refl, inl, inr, true, false, List, [], ◌∷◌, map, Option, some, arith, Bytes,
  bytes_Eq, contains, if◌then◌else◌, Bool-cases, Option-cases, sym,
}
use pocket_advisor.Retrieval.Selection.{Scored}
use pocket_advisor.Retrieval.Packets.{
  Document, Relation, parent, child, sibling, Related, Neighbour, new_budget, take_text,
  same_relation, bare_packets, fill_texts, owner_of, Expansion, attach, expand_one, expand,
  expand_all, build_packets,
}
use pocket_advisor.Retrieval.Packets.Counts.{
  or_empty, take_text_counts, packet_bytes, attached_count, bare_packets-Bare, fill_texts_counts,
  fill_texts-attached_count, attach_at-packet_bytes, attach_at-attached_count,
}

module _ {F : Type 0} where
  -- The budget counts the texts, no document is attached twice, and none of the matched.
  pub record Expanded (limit : ℕ) (matched : List Bytes) (x : Expansion F) : Type 0 where
    pub counted : x.budget.used ≡ packet_bytes x.packets
    pub total : x.budget.used + x.budget.remaining ≡ limit
    pub once : (k : Bytes) → attached_count k x.packets ≡ (if contains x.attached k then 1 else 0)
    pub unmatched : (k : Bytes) → contains matched k ≡ true → contains x.attached k ≡ false

  attach-Expanded :
      (limit : ℕ) (matched : List Bytes) (i : ℕ) (n : Neighbour) (x : Expansion F)
      → Expanded limit matched x
      → owner_of x.packets n ≡ some i
      → contains matched n.document.doc_id ≡ false
      → contains x.attached n.document.doc_id ≡ false
      → Expanded limit matched (attach i n x)
  unfolding attach
  attach-Expanded limit matched i n x e owner new fresh =
      let r : Related = record {
        document = n.document;
        relation = n.relation;
        text = or_empty (take_text n.text x.budget).0;
      } in
      record {
        counted = omega (
          arith,
          e.counted,
          take_text_counts n.text x.budget,
          attach_at-packet_bytes n r x.packets i owner,
        );
        total = omega (arith, e.total, take_text_counts n.text x.budget);
        once = λ k. ground (
          arith,
          e.once k,
          attach_at-attached_count k n r x.packets i owner,
          bytes_Eq.beq_iff n.document.doc_id k,
        );
        unmatched = λ k h. ground (arith, e.unmatched k h, bytes_Eq.beq_iff n.document.doc_id k);
      }

  expand_one-Expanded :
      (limit : ℕ) (matched : List Bytes) (rel : Relation) (n : Neighbour) (x : Expansion F)
      → Expanded limit matched x
      → Expanded limit matched (expand_one matched rel n x)
  unfolding expand_one
  expand_one-Expanded limit matched rel n x e = elim (Bool-cases (same_relation n.relation rel)) [
    | inr other ↦ rw (expand_one, other) e
    | inl asked ↦ elim (Bool-cases (contains matched n.document.doc_id)) [
      | inl own ↦ rw (expand_one, asked, own) e
      | inr new ↦ elim (Bool-cases (contains x.attached n.document.doc_id)) [
        | inl again ↦ rw (expand_one, asked, new, again) e
        | inr fresh ↦ elim (Option-cases (owner_of x.packets n)) [
          | inl nobody ↦ rw (expand_one, asked, new, fresh, nobody) e
          | inr (i, owner) ↦
              rw (expand_one, asked, new, fresh, owner)
                (attach-Expanded limit matched i n x e owner new fresh)
        ]
      ]
    ]
  ]

  expand-Expanded :
      (limit : ℕ) (matched : List Bytes) (rel : Relation) (ns : List Neighbour) (x : Expansion F)
      → Expanded limit matched x
      → Expanded limit matched (expand matched rel ns x)
  unfolding expand
  expand-Expanded limit matched rel [] x e = e
  expand-Expanded limit matched rel (n ∷ ns) x e =
      expand-Expanded limit matched rel ns _ (expand_one-Expanded limit matched rel n x e)

  expand_all-Expanded :
      (limit : ℕ) (matched : List Bytes) (ns : List Neighbour) (x : Expansion F)
      → Expanded limit matched x
      → Expanded limit matched (expand_all matched ns x)
  unfolding expand_all
  expand_all-Expanded limit matched ns x e =
      expand-Expanded limit matched sibling ns _
        (expand-Expanded limit matched child ns _ (expand-Expanded limit matched parent ns x e))

  filled :
      ℕ → (Bytes → Option Document) → (Bytes → Bytes) → List Bytes → List (Scored F) → Expansion F
  filled limit docs texts sub_queries picked =
      let (ps, b) = fill_texts texts (bare_packets docs sub_queries picked) (new_budget limit) in
      record { packets = ps; attached = []; budget = b }

  filled-Expanded :
      (limit : ℕ) (docs : Bytes → Option Document) (texts : Bytes → Bytes) (matched : List Bytes)
      (sub_queries : List Bytes) (picked : List (Scored F))
      → Expanded limit matched (filled limit docs texts sub_queries picked)
  unfolding filled
  filled-Expanded limit docs texts matched sub_queries picked =
      let none_yet = bare_packets-Bare docs sub_queries picked in
      let counts =
        fill_texts_counts texts (bare_packets docs sub_queries picked) (new_budget limit)
          none_yet in
      record {
        counted = omega (arith, counts.0);
        total = omega (arith, counts.1);
        once = λ k.
            fill_texts-attached_count texts k (bare_packets docs sub_queries picked)
              (new_budget limit) none_yet;
        unmatched = λ k h. refl;
      }

  matched_ids : List (Scored F) → List Bytes
  matched_ids = map (λ p. p.candidate.doc_id)

  built-Expanded :
      (limit : ℕ) (docs : Bytes → Option Document) (texts : Bytes → Bytes) (ns : List Neighbour)
      (sub_queries : List Bytes) (picked : List (Scored F))
      → Expanded limit
          (matched_ids picked)
          (expand_all (matched_ids picked) ns (filled limit docs texts sub_queries picked))
  built-Expanded limit docs texts ns sub_queries picked =
      expand_all-Expanded limit (matched_ids picked) ns _
        (filled-Expanded limit docs texts (matched_ids picked) sub_queries picked)

  -- The bytes of all texts that the packets and their related documents carry are the bytes that
  -- the budget counts as used, and at most the limit of an answer.
  pub build_packets_budget :
      (limit : ℕ) (docs : Bytes → Option Document) (texts : Bytes → Bytes) (ns : List Neighbour)
      (sub_queries : List Bytes) (picked : List (Scored F))
      → (packet_bytes (build_packets limit docs texts ns sub_queries picked).0
          ≡ (build_packets limit docs texts ns sub_queries picked).1.used)
        × (packet_bytes (build_packets limit docs texts ns sub_queries picked).0 ≤ limit)
  unfolding build_packets filled matched_ids
  build_packets_budget limit docs texts ns sub_queries picked =
      let e = built-Expanded limit docs texts ns sub_queries picked in
      (sym e.counted, omega (arith, e.counted, e.total))

  -- A document is attached to the packets at most once, and not at all when it is the document of a
  -- picked match.
  pub build_packets_once :
      (limit : ℕ) (docs : Bytes → Option Document) (texts : Bytes → Bytes) (ns : List Neighbour)
      (sub_queries : List Bytes) (picked : List (Scored F)) (k : Bytes)
      → attached_count k (build_packets limit docs texts ns sub_queries picked).0
        ≤ (if contains (map (λ p. p.candidate.doc_id) picked) k then 0 else 1)
  unfolding build_packets filled matched_ids
  build_packets_once limit docs texts ns sub_queries picked k =
      let e = built-Expanded limit docs texts ns sub_queries picked in
      ground (arith, e.once k, e.unmatched k)
