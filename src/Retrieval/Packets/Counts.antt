-- ===== src/Retrieval/Packets/Counts.antt =====
-- internal/retrieval/packets.go: what each step adds to the texts and the related documents.
use pocket_advisor.Prelude.{
  ℕ, zero, suc, ◌+◌, ◌≡◌, refl, inl, inr, List, [], ◌∷◌, ◌++◌, Option, none, some, arith, Bytes,
  bytes_Eq, bytes_eq, if◌then◌else◌, length, All, Option-cases, ap,
}
use pocket_advisor.Retrieval.Selection.{Scored}
use pocket_advisor.Retrieval.Packets.{
  Document, Related, Neighbour, Packet, Budget, take_text, bare_packets, fill_texts, owner_of,
  attach_at,
}

unfoldable pub related_bytes : List Related → ℕ
related_bytes [] = 0
related_bytes (r ∷ rs) = length r.text + related_bytes rs

-- How often a document stands among related ones.
unfoldable pub related_count : Bytes → List Related → ℕ
related_count k [] = 0
related_count k (r ∷ rs) = (if bytes_eq r.document.doc_id k then 1 else 0) + related_count k rs

related_bytes-append :
    (rs : List Related) (r : Related)
    → related_bytes (rs ++ r ∷ []) ≡ related_bytes rs + length r.text
unfolding related_bytes
related_bytes-append [] r = omega arith
related_bytes-append (q ∷ rs) r = omega (arith, related_bytes-append rs r)

related_count-append :
    (k : Bytes) (rs : List Related) (r : Related)
    → related_count k (rs ++ r ∷ [])
      ≡ related_count k rs + (if bytes_eq r.document.doc_id k then 1 else 0)
unfolding related_count
related_count-append k [] r = ground arith
related_count-append k (q ∷ rs) r = ground (arith, related_count-append k rs r)

abbrev pub or_empty : Option Bytes → Bytes
or_empty none = []
or_empty (some t) = t

-- What is taken is counted as used, and the sum of used and left stays.
pub take_text_counts :
    (text : Bytes) (b : Budget)
    → ((take_text text b).1.used ≡ b.used + length (or_empty (take_text text b).0))
      × ((take_text text b).1.used + (take_text text b).1.remaining ≡ b.used + b.remaining)
unfolding take_text
take_text_counts text b = ground arith

module _ {F : Type 0} where
  -- The bytes of all texts that the packets carry.
  unfoldable pub packet_bytes : List (Packet F) → ℕ
  packet_bytes [] = 0
  packet_bytes (p ∷ ps) = length p.text + related_bytes p.related + packet_bytes ps

  -- How often a document is attached to the packets.
  unfoldable pub attached_count : Bytes → List (Packet F) → ℕ
  attached_count k [] = 0
  attached_count k (p ∷ ps) = related_count k p.related + attached_count k ps

  -- Packets without any text or related document.
  abbrev pub Bare : List (Packet F) → Type 0
  Bare = All (λ p. (length p.text ≡ 0) × (p.related ≡ []))

  pub bare_packets-Bare :
      (docs : Bytes → Option Document) (sub_queries : List Bytes) (ps : List (Scored F))
      → Bare (bare_packets docs sub_queries ps)
  unfolding bare_packets
  bare_packets-Bare docs sub_queries [] = tt
  bare_packets-Bare docs sub_queries (p ∷ ps) = elim (Option-cases (docs p.candidate.doc_id)) [
    | inl missing ↦ rw (bare_packets, missing) (bare_packets-Bare docs sub_queries ps)
    | inr (d, found) ↦
        rw (bare_packets, found) ((omega arith, refl), bare_packets-Bare docs sub_queries ps)
  ]

  -- Filling in the texts is counted byte by byte.
  pub fill_texts_counts :
      (texts : Bytes → Bytes) (ps : List (Packet F)) (b : Budget)
      → Bare ps
      → ((fill_texts texts ps b).1.used ≡ b.used + packet_bytes (fill_texts texts ps b).0)
        × ((fill_texts texts ps b).1.used + (fill_texts texts ps b).1.remaining
            ≡ b.used + b.remaining)
  unfolding fill_texts packet_bytes related_bytes
  fill_texts_counts texts [] b h = (omega arith, omega arith)
  fill_texts_counts texts (p ∷ ps) b h = ground (
    arith,
    take_text_counts (texts p.document.doc_id) b,
    fill_texts_counts texts ps (take_text (texts p.document.doc_id) b).1 h.1,
    h.0.0,
    ap related_bytes h.0.1,
  )

  pub fill_texts-attached_count :
      (texts : Bytes → Bytes) (k : Bytes) (ps : List (Packet F)) (b : Budget)
      → Bare ps
      → attached_count k (fill_texts texts ps b).0 ≡ 0
  unfolding fill_texts attached_count related_count
  fill_texts-attached_count texts k [] b h = refl
  fill_texts-attached_count texts k (p ∷ ps) b h = ground (
    arith,
    fill_texts-attached_count texts k ps (take_text (texts p.document.doc_id) b).1 h.1,
    ap (related_count k) h.0.1,
  )

  pub attach_at-packet_bytes :
      (n : Neighbour) (r : Related) (ps : List (Packet F)) (i : ℕ)
      → owner_of ps n ≡ some i
      → packet_bytes (attach_at i r ps) ≡ packet_bytes ps + length r.text
  unfolding owner_of attach_at packet_bytes
  attach_at-packet_bytes n r [] i h = ground arith
  attach_at-packet_bytes n r (p ∷ ps) zero h = omega (arith, related_bytes-append p.related r)
  attach_at-packet_bytes n r (p ∷ ps) (suc i) h = ground (arith, attach_at-packet_bytes n r ps i)

  pub attach_at-attached_count :
      (k : Bytes) (n : Neighbour) (r : Related) (ps : List (Packet F)) (i : ℕ)
      → owner_of ps n ≡ some i
      → attached_count k (attach_at i r ps)
        ≡ attached_count k ps + (if bytes_eq r.document.doc_id k then 1 else 0)
  unfolding owner_of attach_at attached_count
  attach_at-attached_count k n r [] i h = ground arith
  attach_at-attached_count k n r (p ∷ ps) zero h =
      ground (arith, related_count-append k p.related r)
  attach_at-attached_count k n r (p ∷ ps) (suc i) h =
      ground (arith, attach_at-attached_count k n r ps i)
