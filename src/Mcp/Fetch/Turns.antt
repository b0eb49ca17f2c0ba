-- ===== src/Mcp/Fetch/Turns.antt =====
-- internal/mcp/document.go: how `buildDocumentPage` leaves one match, behind its text and within it.
use pocket_advisor.Prelude.{
  ℕ, ◌+◌, ◌-◌, ◌≤◌, ◌<◌, ◌≡◌, refl, ap, sym, ◌∙◌, ◌⊎◌, inl, Bool, true, List, [], ◌∷◌, ◌++◌, some,
  arith, length, length-drop, length-take, length-append, length-map, take, drop, take_whole, map,
}
use pocket_advisor.Prelude.Runes.{starts_at}
use pocket_advisor.Chunker.Slices.{drop-drop}
use pocket_advisor.Mcp.Documents.{
  FetchedDocument, DocumentMatch, DocumentPosition, DocumentSizes, phase_text, phase_attachments,
  placeholder, with_attachments, document_fits,
}
use pocket_advisor.Mcp.Fetch.{Turn, failed, stopped, advanced, result_of, halted, is_some_document}
use pocket_advisor.Mcp.Fetch.Pieces.{
  Piece, attached, text_byte, pieces_of, delivered, whole, left_from, delivered-append,
  pieces_of-attachments,
}

-- A place in a match that a page may begin at.
abbrev pub Resumes : {L : Type 0} → DocumentMatch L → DocumentPosition → Type 0
Resumes m position =
    ((position.phase ≡ phase_text)
      × (position.offset < length m.text)
      × (starts_at m.text position.offset ≡ true))
    ⊎ ((position.phase ≡ phase_attachments) × (position.offset ≤ length m.attachments))

pub some_document :
    {L : Type 0} (ds : List (FetchedDocument L)) (d : FetchedDocument L) → 0 < length (ds ++ d ∷ [])
some_document [] d = omega arith
some_document (e ∷ ds) d = omega arith

there_is : {L : Type 0} (ds : List (FetchedDocument L)) → 0 < length ds → is_some_document ds ≡ true
there_is [] h = absurd (omega arith)
there_is (d ∷ ds) h = refl

module _ {L : Type 0} (sizes : DocumentSizes L) (more : Bool) (snapshot : ℕ) where
  abbrev pub Fits : List (FetchedDocument L) → Type 0
  Fits documents =
      document_fits sizes (result_of sizes more snapshot documents) (some placeholder) ≡ true

  -- What is asked of a turn: the documents and what is left of the matches are the target, the page
  -- fits, and it ends at a place to go on from, with a document on it or a piece delivered.
  abbrev pub Good :
      List (Piece L)
      → List (FetchedDocument L)
      → DocumentMatch L
      → List (DocumentMatch L)
      → ℕ
      → Turn L
      → Type 0
  Good target before m ms index failed = 0 < 0
  Good target before m ms index (stopped documents next) =
      (delivered documents ++ left_from next.phase next.offset (m ∷ ms) ≡ target)
      × Fits documents
      × (next.index ≡ index)
      × Resumes m next
      × ((0 < length before) ⊎ (0 < length (delivered documents)))
  Good target before m ms index (advanced documents) =
      (delivered documents ++ whole ms ≡ target) × Fits documents × (0 < length documents)

  module _ (documents : List (FetchedDocument L)) (m : DocumentMatch L)
      (ms : List (DocumentMatch L)) (index : ℕ) where
    pub halted-Good :
        (position : DocumentPosition)
        → Fits documents
        → 0 < length documents
        → position.index ≡ index
        → Resumes m position
        → Good
            (delivered documents ++ left_from position.phase position.offset (m ∷ ms))
            documents
            m
            ms
            index
            (halted sizes more snapshot documents position)
    unfolding halted
    halted-Good position f h i r =
        let some_there = there_is documents h in rw some_there (refl, f, i, r, inl h)

    module _ (entry : FetchedDocument L) (offset : ℕ) (same_id : entry.doc_id ≡ m.header.doc_id)
        (inside : offset ≤ length m.attachments) where
      abbrev pub behind_text : List (Piece L)
      behind_text =
          delivered documents
          ++ (pieces_of m.header.doc_id entry.text (drop offset m.attachments) ++ whole ms)

      grown_eq :
          (count : ℕ) (rest : List (Piece L))
          → delivered (documents ++ with_attachments entry m.attachments offset count ∷ []) ++ rest
            ≡ delivered documents
              ++ (pieces_of m.header.doc_id entry.text (take count (drop offset m.attachments))
                  ++ rest)
      unfolding with_attachments
      grown_eq count rest =
          delivered-append documents (with_attachments entry m.attachments offset count) rest
          ∙ ap
              (λ id.
                delivered documents
                ++ (pieces_of id entry.text (take count (drop offset m.attachments)) ++ rest))
              same_id

      pub stopped_eq :
          (count : ℕ)
          → delivered (documents ++ with_attachments entry m.attachments offset count ∷ [])
              ++ left_from phase_attachments (offset + count) (m ∷ ms)
            ≡ behind_text
      unfolding left_from
      stopped_eq count =
          let id = m.header.doc_id in
          grown_eq count (pieces_of id [] (drop (offset + count) m.attachments) ++ whole ms)
          ∙ ap (λ ps. delivered documents ++ ps)
              (ap
                  (λ items.
                    pieces_of id entry.text (take count (drop offset m.attachments))
                    ++ (pieces_of id [] items ++ whole ms))
                  (sym (drop-drop count offset m.attachments))
                ∙ pieces_of-attachments id entry.text count (drop offset m.attachments) (whole ms))

      pub advanced_eq :
          (count : ℕ)
          → count ≡ length m.attachments - offset
          → delivered (documents ++ with_attachments entry m.attachments offset count ∷ [])
              ++ whole ms
            ≡ behind_text
      advanced_eq count all_of =
          grown_eq count (whole ms)
          ∙ ap
              (λ items.
                delivered documents ++ (pieces_of m.header.doc_id entry.text items ++ whole ms))
              (take_whole count (drop offset m.attachments)
                (omega (arith, all_of, length-drop offset m.attachments)))

      abbrev pub grown_by : ℕ → List (FetchedDocument L)
      grown_by count = documents ++ with_attachments entry m.attachments offset count ∷ []

      pub delivered_more :
          (count : ℕ)
          → count ≤ length m.attachments - offset
          → length (delivered (grown_by count))
            ≡ length (delivered documents) + (length entry.text + count)
      delivered_more count h =
          let id = m.header.doc_id in
          let some_of = take count (drop offset m.attachments) in
          let bytes_there : List (Piece L) = map (text_byte id) entry.text in
          let items_there : List (Piece L) = map (attached id) some_of in
          let e = ap (length {A = Piece L}) (grown_eq count []) in
          omega (
            arith,
            e,
            length-append (delivered (grown_by count)) [],
            length-append (delivered documents) (pieces_of id entry.text some_of ++ []),
            length-append (pieces_of id entry.text some_of) [],
            length-append bytes_there items_there,
            length-map {B = Piece L} (text_byte id) entry.text,
            length-map {B = Piece L} (attached id) some_of,
            length-take count (drop offset m.attachments),
            length-drop offset m.attachments,
          )
