-- ===== src/Mcp/Fetch/Fill.antt =====
-- internal/mcp/document.go: the loop of `buildDocumentPage` over the matches.
use pocket_advisor.Prelude.{
  ℕ, suc, ◌+◌, ◌-◌, ◌*◌, ◌≤◌, ◌<◌, ◌≡◌, refl, sym, subst, ◌∙◌, ◌⊎◌, inl, inr, Bool, true, false,
  List, [], ◌∷◌, ◌++◌, arith, Bytes, ltb, Bool-cases, length, drop,
}
use pocket_advisor.Prelude.Runes.{rune_size, starts_at}
use pocket_advisor.Mcp.Build.Ends.{valid_utf8, starts_zero}
use pocket_advisor.Mcp.Build.Texts.{drop_all}
use pocket_advisor.Mcp.Documents.{
  FetchedDocument, DocumentMatch, DocumentSizes, phase_text, phase_attachments, with_text,
  with_attachments,
}
use pocket_advisor.Mcp.Fetch.{match_turn, attachments_turn}
use pocket_advisor.Mcp.Fetch.Pieces.{pieces_of, delivered, left_from, whole}
use pocket_advisor.Mcp.Fetch.Turns.{Fits, Good, Resumes}
use pocket_advisor.Mcp.Fetch.Attachments.{plain-Good}
use pocket_advisor.Mcp.Fetch.TextTurns.{text_turn-Good}

-- Where the rest of a text begins, its first rune takes no more than half of it and a half byte.
abbrev pub IsNarrow : Bytes → Type 0
IsNarrow text =
    (offset : ℕ)
    → offset < length text
    → starts_at text offset ≡ true
    → 2 * rune_size (drop offset text) ≤ suc (length text - offset)

-- A match as `render` makes it, with a text that is valid UTF-8.
abbrev pub IsMatch : {L : Type 0} → DocumentMatch L → Type 0
IsMatch m =
    (m.header.text ≡ [])
    × (m.header.attachments ≡ [])
    × (m.header.attachments_offset ≡ 0)
    × (valid_utf8 m.text ≡ true)
    × IsNarrow m.text

abbrev pub entry_of : {L : Type 0} → DocumentMatch L → FetchedDocument L
entry_of m = record m.header { text_complete = true }

-- The place where a page begins, in the first match that it may carry.
abbrev pub Enters : {L : Type 0} → DocumentMatch L → Bytes → ℕ → ℕ → Type 0
Enters m phase offset index =
    ((phase ≡ phase_text) × (offset ≡ 0))
    ⊎ Resumes m (record { index = index; phase = phase; offset = offset })

module _ {L : Type 0} (sizes : DocumentSizes L) (more : Bool) (snapshot : ℕ) where
  -- A page with up to seven bytes of the text, or with one attachment, and nothing else fits.
  abbrev pub FitsAlone : DocumentMatch L → Type 0
  FitsAlone m =
      ((offset stop : ℕ)
        → offset < stop
        → stop ≤ offset + 7
        → stop ≤ length m.text
        → Fits sizes more snapshot (with_text (entry_of m) m.text offset stop ∷ []))
      × ((offset n : ℕ)
          → n ≤ 1
          → n ≤ length m.attachments - offset
          → Fits sizes more snapshot (with_attachments (entry_of m) m.attachments offset n ∷ []))

  -- A page with a shorter part of a text, up to the start of a rune, fits when one with a longer
  -- part does that does not end the text either.
  abbrev pub ShorterFits : Type 0
  ShorterFits =
      (documents : List (FetchedDocument L)) (entry : FetchedDocument L) (text : Bytes)
      (offset stop best : ℕ)
      → offset < stop
      → stop ≤ best
      → best < length text
      → starts_at text stop ≡ true
      → Fits sizes more snapshot (documents ++ with_text entry text offset best ∷ [])
      → Fits sizes more snapshot (documents ++ with_text entry text offset stop ∷ [])

  module _ (shorter : ShorterFits) (documents : List (FetchedDocument L)) (m : DocumentMatch L)
      (ms : List (DocumentMatch L)) (index : ℕ) (ok_match : IsMatch m) (alone : FitsAlone m)
      (fits_now : Fits sizes more snapshot documents) where
    text_room :
        (offset : ℕ) (ds : List (FetchedDocument L))
        → (0 < length ds)
          ⊎ ((stop : ℕ)
              → offset < stop
              → stop ≤ offset + 7
              → stop ≤ length m.text
              → Fits sizes more snapshot (ds ++ with_text (entry_of m) m.text offset stop ∷ []))
    text_room offset [] = inr (alone.0 offset)
    text_room offset (d ∷ ds) = inl (omega arith)

    item_room :
        (offset : ℕ) (ds : List (FetchedDocument L))
        → (0 < length ds)
          ⊎ ((n : ℕ)
              → n ≤ 1
              → n ≤ length m.attachments - offset
              → Fits sizes more snapshot
                  (ds ++ with_attachments (entry_of m) m.attachments offset n ∷ []))
    item_room offset [] = inr (alone.1 offset)
    item_room offset (d ∷ ds) = inl (omega arith)

    -- A match whose text is empty, or on the pages before.
    behind-Good :
        (offset : ℕ) (text : Bytes)
        → offset ≤ length m.attachments
        → text ≡ []
        → Good sizes more snapshot
            (delivered documents
              ++ (pieces_of m.header.doc_id text (drop offset m.attachments) ++ whole ms))
            documents
            m
            ms
            index
            (attachments_turn sizes more snapshot documents
              (entry_of m)
              m.attachments
              index
              offset
              false)
    behind-Good offset text h no_text =
        let (no_header, no_items, no_offset, valid, narrow) = ok_match in
        subst
          (λ t.
            Good sizes more snapshot
              (delivered documents
                ++ (pieces_of m.header.doc_id t (drop offset m.attachments) ++ whole ms))
              documents m ms index
              (attachments_turn sizes more snapshot documents (entry_of m) m.attachments index
                offset false))
          (no_header ∙ sym no_text)
          (plain-Good sizes more snapshot documents m ms index (entry_of m) offset refl h no_header
            fits_now (item_room offset documents))

    abbrev pub GoodTurn : Bytes → ℕ → Type 0
    GoodTurn phase offset =
        Good sizes more snapshot (delivered documents ++ left_from phase offset (m ∷ ms)) documents
          m ms index (match_turn sizes more snapshot documents m index phase offset)

    text_inside :
        (offset : ℕ)
        → offset < length m.text
        → starts_at m.text offset ≡ true
        → GoodTurn phase_text offset
    unfolding match_turn
    text_inside offset inside begins =
        let (no_header, no_items, no_offset, valid, narrow) = ok_match in
        let more_text : ltb offset (length m.text) ≡ true = ground arith in
        rw (match_turn, more_text)
          (text_turn-Good sizes more snapshot documents m ms index (entry_of m) offset refl no_items
            no_offset valid inside begins (narrow offset inside begins)
            (shorter documents (entry_of m) m.text offset) fits_now (text_room offset documents))

    text_start : GoodTurn phase_text 0
    unfolding match_turn left_from
    text_start = elim (Bool-cases (ltb 0 (length m.text))) [
      | inl more_text ↦ text_inside 0 (ground arith) (starts_zero m.text ok_match.3)
      | inr empty ↦
          rw (match_turn, empty)
            (behind-Good 0 m.text (omega arith) (drop_all 0 m.text (ground arith)))
    ]

    items_from : (offset : ℕ) → offset ≤ length m.attachments → GoodTurn phase_attachments offset
    unfolding match_turn left_from
    items_from offset h = behind-Good offset [] h refl

    pub match_turn-Good :
        (phase : Bytes) (offset : ℕ) → Enters m phase offset index → GoodTurn phase offset
    match_turn-Good phase offset (inl (p, z)) =
        subst (λ t. GoodTurn t offset) (sym p) (subst (GoodTurn phase_text) (sym z) text_start)
    match_turn-Good phase offset (inr (inl (p, inside, begins))) =
        subst (λ t. GoodTurn t offset) (sym p) (text_inside offset inside begins)
    match_turn-Good phase offset (inr (inr (p, h))) =
        subst (λ t. GoodTurn t offset) (sym p) (items_from offset h)
