-- ===== src/Mcp/Fetch/TextTurns.antt =====
-- internal/mcp/document.go: how `buildDocumentPage` takes the text of one match.
use pocket_advisor.Prelude.{
  ℕ, suc, ◌+◌, ◌-◌, ◌*◌, ◌≤◌, ◌<◌, ◌≡◌, refl, ap, ap₂, sym, subst, ◌∙◌, ◌⊎◌, inl, inr, Bool, true,
  List, [], ◌∷◌, ◌++◌, Option, none, some, arith, ltb, Bool-cases, Option-cases, length,
  length-drop, length-take, length-append, length-map, drop, take_whole, map,
}
use pocket_advisor.Prelude.Runes.{rune_size, starts_at}
use pocket_advisor.Chunker.Split.{slice}
use pocket_advisor.Mcp.Build.{boundary_at_or_before, next_boundary, page_end}
use pocket_advisor.Mcp.Build.Ends.{valid_utf8, starts_next, next_boundary_bounds}
use pocket_advisor.Mcp.Documents.{
  FetchedDocument, DocumentMatch, DocumentSizes, phase_text, largest_fitting, with_text,
  with_attachments,
}
use pocket_advisor.Mcp.Fetch.{entry_fits, text_fits, text_turn, attachments_turn}
use pocket_advisor.Mcp.Fetch.Search.{AtLeast, Within, largest_fitting-Within, largest_fitting_far}
use pocket_advisor.Mcp.Fetch.Pieces.{
  Piece, text_byte, pieces_of, delivered, left_from, whole, delivered-append, pieces_of-texts,
}
use pocket_advisor.Mcp.Fetch.Turns.{Fits, Good, halted-Good}
use pocket_advisor.Mcp.Fetch.Attachments.{progressed-Good}
use pocket_advisor.Mcp.Fetch.TextEnds.{
  rune_size_le, boundary_least, boundary_le, boundary_starts, page_end_within,
  with_attachments_none,
}

module _ {L : Type 0} (sizes : DocumentSizes L) (more : Bool) (snapshot : ℕ)
    (documents : List (FetchedDocument L)) (m : DocumentMatch L) (ms : List (DocumentMatch L))
    (index : ℕ) (entry : FetchedDocument L) (offset : ℕ) (same_id : entry.doc_id ≡ m.header.doc_id)
    (no_attachments : entry.attachments ≡ []) (no_offset : entry.attachments_offset ≡ 0)
    (valid : valid_utf8 m.text ≡ true) (inside : offset < length m.text)
    (begins : starts_at m.text offset ≡ true)
    (narrow : 2 * rune_size (drop offset m.text) ≤ suc (length m.text - offset))
    (shorter : (stop best : ℕ)
      → offset < stop
      → stop ≤ best
      → best < length m.text
      → starts_at m.text stop ≡ true
      → Fits sizes more snapshot (documents ++ with_text entry m.text offset best ∷ [])
      → Fits sizes more snapshot (documents ++ with_text entry m.text offset stop ∷ []))
    (fits_now : Fits sizes more snapshot documents)
    (room : (0 < length documents)
      ⊎ ((stop : ℕ)
          → offset < stop
          → stop ≤ offset + 7
          → stop ≤ length m.text
          → Fits sizes more snapshot (documents ++ with_text entry m.text offset stop ∷ []))) where
  abbrev grown_to : ℕ → List (FetchedDocument L)
  grown_to stop = documents ++ with_text entry m.text offset stop ∷ []

  abbrev pub text_target : List (Piece L)
  text_target = delivered documents ++ left_from phase_text offset (m ∷ ms)

  grown_eq :
      (stop : ℕ) (rest : List (Piece L))
      → delivered (grown_to stop) ++ rest
        ≡ delivered documents ++ (pieces_of m.header.doc_id (slice m.text offset stop) [] ++ rest)
  unfolding with_text
  grown_eq stop rest =
      delivered-append documents (with_text entry m.text offset stop) rest
      ∙ ap₂
          (λ id items.
            delivered documents ++ (pieces_of id (slice m.text offset stop) items ++ rest))
          same_id no_attachments

  grown_more :
      (stop : ℕ) → offset < stop → stop ≤ length m.text → 0 < length (delivered (grown_to stop))
  grown_more stop h k =
      let id = m.header.doc_id in
      let part = slice m.text offset stop in
      let bytes_there : List (Piece L) = map (text_byte id) part in
      let e = ap (length {A = Piece L}) (grown_eq stop []) in
      omega (
        arith,
        e,
        length-append (delivered (grown_to stop)) [],
        length-append (delivered documents) (pieces_of id part [] ++ []),
        length-append (pieces_of id part []) [],
        length-append bytes_there [],
        length-map {B = Piece L} (text_byte id) part,
        length-take (stop - offset) (drop offset m.text),
        length-drop offset m.text,
      )

  stopped_text :
      (stop : ℕ)
      → offset ≤ stop
      → delivered (grown_to stop) ++ left_from phase_text stop (m ∷ ms) ≡ text_target
  unfolding left_from
  stopped_text stop h =
      grown_eq stop (pieces_of m.header.doc_id (drop stop m.text) m.attachments ++ whole ms)
      ∙ ap (λ ps. delivered documents ++ ps)
          (pieces_of-texts m.header.doc_id m.text offset stop m.attachments (whole ms) h)

  abbrev ends : Option ℕ
  ends =
      largest_fitting (suc offset) (suc (length m.text))
        (text_fits sizes more snapshot documents entry m.text offset)

  found_end :
      (n : ℕ)
      → ends ≡ some n
      → (offset < boundary_at_or_before m.text n)
        × Fits sizes more snapshot (grown_to (boundary_at_or_before m.text n))
  unfolding text_fits entry_fits
  found_end n found =
      let (fit, low, high) =
        subst
          (Within (text_fits sizes more snapshot documents entry m.text offset) (suc offset)
            (suc (length m.text)))
          found
          (largest_fitting-Within (text_fits sizes more snapshot documents entry m.text offset)
            (suc offset) (suc (length m.text))) in
      (ground arith, ground arith)

  -- A page with a document on it may take no text; one without takes some.
  alone_finds :
      ((stop : ℕ)
        → offset < stop
        → stop ≤ offset + 7
        → stop ≤ length m.text
        → Fits sizes more snapshot (grown_to stop))
      → AtLeast (suc offset) ends
  unfolding text_fits entry_fits next_boundary
  alone_finds alone =
      let rune = rune_size (drop offset m.text) in
      let small = rune_size_le (drop offset m.text) in
      let bounds : (offset < offset + rune) × (offset + rune ≤ length m.text) =
        next_boundary_bounds m.text offset inside in
      let next : starts_at m.text (offset + rune) ≡ true =
        starts_next m.text offset valid inside begins in
      largest_fitting_far (text_fits sizes more snapshot documents entry m.text offset) (suc offset)
        (offset + rune) (offset + 7) (suc (length m.text))
        (λ n h k.
          let boundary = boundary_at_or_before m.text n in
          let far = boundary_least m.text (offset + rune) n next h bounds.1 in
          let (near, within) = boundary_le m.text n in
          let fit = alone boundary (omega (arith, far, bounds)) (omega (arith, near, k)) within in
          let ahead : ltb offset boundary ≡ true = ground (arith, far, bounds.0) in
          rw (text_fits, ahead) fit)
        (omega arith) (omega (arith, small)) (omega (arith, narrow, inside)) (omega (arith, inside))

  -- The whole rest of the text is on the page, and the attachments follow.
  whole_text :
      (best : ℕ)
      → offset < best
      → Fits sizes more snapshot (grown_to best)
      → best ≡ length m.text
      → Good sizes more snapshot text_target documents m ms index (
          attachments_turn sizes more snapshot documents
            (with_text entry m.text offset best)
            m.attachments
            index
            0
            true)
  unfolding left_from with_text
  whole_text best h fit at_end =
      let grown = with_text entry m.text offset best in
      let all_of : slice m.text offset best ≡ drop offset m.text =
        take_whole (best - offset) (drop offset m.text)
          (omega (arith, at_end, length-drop offset m.text)) in
      let some_text : 0 < length grown.text =
        omega (arith, ap (length {A = ℕ}) all_of, length-drop offset m.text, inside) in
      let fits_none : Fits sizes more snapshot
          (documents ++ with_attachments grown m.attachments 0 0 ∷ []) =
        subst (λ e. Fits sizes more snapshot (documents ++ e ∷ []))
          (sym (with_attachments_none grown m.attachments no_attachments no_offset)) fit in
      subst
        (λ t.
          Good sizes more snapshot
            (delivered documents ++ (pieces_of m.header.doc_id t m.attachments ++ whole ms))
            documents m ms index
            (attachments_turn sizes more snapshot documents grown m.attachments index 0 true))
        all_of
        (progressed-Good sizes more snapshot documents m ms index grown 0 same_id (omega arith)
          some_text fits_none)

  pub text_turn-Good :
      Good sizes more snapshot text_target documents m ms index
        (text_turn sizes more snapshot documents entry m index offset)
  unfolding text_turn left_from with_text
  text_turn-Good = elim (Option-cases ends) [
    | inl nothing ↦
        let h : 0 < length documents = elim room [
          | inl h ↦ h
          | inr alone ↦
              let none_found : AtLeast (suc offset) none =
                subst (AtLeast (suc offset)) nothing (alone_finds alone) in
              absurd (omega (arith, none_found))
        ] in
        rw (text_turn, nothing)
          (halted-Good sizes more snapshot documents m ms index
            (record { index = index; phase = phase_text; offset = offset }) fits_now h refl
            (inl (refl, inside, begins)))
    | inr (n, found) ↦
        let best = boundary_at_or_before m.text n in
        let (ahead, fit) = found_end n found in
        let (near, within) = boundary_le m.text n in
        elim (Bool-cases (ltb best (length m.text))) [
          | inl part ↦
              let ((moves, reach, starts), before) =
                page_end_within m.text offset best valid
                  (ahead, within, boundary_starts m.text n valid) in
              let stop = page_end m.text offset best in
              rw (text_turn, found, part)
                (
                  stopped_text stop (omega (arith, moves)),
                  shorter stop best moves before (ground arith) starts fit,
                  refl,
                  inl (refl, ground arith, starts),
                  inr (grown_more stop moves reach),
                )
          | inr rest ↦ rw (text_turn, found, rest) (whole_text best ahead fit (ground arith))
        ]
  ]
