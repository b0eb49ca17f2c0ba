-- ===== src/Mcp/Fetch/Whole.antt =====
-- internal/mcp/document.go: the pages of a lookup, one after the other, are its matches.
use pocket_advisor.Prelude.{
  ltb, ℕ, zero, suc, ◌+◌, ◌-◌, ◌≤◌, ◌<◌, ◌≡◌, refl, ap, sym, subst, ◌∙◌, inl, inr, Bool, true,
  false, List, [], ◌∷◌, ◌++◌, Option, none, some, arith, Bytes, length, length-append, drop,
  get_elem?, All, Distinct, bytes_Eq,
}
use pocket_advisor.Mcp.Page.{Result, ok}
use pocket_advisor.Mcp.Build.Follow.{get_elem?-All, append_nil}
use pocket_advisor.Mcp.Build.Ends.{drop_there}
use pocket_advisor.Mcp.Documents.{
  max_cursor_bytes, phase_text, FetchedDocument, DocumentMatch, DocumentSizes, DocumentPosition,
  DocumentToolResult, document_fits,
}
use pocket_advisor.Mcp.Fetch.{result_of}
use pocket_advisor.Mcp.Fetch.Cursor.{
  CursorCodec, DocumentCursor, cursor_of, encode_document_cursor, is_empty, start_position,
  issue_cursor, build_document_page, page_of_call,
}
use pocket_advisor.Mcp.Fetch.Pieces.{Piece, delivered, left_from, whole}
use pocket_advisor.Mcp.Fetch.Turns.{Fits, Resumes}
use pocket_advisor.Mcp.Fetch.Fill.{IsMatch, FitsAlone, ShorterFits}
use pocket_advisor.Mcp.Fetch.Loop.{Stops, EntersAll, fill-Filled, left_start}
use pocket_advisor.Mcp.Fetch.Resume.{doc_ids, CursorsKeep, issue_cursor-start_position}
use pocket_advisor.Mcp.Fetch.Follow.{finalized, continued, follow_documents, delivered_pages}

-- What `encodeDocumentCursor` may return, or no cursor.
abbrev pub CursorBounded : CursorCodec → Option Bytes → Type 0
CursorBounded codec none = Unit {0}
CursorBounded codec (some c) =
    (length c ≤ max_cursor_bytes) × ((dc : DocumentCursor) × (codec.encode dc ≡ some c))

All-drop {ℓ κ} : {A : Type ℓ} (P : A → Type κ) (n : ℕ) (xs : List A) → All P xs → All P (drop n xs)
All-drop P zero xs a = a
All-drop P (suc n) [] a = tt
All-drop P (suc n) (x ∷ xs) a = All-drop P n xs a.1

module _ {L : Type 0} (codec : CursorCodec) (sizes : DocumentSizes L) (more : Bool) (snapshot : ℕ)
    (matches : List (DocumentMatch L)) (fingerprint : Bytes) (well : All IsMatch matches)
    (named : All (λ m. is_empty m.header.doc_id ≡ false) matches)
    (distinct : Distinct (doc_ids matches)) (keeps : CursorsKeep codec fingerprint matches)
    (alone : All (FitsAlone sizes more snapshot) matches)
    (shorter : ShorterFits sizes more snapshot) (empty_fits : Fits sizes more snapshot [])
    (cursor_fits : (documents : List (FetchedDocument L)) (cursor : Option Bytes)
      → CursorBounded codec cursor
      → Fits sizes more snapshot documents
      → document_fits sizes (result_of sizes more snapshot documents) cursor ≡ true) where
  abbrev pieces_left : DocumentPosition → List (Piece L)
  pieces_left p = left_from p.phase p.offset (drop p.index matches)

  -- The page from a position, and the position and the cursor that it names.
  abbrev Paged : DocumentPosition → Type 0
  Paged p =
      (r : DocumentToolResult L) × (next : Option DocumentPosition) × (cursor : Option Bytes)
      × (build_document_page codec sizes more snapshot matches p fingerprint ≡ ok (r, next))
      × (r.page.next_cursor ≡ cursor)
      × (issue_cursor codec matches next fingerprint ≡ ok cursor)
      × Stops sizes more snapshot matches (pieces_left p) 0 p.index r.page.result.documents next

  issued :
      (target : List (Piece L)) (index : ℕ) (page : List (FetchedDocument L))
      (next : Option DocumentPosition)
      → Stops sizes more snapshot matches target 0 index page next
      → (cursor : Option Bytes) × (issue_cursor codec matches next fingerprint ≡ ok cursor)
        × CursorBounded codec cursor
  unfolding issue_cursor encode_document_cursor
  issued target index page none stops = (none, refl, tt)
  issued target index page (some p) (eq, h, (m, here, r), progress) =
      let (encoded, written, bound, back) = keeps m p here r in
      let within : ltb max_cursor_bytes (length encoded) ≡ false = ground (arith, bound) in
      (
        some encoded,
        rw (issue_cursor, encode_document_cursor, here, written, within) refl,
        (bound, (cursor_of codec m p fingerprint, written)),
      )

  page_at :
      (p : DocumentPosition) → EntersAll (drop p.index matches) p.phase p.offset p.index → Paged p
  unfolding build_document_page delivered
  page_at p enters =
      let (page, next, filled, fits, stops) =
        fill-Filled sizes more snapshot matches shorter [] p.index p.phase p.offset
          (drop p.index matches) refl (All-drop IsMatch p.index matches well)
          (All-drop (FitsAlone sizes more snapshot) p.index matches alone) empty_fits enters in
      let (cursor, written, bound) = issued (pieces_left p) p.index page next stops in
      let (r, done, (same, next_cursor)) =
        finalized sizes (result_of sizes more snapshot page) cursor
          (cursor_fits page cursor bound fits) in
      (
        r,
        next,
        cursor,
        rw (build_document_page, filled, written, done) refl,
        next_cursor,
        written,
        subst (λ v. Stops sizes more snapshot matches (pieces_left p) 0 p.index v.documents next)
            (sym same) stops,
      )

  abbrev pages_left : DocumentPosition → ℕ
  pages_left p = length (pieces_left p) + (length matches - p.index)

  abbrev Follows : ℕ → Option Bytes → List (Piece L) → Type 0
  Follows fuel cursor pieces =
      (pages : List (DocumentToolResult L)) × (follow_documents codec sizes more snapshot matches
          fingerprint fuel cursor
        ≡ ok pages)
      × (delivered_pages pages ≡ pieces)

  abbrev FollowsAll : ℕ → Type 0
  FollowsAll fuel =
      (p : DocumentPosition) (cursor : Option Bytes)
      → start_position codec matches cursor fingerprint ≡ ok p
      → EntersAll (drop p.index matches) p.phase p.offset p.index
      → pages_left p < fuel
      → Follows fuel cursor (pieces_left p)

  enters_at :
      (m : DocumentMatch L) (p : DocumentPosition)
      → get_elem? matches p.index ≡ some m
      → Resumes m p
      → EntersAll (drop p.index matches) p.phase p.offset p.index
  enters_at m p here r =
      subst (λ ms. EntersAll ms p.phase p.offset p.index)
        (sym (drop_there matches p.index m here).0) (inr r)

  called :
      (p : DocumentPosition) (cursor : Option Bytes) (r : DocumentToolResult L)
      (next : Option DocumentPosition)
      → start_position codec matches cursor fingerprint ≡ ok p
      → build_document_page codec sizes more snapshot matches p fingerprint ≡ ok (r, next)
      → page_of_call codec sizes more snapshot matches cursor fingerprint ≡ ok r
  unfolding page_of_call
  called p cursor r next start built = rw (page_of_call, start, built) refl

  abbrev pages_behind : ℕ → Bytes → Result (List (DocumentToolResult L))
  pages_behind fuel c = follow_documents codec sizes more snapshot matches fingerprint fuel (some c)

  next_page :
      (fuel : ℕ) (p : DocumentPosition) (cursor named_cursor : Option Bytes)
      (r : DocumentToolResult L) (next : Option DocumentPosition)
      → FollowsAll fuel
      → page_of_call codec sizes more snapshot matches cursor fingerprint ≡ ok r
      → r.page.next_cursor ≡ named_cursor
      → issue_cursor codec matches next fingerprint ≡ ok named_cursor
      → Stops sizes more snapshot matches (pieces_left p) 0 p.index r.page.result.documents next
      → pages_left p < suc fuel
      → Follows (suc fuel) cursor (pieces_left p)
  unfolding follow_documents continued delivered_pages issue_cursor
  next_page fuel p cursor named_cursor r none ih call names written stops enough =
      let last : none ≡ named_cursor = cc in
      (
        r ∷ [],
        rw (follow_documents, call) (ap (continued r (pages_behind fuel)) (names ∙ sym last)),
        append_nil (delivered r.page.result.documents) ∙ stops,
      )
  next_page fuel p cursor named_cursor r (some q) ih call names written
        (eq, h, (m, here, resumes), progress) enough =
      let (encoded, written', bound, back) =
        issue_cursor-start_position codec fingerprint matches m q keeps distinct here
          (get_elem?-All (λ m. is_empty m.header.doc_id ≡ false) matches q.index m named here)
          resumes in
      let same : some encoded ≡ named_cursor = cc in
      let within = (drop_there matches q.index m here).1 in
      let size = ap (length {A = Piece L}) eq in
      let sum = length-append (delivered r.page.result.documents) (pieces_left q) in
      let fewer : pages_left q < fuel = elim progress [
        | inl never ↦ absurd (omega (arith, never))
        | inr (inl further) ↦ omega (arith, size, sum, further, within, enough)
        | inr (inr some_piece) ↦ omega (arith, size, sum, some_piece, h, enough)
      ] in
      let (pages, followed, rest) = ih q (some encoded) back (enters_at m q here resumes) fewer in
      (
        r ∷ pages,
        rw (follow_documents, call)
            (ap (continued r (pages_behind fuel)) (names ∙ sym same)
              ∙ rw (continued, followed) refl),
        ap (λ ps. delivered r.page.result.documents ++ ps) rest ∙ eq,
      )

  follow_from : (fuel : ℕ) → FollowsAll fuel
  follow_from zero p cursor start enters enough = absurd (omega (arith, enough))
  follow_from (suc fuel) p cursor start enters enough =
      let (r, next, named_cursor, built, names, written, stops) = page_at p enters in
      next_page fuel p cursor named_cursor r next (follow_from fuel)
        (called p cursor r next start built) names written stops enough

  start_enters : (ms : List (DocumentMatch L)) → EntersAll ms phase_text 0 0
  start_enters [] = tt
  start_enters (m ∷ ms) = inl (refl, refl)

  -- A client that looks documents up and follows each next_cursor gets, for every match in order,
  -- each byte of its text once and in order and then each of its attachments once and in order, and
  -- the pages end; for matches as render makes them, with distinct identifiers that are not empty
  -- and texts that are valid UTF-8, where the rest of a text at the start of a rune is never so
  -- short that this rune takes more than half of it and a half byte; where cursors are read back as
  -- written, a page with nothing, or with up to seven bytes of a text, or with at most one
  -- attachment alone, fits, a page with a part of a text up to the start of a rune fits when one
  -- with a longer part does that does not end the text either, and a page that fits with the
  -- placeholder fits with a cursor that the codec writes within the bound and with none. Fuel for
  -- one page more than there are bytes, attachments and matches is enough.
  pub fetch_delivers :
      (fuel : ℕ)
      → length (whole matches) + length matches < fuel
      → (pages : List (DocumentToolResult L)) × (follow_documents codec sizes more snapshot matches
            fingerprint fuel none
          ≡ ok pages)
        × (delivered_pages pages ≡ whole matches)
  unfolding start_position
  fetch_delivers fuel enough =
      let (pages, followed, all_there) =
        follow_from fuel (record { index = 0; phase = phase_text; offset = 0 }) none refl
          (start_enters matches)
          (omega (arith, ap (length {A = Piece L}) (left_start matches), enough)) in
      (pages, followed, all_there ∙ left_start matches)
