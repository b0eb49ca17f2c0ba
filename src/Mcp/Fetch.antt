-- ===== src/Mcp/Fetch.antt =====
-- internal/mcp/document.go: the loop of `buildDocumentPage`, which fills a page with what fits of the
-- matches.
pub mod Cursor
pub mod Lookup
pub mod Call
pub mod Search
pub mod Pieces
pub mod Turns
pub mod Attachments
pub mod TextEnds
pub mod TextTurns
pub mod Fill
pub mod Loop
pub mod Resume
pub mod Follow
pub mod Whole
pub mod ShortTail
pub mod Stale
pub mod Modes
pub mod Examples
pub mod Requests
use pocket_advisor.Prelude.{
  ℕ, zero, suc, ◌+◌, ◌-◌, ◌/◌, Bool, true, false, ◌&&◌, ◌||◌, List, [], ◌∷◌, ◌++◌, Option, none,
  some, Bytes, bytes, bytes_eq, ltb, ◌==◌, if◌then◌else◌, length, take, drop,
}
use pocket_advisor.Mcp.Page.{Result, ok, err, result_size, target_tool_result_bytes}
use pocket_advisor.Mcp.Build.{boundary_at_or_before, page_end}
use pocket_advisor.Mcp.Documents.{
  phase_text, phase_attachments, AttachmentDocument, FetchedDocument, DocumentMatch,
  DocumentPosition, DocumentFetchResult, DocumentSizes, largest_fitting, placeholder, with_text,
  with_attachments, document_fits,
}

-- How a match ends on a page: the page fails, the page ends before or within the match, or the rest of
-- the match is on it.
pub data Turn (L : Type 0) : Type 0 where
  failed : Turn L
  stopped : List (FetchedDocument L) → DocumentPosition → Turn L
  advanced : List (FetchedDocument L) → Turn L

-- A count below zero is 0 for a match whose text is on the page.
unfoldable pub settled_count : Option ℕ → Bool → Option ℕ
settled_count (some n) progressed = some n
settled_count none progressed = if progressed then some 0 else none

abbrev pub is_some_document : {L : Type 0} → List (FetchedDocument L) → Bool
is_some_document [] = false
is_some_document (d ∷ ds) = true

module _ {L : Type 0} (sizes : DocumentSizes L) (more : Bool) (snapshot : ℕ) where
  abbrev pub result_of : List (FetchedDocument L) → DocumentFetchResult L
  result_of documents = record { documents = documents; more_matches = more; snapshot = snapshot }

  -- `fits`: the page with one more entry, sized with a cursor of the greatest length.
  unfoldable pub entry_fits : List (FetchedDocument L) → FetchedDocument L → Bool
  unfolding document_fits
  entry_fits documents entry =
      document_fits sizes (result_of (documents ++ entry ∷ [])) (some placeholder)

  -- The page ends before the position when it has a document, and fails otherwise.
  unfoldable pub halted : List (FetchedDocument L) → DocumentPosition → Turn L
  halted documents position =
      if is_some_document documents then stopped documents position else failed

  unfoldable pub text_fits : List (FetchedDocument L) → FetchedDocument L → Bytes → ℕ → ℕ → Bool
  unfolding entry_fits with_text boundary_at_or_before
  text_fits documents entry text offset stop =
      let boundary = boundary_at_or_before text stop in
      ltb offset boundary && entry_fits documents (with_text entry text offset boundary)

  unfoldable pub counted_turn :
      List (FetchedDocument L)
      → FetchedDocument L
      → List (AttachmentDocument L)
      → ℕ
      → ℕ
      → Bool
      → Option ℕ
      → Turn L
  unfolding with_attachments halted
  counted_turn documents entry attachments index offset progressed none =
      halted documents (record { index = index; phase = phase_attachments; offset = offset })
  counted_turn documents entry attachments index offset progressed (some count) =
      let grown = documents ++ with_attachments entry attachments offset count ∷ [] in
      let position : DocumentPosition = record {
        index = index;
        phase = phase_attachments;
        offset = offset;
      } in
      if count == length attachments - offset
      then advanced grown
      else if ltb 0 count || progressed
      then stopped grown (record position { offset = offset + count })
      else halted documents position

  -- The part of the loop behind the text, for `offset` within the attachments.
  unfoldable pub attachments_turn :
      List (FetchedDocument L)
      → FetchedDocument L
      → List (AttachmentDocument L)
      → ℕ
      → ℕ
      → Bool
      → Turn L
  unfolding largest_fitting entry_fits with_attachments settled_count counted_turn
  attachments_turn documents entry attachments index offset progressed =
      let count =
        largest_fitting 0 (suc (length attachments) - offset)
          (λ n. entry_fits documents (with_attachments entry attachments offset n)) in
      counted_turn documents entry attachments index offset progressed
        (settled_count count progressed)

  -- The part with the text, for `offset` within it.
  unfoldable pub text_turn :
      List (FetchedDocument L) → FetchedDocument L → DocumentMatch L → ℕ → ℕ → Turn L
  unfolding largest_fitting text_fits halted page_end attachments_turn
  text_turn documents entry match index offset =
      elim (largest_fitting (suc offset) (suc (length match.text))
        (text_fits documents entry match.text offset)) [
          | none ↦ halted documents (record { index = index; phase = phase_text; offset = offset })
          | some largest ↦
              let best = boundary_at_or_before match.text largest in
              let stop = page_end match.text offset best in
              if ltb best (length match.text)
              then stopped (documents ++ with_text entry match.text offset stop ∷ [])
                  (record { index = index; phase = phase_text; offset = stop })
              else attachments_turn documents (with_text entry match.text offset best)
                  match.attachments index 0 true
        ]

  unfoldable pub match_turn : List (FetchedDocument L) → DocumentMatch L → ℕ → Bytes → ℕ → Turn L
  unfolding text_turn attachments_turn
  match_turn documents match index phase offset =
      let entry = record match.header { text_complete = true } in
      if bytes_eq phase phase_text && ltb offset (length match.text)
      then text_turn documents entry match index offset
      else if bytes_eq phase phase_text
      then attachments_turn documents entry match.attachments index 0 false
      else attachments_turn documents entry match.attachments index offset false

  -- The loop of `buildDocumentPage`, over the matches from the index on.
  unfoldable pub fill_documents :
      List (FetchedDocument L)
      → ℕ
      → Bytes
      → ℕ
      → List (DocumentMatch L)
      → Result (List (FetchedDocument L) × Option DocumentPosition)
  unfolding match_turn
  fill_documents documents index phase offset [] = ok (documents, none)
  fill_documents documents index phase offset (match ∷ matches) =
      elim (match_turn documents match index phase offset) [
        | failed ↦ err (result_size target_tool_result_bytes)
        | stopped documents' next ↦ ok (documents', some next)
        | advanced documents' ↦ fill_documents documents' (suc index) phase_text 0 matches
      ]
