-- ===== src/Mcp/Documents.antt =====
-- internal/mcp/document.go: the documents that an exact lookup matches, and when a page of
-- them can be sent. Source locations are
-- carried along, as values of any type. What `json.Marshal` and `renderDocumentResult` say of a page is
-- an argument.
use pocket_advisor.Prelude.{
  ℕ, zero, suc, ◌+◌, ◌-◌, ◌/◌, Bool, true, false, List, [], ◌∷◌, Option, none, some, Bytes, bytes,
  ltb, ◌==◌, if◌then◌else◌, length, take, drop,
}
use pocket_advisor.Chunker.Split.{slice}
use pocket_advisor.Mcp.Page.{
  EvidenceBudget, EvidenceRange, Result, ok, err, encode_failed, result_size, result_lines,
  target_tool_result_bytes, target_readable_lines, utf8_byte_unit,
}

abbrev pub max_cursor_bytes : ℕ
max_cursor_bytes = 256

abbrev pub phase_text : Bytes
phase_text = bytes "t"

abbrev pub phase_attachments : Bytes
phase_attachments = bytes "a"

pub record AttachmentDocument (L : Type 0) : Type 0 where
  pub doc_id : Bytes
  pub doc_type : Bytes
  pub mime_type : Bytes
  pub source_filename : Bytes
  pub source_locations : List L
  pub source_ref : Bytes
  pub source_path : Bytes
  pub container_source_path : Bytes

-- A date is the text that it is formatted to.
pub record FetchedDocument (L : Type 0) : Type 0 where
  pub doc_id : Bytes
  pub parent_doc_id : Bytes
  pub doc_type : Bytes
  pub mime_type : Bytes
  pub source_filename : Bytes
  pub subject : Bytes
  pub from : Bytes
  pub to : List Bytes
  pub to_omitted : ℕ
  pub cc : List Bytes
  pub cc_omitted : ℕ
  pub date : Option Bytes
  pub source_locations : List L
  pub source_ref : Bytes
  pub source_path : Bytes
  pub container_source_path : Bytes
  pub text : Bytes
  pub text_range : Option EvidenceRange
  pub text_length : ℕ
  pub text_complete : Bool
  pub attachments : List (AttachmentDocument L)
  pub attachments_offset : ℕ
  pub attachment_count : ℕ

pub record DocumentMatch (L : Type 0) : Type 0 where
  pub header : FetchedDocument L
  pub text : Bytes
  pub attachments : List (AttachmentDocument L)

pub record DocumentPosition : Type 0 where
  pub index : ℕ
  pub phase : Bytes
  pub offset : ℕ

pub record DocumentFetchResult (L : Type 0) : Type 0 where
  pub documents : List (FetchedDocument L)
  pub more_matches : Bool
  pub snapshot : ℕ

pub record DocumentResult (L : Type 0) : Type 0 where
  pub result : DocumentFetchResult L
  pub complete : Bool
  pub next_cursor : Option Bytes
  pub continuation_tool : Option Bytes
  pub response_budget : EvidenceBudget

-- The bytes of the JSON of a tool result whose text was rendered from the first page and whose
-- structure is the second, and the lines of the rendering.
pub record DocumentSizes (L : Type 0) : Type 0 where
  pub encoded : DocumentResult L → DocumentResult L → Option ℕ
  pub lines : DocumentResult L → ℕ

-- A tool result, by the page that its text was rendered from and the page that it carries.
pub record DocumentToolResult (L : Type 0) : Type 0 where
  pub rendered : DocumentResult L
  pub page : DocumentResult L

-- The binary search for the largest value from `low` on and below `bound` that a test accepts, or none;
-- `bound` stands for `high + 1`, and none for `low - 1`.
unfoldable pub search_largest : (ℕ → Bool) → ℕ → ℕ → ℕ → Option ℕ → Option ℕ
search_largest fits zero low bound best = best
search_largest fits (suc fuel) low bound best =
    let middle = low + (bound - 1 - low) / 2 in
    let further = search_largest fits fuel (suc middle) bound (some middle) in
    let nearer = search_largest fits fuel low middle best in
    if ltb low bound then (if fits middle then further else nearer) else best

unfoldable pub largest_fitting : ℕ → ℕ → (ℕ → Bool) → Option ℕ
unfolding search_largest
largest_fitting low bound fits = search_largest fits (bound - low) low bound none

abbrev pub is_complete : Option Bytes → Bool
is_complete none = true
is_complete (some c) = false

abbrev pub continued_by : Option Bytes → Option Bytes
continued_by none = none
continued_by (some c) = some (bytes "fetch_document")

abbrev repeated : ℕ → ℕ → Bytes
repeated zero b = []
repeated (suc n) b = b ∷ repeated n b

unfoldable pub placeholder : Bytes
placeholder = repeated max_cursor_bytes b'x'

module _ {L : Type 0} where
  unfoldable pub with_text : FetchedDocument L → Bytes → ℕ → ℕ → FetchedDocument L
  with_text entry text start stop = record entry {
    text = slice text start stop;
    text_range = some (record { start = start; stop = stop; unit = utf8_byte_unit });
    text_complete = stop == length text;
  }

  unfoldable pub with_attachments :
      FetchedDocument L → List (AttachmentDocument L) → ℕ → ℕ → FetchedDocument L
  with_attachments entry attachments offset count = record entry {
    attachments = take count (drop offset attachments);
    attachments_offset = offset;
  }

  -- The page that `finalizeDocumentResult` starts with.
  unfoldable pub document_page : DocumentFetchResult L → Option Bytes → DocumentResult L
  document_page value cursor = record {
    result = value;
    complete = is_complete cursor;
    next_cursor = cursor;
    continuation_tool = continued_by cursor;
    response_budget = record {
      used = 0;
      allowed = target_tool_result_bytes;
      unit = utf8_byte_unit;
    };
  }

  unfoldable pub set_document_used : ℕ → DocumentResult L → DocumentResult L
  set_document_used n page = record page {
    response_budget = record {
      used = n;
      allowed = target_tool_result_bytes;
      unit = utf8_byte_unit;
    };
  }

module _ {L : Type 0} (sizes : DocumentSizes L) where
  -- The rounds of `finalizeDocumentResult`. The page is shared, so that a result whose text was rendered
  -- before the last round carries the budget of that round.
  unfoldable pub settle_document :
      ℕ → DocumentResult L → DocumentResult L → Result (DocumentToolResult L)
  unfolding set_document_used
  settle_document zero rendered page = ok (record { rendered = rendered; page = page })
  settle_document (suc n) rendered page = elim (sizes.encoded page page) [
    | none ↦ err encode_failed
    | some used ↦
        if page.response_budget.used == used
        then ok (record { rendered = page; page = page })
        else settle_document n page (set_document_used used page)
  ]

  unfoldable pub accept_document : Result (DocumentToolResult L) → Result (DocumentToolResult L)
  accept_document (err e) = err e
  accept_document (ok r) = elim (sizes.encoded r.rendered r.page) [
    | none ↦ err encode_failed
    | some n ↦
        if ltb target_tool_result_bytes n
        then err (result_size target_tool_result_bytes)
        else if ltb target_readable_lines (sizes.lines r.rendered)
        then err (result_lines target_readable_lines)
        else ok r
  ]

  unfoldable pub finalize_document :
      DocumentFetchResult L → Option Bytes → Result (DocumentToolResult L)
  unfolding settle_document accept_document document_page
  finalize_document value cursor =
      let page = document_page value cursor in accept_document (settle_document 4 page page)

  unfoldable pub document_fits : DocumentFetchResult L → Option Bytes → Bool
  unfolding finalize_document
  document_fits value cursor = elim (finalize_document value cursor) [ ok r ↦ true | err e ↦ false ]
