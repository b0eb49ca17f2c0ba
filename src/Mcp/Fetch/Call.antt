-- ===== src/Mcp/Fetch/Call.antt =====
-- internal/mcp/document.go: the matches of a lookup and the whole call. The queries are arguments.
use pocket_advisor.Prelude.{
  ℕ, ◌-◌, Bool, true, false, List, [], ◌∷◌, Option, none, some, Bytes, bytes, bytes_eq, ltb, leb,
  if◌then◌else◌, length, take, map,
}
use pocket_advisor.Prelude.Runes.{trim}
use pocket_advisor.Mcp.Page.{Result, ok, err, lookup_failed}
use pocket_advisor.Mcp.Documents.{
  AttachmentDocument, FetchedDocument, DocumentMatch, DocumentSizes, DocumentToolResult,
}
use pocket_advisor.Mcp.Fetch.Cursor.{CursorCodec, decode_document_cursor, page_of_call}
use pocket_advisor.Mcp.Fetch.Lookup.{
  by_filename, by_sender_date, by_subject_date, FetchDocumentMode, FetchDocumentArguments,
  Clockwork, max_document_recipients, fetch_document_max_results, parse_mailbox_date,
  normalize_exact_address, document_lookup_fingerprint, validate_fetch_document_arguments,
}

unfoldable pub bound_recipients : List Bytes → List Bytes × ℕ
bound_recipients addresses =
    if leb (length addresses) max_document_recipients
    then (addresses, 0)
    else (take max_document_recipients addresses, length addresses - max_document_recipients)

-- A row of a lookup; the date of the message is the text that it is formatted to.
pub record DocumentLocation (L : Type 0) : Type 0 where
  pub source_ref : Bytes
  pub source_locations : List L
  pub doc_id : Bytes
  pub parent_doc_id : Bytes
  pub doc_type : Bytes
  pub mime_type : Bytes
  pub source_filename : Bytes
  pub email_subject : Bytes
  pub email_from : Bytes
  pub email_date : Option Bytes
  pub normalized_text : Bytes
  pub source_path : Bytes
  pub container_path : Bytes

-- The queries of the repository; none is an error.
pub record DocumentRepo (L : Type 0) : Type 0 where
  pub find_by_filename : Bytes → Option (List (DocumentLocation L))
  pub find_by_sender_date : Bytes → ℕ → Option (List (DocumentLocation L))
  pub find_by_subject_date : Bytes → ℕ → Option (List (DocumentLocation L))
  pub email_recipients : Bytes → Option (List Bytes × List Bytes)
  pub children : Bytes → Option (List (DocumentLocation L))

module _ {L : Type 0} where
  unfoldable pub attachment_of : DocumentLocation L → AttachmentDocument L
  attachment_of d = record {
    doc_id = d.doc_id;
    doc_type = d.doc_type;
    mime_type = d.mime_type;
    source_filename = d.source_filename;
    source_locations = d.source_locations;
    source_ref = d.source_ref;
    source_path = d.source_path;
    container_source_path = d.container_path;
  }

  -- The part of a header that `render` gives every document.
  unfoldable pub plain_header : DocumentLocation L → ℕ → FetchedDocument L
  plain_header d attachment_count = record {
    doc_id = d.doc_id;
    parent_doc_id = d.parent_doc_id;
    doc_type = d.doc_type;
    mime_type = d.mime_type;
    source_filename = d.source_filename;
    subject = [];
    from = [];
    to = [];
    to_omitted = 0;
    cc = [];
    cc_omitted = 0;
    date = none;
    source_locations = d.source_locations;
    source_ref = d.source_ref;
    source_path = d.source_path;
    container_source_path = d.container_path;
    text = [];
    text_range = none;
    text_length = length d.normalized_text;
    text_complete = false;
    attachments = [];
    attachments_offset = 0;
    attachment_count = attachment_count;
  }

  -- What an email adds to it.
  unfoldable pub email_header :
      DocumentLocation L → List Bytes × List Bytes → FetchedDocument L → FetchedDocument L
  unfolding bound_recipients
  email_header d (to, cc) header = record header {
    subject = d.email_subject;
    from = d.email_from;
    to = (bound_recipients to).0;
    to_omitted = (bound_recipients to).1;
    cc = (bound_recipients cc).0;
    cc_omitted = (bound_recipients cc).1;
    date = d.email_date;
  }

module _ {L : Type 0} (repo : DocumentRepo L) where
  abbrev pub header_of : DocumentLocation L → ℕ → Option (FetchedDocument L)
  unfolding plain_header email_header
  header_of d count =
      if bytes_eq d.doc_type (bytes "email")
      then elim (repo.email_recipients d.doc_id) [
        | none ↦ none
        | some recipients ↦ some (email_header d recipients (plain_header d count))
      ]
      else some (plain_header d count)

  abbrev pub match_of : DocumentLocation L → List (AttachmentDocument L) → Option (DocumentMatch L)
  match_of d attachments = elim (header_of d (length attachments)) [
    | none ↦ none
    | some header ↦
        some (record { header = header; text = d.normalized_text; attachments = attachments })
  ]

  unfoldable pub render : DocumentLocation L → Option (DocumentMatch L)
  unfolding attachment_of
  render d = elim (repo.children d.doc_id) [
    | none ↦ none
    | some children ↦ match_of d (map attachment_of children)
  ]

  unfoldable pub render_all : List (DocumentLocation L) → Option (List (DocumentMatch L))
  unfolding render
  render_all [] = some []
  render_all (d ∷ ds) = elim (render d) [
    | none ↦ none
    | some m ↦ elim (render_all ds) [ none ↦ none | some ms ↦ some (m ∷ ms) ]
  ]

  -- The query of each mode.
  unfoldable pub find_documents :
      Clockwork → FetchDocumentMode → FetchDocumentArguments → Option (List (DocumentLocation L))
  unfolding trim normalize_exact_address parse_mailbox_date
  find_documents c by_filename args = repo.find_by_filename (trim args.filename)
  find_documents c by_sender_date args = elim (parse_mailbox_date c args.date) [
    | err e ↦ repo.find_by_sender_date (normalize_exact_address c args.sender) (c.truncate_to_day 0)
    | ok day ↦
        repo.find_by_sender_date (normalize_exact_address c args.sender) (c.truncate_to_day day)
  ]
  find_documents c by_subject_date args = elim (parse_mailbox_date c args.date) [
    | err e ↦ repo.find_by_subject_date (trim args.subject) (c.truncate_to_day 0)
    | ok day ↦ repo.find_by_subject_date (trim args.subject) (c.truncate_to_day day)
  ]

  module _ (c : Clockwork) (codec : CursorCodec) (sizes : DocumentSizes L) (snapshot : ℕ) where
    -- What `Call` does with the rows found.
    unfoldable pub answer_lookup :
        List (DocumentLocation L) → Option Bytes → Bytes → Result (DocumentToolResult L)
    unfolding render_all page_of_call
    answer_lookup docs cursor fingerprint =
        elim (render_all (take fetch_document_max_results docs)) [
          | none ↦ err lookup_failed
          | some matches ↦
              page_of_call codec sizes (ltb fetch_document_max_results (length docs)) snapshot
                matches cursor fingerprint
        ]

    -- The cursor is decoded before the query is made.
    abbrev pub check_cursor : Option Bytes → Bytes → Result Bool
    unfolding decode_document_cursor
    check_cursor none fingerprint = ok true
    check_cursor (some value) fingerprint = elim (decode_document_cursor codec value fingerprint) [
      | err e ↦ err e
      | ok cursor ↦ ok true
    ]

    abbrev pub answer_mode :
        FetchDocumentMode → FetchDocumentArguments → Result (DocumentToolResult L)
    answer_mode mode args =
        let fingerprint = document_lookup_fingerprint c mode args in
        elim (check_cursor args.cursor fingerprint) [
          | err e ↦ err e
          | ok checked ↦ elim (find_documents c mode args) [
            | none ↦ err lookup_failed
            | some docs ↦ answer_lookup docs args.cursor fingerprint
          ]
        ]

    unfoldable pub fetch_document : FetchDocumentArguments → Result (DocumentToolResult L)
    unfolding validate_fetch_document_arguments document_lookup_fingerprint find_documents
        answer_lookup decode_document_cursor
    fetch_document args = elim (validate_fetch_document_arguments c args) [
      | err e ↦ err e
      | ok mode ↦ answer_mode mode args
    ]
