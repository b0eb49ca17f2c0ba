-- ===== src/Mcp/Fetch/Cursor.antt =====
-- internal/mcp/document.go: the cursor that names where the next page begins, and the page that it leads
-- to. The JSON and base64 of a cursor and the hash of a text are arguments.
use pocket_advisor.Prelude.{
  ℕ, suc, Bool, true, false, not, ◌&&◌, ◌||◌, List, [], ◌∷◌, Option, none, some, Bytes, bytes_eq,
  ltb, leb, ◌==◌, if◌then◌else◌, length, drop, get_elem?,
}
use pocket_advisor.Prelude.Runes.{starts_at}
use pocket_advisor.Mcp.Page.{
  Result, ok, err, encode_failed, cursor_invalid, cursor_stale, cursor_too_long, item_out_of_range,
}
use pocket_advisor.Mcp.Documents.{
  max_cursor_bytes, phase_text, phase_attachments, DocumentMatch, DocumentPosition, DocumentSizes,
  DocumentToolResult, finalize_document,
}
use pocket_advisor.Mcp.Fetch.{fill_documents, result_of}

abbrev pub document_cursor_version : ℕ
document_cursor_version = 1

-- Go's `int`.
pub data ℤ : Type 0 where
  pos negsuc : ℕ → ℤ

abbrev pub is_negative : ℤ → Bool
is_negative (pos n) = false
is_negative (negsuc n) = true

abbrev pub is_number : ℕ → ℤ → Bool
is_number n (pos m) = m == n
is_number n (negsuc m) = false

-- The offset of a cursor that was decoded, which is not negative.
abbrev pub natural : ℤ → ℕ
natural (pos n) = n
natural (negsuc n) = 0

pub record DocumentCursor : Type 0 where
  pub version : ℤ
  pub fingerprint : Bytes
  pub doc_id : Bytes
  pub text_hash : Bytes
  pub phase : Bytes
  pub offset : ℤ

-- `json.Marshal` and base64, both ways, and the part of a SHA-256 that a cursor names a text by.
pub record CursorCodec : Type 0 where
  pub encode : DocumentCursor → Option Bytes
  pub decode : Bytes → Option DocumentCursor
  pub text_hash : Bytes → Bytes

abbrev pub is_empty : Bytes → Bool
is_empty [] = true
is_empty (b ∷ s) = false

abbrev pub cursor_refused : DocumentCursor → Bytes → Bool
cursor_refused c fingerprint =
    not (is_number document_cursor_version c.version)
    || not (bytes_eq c.fingerprint fingerprint)
    || is_empty c.doc_id
    || is_negative c.offset
    || (not (bytes_eq c.phase phase_text) && not (bytes_eq c.phase phase_attachments))

module _ (codec : CursorCodec) where
  unfoldable pub decode_document_cursor : Bytes → Bytes → Result DocumentCursor
  decode_document_cursor value fingerprint = elim (codec.decode value) [
    | none ↦ err cursor_invalid
    | some c ↦ if cursor_refused c fingerprint then err cursor_invalid else ok c
  ]

abbrev bound_cursor : Option Bytes → Result Bytes
bound_cursor none = err encode_failed
bound_cursor (some encoded) =
    if ltb max_cursor_bytes (length encoded) then err cursor_too_long else ok encoded

module _ {L : Type 0} (codec : CursorCodec) where
  abbrev pub cursor_of : DocumentMatch L → DocumentPosition → Bytes → DocumentCursor
  cursor_of match position fingerprint = record {
    version = pos document_cursor_version;
    fingerprint = fingerprint;
    doc_id = match.header.doc_id;
    text_hash = codec.text_hash match.text;
    phase = position.phase;
    offset = pos position.offset;
  }

  unfoldable pub encode_document_cursor :
      List (DocumentMatch L) → DocumentPosition → Bytes → Result Bytes
  encode_document_cursor matches position fingerprint = elim (get_elem? matches position.index) [
    | none ↦ err item_out_of_range
    | some match ↦ bound_cursor (codec.encode (cursor_of match position fingerprint))
  ]

  -- Where `position` finds the text changed, or the place not in it any more.
  abbrev pub is_stale : DocumentCursor → DocumentMatch L → Bool
  is_stale c match =
      not (bytes_eq (codec.text_hash match.text) c.text_hash)
      || (bytes_eq c.phase phase_text
          && (leb (length match.text) (natural c.offset)
              || not (starts_at match.text (natural c.offset))))
      || (bytes_eq c.phase phase_attachments && ltb (length match.attachments) (natural c.offset))

  -- `position`, over the matches from the index on.
  unfoldable pub resolve_cursor :
      DocumentCursor → ℕ → List (DocumentMatch L) → Result DocumentPosition
  resolve_cursor c index [] = err cursor_stale
  resolve_cursor c index (match ∷ matches) =
      let rest = resolve_cursor c (suc index) matches in
      if not (bytes_eq match.header.doc_id c.doc_id)
      then rest
      else if is_stale c match
      then err cursor_stale
      else ok (record { index = index; phase = c.phase; offset = natural c.offset })

  -- The position that a call starts at.
  unfoldable pub start_position :
      List (DocumentMatch L) → Option Bytes → Bytes → Result DocumentPosition
  unfolding decode_document_cursor resolve_cursor
  start_position matches none fingerprint =
      ok (record { index = 0; phase = phase_text; offset = 0 })
  start_position matches (some value) fingerprint =
      elim (decode_document_cursor codec value fingerprint) [
        | err e ↦ err e
        | ok c ↦ resolve_cursor c 0 matches
      ]

  unfoldable pub issue_cursor :
      List (DocumentMatch L) → Option DocumentPosition → Bytes → Result (Option Bytes)
  unfolding encode_document_cursor
  issue_cursor matches none fingerprint = ok none
  issue_cursor matches (some next) fingerprint =
      elim (encode_document_cursor matches next fingerprint) [
        | err e ↦ err e
        | ok encoded ↦ ok (some encoded)
      ]

  module _ (sizes : DocumentSizes L) (more : Bool) (snapshot : ℕ) where
    unfoldable pub build_document_page :
        List (DocumentMatch L)
        → DocumentPosition
        → Bytes
        → Result (DocumentToolResult L × Option DocumentPosition)
    unfolding fill_documents issue_cursor finalize_document
    build_document_page matches start fingerprint =
        elim (fill_documents sizes more snapshot [] start.index start.phase start.offset
          (drop start.index matches)) [
            | err e ↦ err e
            | ok (documents, next) ↦ elim (issue_cursor matches next fingerprint) [
              | err e ↦ err e
              | ok cursor ↦
                  elim (finalize_document sizes (result_of sizes more snapshot documents) cursor) [
                    | err e ↦ err e
                    | ok page ↦ ok (page, next)
                  ]
            ]
          ]

    -- The end of `Call`: the page that a cursor, or none, leads to.
    unfoldable pub page_of_call :
        List (DocumentMatch L) → Option Bytes → Bytes → Result (DocumentToolResult L)
    unfolding start_position build_document_page
    page_of_call matches cursor fingerprint = elim (start_position matches cursor fingerprint) [
      | err e ↦ err e
      | ok start ↦ elim (build_document_page matches start fingerprint) [
        | err e ↦ err e
        | ok (page, next) ↦ ok page
      ]
    ]
