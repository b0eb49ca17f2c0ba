-- ===== src/Mcp/Fetch/Examples.antt =====
-- A lookup with two matches, of which a page carries one.
use pocket_advisor.Prelude.{
  Bool-cases, ◌∙◌, ℕ, zero, suc, ◌+◌, ◌-◌, ◌*◌, ◌≤◌, ◌<◌, ◌≡◌, refl, ap, sym, inl, inr, Bool, true,
  false, ltb, not, ◌==◌, length-take, List, [], ◌∷◌, ◌++◌, Option, none, some, arith, Bytes, bytes,
  length, get_elem?, drop, All, bytes_Eq,
}
use pocket_advisor.Prelude.Runes.{rune_size, starts_at, is_pair, is_triple, is_quad}
use pocket_advisor.Mcp.Page.{ok, err, result_size, target_tool_result_bytes}
use pocket_advisor.Mcp.Build.Ends.{valid_utf8}
use pocket_advisor.Mcp.Documents.{
  max_cursor_bytes, document_page, settle_document, set_document_used, accept_document, placeholder,
  with_text, with_attachments, phase_text, AttachmentDocument, FetchedDocument, DocumentMatch,
  DocumentPosition, DocumentSizes, DocumentToolResult, document_fits, finalize_document,
}
use pocket_advisor.Mcp.Fetch.{result_of}
use pocket_advisor.Mcp.Fetch.Cursor.{
  pos, CursorCodec, DocumentCursor, natural, cursor_of, issue_cursor, start_position,
  build_document_page,
}
use pocket_advisor.Mcp.Fetch.Pieces.{whole}
use pocket_advisor.Mcp.Fetch.Turns.{Fits, Resumes}
use pocket_advisor.Mcp.Fetch.Fill.{IsNarrow, IsMatch, FitsAlone, ShorterFits}
use pocket_advisor.Mcp.Fetch.Resume.{CursorsKeep, issue_cursor-start_position}
use pocket_advisor.Mcp.Fetch.Follow.{follow_documents, delivered_pages}
use pocket_advisor.Mcp.Fetch.Whole.{CursorBounded, fetch_delivers}
use pocket_advisor.Mcp.Fetch.Stale.{Leads, start_position-Leads}
use pocket_advisor.Mcp.Fetch.ShortTail.{build_document_page_short}

abbrev header_named : ℕ → FetchedDocument ℕ
header_named id = record {
  doc_id = id ∷ [];
  parent_doc_id = [];
  doc_type = bytes "text";
  mime_type = bytes "text/plain";
  source_filename = bytes "a.txt";
  subject = [];
  from = [];
  to = [];
  to_omitted = 0;
  cc = [];
  cc_omitted = 0;
  date = none;
  source_locations = [];
  source_ref = [];
  source_path = bytes "a.txt";
  container_source_path = [];
  text = [];
  text_range = none;
  text_length = 3;
  text_complete = false;
  attachments = [];
  attachments_offset = 0;
  attachment_count = 1;
}

abbrev child : AttachmentDocument ℕ
child = record {
  doc_id = 3 ∷ [];
  doc_type = bytes "pdf";
  mime_type = bytes "application/pdf";
  source_filename = bytes "b.pdf";
  source_locations = [];
  source_ref = [];
  source_path = [];
  container_source_path = bytes "a.txt";
}

-- A letter of two bytes and one of one.
abbrev body : Bytes
body = 195 ∷ 169 ∷ 97 ∷ []

abbrev first_match : DocumentMatch ℕ
first_match = record { header = header_named 1; text = body; attachments = child ∷ [] }

abbrev second_match : DocumentMatch ℕ
second_match = record { header = header_named 2; text = body; attachments = [] }

abbrev found_matches : List (DocumentMatch ℕ)
found_matches = first_match ∷ second_match ∷ []

abbrev mark_size : Bool → ℕ
mark_size true = 0
mark_size false = 34

-- Most of a document's size is its header, so that a page with two documents is too large.
abbrev weight_of : FetchedDocument ℕ → ℕ
weight_of d = 24_600 + length d.text + mark_size d.text_complete + 300 * length d.attachments

unfoldable weights : List (FetchedDocument ℕ) → ℕ
weights [] = 0
weights (d ∷ ds) = weight_of d + weights ds

abbrev cursor_size : Option Bytes → ℕ
cursor_size none = 4
cursor_size (some c) = 4 + length c

abbrev sizes : DocumentSizes ℕ
sizes = record {
  encoded =
      λ rendered page. some (100 + (weights page.result.documents + cursor_size page.next_cursor));
  lines = λ page. 1;
}

abbrev decode_four : Bytes → Option DocumentCursor
decode_four (offset ∷ phase ∷ hash ∷ id ∷ []) = some (record {
  version = pos 1;
  fingerprint = 9 ∷ [];
  doc_id = id ∷ [];
  text_hash = hash ∷ [];
  phase = phase ∷ [];
  offset = pos offset;
})
decode_four s = none

abbrev codec : CursorCodec
codec = record {
  encode = λ c. some (natural c.offset ∷ c.phase ++ (c.text_hash ++ c.doc_id));
  decode = decode_four;
  text_hash = λ t. length t ∷ [];
}

body_tails : IsNarrow body
unfolding rune_size is_pair is_triple is_quad starts_at
body_tails zero h e = omega arith
body_tails (suc zero) h e = absurd cc
body_tails (suc (suc zero)) h e = omega arith
body_tails (suc (suc (suc n))) h e = absurd (omega (arith, h))

body_valid : valid_utf8 body ≡ true
unfolding valid_utf8 is_pair is_triple is_quad
body_valid = refl

well : All IsMatch found_matches
well =
    ((refl, refl, refl, body_valid, body_tails), ((refl, refl, refl, body_valid, body_tails), tt))

abbrev weight_with : List (FetchedDocument ℕ) → Option Bytes → ℕ
weight_with documents cursor = 100 + (weights documents + cursor_size cursor)

weighed :
    (documents : List (FetchedDocument ℕ)) (cursor : Option Bytes)
    → document_fits sizes (result_of sizes false 0 documents) cursor
      ≡ not (ltb target_tool_result_bytes (weight_with documents cursor))
unfolding document_fits finalize_document document_page settle_document set_document_used
    accept_document
weighed documents cursor =
    let total = weight_with documents cursor in
    let unset : (0 == total) ≡ false = ground arith in
    let set : (total == total) ≡ true = ground arith in
    elim (Bool-cases (ltb target_tool_result_bytes total)) [
      | inl large ↦
          rw (document_fits, finalize_document, settle_document, accept_document, unset, set, large)
            refl
      | inr small ↦
          rw (document_fits, finalize_document, settle_document, accept_document, unset, set, small)
            refl
    ]

light :
    (documents : List (FetchedDocument ℕ)) (cursor : Option Bytes)
    → weight_with documents cursor ≤ target_tool_result_bytes
    → document_fits sizes (result_of sizes false 0 documents) cursor ≡ true
light documents cursor h =
    let small : ltb target_tool_result_bytes (weight_with documents cursor) ≡ false =
      ground arith in
    weighed documents cursor ∙ ap not small

weight_le :
    (documents : List (FetchedDocument ℕ)) (cursor : Option Bytes)
    → document_fits sizes (result_of sizes false 0 documents) cursor ≡ true
    → weight_with documents cursor ≤ target_tool_result_bytes
weight_le documents cursor f = let e = weighed documents cursor in ground arith

mark_size_le : (b : Bool) → mark_size b ≤ 34
mark_size_le true = omega arith
mark_size_le false = omega arith

placeholder_size : cursor_size (some placeholder) ≡ 4 + max_cursor_bytes
unfolding placeholder
placeholder_size = refl

fits_alone :
    (m : DocumentMatch ℕ)
    → m.header.text ≡ []
    → m.header.attachments ≡ []
    → FitsAlone sizes false 0 m
unfolding with_text with_attachments weights
fits_alone m no_text no_items = (
  λ offset stop h k l. light _ _ (
      omega (
        arith,
        placeholder_size,
        mark_size_le (stop == length m.text),
        ap (length {A = AttachmentDocument ℕ}) no_items,
        length-take (stop - offset) (drop offset m.text),
      )),
  λ offset n h k. light _ _ (
      omega (
        arith,
        placeholder_size,
        ap (length {A = ℕ}) no_text,
        length-take n (drop offset m.attachments),
      )),
)

empty_page : Fits sizes false 0 []
unfolding weights
empty_page = light [] (some placeholder) (omega (arith, placeholder_size))

weights-append : (ds es : List (FetchedDocument ℕ)) → weights (ds ++ es) ≡ weights ds + weights es
unfolding weights
weights-append [] es = omega arith
weights-append (d ∷ ds) es = omega (arith, weights-append ds es)

-- A part that does not end the text carries the same mark as a longer one that does not.
shorter : ShorterFits sizes false 0
unfolding with_text weights
shorter documents entry text offset stop best h k l starts f =
    let part : (stop == length text) ≡ false = ground arith in
    let part' : (best == length text) ≡ false = ground arith in
    let large =
      weight_le (documents ++ with_text entry text offset best ∷ []) (some placeholder) f in
    light _ _ (
      omega (
        arith,
        large,
        weights-append documents (with_text entry text offset best ∷ []),
        weights-append documents (with_text entry text offset stop ∷ []),
        ap mark_size part,
        ap mark_size part',
        length-take (stop - offset) (drop offset text),
        length-take (best - offset) (drop offset text),
      ))

any_cursor :
    (documents : List (FetchedDocument ℕ)) (cursor : Option Bytes)
    → CursorBounded codec cursor
    → Fits sizes false 0 documents
    → document_fits sizes (result_of sizes false 0 documents) cursor ≡ true
any_cursor documents none b f =
    light _ _ (omega (arith, placeholder_size, weight_le documents (some placeholder) f))
any_cursor documents (some c) b f =
    light _ _ (omega (arith, placeholder_size, b.0, weight_le documents (some placeholder) f))

abbrev CursorKept : DocumentPosition → DocumentMatch ℕ → Type 0
CursorKept p m =
    (encoded : Bytes) × (codec.encode (cursor_of codec m p (9 ∷ [])) ≡ some encoded)
    × (length encoded ≤ max_cursor_bytes)
    × (codec.decode encoded ≡ some (cursor_of codec m p (9 ∷ [])))

written_back :
    (m : DocumentMatch ℕ) (id phase : ℕ) (p : DocumentPosition)
    → m.header.doc_id ≡ id ∷ []
    → p.phase ≡ phase ∷ []
    → CursorKept p m
written_back m id phase p named here = (
  p.offset ∷ phase ∷ length m.text ∷ id ∷ [],
  rw (here, named) refl,
  omega arith,
  rw (here, named) refl,
)

kept :
    (m : DocumentMatch ℕ) (id : ℕ) (p : DocumentPosition)
    → m.header.doc_id ≡ id ∷ []
    → Resumes m p
    → CursorKept p m
kept m id p named (inl (here, inside, begins)) = written_back m id b't' p named here
kept m id p named (inr (here, inside)) = written_back m id b'a' p named here

keeps_at :
    (i : ℕ) (m : DocumentMatch ℕ) (p : DocumentPosition)
    → get_elem? found_matches i ≡ some m
    → Resumes m p
    → CursorKept p m
keeps_at zero m p e r =
    let same : first_match ≡ m = cc in kept m 1 p (ap (λ n. n.header.doc_id) (sym same)) r
keeps_at (suc zero) m p e r =
    let same : second_match ≡ m = cc in kept m 2 p (ap (λ n. n.header.doc_id) (sym same)) r
keeps_at (suc (suc i)) m p e r = absurd cc

keeps : CursorsKeep codec (9 ∷ []) found_matches
keeps m p e r = keeps_at p.index m p e r

pieces_count : length (whole found_matches) + length found_matches < 10
unfolding whole
pieces_count = omega arith

fetch_delivers_example :
    (pages : List (DocumentToolResult ℕ)) × (follow_documents codec sizes false 0 found_matches
        (9 ∷ [])
        10
        none
      ≡ ok pages)
    × (delivered_pages pages ≡ whole found_matches)
fetch_delivers_example =
    fetch_delivers codec sizes false 0 found_matches (9 ∷ []) well (refl, (refl, tt))
      (refl, (refl, tt)) keeps
      (fits_alone first_match refl refl, (fits_alone second_match refl refl, tt)) shorter empty_page
      any_cursor 10 pieces_count

abbrev second_start : DocumentPosition
second_start = record { index = 1; phase = phase_text; offset = 2 }

stands : Resumes second_match second_start
unfolding starts_at
stands = inl (refl, omega arith, refl)

issue_cursor-start_position_example :
    (encoded : Bytes) × (issue_cursor codec found_matches (some second_start) (9 ∷ [])
      ≡ ok (some encoded))
    × (length encoded ≤ max_cursor_bytes)
    × (start_position codec found_matches (some encoded) (9 ∷ []) ≡ ok second_start)
issue_cursor-start_position_example =
    issue_cursor-start_position codec (9 ∷ []) found_matches second_match second_start keeps
      (refl, (refl, tt)) refl refl stands

-- A text of one letter of two bytes.
abbrev letter : DocumentMatch ℕ
letter = record { header = header_named 1; text = 195 ∷ 169 ∷ []; attachments = [] }

letter_starts : starts_at letter.text 0 ≡ true
unfolding starts_at
letter_starts = refl

letter_short : suc (length letter.text - 0) < 2 * rune_size (drop 0 letter.text)
unfolding rune_size is_pair
letter_short = omega arith

build_document_page_short_example :
    build_document_page codec sizes false 0
      (letter ∷ [])
      (record { index = 0; phase = phase_text; offset = 0 })
      (9 ∷ [])
    ≡ err (result_size target_tool_result_bytes)
build_document_page_short_example =
    build_document_page_short codec sizes false 0 (letter ∷ []) letter 0 0 (9 ∷ []) refl
      (omega arith) letter_starts letter_short

abbrev second_cursor : Bytes
second_cursor = 2 ∷ b't' ∷ 3 ∷ 2 ∷ []

second_resumes : start_position codec found_matches (some second_cursor) (9 ∷ []) ≡ ok second_start
unfolding start_position starts_at
second_resumes = refl

start_position-Leads_example :
    (c : DocumentCursor) × (codec.decode second_cursor ≡ some c)
    × (c.fingerprint ≡ 9 ∷ [])
    × Leads codec c 0 found_matches second_start
start_position-Leads_example =
    start_position-Leads codec found_matches second_cursor (9 ∷ []) second_start second_resumes
