-- ===== src/Mcp/Fetch/Follow.antt =====
-- internal/mcp/document.go: what a client has that follows the cursors of a lookup to the end.
use pocket_advisor.Prelude.{
  ℕ, zero, suc, ◌≡◌, refl, ap, sym, ◌∙◌, inl, inr, Bool, true, false, List, [], ◌∷◌, ◌++◌, Option,
  none, some, Bytes, ltb, ◌==◌, Bool-cases, Option-cases, bytes_Eq,
}
use pocket_advisor.Mcp.Page.{
  Result, ok, err, cancelled, encode_failed, result_size, result_lines, target_tool_result_bytes,
  target_readable_lines,
}
use pocket_advisor.Mcp.Store.Invariant.{Result-cases}
use pocket_advisor.Mcp.Documents.{
  DocumentMatch, DocumentSizes, DocumentFetchResult, DocumentResult, DocumentToolResult,
  settle_document, accept_document, finalize_document, document_fits, document_page,
  set_document_used,
}
use pocket_advisor.Mcp.Fetch.Cursor.{CursorCodec, page_of_call}
use pocket_advisor.Mcp.Fetch.Pieces.{Piece, delivered}

module _ {L : Type 0} (sizes : DocumentSizes L) where
  -- The pages keep what they were made for.
  abbrev pub Keeps : DocumentFetchResult L → Option Bytes → DocumentResult L → Type 0
  Keeps value cursor page = (page.result ≡ value) × (page.next_cursor ≡ cursor)

  settle_document-Keeps :
      (value : DocumentFetchResult L) (cursor : Option Bytes) (n : ℕ)
      (rendered page : DocumentResult L) (r : DocumentToolResult L)
      → Keeps value cursor page
      → settle_document sizes n rendered page ≡ ok r
      → Keeps value cursor r.page
  unfolding settle_document set_document_used
  settle_document-Keeps value cursor zero rendered page r (k, l) e =
      let same : record { rendered = rendered; page = page } ≡ r = cc in
      (ap (λ t. t.page.result) (sym same) ∙ k, ap (λ t. t.page.next_cursor) (sym same) ∙ l)
  settle_document-Keeps value cursor (suc n) rendered page r (k, l) e =
      elim (Option-cases (sizes.encoded page page)) [
        | inl unwritten ↦
            let step : settle_document sizes (suc n) rendered page ≡ err encode_failed =
              rw (settle_document, unwritten) refl in
            absurd (let bad : err encode_failed ≡ ok r = sym step ∙ e in cc)
        | inr (used, written) ↦ elim (Bool-cases (page.response_budget.used == used)) [
          | inl same_size ↦
              let step : settle_document sizes (suc n) rendered page
                  ≡ ok (record { rendered = page; page = page }) =
                rw (settle_document, written, same_size) refl in
              let same : record { rendered = page; page = page } ≡ r = cc in
              (ap (λ t. t.page.result) (sym same) ∙ k, ap (λ t. t.page.next_cursor) (sym same) ∙ l)
          | inr other ↦
              let step : settle_document sizes (suc n) rendered page
                  ≡ settle_document sizes n page (set_document_used used page) =
                rw (settle_document, written, other) refl in
              settle_document-Keeps value cursor n page (set_document_used used page) r (k, l)
                (sym step ∙ e)
        ]
      ]

  accepted :
      (x : Result (DocumentToolResult L)) (r : DocumentToolResult L)
      → accept_document sizes x ≡ ok r
      → x ≡ ok r
  unfolding accept_document
  accepted (err e) r h = h
  accepted (ok t) r h = elim (Option-cases (sizes.encoded t.rendered t.page)) [
    | inl unwritten ↦
        let step : accept_document sizes (ok t) ≡ err encode_failed =
          rw (accept_document, unwritten) refl in
        absurd (let bad : err encode_failed ≡ ok r = sym step ∙ h in cc)
    | inr (n, written) ↦ elim (Bool-cases (ltb target_tool_result_bytes n)) [
      | inl large ↦
          let step : accept_document sizes (ok t) ≡ err (result_size target_tool_result_bytes) =
            rw (accept_document, written, large) refl in
          absurd (let bad : err (result_size target_tool_result_bytes) ≡ ok r = sym step ∙ h in cc)
      | inr small ↦ elim (Bool-cases (ltb target_readable_lines (sizes.lines t.rendered))) [
        | inl long ↦
            let step : accept_document sizes (ok t) ≡ err (result_lines target_readable_lines) =
              rw (accept_document, written, small, long) refl in
            absurd (let bad : err (result_lines target_readable_lines) ≡ ok r = sym step ∙ h in cc)
        | inr short ↦
            let step : accept_document sizes (ok t) ≡ ok t =
              rw (accept_document, written, small, short) refl in
            sym step ∙ h
      ]
    ]
  ]

  pub finalized :
      (value : DocumentFetchResult L) (cursor : Option Bytes)
      → document_fits sizes value cursor ≡ true
      → (r : DocumentToolResult L) × (finalize_document sizes value cursor ≡ ok r)
        × Keeps value cursor r.page
  unfolding document_fits finalize_document document_page
  finalized value cursor f = elim (Result-cases (finalize_document sizes value cursor)) [
    | inl (e, failed) ↦
        let none_fits : document_fits sizes value cursor ≡ false =
          rw (document_fits, failed) refl in
        absurd cc
    | inr (r, done) ↦
        let page = document_page value cursor in
        let settled = accepted (settle_document sizes 4 page page) r done in
        (r, done, settle_document-Keeps value cursor 4 page page r (refl, refl) settled)
  ]

-- A page, and those behind the cursor that it names.
unfoldable pub continued :
    {L : Type 0}
    → DocumentToolResult L
    → (Bytes → Result (List (DocumentToolResult L)))
    → Option Bytes
    → Result (List (DocumentToolResult L))
continued r behind none = ok (r ∷ [])
continued r behind (some c) = elim (behind c) [ err e ↦ err e | ok rs ↦ ok (r ∷ rs) ]

-- The pages from a cursor, or none, on, each named by the one before.
unfoldable pub follow_documents :
    {L : Type 0}
    → CursorCodec
    → DocumentSizes L
    → Bool
    → ℕ
    → List (DocumentMatch L)
    → Bytes
    → ℕ
    → Option Bytes
    → Result (List (DocumentToolResult L))
unfolding page_of_call continued
follow_documents codec sizes more snapshot matches fingerprint zero cursor = err cancelled
follow_documents codec sizes more snapshot matches fingerprint (suc fuel) cursor =
    elim (page_of_call codec sizes more snapshot matches cursor fingerprint) [
      | err e ↦ err e
      | ok r ↦
          continued r
            (λ c. follow_documents codec sizes more snapshot matches fingerprint fuel (some c))
            r.page.next_cursor
    ]

unfoldable pub delivered_pages : {L : Type 0} → List (DocumentToolResult L) → List (Piece L)
unfolding delivered
delivered_pages [] = []
delivered_pages (r ∷ rs) = delivered r.page.result.documents ++ delivered_pages rs
