-- ===== src/Mcp/Build/Sends.antt =====
-- internal/mcp/snapshot.go: a page that fits is sent with its packets and its segments.
use pocket_advisor.Prelude.{
  ℕ, zero, suc, ◌≡◌, refl, ap, sym, ◌∙◌, inl, inr, Bool, true, false, leb, ◌+◌, ◌-◌, ◌/◌, ◌⊎◌,
  Option, none, some, Bytes, ltb, Bool-cases, Option-cases, ◌==◌,
}
use pocket_advisor.Mcp.Page.{
  EvidencePage, CursorPosition, Result, ok, err, encode_failed, result_size, result_lines,
  invalid_page, target_tool_result_bytes, target_readable_lines, Delivery, ToolResult, set_used,
  settle_budget, accept_result, finalize_page, page_fits, apply_continuation,
  set_placeholder_continuation,
}
use pocket_advisor.Mcp.Build.{send_page, completed_by, is_more, search_end}
use pocket_advisor.Mcp.Store.Invariant.{Result-cases}

-- The best end of a search that found one fits.
pub search_end_fits :
    (fits : ℕ → Bool) (end_at : ℕ → ℕ) (fuel low high best : ℕ)
    → (best ≡ 0) ⊎ (fits best ≡ true)
    → (search_end fits end_at fuel low high best ≡ 0)
      ⊎ (fits (search_end fits end_at fuel low high best) ≡ true)
unfolding search_end
search_end_fits fits end_at zero low high best now = now
search_end_fits fits end_at (suc fuel) low high best now =
    let middle = low + (high - low) / 2 in
    elim (Bool-cases (leb low high)) [
      | inr over ↦ rw (search_end, over) now
      | inl more ↦ elim (Bool-cases (fits (end_at middle))) [
        | inl fit ↦
            rw (search_end, more, fit)
              (search_end_fits fits end_at fuel (suc middle) high (end_at middle) (inr fit))
        | inr unfit ↦
            rw (search_end, more, unfit)
              (search_end_fits fits end_at fuel low (middle - 1) best now)
      ]
    ]

module _ {D M : Type 0} (d : Delivery D M) where
  -- The same packets and segments.
  abbrev pub Keeps : EvidencePage D M → EvidencePage D M → Type 0
  Keeps page after = (after.segments ≡ page.segments) × (after.packets ≡ page.packets)

  settle_budget-Keeps :
      (first : EvidencePage D M) (n : ℕ) (rendered page : EvidencePage D M) (r : ToolResult D M)
      → Keeps first page
      → settle_budget d n rendered page ≡ ok r
      → Keeps first r.page
  unfolding settle_budget set_used
  settle_budget-Keeps first zero rendered page r (k, l) e =
      let same : record { rendered = rendered; page = page } ≡ r = cc in
      (ap (λ t. t.page.segments) (sym same) ∙ k, ap (λ t. t.page.packets) (sym same) ∙ l)
  settle_budget-Keeps first (suc n) rendered page r (k, l) e =
      elim (Option-cases (d.encoded page page)) [
        | inl unwritten ↦
            let step : settle_budget d (suc n) rendered page ≡ err encode_failed =
              rw (settle_budget, unwritten) refl in
            absurd (let bad : err encode_failed ≡ ok r = sym step ∙ e in cc)
        | inr (used, written) ↦ elim (Bool-cases (used == page.response_budget.used)) [
          | inl same_size ↦
              let step : settle_budget d (suc n) rendered page
                  ≡ ok (record { rendered = page; page = page }) =
                rw (settle_budget, written, same_size) refl in
              let same : record { rendered = page; page = page } ≡ r = cc in
              (ap (λ t. t.page.segments) (sym same) ∙ k, ap (λ t. t.page.packets) (sym same) ∙ l)
          | inr other ↦
              let step : settle_budget d (suc n) rendered page
                  ≡ settle_budget d n page (set_used d used page) =
                rw (settle_budget, written, other) refl in
              settle_budget-Keeps first n page (set_used d used page) r (k, l) (sym step ∙ e)
        ]
      ]

  accepted :
      (x : Result (ToolResult D M)) (r : ToolResult D M) → accept_result d x ≡ ok r → x ≡ ok r
  unfolding accept_result
  accepted (err e) r h = h
  accepted (ok t) r h = elim (Option-cases (d.encoded t.rendered t.page)) [
    | inl unwritten ↦
        let step : accept_result d (ok t) ≡ err encode_failed =
          rw (accept_result, unwritten) refl in
        absurd (let bad : err encode_failed ≡ ok r = sym step ∙ h in cc)
    | inr (n, written) ↦ elim (Bool-cases (ltb target_tool_result_bytes n)) [
      | inl large ↦
          let step : accept_result d (ok t) ≡ err (result_size target_tool_result_bytes) =
            rw (accept_result, written, large) refl in
          absurd (let bad : err (result_size target_tool_result_bytes) ≡ ok r = sym step ∙ h in cc)
      | inr small ↦ elim (Bool-cases (ltb target_readable_lines (d.lines t.rendered))) [
        | inl long ↦
            let step : accept_result d (ok t) ≡ err (result_lines target_readable_lines) =
              rw (accept_result, written, small, long) refl in
            absurd (let bad : err (result_lines target_readable_lines) ≡ ok r = sym step ∙ h in cc)
        | inr short ↦ elim (Bool-cases (d.is_valid t.page)) [
          | inl valid ↦
              let step : accept_result d (ok t) ≡ ok t =
                rw (accept_result, written, small, short, valid) refl in
              sym step ∙ h
          | inr invalid ↦
              let step : accept_result d (ok t) ≡ err invalid_page =
                rw (accept_result, written, small, short, invalid) refl in
              absurd (let bad : err invalid_page ≡ ok r = sym step ∙ h in cc)
        ]
      ]
    ]
  ]

  finalized :
      (page : EvidencePage D M)
      → page_fits d page ≡ true
      → (r : ToolResult D M) × (finalize_page d page ≡ ok r) × Keeps page r.page
  unfolding page_fits finalize_page set_used
  finalized page f = elim (Result-cases (finalize_page d page)) [
    | inl (e, failed) ↦
        let none_fits : page_fits d page ≡ false = rw (page_fits, failed) refl in absurd cc
    | inr (r, done) ↦
        let full = set_used d target_tool_result_bytes page in
        let settled = accepted (settle_budget d 4 full full) r done in
        (r, done, settle_budget-Keeps page 4 full full r (refl, refl) settled)
  ]

  -- A page is sent, and carries what it was made with.
  abbrev pub Sends : (CursorPosition → Bytes) → EvidencePage D M → Option CursorPosition → Type 0
  Sends token page next =
      (r : ToolResult D M) × (send_page d token page next ≡ ok r) × Keeps page r.page

  -- A page that fits with the placeholder fits with the cursor that is issued.
  abbrev pub TokensFit : (CursorPosition → Bytes) → Type 0
  TokensFit token =
      (page : EvidencePage D M) (p : CursorPosition)
      → page_fits d (set_placeholder_continuation d.tool_name true page) ≡ true
      → page_fits d (apply_continuation d.tool_name (token p) page) ≡ true

  -- A page that has no continuation yet.
  abbrev pub Plain : EvidencePage D M → Type 0
  Plain page = completed_by none page ≡ set_placeholder_continuation d.tool_name false page

  pub fits-Sends :
      (token : CursorPosition → Bytes) (page : EvidencePage D M) (next : Option CursorPosition)
      → TokensFit token
      → Plain page
      → page_fits d (set_placeholder_continuation d.tool_name (is_more next) page) ≡ true
      → Sends token (completed_by next page) next
  unfolding send_page completed_by apply_continuation
  fits-Sends token page none tokens plain f =
      finalized (completed_by none page) (ap (page_fits d) plain ∙ f)
  fits-Sends token page (some p) tokens plain f =
      finalized (apply_continuation d.tool_name (token p) page) (tokens page p f)
