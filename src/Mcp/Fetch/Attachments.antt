-- ===== src/Mcp/Fetch/Attachments.antt =====
-- internal/mcp/document.go: how `buildDocumentPage` takes the attachments of one match.
use pocket_advisor.Prelude.{
  ℕ, suc, ◌-◌, ◌≤◌, ◌<◌, ◌≡◌, refl, sym, subst, ◌⊎◌, inl, inr, Bool, true, false, ◌||◌, List, [],
  ◌++◌, Option, none, some, arith, ltb, ◌==◌, Bool-cases, Option-cases, length, drop,
}
use pocket_advisor.Mcp.Documents.{
  FetchedDocument, DocumentMatch, DocumentSizes, DocumentPosition, phase_attachments,
  largest_fitting, with_attachments,
}
use pocket_advisor.Mcp.Fetch.{entry_fits, settled_count, counted_turn, attachments_turn, halted}
use pocket_advisor.Mcp.Fetch.Search.{AtLeast, Within, largest_fitting-Within, largest_fitting_least}
use pocket_advisor.Mcp.Fetch.Pieces.{Piece, pieces_of, delivered, left_from, whole}
use pocket_advisor.Mcp.Fetch.Turns.{
  Fits, Good, some_document, halted-Good, behind_text, stopped_eq, advanced_eq, grown_by,
  delivered_more,
}

module _ {L : Type 0} (sizes : DocumentSizes L) (more : Bool) (snapshot : ℕ)
    (documents : List (FetchedDocument L)) (m : DocumentMatch L) (ms : List (DocumentMatch L))
    (index : ℕ) (entry : FetchedDocument L) (offset : ℕ) (same_id : entry.doc_id ≡ m.header.doc_id)
    (inside : offset ≤ length m.attachments) where
  abbrev page_with : ℕ → List (FetchedDocument L)
  page_with n = grown_by sizes more snapshot documents m ms index entry offset same_id inside n

  abbrev pub behind : List (Piece L)
  behind = behind_text sizes more snapshot documents m ms index entry offset same_id inside

  -- The page takes `count` attachments, all that are left or not none.
  counted-Good :
      (count : ℕ) (progressed : Bool)
      → count ≤ length m.attachments - offset
      → Fits sizes more snapshot (page_with count)
      → ((progressed ≡ true) × (0 < length entry.text))
        ⊎ ((count ≡ length m.attachments - offset) ⊎ (0 < count))
      → Good sizes more snapshot behind documents m ms index (
          counted_turn sizes more snapshot documents entry m.attachments index offset progressed
            (some count))
  unfolding counted_turn
  counted-Good count progressed h f moves =
      elim (Bool-cases (count == length m.attachments - offset)) [
        | inl all_of ↦
            rw (counted_turn, all_of)
              (
                advanced_eq sizes more snapshot documents m ms index entry offset same_id inside
                    count (ground arith),
                f,
                some_document documents (with_attachments entry m.attachments offset count),
              )
        | inr fewer ↦
            let size =
              delivered_more sizes more snapshot documents m ms index entry offset same_id inside
                count h in
            let positive : 0 < length (delivered (page_with count)) = elim moves [
              | inl (p, some_text) ↦ omega (arith, size, some_text)
              | inr (inl all_of) ↦ absurd (ground arith)
              | inr (inr some_of) ↦ omega (arith, size, some_of)
            ] in
            let more_of : (ltb 0 count || progressed) ≡ true = ground arith in
            rw (counted_turn, fewer, more_of)
              (
                stopped_eq sizes more snapshot documents m ms index entry offset same_id inside
                    count,
                f,
                refl,
                inr (refl, omega (arith, h)),
                inr positive,
              )
      ]

  abbrev count_fits : ℕ → Bool
  count_fits n =
      entry_fits sizes more snapshot documents (with_attachments entry m.attachments offset n)

  abbrev counts : Option ℕ
  counts = largest_fitting 0 (suc (length m.attachments) - offset) count_fits

  count_found :
      (n : ℕ)
      → counts ≡ some n
      → Fits sizes more snapshot (page_with n) × (n ≤ length m.attachments - offset)
  unfolding entry_fits
  count_found n found =
      let (fit, low, high) =
        subst (Within count_fits 0 (suc (length m.attachments) - offset)) found
          (largest_fitting-Within count_fits 0 (suc (length m.attachments) - offset)) in
      (fit, omega (arith, high))

  -- Behind a text that the page has.
  pub progressed-Good :
      0 < length entry.text
      → Fits sizes more snapshot (page_with 0)
      → Good sizes more snapshot behind documents m ms index
          (attachments_turn sizes more snapshot documents entry m.attachments index offset true)
  unfolding attachments_turn settled_count
  progressed-Good some_text f = elim (Option-cases counts) [
    | inl nothing ↦
        rw (attachments_turn, nothing) (counted-Good 0 true (omega arith) f (inl (refl, some_text)))
    | inr (n, found) ↦
        let (fit, fewer) = count_found n found in
        rw (attachments_turn, found) (counted-Good n true fewer fit (inl (refl, some_text)))
  ]

  abbrev position_here : DocumentPosition
  position_here = record { index = index; phase = phase_attachments; offset = offset }

  -- A page with a document that takes no attachment ends before the match.
  stays :
      entry.text ≡ []
      → Fits sizes more snapshot documents
      → 0 < length documents
      → Good sizes more snapshot behind documents m ms index
          (halted sizes more snapshot documents position_here)
  unfolding left_from
  stays no_text f h =
      subst
        (λ t.
          Good sizes more snapshot
            (delivered documents
              ++ (pieces_of m.header.doc_id t (drop offset m.attachments) ++ whole ms))
            documents m ms index (halted sizes more snapshot documents position_here))
        (sym no_text)
        (halted-Good sizes more snapshot documents m ms index position_here f h refl
          (inr (refl, inside)))

  pub plain-Good :
      entry.text ≡ []
      → Fits sizes more snapshot documents
      → (0 < length documents)
        ⊎ ((n : ℕ)
            → n ≤ 1
            → n ≤ length m.attachments - offset
            → Fits sizes more snapshot (page_with n))
      → Good sizes more snapshot behind documents m ms index
          (attachments_turn sizes more snapshot documents entry m.attachments index offset false)
  unfolding attachments_turn settled_count counted_turn entry_fits
  plain-Good no_text f room = elim (Option-cases counts) [
    | inl nothing ↦ elim room [
      | inl h ↦ rw (attachments_turn, nothing) (stays no_text f h)
      | inr alone ↦
          let found : AtLeast 0 counts =
            largest_fitting_least count_fits 0 (suc (length m.attachments) - offset)
              (λ n h. alone n (omega (arith, h)) (omega (arith, h))) (omega (arith, inside)) in
          let none_found : AtLeast 0 none = subst (AtLeast 0) nothing found in
          absurd (omega (arith, none_found))
    ]
    | inr (n, found) ↦
        let (fit, fewer) = count_found n found in
        elim (Bool-cases (n == length m.attachments - offset)) [
          | inl all_of ↦
              rw (attachments_turn, found)
                (counted-Good n false fewer fit (inr (inl (ground arith))))
          | inr some_left ↦ elim (Bool-cases (ltb 0 n)) [
            | inl some_of ↦
                rw (attachments_turn, found)
                  (counted-Good n false fewer fit (inr (inr (ground arith))))
            | inr none_of ↦
                let zero_eq : n ≡ 0 = ground arith in
                elim room [
                  | inl h ↦
                      rw (attachments_turn, found, settled_count, counted_turn, some_left, none_of)
                        (stays no_text f h)
                  | inr alone ↦
                      let further : AtLeast 1 counts =
                        largest_fitting_least count_fits 1 (suc (length m.attachments) - offset)
                          (λ n h. alone n h (ground arith)) (ground arith) in
                      let one_found : 1 ≤ n = subst (AtLeast 1) found further in
                      absurd (omega (arith, one_found, zero_eq))
                ]
          ]
        ]
  ]
