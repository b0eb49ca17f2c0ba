-- ===== src/Mcp/Fetch/ShortTail.antt =====
-- internal/mcp/document.go: a rest of a text that its first rune takes most of is not sent.
use pocket_advisor.Prelude.{
  ℕ, zero, suc, ◌+◌, ◌-◌, ◌*◌, ◌/◌, ◌≤◌, ◌<◌, ◌≡◌, refl, ap, sym, ◌∙◌, inl, inr, Bool, true, false,
  List, [], none, some, arith, Bytes, ltb, lt→ltb, leb, Bool-cases, length, drop, get_elem?,
}
use pocket_advisor.Prelude.Runes.{rune_size, starts_at}
use pocket_advisor.Chunker.Split.{back_to_start}
use pocket_advisor.Mcp.Page.{err, result_size, target_tool_result_bytes}
use pocket_advisor.Mcp.Build.{boundary_at_or_before, next_boundary}
use pocket_advisor.Mcp.Build.Ends.{
  inside_rune, starts_at-drop, retreats, next_boundary_bounds, drop_there,
}
use pocket_advisor.Mcp.Documents.{
  DocumentMatch, DocumentSizes, FetchedDocument, phase_text, search_largest, largest_fitting,
}
use pocket_advisor.Mcp.Fetch.{text_fits, text_turn, match_turn, fill_documents, halted}
use pocket_advisor.Mcp.Fetch.Cursor.{CursorCodec, build_document_page}
use pocket_advisor.Mcp.Fetch.Fill.{entry_of}

inside_text : (k n : ℕ) → n < k → leb k n ≡ false
inside_text k n h = ground arith

ltb_irrefl : (n : ℕ) → ltb n n ≡ false
ltb_irrefl n = ground arith

-- A search that begins below the values that pass finds none of them.
search_below :
    (fits : ℕ → Bool) (last fuel low bound : ℕ)
    → ((n : ℕ) → low ≤ n → n < last → fits n ≡ false)
    → low + (bound - 1 - low) / 2 < last
    → search_largest fits fuel low bound none ≡ none
unfolding search_largest
search_below fits last zero low bound fails early = refl
search_below fits last (suc fuel) low bound fails early =
    let middle = low + (bound - 1 - low) / 2 in
    elim (Bool-cases (ltb low bound)) [
      | inr over ↦ rw (search_largest, over) refl
      | inl more ↦
          rw (search_largest, more, fails middle (omega arith) early)
            (search_below fits last fuel low middle fails (omega (arith, early)))
    ]

-- From within a rune one goes back to where it begins.
back_inside :
    (s : Bytes) (offset n : ℕ)
    → starts_at s offset ≡ true
    → offset ≤ n
    → n < offset + rune_size (drop offset s)
    → back_to_start s n ≡ offset
unfolding back_to_start
back_inside s offset zero e h k = omega (arith, h)
back_inside s offset (suc n) e h k = elim (Bool-cases (leb (suc n) offset)) [
  | inl first ↦
      let here : offset ≡ suc n = ground arith in
      ap (back_to_start s) (sym here) ∙ retreats s offset e
  | inr behind ↦
      let plus : offset + (suc n - offset) ≡ suc n = ground arith in
      let inside : starts_at s (suc n) ≡ false =
        ap (starts_at s) (sym plus)
        ∙ (sym (starts_at-drop offset (suc n - offset) s)
            ∙ inside_rune (drop offset s) (suc n - offset) (ground arith) (omega (arith, h, k))) in
      rw (back_to_start, inside) (back_inside s offset n e (ground arith) (omega (arith, k)))
]

module _ {L : Type 0} (codec : CursorCodec) (sizes : DocumentSizes L) (more : Bool)
    (snapshot : ℕ) where
  nothing_fits :
      (entry : FetchedDocument L) (text : Bytes) (offset n : ℕ)
      → offset < length text
      → starts_at text offset ≡ true
      → suc offset ≤ n
      → n < offset + rune_size (drop offset text)
      → text_fits sizes more snapshot [] entry text offset n ≡ false
  unfolding text_fits boundary_at_or_before next_boundary
  nothing_fits entry text offset n inside e h k =
      let room : (offset < offset + rune_size (drop offset text))
          × (offset + rune_size (drop offset text) ≤ length text) =
        next_boundary_bounds text offset inside in
      let within : leb (length text) n ≡ false =
        inside_text (length text) n (omega (arith, k, room)) in
      let back : boundary_at_or_before text n ≡ offset =
        rw (boundary_at_or_before, within) (back_inside text offset n e (omega (arith, h)) k) in
      let stays : ltb offset offset ≡ false = ltb_irrefl offset in rw (text_fits, back, stays) refl

  -- A page that starts where a rune begins in the text of a match fails with the error for a result
  -- that is too large, whatever the sizes of pages are, when that rune takes more than half of the
  -- rest of the text and a half byte.
  pub build_document_page_short :
      (matches : List (DocumentMatch L)) (m : DocumentMatch L) (index offset : ℕ)
      (fingerprint : Bytes)
      → get_elem? matches index ≡ some m
      → offset < length m.text
      → starts_at m.text offset ≡ true
      → suc (length m.text - offset) < 2 * rune_size (drop offset m.text)
      → build_document_page codec sizes more snapshot matches
          (record { index = index; phase = phase_text; offset = offset })
          fingerprint
        ≡ err (result_size target_tool_result_bytes)
  unfolding build_document_page fill_documents match_turn text_turn largest_fitting halted
  build_document_page_short matches m index offset fingerprint here inside e short =
      let (there, within) = drop_there matches index m here in
      let more_text : ltb offset (length m.text) ≡ true = lt→ltb offset (length m.text) inside in
      let nothing =
        search_below (text_fits sizes more snapshot [] (entry_of m) m.text offset)
          (offset + rune_size (drop offset m.text)) (suc (length m.text) - suc offset) (suc offset)
          (suc (length m.text)) (λ n h k. nothing_fits (entry_of m) m.text offset n inside e h k)
          (omega (arith, short, inside)) in
      rw
        (
          build_document_page, there, fill_documents, match_turn, more_text, text_turn,
          largest_fitting, nothing,
        )
        refl
