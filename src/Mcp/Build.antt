-- ===== src/Mcp/Build.antt =====
-- internal/mcp/snapshot.go: the next page of a snapshot, of its index or of one of its texts.
pub mod Ends
pub mod Texts
pub mod Sends
pub mod Follow
pub mod Whole
use pocket_advisor.Prelude.{
  ℕ, zero, suc, ◌+◌, ◌-◌, ◌/◌, Bool, true, false, not, ◌&&◌, ◌||◌, List, [], ◌∷◌, ◌++◌, Option,
  none, some, Bytes, ltb, leb, ◌==◌, if◌then◌else◌, length, drop, get_elem?,
}
use pocket_advisor.Prelude.Runes.{rune_size, starts_at, last_where, at_paragraph}
use pocket_advisor.Chunker.Split.{slice, back_to_start}
use pocket_advisor.Mcp.Page.{
  EvidenceBudget, EvidenceIndexPacket, Kind, search, index, text, EvidencePage, EvidenceTextItem,
  EvidenceSnapshot, in_index, in_text, in_other, CursorPosition, item_out_of_range, phase_invalid,
  cancelled, offset_invalid, result_size, Result, ok, err, apply_continuation,
  set_placeholder_continuation, ToolResult, finalize_page, Delivery, page_fits, utf8_byte_unit,
  target_tool_result_bytes,
}

-- `utf8BoundaryAtOrBefore`; its inner loop is that of `retreatRunes`.
unfoldable pub boundary_at_or_before : Bytes → ℕ → ℕ
unfolding back_to_start
boundary_at_or_before value stop =
    if leb (length value) stop then length value else back_to_start value stop

unfoldable pub next_boundary : Bytes → ℕ → ℕ
unfolding rune_size
next_boundary value start = start + rune_size (drop start value)

unfoldable pub preferred_paragraph_end : Bytes → ℕ → ℕ → ℕ
unfolding last_where
preferred_paragraph_end value start maximum =
    let segment = slice value start maximum in
    elim (last_where at_paragraph segment) [
      | none ↦ 0
      | some i ↦ if ltb i (length segment / 2) then 0 else start + i + 2
    ]

-- The end of the page, when the longest that fits ends at `best`.
unfoldable pub page_end : Bytes → ℕ → ℕ → ℕ
unfolding preferred_paragraph_end
page_end value offset best =
    let paragraph_end = preferred_paragraph_end value offset best in
    if ltb offset paragraph_end then paragraph_end else best

-- The end that the binary search of `buildTextPage` tries for a length.
unfoldable pub tried_end : Bytes → ℕ → ℕ → ℕ
unfolding boundary_at_or_before next_boundary
tried_end value offset middle =
    let stop = boundary_at_or_before value (offset + middle) in
    if leb stop offset then next_boundary value offset else stop

-- That search, over the lengths from `low` to `high`, for any test.
unfoldable pub search_end : (ℕ → Bool) → (ℕ → ℕ) → ℕ → ℕ → ℕ → ℕ → ℕ
search_end fits end_at zero low high best = best
search_end fits end_at (suc fuel) low high best =
    let middle = low + (high - low) / 2 in
    let stop = end_at middle in
    let further = search_end fits end_at fuel (suc middle) high stop in
    let nearer = search_end fits end_at fuel low (middle - 1) best in
    if leb low high then (if fits stop then further else nearer) else best

abbrev pub no_budget : EvidenceBudget
no_budget = record { used = 0; allowed = 0; unit = [] }

abbrev pub is_more : Option CursorPosition → Bool
is_more none = false
is_more (some p) = true

module _ {D M : Type 0} where
  -- The page that `buildIndexPage` and `buildTextPage` start with.
  unfoldable pub base_page :
      EvidenceSnapshot D M → Kind → Option Bytes → List Bytes → EvidencePage D M
  base_page s kind question sub_queries = record {
    kind = kind;
    result_id = s.result.result_id;
    question = question;
    sub_queries = sub_queries;
    packets = [];
    segments = [];
    warnings = s.result.warnings;
    delivery_warnings = [];
    evidence_budget = s.result.budget;
    response_budget = no_budget;
    complete = false;
    next_cursor = none;
    continuation_tool = none;
  }

  unfoldable pub next_after_index : EvidenceSnapshot D M → ℕ → Option CursorPosition
  next_after_index s i =
      if ltb i (length s.index)
      then some (record { phase = in_index; index = i; offset = 0 })
      else if ltb 0 (length s.items)
      then some (record { phase = in_text; index = 0; offset = 0 })
      else none

  -- `item` is the one at the index.
  unfoldable pub next_after_text :
      EvidenceSnapshot D M → EvidenceTextItem D → ℕ → ℕ → Option CursorPosition
  next_after_text s item i stop =
      if ltb stop (length item.text)
      then some (record { phase = in_text; index = i; offset = stop })
      else if ltb (suc i) (length s.items)
      then some (record { phase = in_text; index = suc i; offset = 0 })
      else none

  unfoldable pub text_page_candidate :
      EvidencePage D M → EvidenceTextItem D → ℕ → ℕ → EvidencePage D M
  text_page_candidate base item start stop = record base {
    segments =
        record {
          reference = item.reference;
          relation = item.relation;
          document = item.document;
          text = slice item.text start stop;
          text_range = record { start = start; stop = stop; unit = utf8_byte_unit };
          text_complete = stop == length item.text;
        }
        ∷ [];
  }

  -- `if next == nil { page.Complete = true }`.
  unfoldable pub completed_by : Option CursorPosition → EvidencePage D M → EvidencePage D M
  completed_by none page = record page { complete = true }
  completed_by (some p) page = page

module _ {D M : Type 0} (d : Delivery D M) where
  -- A page is sent with the cursor for what follows it, when anything does.
  unfoldable pub send_page :
      (CursorPosition → Bytes) → EvidencePage D M → Option CursorPosition → Result (ToolResult D M)
  unfolding apply_continuation finalize_page
  send_page token page none = finalize_page d page
  send_page token page (some p) = finalize_page d (apply_continuation d.tool_name (token p) page)

module _ {D M : Type 0} (d : Delivery D M) (s : EvidenceSnapshot D M) where
  -- The loop of `buildIndexPage`, over the packets from the index `selected` on.
  unfoldable pub fill_index :
      EvidencePage D M → ℕ → List (EvidenceIndexPacket D M) → EvidencePage D M × ℕ
  unfolding next_after_index set_placeholder_continuation page_fits
  fill_index page selected [] = (page, selected)
  fill_index page selected (p ∷ ps) =
      let grown = record page { packets = page.packets ++ p ∷ [] } in
      let next = next_after_index s (suc selected) in
      let rest = fill_index grown (suc selected) ps in
      if page_fits d (set_placeholder_continuation d.tool_name (is_more next) grown)
      then rest
      else (page, selected)

  -- The page that `buildIndexPage` starts with.
  unfoldable pub index_base : Bool → EvidencePage D M
  unfolding base_page
  index_base is_search =
      if is_search
      then base_page s search (some s.result.question) s.result.sub_queries
      else base_page s index none []

  unfoldable pub build_index_page : ℕ → Bool → Result (EvidencePage D M × Option CursorPosition)
  unfolding fill_index next_after_index completed_by index_base
  build_index_page start is_search =
      let (page, selected) = fill_index (index_base is_search) start (drop start s.index) in
      let next = next_after_index s selected in
      if (selected == start) && ltb selected (length s.index)
      then err (result_size target_tool_result_bytes)
      else ok (completed_by next page, next)

  -- Does the page that ends there fit?
  unfoldable pub text_fits : EvidenceTextItem D → ℕ → ℕ → ℕ → Bool
  unfolding base_page text_page_candidate next_after_text set_placeholder_continuation page_fits
  text_fits item i offset stop = page_fits d (
      set_placeholder_continuation d.tool_name (is_more (next_after_text s item i stop))
        (text_page_candidate (base_page s text none []) item offset stop))

  unfoldable pub best_end : EvidenceTextItem D → ℕ → ℕ → ℕ
  unfolding text_fits search_end tried_end
  best_end item i offset =
      let room = length item.text - offset in
      search_end (text_fits item i offset) (tried_end item.text offset) room 1 room 0

  unfoldable pub build_text_page : ℕ → ℕ → Result (EvidencePage D M × Option CursorPosition)
  unfolding best_end page_end text_page_candidate base_page next_after_text completed_by
  build_text_page i offset = elim (get_elem? s.items i) [
    | none ↦ err item_out_of_range
    | some item ↦
        let best = best_end item i offset in
        let stop = page_end item.text offset best in
        let next = next_after_text s item i stop in
        if leb (length item.text) offset || not (starts_at item.text offset)
        then err offset_invalid
        else if leb best offset
        then err (result_size target_tool_result_bytes)
        else ok (
          completed_by next (text_page_candidate (base_page s text none []) item offset stop),
          next,
        )
  ]

  -- The phases of `readEvidencePage`.
  unfoldable pub read_position : CursorPosition → Result (EvidencePage D M × Option CursorPosition)
  unfolding build_index_page build_text_page
  read_position p = elim p.phase [
    | in_index ↦ build_index_page p.index false
    | in_text ↦ build_text_page p.index p.offset
    | in_other ↦ err phase_invalid
  ]

  -- The pages that a client is sent from a position on, each named by the cursor of the one before,
  -- for the cursor that is issued for a position.
  unfoldable pub follow :
      (CursorPosition → Bytes) → ℕ → Option CursorPosition → Result (List (EvidencePage D M))
  unfolding read_position send_page
  follow token fuel none = ok []
  follow token zero (some p) = err cancelled
  follow token (suc fuel) (some p) = elim (read_position p) [
    | err e ↦ err e
    | ok (page, next) ↦ elim (send_page d token page next) [
      | err e ↦ err e
      | ok r ↦ elim (follow token fuel next) [ err e ↦ err e | ok pages ↦ ok (r.page ∷ pages) ]
    ]
  ]
