-- ===== src/Mcp/Page.antt =====
-- internal/mcp/result.go and snapshot.go: an evidence result, the pages cut from it, and when a page
-- can be sent. The documents and matches are carried along, as values of any types. What
-- `json.Marshal`, `renderEvidencePage` and `Validate` say of a page is an argument.
use pocket_advisor.Prelude.{
  ℕ, zero, suc, Bool, true, false, not, List, [], ◌∷◌, ◌++◌, Option, none, some, Bytes, bytes, ltb,
  ◌==◌, if◌then◌else◌, length,
}

abbrev pub utf8_byte_unit : Bytes
utf8_byte_unit = bytes "utf8_bytes"

abbrev pub delivery_more_available : Bytes
delivery_more_available = bytes "more_evidence_available"

abbrev pub target_tool_result_bytes : ℕ
target_tool_result_bytes = 49_152

abbrev pub target_readable_lines : ℕ
target_readable_lines = 1_800

abbrev pub placeholder_cursor : Bytes
placeholder_cursor = bytes "xxxxxxxxxxxxxxxxxxxxxxxxxxxxxxxx"

pub record EvidenceBudget : Type 0 where
  pub used : ℕ
  pub allowed : ℕ
  pub unit : Bytes

pub record EvidenceRelated (D : Type 0) : Type 0 where
  pub relation : Bytes
  pub document : D
  pub text : Option Bytes
  pub text_omitted : Bool

pub record EvidencePacket (D M : Type 0) : Type 0 where
  pub reference : Bytes
  pub rank : ℕ
  pub document : D
  pub matching : M
  pub text : Option Bytes
  pub text_omitted : Bool
  pub related : List (EvidenceRelated D)

pub record EvidenceResult (D M : Type 0) : Type 0 where
  pub result_id : Bytes
  pub question : Bytes
  pub sub_queries : List Bytes
  pub packets : List (EvidencePacket D M)
  pub warnings : List Bytes
  pub budget : EvidenceBudget

pub record EvidenceIndexPacket (D M : Type 0) : Type 0 where
  pub reference : Bytes
  pub rank : ℕ
  pub document : D
  pub matching : M
  pub text_available : Bool
  pub text_omitted : Bool
  pub related_count : ℕ
  pub related_text_available : ℕ

pub record EvidenceRange : Type 0 where
  pub start : ℕ
  pub stop : ℕ
  pub unit : Bytes

pub record EvidenceSegment (D : Type 0) : Type 0 where
  pub reference : Bytes
  pub relation : Option Bytes
  pub document : D
  pub text : Bytes
  pub text_range : EvidenceRange
  pub text_complete : Bool

pub data Kind : Type 0 where
  search index text : Kind

pub record EvidencePage (D M : Type 0) : Type 0 where
  pub kind : Kind
  pub result_id : Bytes
  pub question : Option Bytes
  pub sub_queries : List Bytes
  pub packets : List (EvidenceIndexPacket D M)
  pub segments : List (EvidenceSegment D)
  pub warnings : List Bytes
  pub delivery_warnings : List Bytes
  pub evidence_budget : EvidenceBudget
  pub response_budget : EvidenceBudget
  pub complete : Bool
  pub next_cursor : Option Bytes
  pub continuation_tool : Option Bytes

pub record EvidenceTextItem (D : Type 0) : Type 0 where
  pub reference : Bytes
  pub relation : Option Bytes
  pub document : D
  pub text : Bytes

pub record EvidenceSnapshot (D M : Type 0) : Type 0 where
  pub result : EvidenceResult D M
  pub index : List (EvidenceIndexPacket D M)
  pub items : List (EvidenceTextItem D)
  pub size : ℕ
  pub last_access : ℕ
  pub expires : ℕ

-- The phases are strings in the code.
pub data Phase : Type 0 where
  in_index in_text in_other : Phase

pub record CursorPosition : Type 0 where
  pub phase : Phase
  pub index : ℕ
  pub offset : ℕ

pub data ToolError : Type 0 where
  encode_failed invalid_page item_out_of_range offset_invalid phase_invalid cursor_invalid
        random_failed not_unique duplicate_identity cancelled cursor_stale cursor_too_long
        lookup_failed :
      ToolError
  argument_invalid : Bytes → ToolError
  result_size result_lines : ℕ → ToolError

pub data Result {ℓ} (A : Type ℓ) : Type ℓ where
  ok : A → Result A
  err : ToolError → Result A

abbrev has_text : Option Bytes → Bool
has_text none = false
has_text (some []) = false
has_text (some (b ∷ s)) = true

module _ {D : Type 0} where
  unfoldable pub with_text : List (EvidenceRelated D) → ℕ
  with_text [] = 0
  with_text (r ∷ rs) = if has_text r.text then suc (with_text rs) else with_text rs

  -- The loops of `snapshotFromEvidence`: an item for each text that is there and not empty.
  unfoldable pub item_of : Bytes → Option Bytes → D → Option Bytes → List (EvidenceTextItem D)
  item_of reference relation document none = []
  item_of reference relation document (some []) = []
  item_of reference relation document (some (b ∷ s)) =
      record { reference = reference; relation = relation; document = document; text = b ∷ s } ∷ []

  unfoldable pub related_items : Bytes → List (EvidenceRelated D) → List (EvidenceTextItem D)
  unfolding item_of
  related_items reference [] = []
  related_items reference (r ∷ rs) =
      item_of reference (some r.relation) r.document r.text ++ related_items reference rs

module _ {D M : Type 0} where
  unfoldable pub index_packet : EvidencePacket D M → EvidenceIndexPacket D M
  unfolding with_text
  index_packet p = record {
    reference = p.reference;
    rank = p.rank;
    document = p.document;
    matching = p.matching;
    text_available = has_text p.text;
    text_omitted = p.text_omitted;
    related_count = length p.related;
    related_text_available = with_text p.related;
  }

  unfoldable pub items_of : List (EvidencePacket D M) → List (EvidenceTextItem D)
  unfolding item_of related_items
  items_of [] = []
  items_of (p ∷ ps) =
      item_of p.reference none p.document p.text
      ++ related_items p.reference p.related
      ++ items_of ps

  unfoldable pub apply_continuation : Bytes → Bytes → EvidencePage D M → EvidencePage D M
  apply_continuation tool cursor page = record page {
    complete = false;
    next_cursor = some cursor;
    continuation_tool = some tool;
    delivery_warnings = delivery_more_available ∷ [];
  }

  unfoldable pub set_placeholder_continuation : Bytes → Bool → EvidencePage D M → EvidencePage D M
  unfolding apply_continuation
  set_placeholder_continuation tool true page = apply_continuation tool placeholder_cursor page
  set_placeholder_continuation tool false page = record page {
    complete = true;
    next_cursor = none;
    continuation_tool = none;
    delivery_warnings = [];
  }

-- What a page is measured by: the bytes of the JSON of a tool result whose text was rendered from the
-- first page and whose structure is the second, the lines of the rendering, and the validation.
pub record Delivery (D M : Type 0) : Type 0 where
  pub encoded : EvidencePage D M → EvidencePage D M → Option ℕ
  pub lines : EvidencePage D M → ℕ
  pub is_valid : EvidencePage D M → Bool
  pub encoded_result : EvidenceResult D M → Option ℕ
  pub tool_name : Bytes

-- A tool result, by the page that its text was rendered from and the page that it carries.
pub record ToolResult (D M : Type 0) : Type 0 where
  pub rendered : EvidencePage D M
  pub page : EvidencePage D M

module _ {D M : Type 0} (d : Delivery D M) where
  unfoldable pub set_used : ℕ → EvidencePage D M → EvidencePage D M
  set_used n page = record page {
    response_budget = record {
      used = n;
      allowed = target_tool_result_bytes;
      unit = utf8_byte_unit;
    };
  }

  -- The rounds of `finalizePage`.
  unfoldable pub settle_budget : ℕ → EvidencePage D M → EvidencePage D M → Result (ToolResult D M)
  unfolding set_used
  settle_budget zero rendered page = ok (record { rendered = rendered; page = page })
  settle_budget (suc n) rendered page = elim (d.encoded page page) [
    | none ↦ err encode_failed
    | some used ↦
        if used == page.response_budget.used
        then ok (record { rendered = page; page = page })
        else settle_budget n page (set_used used page)
  ]

  -- What `finalizePage` asks of the result that is left.
  unfoldable pub accept_result : Result (ToolResult D M) → Result (ToolResult D M)
  accept_result (err e) = err e
  accept_result (ok r) = elim (d.encoded r.rendered r.page) [
    | none ↦ err encode_failed
    | some n ↦
        if ltb target_tool_result_bytes n
        then err (result_size target_tool_result_bytes)
        else if ltb target_readable_lines (d.lines r.rendered)
        then err (result_lines target_readable_lines)
        else if not (d.is_valid r.page)
        then err invalid_page
        else ok r
  ]

  unfoldable pub finalize_page : EvidencePage D M → Result (ToolResult D M)
  unfolding settle_budget accept_result
  finalize_page page =
      let full = set_used target_tool_result_bytes page in accept_result (settle_budget 4 full full)

  unfoldable pub page_fits : EvidencePage D M → Bool
  unfolding finalize_page
  page_fits page = elim (finalize_page page) [ ok r ↦ true | err e ↦ false ]
