-- ===== src/Mcp/Examples.antt =====
-- The pages of a small result.
use pocket_advisor.Prelude.{
  ℕ, suc, ◌+◌, ◌≤◌, ◌<◌, ◌≡◌, refl, Bool, true, false, List, [], ◌∷◌, Option, none, some, arith,
  Bytes, bytes, length, get_elem?, All,
}
use pocket_advisor.Prelude.Runes.{is_pair, is_triple, is_quad}
use pocket_advisor.Mcp.Page.{
  EvidencePacket, EvidenceResult, EvidenceIndexPacket, EvidencePage, EvidenceTextItem,
  EvidenceSnapshot, CursorPosition, in_text, Result, ok, err, offset_invalid, Delivery, text,
  index_packet, items_of, set_placeholder_continuation, page_fits, finalize_page,
  placeholder_cursor, apply_continuation, ToolResult,
}
use pocket_advisor.Mcp.Store.{CursorState, StoreLimits, Randomness, new_store}
use pocket_advisor.Mcp.Store.Serve.{store_search_result, read_evidence_page}
use pocket_advisor.Mcp.Store.Invariant.{StoreInv}
use pocket_advisor.Mcp.Store.Runs.{ToolCall, search_call, read_call, run_calls, run_calls-StoreInv}
use pocket_advisor.Mcp.Build.{
  is_more, next_boundary, text_fits, index_base, build_index_page, build_text_page,
  next_after_index, next_after_text, text_page_candidate, base_page, follow, best_end, send_page,
}
use pocket_advisor.Mcp.Build.Ends.{valid_utf8}
use pocket_advisor.Mcp.Build.Texts.{all_text, end_of}
use pocket_advisor.Mcp.Build.Sends.{TokensFit}
use pocket_advisor.Mcp.Build.Follow.{segments_text, delivered_text, delivered_packets, IsText}
use pocket_advisor.Mcp.Build.Whole.{search_delivers}

-- Every page has 100 bytes and a line.
abbrev delivery : Delivery ℕ ℕ
delivery = record {
  encoded = λ rendered page. some 100;
  lines = λ page. 1;
  is_valid = λ page. true;
  encoded_result = λ result. some 500;
  tool_name = bytes "read_evidence";
}

abbrev packets : List (EvidencePacket ℕ ℕ)
packets =
    record {
      reference = bytes "R1:E1";
      rank = 1;
      document = 7;
      matching = 3;
      text = some (bytes "abc\n\nd");
      text_omitted = false;
      related =
          record {
            relation = bytes "parent";
            document = 8;
            text = some (bytes "xy");
            text_omitted = false;
          }
          ∷ record { relation = bytes "thread"; document = 9; text = none; text_omitted = true }
          ∷ [];
    }
    ∷ record {
      reference = bytes "R1:E2";
      rank = 2;
      document = 6;
      matching = 4;
      text = none;
      text_omitted = true;
      related = [];
    }
    ∷ []

abbrev index_packets : List (EvidencePacket ℕ ℕ) → List (EvidenceIndexPacket ℕ ℕ)
index_packets [] = []
index_packets (p ∷ ps) = index_packet p ∷ index_packets ps

abbrev snapshot : EvidenceSnapshot ℕ ℕ
unfolding items_of
snapshot = record {
  result = record {
    result_id = bytes "R1";
    question = bytes "q";
    sub_queries = [];
    packets = packets;
    warnings = [];
    budget = record { used = 8; allowed = 100; unit = bytes "utf8_bytes" };
  };
  index = index_packets packets;
  items = items_of packets;
  size = 500;
  last_access = 0;
  expires = 10;
}

any_page_fits : (page : EvidencePage ℕ ℕ) → page_fits delivery page ≡ true
unfolding page_fits finalize_page
any_page_fits page = refl

-- The cursors are as long as the placeholder.
abbrev token_of : CursorPosition → Bytes
token_of p = placeholder_cursor

any_token : TokensFit delivery token_of
any_token page p fit = any_page_fits (apply_continuation delivery.tool_name (token_of p) page)

any_move :
    (i offset : ℕ) (item : EvidenceTextItem ℕ)
    → get_elem? snapshot.items i ≡ some item
    → text_fits delivery snapshot item i offset (best_end delivery snapshot item i offset) ≡ true
    → text_fits delivery snapshot item i offset (end_of delivery snapshot i offset item) ≡ true
unfolding text_fits
any_move i offset item here fit =
    let stop = end_of delivery snapshot i offset item in
    any_page_fits (
      set_placeholder_continuation delivery.tool_name
        (is_more (next_after_text snapshot item i stop))
        (text_page_candidate (base_page snapshot text none []) item offset stop))

any_packet_fits :
    (start : ℕ) (is_search : Bool) (p : EvidenceIndexPacket ℕ ℕ)
    → get_elem? snapshot.index start ≡ some p
    → page_fits delivery (
        set_placeholder_continuation delivery.tool_name
          (is_more (next_after_index snapshot (suc start)))
          (record (index_base delivery snapshot is_search) { packets = p ∷ [] }))
      ≡ true
any_packet_fits start is_search p here = any_page_fits _

any_rune_fits :
    (i offset : ℕ) (item : EvidenceTextItem ℕ)
    → get_elem? snapshot.items i ≡ some item
    → offset < length item.text
    → text_fits delivery snapshot item i offset (next_boundary item.text offset) ≡ true
unfolding text_fits
any_rune_fits i offset item here h = any_page_fits (
    set_placeholder_continuation delivery.tool_name
      (is_more (next_after_text snapshot item i (next_boundary item.text offset)))
      (text_page_candidate (base_page snapshot text none []) item offset
        (next_boundary item.text offset)))

abbrev page_texts : Result (List (EvidencePage ℕ ℕ)) → List Bytes
unfolding segments_text
page_texts (err e) = []
page_texts (ok []) = []
page_texts (ok (page ∷ pages)) = segments_text page.segments ∷ page_texts (ok pages)

-- The first text is cut at its paragraph, and the related one follows.
text_pages :
    page_texts (
      follow delivery snapshot token_of 5
        (some (record { phase = in_text; index = 0; offset = 0 })))
    ≡ bytes "abc\n\n" ∷ bytes "d" ∷ bytes "xy" ∷ []
unfolding follow is_pair is_triple is_quad page_texts snapshot
text_pages = refl

offset_behind : build_text_page delivery snapshot 1 2 ≡ err offset_invalid
unfolding build_text_page snapshot
offset_behind = refl

texts_valid : All IsText snapshot.items
unfolding items_of valid_utf8 is_pair is_triple is_quad
texts_valid = ((omega arith, refl), ((omega arith, refl), tt))

enough_fuel : length snapshot.index + length (all_text snapshot.items) ≤ 10
unfolding items_of all_text
enough_fuel = omega arith

search_delivers_example :
    (page : EvidencePage ℕ ℕ) × (next : Option CursorPosition) × (first : ToolResult ℕ ℕ)
    × (pages : List (EvidencePage ℕ ℕ)) × (build_index_page delivery snapshot 0 true
        ≡ ok (page, next))
    × (send_page delivery token_of page next ≡ ok first)
    × (follow delivery snapshot token_of 10 next ≡ ok pages)
    × (delivered_packets (first.page ∷ pages) ≡ snapshot.index)
    × (delivered_text (first.page ∷ pages) ≡ all_text snapshot.items)
search_delivers_example =
    search_delivers delivery snapshot token_of any_token texts_valid any_move
      (λ none_left. any_page_fits _) any_packet_fits any_rune_fits 10 enough_fuel

abbrev limits : StoreLimits
limits = record { ttl = 10; max_snapshots = 1; max_bytes = 600 }

-- The random bytes count the reads.
abbrev random : Randomness ℕ
random = record { read = λ n r. (some (r ∷ []), suc r); hex = λ s. s; base64 = λ s. s }

abbrev result_named : Bytes → EvidenceResult ℕ ℕ
result_named id = record {
  result_id = id;
  question = bytes "q";
  sub_queries = [];
  packets = packets;
  warnings = [];
  budget = record { used = 8; allowed = 100; unit = bytes "utf8_bytes" };
}

-- Two searches, of which the second evicts the first, and reads between them and after.
abbrev calls : List (ToolCall ℕ ℕ)
calls =
    search_call 0 (result_named (bytes "R1"))
    ∷ read_call 5 false (0 ∷ [])
    ∷ search_call 6 (result_named (bytes "R2"))
    ∷ read_call 7 false (1 ∷ [])
    ∷ []

run_calls-StoreInv_example : StoreInv limits (run_calls delivery limits random calls new_store 0).0
run_calls-StoreInv_example =
    run_calls-StoreInv delivery limits random calls 0 (omega arith) (refl, (tt, (refl, (tt, tt))))

-- The names of the cursors, before and after the eviction.
abbrev cursor_names : List (Bytes × CursorState) → List Bytes
cursor_names [] = []
cursor_names ((name, c) ∷ cs) = name ∷ cursor_names cs

before_eviction :
    cursor_names
      (run_calls delivery limits random
        (search_call 0 (result_named (bytes "R1")) ∷ read_call 5 false (0 ∷ []) ∷ [])
        new_store
        0).0.cursors
    ≡ (1 ∷ []) ∷ (0 ∷ []) ∷ []
unfolding run_calls store_search_result read_evidence_page new_store
before_eviction = refl

after_eviction :
    cursor_names (run_calls delivery limits random calls new_store 0).0.cursors ≡ (2 ∷ []) ∷ []
unfolding run_calls store_search_result read_evidence_page new_store
after_eviction = refl
