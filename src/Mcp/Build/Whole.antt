-- ===== src/Mcp/Build/Whole.antt =====
-- internal/mcp/snapshot.go: the pages of a search, the first one and all that follow, are the whole
-- snapshot.
use pocket_advisor.Prelude.{
  ap₂, Bytes, ℕ, zero, suc, ◌+◌, ◌-◌, ◌≤◌, ◌<◌, ◌≡◌, refl, ap, sym, ◌∙◌, ◌⊎◌, inl, inr, Bool, true,
  false, ◌&&◌, List, [], ◌∷◌, ◌++◌, Option, some, arith, ltb, Bool-cases, length, length-drop, drop,
  get_elem?, All, ◌==◌,
}
use pocket_advisor.Chunker.Slices.{drop-drop}
use pocket_advisor.Mcp.Page.{
  EvidencePage, EvidenceIndexPacket, EvidenceTextItem, EvidenceSnapshot, CursorPosition, in_index,
  ok, Delivery, ToolResult, set_placeholder_continuation, page_fits,
}
use pocket_advisor.Mcp.Build.{
  is_more, next_boundary, text_fits, fill_index, index_base, build_index_page, base_page,
  next_after_index, completed_by, read_position, follow, best_end, send_page,
}
use pocket_advisor.Mcp.Build.Ends.{starts_zero, drop_there}
use pocket_advisor.Mcp.Build.Texts.{append_assoc, all_text, end_of}
use pocket_advisor.Mcp.Build.Sends.{Sends, TokensFit, Plain, fits-Sends}
use pocket_advisor.Mcp.Build.Follow.{
  segments_text, delivered_text, delivered_packets, completed_by-keeps, Delivers, same_delivery,
  follow_step, follow_end, left_end, follow_texts, IsText, get_elem?-All, get_elem?_inside,
  drop_none,
}

module _ {D M : Type 0} (d : Delivery D M) (s : EvidenceSnapshot D M) where
  -- Does the page fit with the packet at its end, when the next one has the number `selected`?
  abbrev packet_fits : EvidencePage D M → ℕ → EvidenceIndexPacket D M → Bool
  packet_fits page selected p = page_fits d (
      set_placeholder_continuation d.tool_name (is_more (next_after_index s selected))
        (record page { packets = page.packets ++ p ∷ [] }))

  -- The loop adds a front part of the packets, and the rest of them is left.
  abbrev Filled :
      EvidencePage D M → ℕ → List (EvidenceIndexPacket D M) → EvidencePage D M → ℕ → Type 0
  Filled page selected ps page' stop =
      (selected ≤ stop)
      × (stop ≤ selected + length ps)
      × (page'.packets ++ drop (stop - selected) ps ≡ page.packets ++ ps)
      × (page'.segments ≡ page.segments)

  fill_index-Filled :
      (page : EvidencePage D M) (selected : ℕ) (ps : List (EvidenceIndexPacket D M))
      → Filled page selected ps
          (fill_index d s page selected ps).0
          (fill_index d s page selected ps).1
  unfolding fill_index
  fill_index-Filled page selected [] = (
    omega arith,
    omega arith,
    ap (λ n. page.packets ++ drop n []) {x = selected - selected} {y = 0} (omega arith),
    refl,
  )
  fill_index-Filled page selected (p ∷ ps) = elim (Bool-cases (packet_fits page (suc selected) p)) [
    | inr full ↦
        rw (fill_index, full)
          (
            omega arith,
            omega arith,
            ap (λ n. page.packets ++ drop n (p ∷ ps)) {x = selected - selected} {y = 0}
                (omega arith),
            refl,
          )
    | inl fit ↦
        let grown : EvidencePage D M = record page { packets = page.packets ++ p ∷ [] } in
        let (after, within, whole, same) = fill_index-Filled grown (suc selected) ps in
        let stop = (fill_index d s grown (suc selected) ps).1 in
        let one_more : stop - selected ≡ suc (stop - suc selected) = omega (arith, after) in
        rw (fill_index, fit)
          (
            omega (arith, after),
            omega (arith, within),
            ap (λ n. (fill_index d s grown (suc selected) ps).0.packets ++ drop n (p ∷ ps)) one_more
                ∙ (whole ∙ append_assoc page.packets (p ∷ []) ps),
            same,
          )
  ]

  -- The page has no continuation yet, and fits with what follows the packets before `selected`.
  abbrev Sendable : EvidencePage D M → ℕ → Type 0
  Sendable page selected =
      Plain d page
      × (page_fits d
            (set_placeholder_continuation d.tool_name (is_more (next_after_index s selected)) page)
          ≡ true)

  grown-Plain :
      (page : EvidencePage D M) (ps : List (EvidenceIndexPacket D M))
      → Plain d page
      → Plain d (record page { packets = ps })
  unfolding completed_by set_placeholder_continuation
  grown-Plain page ps plain = ap {A = EvidencePage D M} (λ q. record q { packets = ps }) plain

  fill_index-Sendable :
      (page : EvidencePage D M) (selected : ℕ) (ps : List (EvidenceIndexPacket D M))
      → Sendable page selected
      → Sendable (fill_index d s page selected ps).0 (fill_index d s page selected ps).1
  unfolding fill_index
  fill_index-Sendable page selected [] now = now
  fill_index-Sendable page selected (p ∷ ps) now =
      elim (Bool-cases (packet_fits page (suc selected) p)) [
        | inr full ↦ rw (fill_index, full) now
        | inl fit ↦
            let grown : EvidencePage D M = record page { packets = page.packets ++ p ∷ [] } in
            rw (fill_index, fit)
              (fill_index-Sendable grown (suc selected) ps
                (grown-Plain page (page.packets ++ p ∷ []) now.0, fit))
      ]

  fill_index_first :
      (page : EvidencePage D M) (selected : ℕ) (p : EvidenceIndexPacket D M)
      (ps : List (EvidenceIndexPacket D M))
      → Plain d page
      → packet_fits page (suc selected) p ≡ true
      → Sendable (fill_index d s page selected (p ∷ ps)).0 (fill_index d s page selected (p ∷ ps)).1
  unfolding fill_index
  fill_index_first page selected p ps plain fit =
      let grown : EvidencePage D M = record page { packets = page.packets ++ p ∷ [] } in
      rw (fill_index, fit)
        (fill_index-Sendable grown (suc selected) ps
          (grown-Plain page (page.packets ++ p ∷ []) plain, fit))

  index_base-Plain : (is_search : Bool) → Plain d (index_base d s is_search)
  unfolding index_base base_page completed_by set_placeholder_continuation
  index_base-Plain true = refl
  index_base-Plain false = refl

  -- A packet that fits on the page is taken.
  fill_index_moves :
      (page : EvidencePage D M) (selected : ℕ) (p : EvidenceIndexPacket D M)
      (ps : List (EvidenceIndexPacket D M))
      → packet_fits page (suc selected) p ≡ true
      → selected < (fill_index d s page selected (p ∷ ps)).1
  unfolding fill_index
  fill_index_moves page selected p ps fit =
      let grown : EvidencePage D M = record page { packets = page.packets ++ p ∷ [] } in
      rw (fill_index, fit) (fill_index-Filled grown (suc selected) ps).0

  -- An index page from `start` on and the packets behind it are those from `start` on.
  abbrev Advances : (CursorPosition → Bytes) → ℕ → Bool → Type 0
  Advances token start is_search =
      (stop : ℕ) × (page : EvidencePage D M) × (stop ≤ length s.index)
      × ((start < stop) ⊎ (length s.index ≤ start))
      × (build_index_page d s start is_search ≡ ok (page, next_after_index s stop))
      × (page.packets ++ drop stop s.index ≡ drop start s.index)
      × (page.segments ≡ [])
      × Sends d token page (next_after_index s stop)

  index_base_empty :
      (is_search : Bool)
      → ((index_base d s is_search).packets ≡ []) × ((index_base d s is_search).segments ≡ [])
  unfolding index_base base_page
  index_base_empty true = (refl, refl)
  index_base_empty false = (refl, refl)

  build_index_page-Advances :
      (token : CursorPosition → Bytes) (start : ℕ) (is_search : Bool)
      → TokensFit d token
      → Sendable
          (fill_index d s (index_base d s is_search) start (drop start s.index)).0
          (fill_index d s (index_base d s is_search) start (drop start s.index)).1
      → start ≤ length s.index
      → ((start < (fill_index d s (index_base d s is_search) start (drop start s.index)).1)
          ⊎ (length s.index ≤ start))
      → Advances token start is_search
  unfolding build_index_page
  build_index_page-Advances token start is_search tokens (plain, fit) h moves =
      let (after, within, whole, same) =
        fill_index-Filled (index_base d s is_search) start (drop start s.index) in
      let (no_packets, no_segments) = index_base_empty is_search in
      let filled = fill_index d s (index_base d s is_search) start (drop start s.index) in
      let next = next_after_index s filled.1 in
      let (same_segments, same_packets) = completed_by-keeps next filled.0 in
      let back : drop (filled.1 - start) (drop start s.index) ≡ drop filled.1 s.index =
        drop-drop (filled.1 - start) start s.index
        ∙ ap (λ n. drop n s.index) {x = start + (filled.1 - start)} {y = filled.1}
            (omega (arith, after)) in
      let test : ((filled.1 == start) && ltb filled.1 (length s.index)) ≡ false = ground arith in
      (
        filled.1,
        completed_by next filled.0,
        omega (arith, within, length-drop start s.index, h),
        moves,
        rw (build_index_page, test) refl,
        ap (λ ps. ps ++ drop filled.1 s.index) same_packets
            ∙ (ap (λ ps. filled.0.packets ++ ps) (sym back)
                ∙ (whole ∙ ap (λ ps. ps ++ drop start s.index) no_packets)),
        same_segments ∙ (same ∙ no_segments),
        fits-Sends d token filled.0 next tokens plain fit,
      )

module _ {D M : Type 0} (d : Delivery D M) (s : EvidenceSnapshot D M)
    (token : CursorPosition → Bytes) (tokens : TokensFit d token) (texts : All IsText s.items)
    (moved_fits : (i offset : ℕ) (item : EvidenceTextItem D)
      → get_elem? s.items i ≡ some item
      → text_fits d s item i offset (best_end d s item i offset) ≡ true
      → text_fits d s item i offset (end_of d s i offset item) ≡ true)
    (empty_fits : length s.index ≤ 0
      → page_fits d (
          set_placeholder_continuation d.tool_name
            (is_more (next_after_index s 0))
            (index_base d s true))
        ≡ true)
    (packet_alone : (start : ℕ) (is_search : Bool) (p : EvidenceIndexPacket D M)
      → get_elem? s.index start ≡ some p
      → page_fits d (
          set_placeholder_continuation d.tool_name
            (is_more (next_after_index s (suc start)))
            (record (index_base d s is_search) { packets = p ∷ [] }))
        ≡ true)
    (rune_fits : (i offset : ℕ) (item : EvidenceTextItem D)
      → get_elem? s.items i ≡ some item
      → offset < length item.text
      → text_fits d s item i offset (next_boundary item.text offset) ≡ true) where
  index_page :
      (start : ℕ) (is_search : Bool)
      → start ≤ length s.index
      → (length s.index ≤ start
          → page_fits d (
              set_placeholder_continuation d.tool_name
                (is_more (next_after_index s start))
                (index_base d s is_search))
            ≡ true)
      → Advances d s token start is_search
  index_page start is_search h no_packet = elim (Bool-cases (ltb start (length s.index))) [
    | inr behind ↦
        build_index_page-Advances d s token start is_search tokens
          (fill_index-Sendable d s (index_base d s is_search) start (drop start s.index)
            (index_base-Plain d s is_search, no_packet (ground arith)))
          h (inr (ground arith))
    | inl inside ↦
        let (p, here) = get_elem?_inside s.index start (ground arith) in
        let (there, within) = drop_there s.index start p here in
        let empty = (index_base_empty d s is_search).0 in
        let alone = packet_alone start is_search p here in
        let moves =
          fill_index_moves d s (index_base d s is_search) start p (drop (suc start) s.index)
            (rw empty alone) in
        let first : packet_fits d s (index_base d s is_search) (suc start) p ≡ true =
          rw empty alone in
        let filled : Sendable d s
            (fill_index d s (index_base d s is_search) start (p ∷ drop (suc start) s.index)).0
            (fill_index d s (index_base d s is_search) start (p ∷ drop (suc start) s.index)).1 =
          fill_index_first d s (index_base d s is_search) start p (drop (suc start) s.index)
            (index_base-Plain d s is_search) first in
        build_index_page-Advances d s token start is_search tokens (rw there filled) h
          (inl (rw there moves))
  ]

  abbrev index_position : ℕ → CursorPosition
  index_position start = record { phase = in_index; index = start; offset = 0 }

  no_text : (t : Bytes) → segments_text {D = D} [] ++ t ≡ t
  unfolding segments_text
  no_text t = refl

  read_index :
      (start : ℕ) → read_position d s (index_position start) ≡ build_index_page d s start false
  unfolding read_position
  read_index start = refl

  abbrev IndexFollows : ℕ → Type 0
  IndexFollows fuel =
      (start : ℕ)
      → start < length s.index
      → length s.index - start + length (all_text s.items) ≤ fuel
      → Delivers d s token fuel (some (index_position start)) (drop start s.index)
          (all_text s.items)

  after_index :
      (fuel : ℕ)
      → IndexFollows fuel
      → (stop : ℕ) → stop ≤ length s.index
      → length s.index - stop + length (all_text s.items) ≤ fuel
      → Delivers d s token fuel (next_after_index s stop) (drop stop s.index) (all_text s.items)
  unfolding next_after_index
  after_index fuel ih stop h enough = elim (Bool-cases (ltb stop (length s.index))) [
    | inl inside ↦ rw (next_after_index, inside) (ih stop (ground arith) enough)
    | inr over ↦
        let none_left = drop_none s.index stop (ground arith) in
        elim (Bool-cases (ltb 0 (length s.items))) [
          | inl some_texts ↦
              let (item, here) = get_elem?_inside s.items 0 (ground arith) in
              let (some_text, valid) = get_elem?-All IsText s.items 0 item texts here in
              rw (next_after_index, over, some_texts, none_left)
                (follow_texts d s token tokens texts moved_fits rune_fits fuel 0 0 item
                  (here, some_text, starts_zero item.text valid) (omega (arith, enough)))
          | inr no_texts ↦
              rw (next_after_index, over, no_texts, none_left, left_end d s token 0 (ground arith))
                (follow_end d s token fuel)
        ]
  ]

  follow_index : (fuel : ℕ) → IndexFollows fuel
  follow_index zero start h enough = absurd (omega arith)
  follow_index (suc fuel) start h enough =
      let (stop, page, within, moves, built, packets, no_segments, sent) =
        index_page start false (omega (arith, h))
          (λ none_left. absurd (omega (arith, h, none_left))) in
      let further : start < stop = elim moves [ inl m ↦ m | inr m ↦ absurd (omega arith) ] in
      same_delivery d s token (suc fuel) (some (index_position start)) packets
        (ap (λ g. segments_text g ++ all_text s.items) no_segments ∙ no_text (all_text s.items))
        (follow_step d s token fuel (index_position start) page (next_after_index s stop)
          (drop stop s.index) (all_text s.items) (read_index start ∙ built) sent
          (after_index fuel (follow_index fuel) stop within
            (omega (arith, enough, further, within))))

  -- A client that searches and then reads every page that it is pointed to, each with its cursor
  -- put in and finalized, is sent each index packet of the snapshot once and in order, and then the
  -- whole of every text, in order and without a gap or a repeat; no page is refused, and the pages
  -- end. The snapshot is kept meanwhile, and its texts are valid UTF-8 and not empty; a page with a
  -- single packet fits, and so does one with a single rune of a text, and the first page of a
  -- snapshot without packets; a page that fits with the placeholder cursor fits with the one
  -- issued; and a text page that fits still does where its end moves back to that of a paragraph.
  -- Fuel for as many pages as there are packets and bytes is enough.
  pub search_delivers :
      (fuel : ℕ)
      → length s.index + length (all_text s.items) ≤ fuel
      → (page : EvidencePage D M) × (next : Option CursorPosition) × (first : ToolResult D M)
        × (pages : List (EvidencePage D M)) × (build_index_page d s 0 true ≡ ok (page, next))
        × (send_page d token page next ≡ ok first)
        × (follow d s token fuel next ≡ ok pages)
        × (delivered_packets (first.page ∷ pages) ≡ s.index)
        × (delivered_text (first.page ∷ pages) ≡ all_text s.items)
  unfolding delivered_packets delivered_text
  search_delivers fuel enough =
      let (
        stop,
        page,
        within,
        moves,
        built,
        packets,
        no_segments,
        (first, sent, (same_segments, same_packets)),
      ) =
        index_page 0 true (omega arith) empty_fits in
      let (pages, followed, rest_packets, rest_text) =
        after_index fuel (follow_index fuel) stop within (omega (arith, enough)) in
      (
        page,
        next_after_index s stop,
        first,
        pages,
        built,
        sent,
        followed,
        ap₂ (λ ps qs. ps ++ qs) same_packets rest_packets ∙ packets,
        ap (λ g. segments_text g ++ delivered_text pages) (same_segments ∙ no_segments)
            ∙ (no_text (delivered_text pages) ∙ rest_text),
      )
