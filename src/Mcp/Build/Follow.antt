-- ===== src/Mcp/Build/Follow.antt =====
-- internal/mcp/snapshot.go: what a client has that follows the cursors to the end.
use pocket_advisor.Prelude.{
  ap₂, ℕ, zero, suc, ◌-◌, ◌≤◌, ◌<◌, ◌≡◌, refl, ap, ◌∙◌, inl, inr, true, List, [], ◌∷◌, ◌++◌, Option,
  none, some, arith, Bytes, ltb, Bool-cases, length, length-drop, length-take, length-append, drop,
  get_elem?, subst, All,
}
use pocket_advisor.Chunker.Split.{slice}
use pocket_advisor.Mcp.Page.{
  EvidencePage, EvidenceIndexPacket, EvidenceSegment, EvidenceTextItem, EvidenceSnapshot,
  CursorPosition, ok, Delivery, set_placeholder_continuation,
}
use pocket_advisor.Mcp.Build.{
  next_boundary, text_fits, build_text_page, base_page, text_page_candidate, next_after_text,
  completed_by, read_position, follow, best_end, tried_end,
}
use pocket_advisor.Mcp.Build.Sends.{Sends, TokensFit, fits-Sends, search_end_fits}
use pocket_advisor.Mcp.Build.Ends.{valid_utf8, EndsWell, starts_zero}
use pocket_advisor.Mcp.Build.Texts.{
  all_text, drop_all, left, left_eq, left_step, Stands, end_of, page_end-EndsWell, position,
  page_to, build_text_page_ok,
}

unfoldable pub segments_text : {D : Type 0} → List (EvidenceSegment D) → Bytes
segments_text [] = []
segments_text (g ∷ gs) = g.text ++ segments_text gs

module _ {D M : Type 0} where
  -- The texts and the packets of pages, in their order.
  unfoldable pub delivered_text : List (EvidencePage D M) → Bytes
  unfolding segments_text
  delivered_text [] = []
  delivered_text (page ∷ pages) = segments_text page.segments ++ delivered_text pages

  unfoldable pub delivered_packets : List (EvidencePage D M) → List (EvidenceIndexPacket D M)
  delivered_packets [] = []
  delivered_packets (page ∷ pages) = page.packets ++ delivered_packets pages

  pub completed_by-keeps :
      (next : Option CursorPosition) (page : EvidencePage D M)
      → ((completed_by next page).segments ≡ page.segments)
        × ((completed_by next page).packets ≡ page.packets)
  unfolding completed_by
  completed_by-keeps none page = (refl, refl)
  completed_by-keeps (some p) page = (refl, refl)

pub get_elem?-All {ℓ κ} :
    {A : Type ℓ} (P : A → Type κ) (xs : List A) (i : ℕ) (x : A)
    → All P xs
    → get_elem? xs i ≡ some x
    → P x
get_elem?-All P [] i x a h = absurd cc
get_elem?-All P (y ∷ ys) zero x a h = let same : y ≡ x = cc in subst P same a.0
get_elem?-All P (y ∷ ys) (suc i) x a h = get_elem?-All P ys i x a.1 h

pub get_elem?_inside {ℓ} :
    {A : Type ℓ} (xs : List A) (i : ℕ) → i < length xs → (x : A) × (get_elem? xs i ≡ some x)
get_elem?_inside [] i h = absurd (omega arith)
get_elem?_inside (y ∷ ys) zero h = (y, refl)
get_elem?_inside (y ∷ ys) (suc i) h = get_elem?_inside ys i (omega arith)

pub drop_none {ℓ} : {A : Type ℓ} (xs : List A) (i : ℕ) → length xs ≤ i → drop i xs ≡ []
drop_none [] zero h = refl
drop_none [] (suc i) h = refl
drop_none (y ∷ ys) zero h = absurd (omega arith)
drop_none (y ∷ ys) (suc i) h = drop_none ys i (omega arith)

pub append_nil {ℓ} : {A : Type ℓ} (xs : List A) → xs ++ [] ≡ xs
append_nil [] = refl
append_nil (x ∷ xs) = ap (◌∷◌ x) (append_nil xs)

-- What the pages from a position on add up to.
module _ {D M : Type 0} (d : Delivery D M) (s : EvidenceSnapshot D M)
    (token : CursorPosition → Bytes) where
  abbrev pub Delivers : ℕ → Option CursorPosition → List (EvidenceIndexPacket D M) → Bytes → Type 0
  Delivers fuel next packets texts =
      (pages : List (EvidencePage D M)) × (follow d s token fuel next ≡ ok pages)
      × (delivered_packets pages ≡ packets)
      × (delivered_text pages ≡ texts)

  pub follow_step :
      (fuel : ℕ) (p : CursorPosition) (page : EvidencePage D M) (next : Option CursorPosition)
      (packets : List (EvidenceIndexPacket D M)) (texts : Bytes)
      → read_position d s p ≡ ok (page, next)
      → Sends d token page next
      → Delivers fuel next packets texts
      → Delivers
          (suc fuel)
          (some p)
          (page.packets ++ packets)
          (segments_text page.segments ++ texts)
  unfolding follow delivered_text delivered_packets
  follow_step fuel p page next packets texts h (r, sent, (same_segments, same_packets))
        (pages, after, whole_packets, whole_text) =
      (
        r.page ∷ pages,
        rw (follow, h, sent, after) refl,
        ap₂ (λ ps qs. ps ++ qs) same_packets whole_packets,
        ap₂ (λ gs t. segments_text gs ++ t) same_segments whole_text,
      )

  pub same_delivery :
      (fuel : ℕ) (next : Option CursorPosition) {packets packets' : List (EvidenceIndexPacket D M)}
      {texts texts' : Bytes}
      → packets ≡ packets'
      → texts ≡ texts'
      → Delivers fuel next packets texts
      → Delivers fuel next packets' texts'
  same_delivery fuel next p t (pages, after, whole_packets, whole_text) =
      (pages, after, whole_packets ∙ p, whole_text ∙ t)

  read_text :
      (i offset : ℕ) → read_position d s (position d s i offset) ≡ build_text_page d s i offset
  unfolding read_position
  read_text i offset = refl

  pub follow_end : (fuel : ℕ) → Delivers fuel none [] []
  unfolding follow delivered_text delivered_packets
  follow_end zero = ([], refl, refl, refl)
  follow_end (suc fuel) = ([], refl, refl, refl)

  pub left_end : (i : ℕ) → length s.items ≤ i → left d s i 0 ≡ []
  unfolding all_text
  left_end i h = ap all_text (drop_none s.items i h)

  page_text :
      (offset stop : ℕ) (item : EvidenceTextItem D) (next : Option CursorPosition)
      → segments_text (completed_by next (page_to d s offset stop item)).segments
        ≡ slice item.text offset stop
  unfolding segments_text text_page_candidate
  page_text offset stop item next =
      ap segments_text (completed_by-keeps next (page_to d s offset stop item)).0
      ∙ append_nil (slice item.text offset stop)

  page_packets :
      (offset stop : ℕ) (item : EvidenceTextItem D) (next : Option CursorPosition)
      → (completed_by next (page_to d s offset stop item)).packets ≡ []
  unfolding text_page_candidate base_page
  page_packets offset stop item next = (completed_by-keeps next (page_to d s offset stop item)).1

-- A text of a snapshot is valid UTF-8 and not empty.
abbrev pub IsText : {D : Type 0} → EvidenceTextItem D → Type 0
IsText item = (0 < length item.text) × (valid_utf8 item.text ≡ true)

module _ {D M : Type 0} (d : Delivery D M) (s : EvidenceSnapshot D M)
    (token : CursorPosition → Bytes) (tokens : TokensFit d token) (texts : All IsText s.items)
    (moved_fits : (i offset : ℕ) (item : EvidenceTextItem D)
      → get_elem? s.items i ≡ some item
      → text_fits d s item i offset (best_end d s item i offset) ≡ true
      → text_fits d s item i offset (end_of d s i offset item) ≡ true)
    (rune_fits : (i offset : ℕ) (item : EvidenceTextItem D)
      → get_elem? s.items i ≡ some item
      → offset < length item.text
      → text_fits d s item i offset (next_boundary item.text offset) ≡ true) where
  text_sent :
      (i offset : ℕ) (item : EvidenceTextItem D)
      → get_elem? s.items i ≡ some item
      → offset < best_end d s item i offset
      → Sends d token
          (completed_by
            (next_after_text s item i (end_of d s i offset item))
            (page_to d s offset (end_of d s i offset item) item))
          (next_after_text s item i (end_of d s i offset item))
  unfolding best_end text_fits completed_by set_placeholder_continuation text_page_candidate
      base_page
  text_sent i offset item here h =
      let stop = end_of d s i offset item in
      let room = length item.text - offset in
      let best : text_fits d s item i offset (best_end d s item i offset) ≡ true =
        elim (search_end_fits (text_fits d s item i offset) (tried_end item.text offset) room 1 room
          0 (inl refl)) [
            | inl none_found ↦ absurd (omega (arith, h, none_found))
            | inr fit ↦ fit
          ] in
      fits-Sends d token (page_to d s offset stop item) (next_after_text s item i stop) tokens refl
        (moved_fits i offset item here best)

  abbrev TextsFollow : ℕ → Type 0
  TextsFollow fuel =
      (i offset : ℕ) (item : EvidenceTextItem D)
      → Stands d s i offset item
      → length (left d s i offset) ≤ fuel
      → Delivers d s token fuel (some (position d s i offset)) [] (left d s i offset)

  -- The page ends inside its text, or the next text follows, or none does.
  next_page :
      (fuel : ℕ)
      → TextsFollow fuel
      → (i offset stop : ℕ) (item : EvidenceTextItem D) → get_elem? s.items i ≡ some item
      → EndsWell item.text offset stop
      → length (left d s i stop) ≤ fuel
      → Delivers d s token fuel (next_after_text s item i stop) [] (left d s i stop)
  unfolding next_after_text
  next_page fuel ih i offset stop item here (moves, within, begins) enough =
      elim (Bool-cases (ltb stop (length item.text))) [
        | inl inside ↦
            rw (next_after_text, inside) (ih i stop item (here, ground arith, begins) enough)
        | inr over ↦
            let behind : left d s i stop ≡ left d s (suc i) 0 =
              left_eq d s i stop item here within
              ∙ ap (λ t. t ++ left d s (suc i) 0) (drop_all stop item.text (ground arith)) in
            elim (Bool-cases (ltb (suc i) (length s.items))) [
              | inl another ↦
                  let (item', there) = get_elem?_inside s.items (suc i) (ground arith) in
                  let (some_text, valid) = get_elem?-All IsText s.items (suc i) item' texts there in
                  rw (next_after_text, over, another, behind)
                    (ih (suc i) 0 item' (there, some_text, starts_zero item'.text valid)
                      (omega (arith, ap (length {A = ℕ}) behind, enough)))
              | inr last ↦
                  rw
                    (next_after_text, over, last, behind, left_end d s token (suc i) (ground arith))
                    (follow_end d s token fuel)
            ]
      ]

  pub follow_texts : (fuel : ℕ) → TextsFollow fuel
  follow_texts zero i offset item (here, h, e) enough = absurd (
      omega (
        arith,
        ap (length {A = ℕ}) (left_eq d s i offset item here (omega (arith, h))),
        length-append (drop offset item.text) (left d s (suc i) 0),
        length-drop offset item.text,
      ))
  follow_texts (suc fuel) i offset item (here, h, e) enough =
      let (some_text, valid) = get_elem?-All IsText s.items i item texts here in
      let (best, (moves, within, begins)) =
        page_end-EndsWell d s i offset item (here, h, e) valid (rune_fits i offset item here h) in
      let stop = end_of d s i offset item in
      let next = next_after_text s item i stop in
      let step = left_step d s i offset stop item here (omega (arith, moves)) within in
      let after : Delivers d s token fuel next [] (left d s i stop) =
        next_page fuel (follow_texts fuel) i offset stop item here (moves, within, begins)
          (omega (
            arith,
            enough,
            moves,
            within,
            ap (length {A = ℕ}) step,
            length-append (slice item.text offset stop) (left d s i stop),
            length-take (stop - offset) (drop offset item.text),
            length-drop offset item.text,
          )) in
      let page = completed_by next (page_to d s offset stop item) in
      same_delivery d s token (suc fuel) (some (position d s i offset))
        (ap (λ ps. ps ++ []) (page_packets d s token offset stop item next))
        (ap (λ t. t ++ left d s i stop) (page_text d s token offset stop item next) ∙ step)
        (follow_step d s token fuel (position d s i offset) page next [] (left d s i stop)
          (read_text d s token i offset ∙ build_text_page_ok d s i offset item (here, h, e) best.0)
          (text_sent i offset item here best.0) after)
