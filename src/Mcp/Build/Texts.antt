-- ===== src/Mcp/Build/Texts.antt =====
-- internal/mcp/snapshot.go: the text pages of a snapshot, one after the other, are its texts.
use pocket_advisor.Prelude.{
  ℕ, zero, suc, ◌+◌, ◌-◌, ◌/◌, ◌≤◌, ◌<◌, ◌≡◌, refl, ap, sym, ◌∙◌, ◌⊎◌, inl, inr, Bool, true, false,
  List, [], ◌∷◌, ◌++◌, none, some, arith, Bytes, leb, Bool-cases, length, take, drop,
  take-append-drop, get_elem?,
}
use pocket_advisor.Prelude.Runes.{starts_at}
use pocket_advisor.Chunker.Split.{slice}
use pocket_advisor.Chunker.Slices.{drop-drop}
use pocket_advisor.Mcp.Page.{
  EvidencePage, EvidenceTextItem, EvidenceSnapshot, CursorPosition, in_text, ok, Delivery, text,
}
use pocket_advisor.Mcp.Build.{
  search_end, tried_end, next_boundary, text_fits, best_end, page_end, build_text_page, base_page,
  text_page_candidate, next_after_text, completed_by,
}
use pocket_advisor.Mcp.Build.Ends.{
  valid_utf8, EndsWell, tried_end-EndsWell, tried_end_one, paragraph_end-EndsWell, drop_there,
}

-- When the shortest page fits, the binary search ends at a tried end.
search_end-Tried :
    (P : ℕ → Type 0) (fits : ℕ → Bool) (end_at : ℕ → ℕ) (fuel low high best : ℕ)
    → ((m : ℕ) → P (end_at m))
    → fits (end_at 1) ≡ true
    → 0 < low
    → high < low + fuel
    → P best ⊎ ((low ≡ 1) × (1 ≤ high))
    → P (search_end fits end_at fuel low high best)
unfolding search_end
search_end-Tried P fits end_at zero low high best tried shortest pos enough (inl p) = p
search_end-Tried P fits end_at zero low high best tried shortest pos enough (inr (one, some_left)) =
    absurd (omega arith)
search_end-Tried P fits end_at (suc fuel) low high best tried shortest pos enough now =
    let middle = low + (high - low) / 2 in
    elim (Bool-cases (leb low high)) [
      | inr done ↦ elim now [
        | inl p ↦ rw (search_end, done) p
        | inr (one, some_left) ↦ absurd (ground arith)
      ]
      | inl more ↦
          let ordered : low ≤ high = ground arith in
          elim (Bool-cases (fits (end_at middle))) [
            | inl fit ↦
                rw (search_end, more, fit)
                  (search_end-Tried P fits end_at fuel (suc middle) high (end_at middle) tried
                    shortest (omega arith) (omega arith) (inl (tried middle)))
            | inr unfit ↦
                rw (search_end, more, unfit)
                  (search_end-Tried P fits end_at fuel low (middle - 1) best tried shortest pos
                    (omega arith)
                    (elim now [
                      | inl p ↦ inl p
                      | inr (one, some_left) ↦ elim (Bool-cases (leb middle 1)) [
                        | inl low_middle ↦
                            let at_one : middle ≡ 1 = ground arith in
                            let fits_there : fits (end_at middle) ≡ true =
                              ap (λ m. fits (end_at m)) at_one ∙ shortest in
                            absurd cc
                        | inr high_middle ↦ inr (one, ground arith)
                      ]
                    ]))
          ]
    ]

unfoldable pub all_text : {D : Type 0} → List (EvidenceTextItem D) → Bytes
all_text [] = []
all_text (item ∷ items) = item.text ++ all_text items

drop-append : (n : ℕ) (xs ys : Bytes) → n ≤ length xs → drop n (xs ++ ys) ≡ drop n xs ++ ys
drop-append zero xs ys h = refl
drop-append (suc n) [] ys h = absurd (omega arith)
drop-append (suc n) (x ∷ xs) ys h = drop-append n xs ys (omega arith)

pub drop_all : (n : ℕ) (xs : Bytes) → length xs ≤ n → drop n xs ≡ []
drop_all zero [] h = refl
drop_all zero (x ∷ xs) h = absurd (omega arith)
drop_all (suc n) [] h = refl
drop_all (suc n) (x ∷ xs) h = drop_all n xs (omega arith)

pub append_assoc {ℓ} : {A : Type ℓ} (xs ys zs : List A) → (xs ++ ys) ++ zs ≡ xs ++ (ys ++ zs)
append_assoc [] ys zs = refl
append_assoc (x ∷ xs) ys zs = ap (◌∷◌ x) (append_assoc xs ys zs)

-- The text up to an end, and that from there on.
pub slice-append-drop : (s : Bytes) (a b : ℕ) → a ≤ b → slice s a b ++ drop b s ≡ drop a s
slice-append-drop s a b h =
    let e : a + (b - a) ≡ b = omega arith in
    ap (λ rest. take (b - a) (drop a s) ++ rest)
      (sym (drop-drop (b - a) a s ∙ ap (λ n. drop n s) e))
    ∙ take-append-drop (b - a) (drop a s)

module _ {D M : Type 0} (d : Delivery D M) (s : EvidenceSnapshot D M) where
  -- The text from a position on.
  abbrev pub left : ℕ → ℕ → Bytes
  left i offset = drop offset (all_text (drop i s.items))

  pub left_eq :
      (i offset : ℕ) (item : EvidenceTextItem D)
      → get_elem? s.items i ≡ some item
      → offset ≤ length item.text
      → left i offset ≡ drop offset item.text ++ left (suc i) 0
  unfolding all_text
  left_eq i offset item here h =
      let (e, within) = drop_there s.items i item here in
      ap (λ items. drop offset (all_text items)) e
      ∙ drop-append offset item.text (all_text (drop (suc i) s.items)) h

  pub left_step :
      (i offset stop : ℕ) (item : EvidenceTextItem D)
      → get_elem? s.items i ≡ some item
      → offset ≤ stop
      → stop ≤ length item.text
      → slice item.text offset stop ++ left i stop ≡ left i offset
  left_step i offset stop item here h k =
      ap (λ rest. slice item.text offset stop ++ rest) (left_eq i stop item here k)
      ∙ (sym (append_assoc (slice item.text offset stop) (drop stop item.text) (left (suc i) 0))
          ∙ (ap (λ t. t ++ left (suc i) 0) (slice-append-drop item.text offset stop h)
              ∙ sym (left_eq i offset item here (omega arith))))

  -- A position where a rune of a text begins, and the item there.
  abbrev pub Stands : ℕ → ℕ → EvidenceTextItem D → Type 0
  Stands i offset item =
      (get_elem? s.items i ≡ some item)
      × (offset < length item.text)
      × (starts_at item.text offset ≡ true)

  abbrev pub end_of : ℕ → ℕ → EvidenceTextItem D → ℕ
  end_of i offset item = page_end item.text offset (best_end d s item i offset)

  pub page_end-EndsWell :
      (i offset : ℕ) (item : EvidenceTextItem D)
      → Stands i offset item
      → valid_utf8 item.text ≡ true
      → text_fits d s item i offset (next_boundary item.text offset) ≡ true
      → EndsWell item.text offset (best_end d s item i offset)
        × EndsWell item.text offset (end_of i offset item)
  unfolding best_end page_end
  page_end-EndsWell i offset item (here, h, e) v fits =
      let best : EndsWell item.text offset (best_end d s item i offset) =
        search_end-Tried (EndsWell item.text offset) (text_fits d s item i offset)
          (tried_end item.text offset) (length item.text - offset) 1 (length item.text - offset) 0
          (tried_end-EndsWell item.text offset v h e)
          (ap (text_fits d s item i offset) (tried_end_one item.text offset v h e) ∙ fits)
          (omega arith) (omega arith) (inr (refl, omega arith)) in
      (
        best,
        let paragraph =
              paragraph_end-EndsWell item.text offset (best_end d s item i offset) v best.1 in
            ground arith,
      )

  abbrev pub position : ℕ → ℕ → CursorPosition
  position i offset = record { phase = in_text; index = i; offset = offset }

  -- The page that stands there when it ends at `stop`.
  abbrev pub page_to : ℕ → ℕ → EvidenceTextItem D → EvidencePage D M
  page_to offset stop item = text_page_candidate (base_page s text none []) item offset stop

  pub build_text_page_ok :
      (i offset : ℕ) (item : EvidenceTextItem D)
      → Stands i offset item
      → offset < best_end d s item i offset
      → build_text_page d s i offset
        ≡ ok (
          completed_by
              (next_after_text s item i (end_of i offset item))
              (page_to offset (end_of i offset item) item),
          next_after_text s item i (end_of i offset item),
        )
  unfolding build_text_page
  build_text_page_ok i offset item (here, h, e) k =
      let inside : leb (length item.text) offset ≡ false = ground arith in
      let found : leb (best_end d s item i offset) offset ≡ false = ground arith in
      rw (build_text_page, here, inside, e, found) refl
