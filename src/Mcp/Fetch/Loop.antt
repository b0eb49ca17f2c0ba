-- ===== src/Mcp/Fetch/Loop.antt =====
-- internal/mcp/document.go: what the loop of `buildDocumentPage` leaves.
use pocket_advisor.Prelude.{
  ℕ, zero, suc, ◌≤◌, ◌<◌, ◌≡◌, refl, ap, sym, subst, ◌∙◌, ◌⊎◌, inl, inr, Bool, List, [], ◌∷◌, ◌++◌,
  Option, none, some, arith, Bytes, length, drop, get_elem?, All,
}
use pocket_advisor.Mcp.Page.{ok}
use pocket_advisor.Mcp.Build.Follow.{append_nil}
use pocket_advisor.Mcp.Documents.{
  FetchedDocument, DocumentMatch, DocumentSizes, DocumentPosition, phase_text,
}
use pocket_advisor.Mcp.Fetch.{Turn, failed, stopped, advanced, match_turn, fill_documents}
use pocket_advisor.Mcp.Fetch.Pieces.{Piece, delivered, left_from, whole}
use pocket_advisor.Mcp.Fetch.Turns.{Fits, Good, Resumes}
use pocket_advisor.Mcp.Fetch.Fill.{IsMatch, Enters, FitsAlone, ShorterFits, match_turn-Good}

Turn-cases :
    {L : Type 0} (t : Turn L)
    → (t ≡ failed)
      ⊎ (((documents : List (FetchedDocument L)) × (next : DocumentPosition) × (t
              ≡ stopped documents next))
          ⊎ ((documents : List (FetchedDocument L)) × (t ≡ advanced documents)))
Turn-cases failed = inl refl
Turn-cases (stopped documents next) = inr (inl (documents, next, refl))
Turn-cases (advanced documents) = inr (inr (documents, refl))

pub drop_head {ℓ} :
    {A : Type ℓ} (xs : List A) (i : ℕ) (y : A) (ys : List A)
    → drop i xs ≡ y ∷ ys
    → (get_elem? xs i ≡ some y) × (drop (suc i) xs ≡ ys)
drop_head [] zero y ys e = absurd cc
drop_head [] (suc i) y ys e = absurd cc
drop_head (x ∷ xs) zero y ys e = let same : x ≡ y = cc in (ap some same, cc)
drop_head (x ∷ xs) (suc i) y ys e = drop_head xs i y ys e

pub left_start : {L : Type 0} (ms : List (DocumentMatch L)) → left_from phase_text 0 ms ≡ whole ms
unfolding left_from whole
left_start [] = refl
left_start (m ∷ ms) = refl

-- The place where a page begins, when there are matches.
abbrev pub EntersAll : {L : Type 0} → List (DocumentMatch L) → Bytes → ℕ → ℕ → Type 0
EntersAll [] phase offset index = Unit {0}
EntersAll (m ∷ ms) phase offset index = Enters m phase offset index

enters_next :
    {L : Type 0} (ms : List (DocumentMatch L)) (index : ℕ) → EntersAll ms phase_text 0 index
enters_next [] index = tt
enters_next (m ∷ ms) index = inl (refl, refl)

module _ {L : Type 0} (sizes : DocumentSizes L) (more : Bool) (snapshot : ℕ) where
  -- What the loop leaves: everything was delivered, or the place where the next page begins.
  abbrev pub Stops :
      List (DocumentMatch L)
      → List (Piece L)
      → ℕ
      → ℕ
      → List (FetchedDocument L)
      → Option DocumentPosition
      → Type 0
  Stops matches target before index documents none = delivered documents ≡ target
  Stops matches target before index documents (some p) =
      (delivered documents ++ left_from p.phase p.offset (drop p.index matches) ≡ target)
      × (index ≤ p.index)
      × ((m : DocumentMatch L) × (get_elem? matches p.index ≡ some m) × Resumes m p)
      × ((0 < before) ⊎ ((index < p.index) ⊎ (0 < length (delivered documents))))

  module _ (matches : List (DocumentMatch L)) where
    abbrev pub Filled : List (FetchedDocument L) → ℕ → Bytes → ℕ → List (DocumentMatch L) → Type 0
    Filled documents index phase offset ms =
        (page : List (FetchedDocument L)) × (next : Option DocumentPosition) × (fill_documents sizes
            more snapshot documents index phase offset ms
          ≡ ok (page, next))
        × Fits sizes more snapshot page
        × Stops matches (delivered documents ++ left_from phase offset ms) (length documents) index
            page next

    widened :
        (target target' : List (Piece L)) (before before' index : ℕ)
        (page : List (FetchedDocument L)) (next : Option DocumentPosition)
        → target ≡ target'
        → Stops matches target before (suc index) page next
        → Stops matches target' before' index page next
    widened target target' before before' index page none e stops = stops ∙ e
    widened target target' before before' index page (some p) e (eq, h, there, progress) =
        (eq ∙ e, omega (arith, h), there, inr (inl (omega (arith, h))))

    pub fill-Filled :
        (shorter : ShorterFits sizes more snapshot) (documents : List (FetchedDocument L))
        (index : ℕ) (phase : Bytes) (offset : ℕ) (ms : List (DocumentMatch L))
        → drop index matches ≡ ms
        → All IsMatch ms
        → All (FitsAlone sizes more snapshot) ms
        → Fits sizes more snapshot documents
        → EntersAll ms phase offset index
        → Filled documents index phase offset ms
    unfolding fill_documents left_from
    fill-Filled shorter documents index phase offset [] there well alone f enters =
        (documents, none, refl, f, sym (append_nil (delivered documents)))
    fill-Filled shorter documents index phase offset (m ∷ ms) there well alone f enters =
        let (here, behind) = drop_head matches index m ms there in
        let target = delivered documents ++ left_from phase offset (m ∷ ms) in
        let turn = match_turn sizes more snapshot documents m index phase offset in
        let good =
          match_turn-Good sizes more snapshot shorter documents m ms index well.0 alone.0 f phase
            offset enters in
        elim (Turn-cases turn) [
          | inl e ↦
              let none_there : 0 < 0 =
                subst (Good sizes more snapshot target documents m ms index) e good in
              absurd (omega (arith, none_there))
          | inr (inl (page, next, e)) ↦
              let (eq, fits, same, resumes, progress) =
                subst (Good sizes more snapshot target documents m ms index) e good in
              let place = ap (λ i. drop i matches) same ∙ there in
              (
                page,
                some next,
                rw (fill_documents, e) refl,
                fits,
                (
                  ap (λ l. delivered page ++ left_from next.phase next.offset l) place ∙ eq,
                  omega (arith, same),
                  (m, ap (get_elem? matches) same ∙ here, resumes),
                  elim progress [ inl h ↦ inl h | inr h ↦ inr (inr h) ],
                ),
              )
          | inr (inr (page, e)) ↦
              let (eq, fits, some_there) =
                subst (Good sizes more snapshot target documents m ms index) e good in
              let (page', next, filled, fits', stops) =
                fill-Filled shorter page (suc index) phase_text 0 ms behind well.1 alone.1 fits
                  (enters_next ms (suc index)) in
              (
                page',
                next,
                rw (fill_documents, e) filled,
                fits',
                widened (delivered page ++ left_from phase_text 0 ms) target (length page)
                    (length documents) index page' next
                    (ap (λ l. delivered page ++ l) (left_start ms) ∙ eq) stops,
              )
        ]
