-- ===== src/Mcp/Fetch/TextEnds.antt =====
-- internal/mcp/document.go: where the parts of a text end.
use pocket_advisor.Prelude.{
  ℕ, zero, suc, ◌≤◌, ◌<◌, ◌≡◌, ap, ap₂, sym, inl, inr, true, List, [], ◌∷◌, arith, Bytes, ltb, leb,
  Bool-cases, length,
}
use pocket_advisor.Prelude.Runes.{rune_size, starts_at}
use pocket_advisor.Chunker.Split.{back_to_start}
use pocket_advisor.Chunker.Tiling.{back_to_start_le}
use pocket_advisor.Mcp.Build.{boundary_at_or_before, preferred_paragraph_end, page_end}
use pocket_advisor.Mcp.Build.Ends.{
  valid_utf8, EndsWell, starts_zero, starts_back, starts_behind, paragraph_end-EndsWell,
  paragraph_end_le,
}
use pocket_advisor.Mcp.Documents.{AttachmentDocument, FetchedDocument, with_attachments}

pub rune_size_le : (s : Bytes) → rune_size s ≤ 4
unfolding rune_size
rune_size_le [] = omega arith
rune_size_le (a ∷ []) = omega arith
rune_size_le (a ∷ b ∷ []) = ground arith
rune_size_le (a ∷ b ∷ c ∷ []) = ground arith
rune_size_le (a ∷ b ∷ c ∷ d ∷ s) = ground arith

-- Going back from a place stops where a rune begins, at the latest.
back_to_start_least : (s : Bytes) (p n : ℕ) → starts_at s p ≡ true → p ≤ n → p ≤ back_to_start s n
unfolding back_to_start
back_to_start_least s p zero e h = h
back_to_start_least s p (suc n) e h = elim (Bool-cases (starts_at s (suc n))) [
  | inl here ↦ rw (back_to_start, here) h
  | inr later ↦ elim (Bool-cases (leb p n)) [
    | inl under ↦ rw (back_to_start, later) (back_to_start_least s p n e (ground arith))
    | inr at_once ↦
        absurd (let same : p ≡ suc n = ground arith in let there = ap (starts_at s) same in cc)
  ]
]

pub boundary_least :
    (s : Bytes) (p n : ℕ)
    → starts_at s p ≡ true
    → p ≤ n
    → p ≤ length s
    → p ≤ boundary_at_or_before s n
unfolding boundary_at_or_before
boundary_least s p n e h k = ground (arith, back_to_start_least s p n e h)

pub boundary_le :
    (s : Bytes) (n : ℕ) → (boundary_at_or_before s n ≤ n) × (boundary_at_or_before s n ≤ length s)
unfolding boundary_at_or_before
boundary_le s n = ground (arith, back_to_start_le s n)

pub boundary_starts :
    (s : Bytes) (n : ℕ) → valid_utf8 s ≡ true → starts_at s (boundary_at_or_before s n) ≡ true
unfolding boundary_at_or_before
boundary_starts s n v =
    let back = starts_back s n (starts_zero s v) in
    let ends = starts_behind s (length s) (omega arith) in ground arith

-- The end of a page that does not end the text.
pub page_end_within :
    (s : Bytes) (offset best : ℕ)
    → valid_utf8 s ≡ true
    → EndsWell s offset best
    → EndsWell s offset (page_end s offset best) × (page_end s offset best ≤ best)
unfolding page_end
page_end_within s offset best v (h, k, e) =
    elim (Bool-cases (ltb offset (preferred_paragraph_end s offset best))) [
      | inl taken ↦
          let within : offset < preferred_paragraph_end s offset best = ground arith in
          rw (page_end, taken)
            (paragraph_end-EndsWell s offset best v k within, paragraph_end_le s offset best within)
      | inr left ↦ rw (page_end, left) ((h, k, e), omega arith)
    ]

-- No attachments from the start change nothing.
pub with_attachments_none :
    {L : Type 0} (e : FetchedDocument L) (attachments : List (AttachmentDocument L))
    → e.attachments ≡ []
    → e.attachments_offset ≡ 0
    → with_attachments e attachments 0 0 ≡ e
unfolding with_attachments
with_attachments_none e attachments h k =
    ap₂ (λ items n. record e { attachments = items; attachments_offset = n }) (sym h) (sym k)
