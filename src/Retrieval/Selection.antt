-- ===== src/Retrieval/Selection.antt =====
-- internal/retrieval/select.go: `selectPackets`, which narrows the reranked pool to what is returned.
-- `strings.Fields` is an argument.
pub mod Laws
pub mod Coverage
use pocket_advisor.Prelude.{
  ℕ, suc, ◌+◌, Bool, true, false, not, ◌&&◌, List, [], ◌∷◌, ◌++◌, Bytes, bytes_Eq, contains, leb,
  if◌then◌else◌, length,
}
use pocket_advisor.Retrieval.{Candidate}

pub record Scored (F : Type 0) : Type 0 where
  pub candidate : Candidate F
  pub score : F

-- `strings.Join(fields, " ")`.
unfoldable pub join : List Bytes → Bytes
join [] = []
join (w ∷ ws) = elim ws [ [] ↦ w | v ∷ vs ↦ w ++ (b' ' ∷ join ws) ]

unfoldable pub content_key : (Bytes → List Bytes) → Bytes → Bytes
unfolding join
content_key fields text = join (fields text)

abbrev pub is_blank : Bytes → Bool
is_blank [] = true
is_blank (b ∷ bs) = false

-- `selection` with the two sets of `selectPackets`.
pub record Selection (F : Type 0) : Type 0 where
  pub picked : List (Scored F)
  pub floored_count : ℕ
  pub seen_doc : List Bytes
  pub seen_text : List Bytes

module _ {F : Type 0} (less : F → F → Bool) (fields : Bytes → List Bytes) (min_score : F) where
  abbrev pub key_of : Scored F → Bytes
  key_of r = content_key fields r.candidate.text

  -- A text that is already picked; an empty key is no text to compare.
  abbrev pub repeats_text : Scored F → Selection F → Bool
  repeats_text r s = not (is_blank (key_of r)) && contains s.seen_text (key_of r)

  unfoldable pub pick : Scored F → Selection F → Selection F
  pick r s = record s {
    picked = s.picked ++ r ∷ [];
    seen_doc = r.candidate.doc_id ∷ s.seen_doc;
    seen_text = (if is_blank (key_of r) then s.seen_text else key_of r ∷ s.seen_text);
  }

  -- The body of the loop.
  unfoldable pub select_one : ℕ → Scored F → Selection F → Selection F
  unfolding pick
  select_one top_k r s =
      if less r.score min_score
      then record s { floored_count = s.floored_count + 1 }
      else if leb top_k (length s.picked)
      then s
      else if contains s.seen_doc r.candidate.doc_id
      then s
      else if repeats_text r s
      then s
      else pick r s

  unfoldable pub select_all : ℕ → List (Scored F) → Selection F → Selection F
  unfolding select_one
  select_all top_k [] s = s
  select_all top_k (r ∷ rs) s = select_all top_k rs (select_one top_k r s)

  abbrev pub nothing_picked : Selection F
  nothing_picked = record { picked = []; floored_count = 0; seen_doc = []; seen_text = [] }

  unfoldable pub select_packets : List (Scored F) → ℕ → Selection F
  unfolding select_all
  select_packets ranked top_k = select_all top_k ranked nothing_picked
