-- ===== src/Mcp/Fetch/Pieces.antt =====
-- internal/mcp/document.go: what pages carry of the matches, as one sequence of the bytes of their texts
-- and of their attachments, each with the document that it belongs to.
use pocket_advisor.Prelude.{
  ℕ, ◌≤◌, ◌≡◌, refl, ap, sym, ◌∙◌, List, [], ◌∷◌, ◌++◌, Bytes, bytes_eq, if◌then◌else◌, take, drop,
  map, take-append-drop,
}
use pocket_advisor.Chunker.Split.{slice}
use pocket_advisor.Mcp.Build.Texts.{slice-append-drop, append_assoc}
use pocket_advisor.Mcp.Build.Follow.{append_nil}
use pocket_advisor.Mcp.Documents.{AttachmentDocument, FetchedDocument, DocumentMatch, phase_text}

pub data Piece (L : Type 0) : Type 0 where
  text_byte : Bytes → ℕ → Piece L
  attached : Bytes → AttachmentDocument L → Piece L

map-append {ℓ κ} :
    {A : Type ℓ} {B : Type κ} (f : A → B) (xs ys : List A) → map f (xs ++ ys) ≡ map f xs ++ map f ys
map-append f [] ys = refl
map-append f (x ∷ xs) ys = ap (◌∷◌ (f x)) (map-append f xs ys)

module _ {L : Type 0} where
  abbrev pub pieces_of : Bytes → Bytes → List (AttachmentDocument L) → List (Piece L)
  pieces_of id text attachments = map (text_byte id) text ++ map (attached id) attachments

  unfoldable pub delivered : List (FetchedDocument L) → List (Piece L)
  delivered [] = []
  delivered (d ∷ ds) = pieces_of d.doc_id d.text d.attachments ++ delivered ds

  -- All that the matches have.
  unfoldable pub whole : List (DocumentMatch L) → List (Piece L)
  whole [] = []
  whole (m ∷ ms) = pieces_of m.header.doc_id m.text m.attachments ++ whole ms

  -- What they have from a place in the first of them on.
  unfoldable pub left_from : Bytes → ℕ → List (DocumentMatch L) → List (Piece L)
  unfolding whole
  left_from phase offset [] = []
  left_from phase offset (m ∷ ms) =
      if bytes_eq phase phase_text
      then pieces_of m.header.doc_id (drop offset m.text) m.attachments ++ whole ms
      else pieces_of m.header.doc_id [] (drop offset m.attachments) ++ whole ms

  pub delivered-append :
      (ds : List (FetchedDocument L)) (d : FetchedDocument L) (rest : List (Piece L))
      → delivered (ds ++ d ∷ []) ++ rest
        ≡ delivered ds ++ (pieces_of d.doc_id d.text d.attachments ++ rest)
  unfolding delivered
  delivered-append [] d rest =
      ap (λ ps. ps ++ rest) (append_nil (pieces_of d.doc_id d.text d.attachments))
  delivered-append (e ∷ ds) d rest =
      let front = pieces_of e.doc_id e.text e.attachments in
      append_assoc front (delivered (ds ++ d ∷ [])) rest
      ∙ (ap (λ ps. front ++ ps) (delivered-append ds d rest)
          ∙ sym
              (append_assoc front (delivered ds) (pieces_of d.doc_id d.text d.attachments ++ rest)))

  -- A text that is cut in two, the second part with the attachments.
  pub pieces_of-texts :
      (id s : Bytes) (a b : ℕ) (attachments : List (AttachmentDocument L)) (rest : List (Piece L))
      → a ≤ b
      → pieces_of id (slice s a b) [] ++ (pieces_of id (drop b s) attachments ++ rest)
        ≡ pieces_of id (drop a s) attachments ++ rest
  pieces_of-texts id s a b attachments rest h =
      let first : List (Piece L) = map (text_byte id) (slice s a b) in
      let second : List (Piece L) = map (text_byte id) (drop b s) in
      let last : List (Piece L) = map (attached id) attachments in
      let joined : first ++ second ≡ map (text_byte id) (drop a s) =
        sym (map-append (text_byte id) (slice s a b) (drop b s))
        ∙ ap (map (text_byte id)) (slice-append-drop s a b h) in
      ap (λ ps. ps ++ ((second ++ last) ++ rest)) (append_nil first)
      ∙ (sym (append_assoc first (second ++ last) rest)
          ∙ ap (λ ps. ps ++ rest)
              (sym (append_assoc first second last) ∙ ap (λ ps. ps ++ last) joined))

  -- Attachments that are cut in two, the first part with a text.
  pub pieces_of-attachments :
      (id text : Bytes) (n : ℕ) (attachments : List (AttachmentDocument L)) (rest : List (Piece L))
      → pieces_of id text (take n attachments) ++ (pieces_of id [] (drop n attachments) ++ rest)
        ≡ pieces_of id text attachments ++ rest
  pieces_of-attachments id text n attachments rest =
      let first : List (Piece L) = map (text_byte id) text in
      let second : List (Piece L) = map (attached id) (take n attachments) in
      let last : List (Piece L) = map (attached id) (drop n attachments) in
      let joined : second ++ last ≡ map (attached id) attachments =
        sym (map-append (attached id) (take n attachments) (drop n attachments))
        ∙ ap (map (attached id)) (take-append-drop n attachments) in
      sym (append_assoc (first ++ second) last rest)
      ∙ ap (λ ps. ps ++ rest) (append_assoc first second last ∙ ap (λ ps. first ++ ps) joined)
