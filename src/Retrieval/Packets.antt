-- ===== src/Retrieval/Packets.antt =====
-- internal/retrieval/packets.go and the budget of expand.go: the packets of the picked matches, with
-- their text and their related documents. The documents, their texts and the neighbours are what the
-- statements of expand.go return. The snippet and the digest of a match are left out.
pub mod Counts
pub mod Laws
use pocket_advisor.Prelude.{
  ℕ, zero, suc, ◌+◌, ◌-◌, Bool, true, false, not, ◌&&◌, List, [], ◌∷◌, ◌++◌, map, Option, none,
  some, Bytes, bytes, bytes_eq, bytes_Eq, contains, ltb, ◌==◌, if◌then◌else◌, length, get_elem?,
}
use pocket_advisor.Retrieval.{Candidate}
use pocket_advisor.Retrieval.Selection.{Scored, is_blank}

pub record Document : Type 0 where
  pub doc_id : Bytes
  pub parent_id : Bytes

pub data Relation : Type 0 where
  parent child sibling : Relation

pub record Related : Type 0 where
  pub document : Document
  pub relation : Relation
  pub text : Bytes

-- `neighbour`: a related document whose own text is not set yet.
pub record Neighbour : Type 0 where
  pub document : Document
  pub relation : Relation
  pub text : Bytes

pub data Legs : Type 0 where
  dense lexical both : Legs

pub record Packet (F : Type 0) : Type 0 where
  pub document : Document
  pub chunk_id : Bytes
  pub start_byte : ℕ
  pub end_byte : ℕ
  pub score : F
  pub legs : Legs
  pub sub_query : Bytes
  pub text : Bytes
  pub related : List Related

-- `budgeter`.
pub record Budget : Type 0 where
  pub remaining : ℕ
  pub used : ℕ
  pub truncated : Bool

abbrev pub new_budget : ℕ → Budget
new_budget limit = record { remaining = limit; used = 0; truncated = false }

unfoldable pub take_text : Bytes → Budget → Option Bytes × Budget
take_text text b =
    if length text == 0
    then (some [], b)
    else if ltb b.remaining (length text)
    then (none, record b { truncated = true })
    else (
      some text,
      record b { remaining = b.remaining - length text; used = b.used + length text },
    )

abbrev pub same_relation : Relation → Relation → Bool
same_relation parent parent = true
same_relation child child = true
same_relation sibling sibling = true
same_relation _ _ = false

unfoldable pub sub_query_of : List Bytes → ℕ → Bytes
sub_query_of sub_queries i =
    if ltb 1 (length sub_queries) && ltb i (length sub_queries)
    then elim (get_elem? sub_queries i) [ none ↦ [] | some q ↦ q ]
    else []

-- The variables of the expansion.
pub record Expansion (F : Type 0) : Type 0 where
  pub packets : List (Packet F)
  pub attached : List Bytes
  pub budget : Budget

module _ {F : Type 0} where
  unfoldable pub legs_of : Candidate F → Legs
  legs_of c =
      if ltb 0 c.dense_rank && ltb 0 c.lex_rank
      then both
      else if c.dense_rank == 0
      then lexical
      else dense

  -- The packets of the matches whose document is found, without text.
  unfoldable pub bare_packets :
      (Bytes → Option Document) → List Bytes → List (Scored F) → List (Packet F)
  unfolding legs_of sub_query_of
  bare_packets docs sub_queries [] = []
  bare_packets docs sub_queries (p ∷ ps) =
      let rest = bare_packets docs sub_queries ps in
      elim (docs p.candidate.doc_id) [
        | none ↦ rest
        | some d ↦
            record {
              document = d;
              chunk_id = p.candidate.chunk_id;
              start_byte = p.candidate.start_byte;
              end_byte = p.candidate.end_byte;
              score = p.score;
              legs = legs_of p.candidate;
              sub_query = sub_query_of sub_queries p.candidate.sub_query;
              text = [];
              related = [];
            }
            ∷ rest
      ]

  -- The matched documents in full, as far as the budget goes.
  unfoldable pub fill_texts : (Bytes → Bytes) → List (Packet F) → Budget → List (Packet F) × Budget
  unfolding take_text
  fill_texts texts [] b = ([], b)
  fill_texts texts (p ∷ ps) b =
      let (text, b') = take_text (texts p.document.doc_id) b in
      let (rest, b'') = fill_texts texts ps b' in
      (elim text [ none ↦ p | some t ↦ record p { text = t } ] ∷ rest, b'')

  -- The cases of `ownerOf`.
  unfoldable pub owns : Packet F → Neighbour → Bool
  owns p n = elim n.relation [
    | parent ↦ bytes_eq p.document.parent_id n.document.doc_id
    | child ↦ bytes_eq n.document.parent_id p.document.doc_id
    | sibling ↦
        not (is_blank p.document.parent_id) && bytes_eq p.document.parent_id n.document.parent_id
  ]

  -- `ownerOf`, and the append to that packet.
  unfoldable pub owner_of : List (Packet F) → Neighbour → Option ℕ
  unfolding owns
  owner_of [] n = none
  owner_of (p ∷ ps) n =
      let rest = owner_of ps n in
      if owns p n then some 0 else elim rest [ none ↦ none | some i ↦ some (suc i) ]

  unfoldable pub attach_at : ℕ → Related → List (Packet F) → List (Packet F)
  attach_at i r [] = []
  attach_at zero r (p ∷ ps) = record p { related = p.related ++ r ∷ [] } ∷ ps
  attach_at (suc i) r (p ∷ ps) = p ∷ attach_at i r ps

  unfoldable pub attach : ℕ → Neighbour → Expansion F → Expansion F
  unfolding take_text attach_at
  attach i n x =
      let (text, b) = take_text n.text x.budget in
      let r : Related = record {
        document = n.document;
        relation = n.relation;
        text = (elim text [ none ↦ [] | some t ↦ t ]);
      } in
      record {
        packets = attach_at i r x.packets;
        attached = n.document.doc_id ∷ x.attached;
        budget = b;
      }

  -- The body of the inner loop; `matched` are the documents of all picks.
  unfoldable pub expand_one : List Bytes → Relation → Neighbour → Expansion F → Expansion F
  unfolding owner_of attach
  expand_one matched rel n x =
      if not (same_relation n.relation rel)
      then x
      else if contains matched n.document.doc_id
      then x
      else if contains x.attached n.document.doc_id
      then x
      else elim (owner_of x.packets n) [ none ↦ x | some i ↦ attach i n x ]

  unfoldable pub expand : List Bytes → Relation → List Neighbour → Expansion F → Expansion F
  unfolding expand_one
  expand matched rel [] x = x
  expand matched rel (n ∷ ns) x = expand matched rel ns (expand_one matched rel n x)

  unfoldable pub expand_all : List Bytes → List Neighbour → Expansion F → Expansion F
  unfolding expand
  expand_all matched ns x =
      expand matched sibling ns (expand matched child ns (expand matched parent ns x))

  -- `buildPackets`, once its statements have answered.
  unfoldable pub build_packets :
      ℕ
      → (Bytes → Option Document)
      → (Bytes → Bytes)
      → List Neighbour
      → List Bytes
      → List (Scored F)
      → List (Packet F) × Budget
  unfolding bare_packets fill_texts expand_all
  build_packets limit docs texts neighbours sub_queries picked =
      let (filled, b) =
        fill_texts texts (bare_packets docs sub_queries picked) (new_budget limit) in
      let x =
        expand_all (map (λ p. p.candidate.doc_id) picked) neighbours
          (record { packets = filled; attached = []; budget = b }) in
      (x.packets, x.budget)
