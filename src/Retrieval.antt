-- ===== src/Retrieval.antt =====
-- internal/retrieval: from the candidates of the search to the packets that are returned.
pub mod Pool
pub mod Selection
pub mod Packets
pub mod Rerank
pub mod Examples
use pocket_advisor.Prelude.{ℕ, Bytes}

-- `candidate` of fuse.go. `F` is the type of floating-point scores, which are only compared.
pub record Candidate (F : Type 0) : Type 0 where
  pub chunk_id : Bytes
  pub doc_id : Bytes
  pub text : Bytes
  pub start_byte : ℕ
  pub end_byte : ℕ
  pub dense_rank : ℕ  -- 0 when the dense leg did not return it
  pub lex_rank : ℕ  -- 0 when the lexical leg did not return it
  pub rrf : F
  pub sub_query : ℕ
