-- ===== src/Mcp/Fetch/Requests.antt =====
-- Arguments of a lookup.
use pocket_advisor.Prelude.{ℕ, zero, suc, ◌≡◌, refl, [], ◌∷◌, none, some, Bytes, bytes}
use pocket_advisor.Prelude.Runes.{trim, rune_count, is_pair, is_triple, is_quad}
use pocket_advisor.Mcp.Page.{err, argument_invalid}
use pocket_advisor.Mcp.Fetch.Lookup.{
  FetchDocumentArguments, Clockwork, validate_fetch_document_arguments,
}

-- Every text is read as the seventh day.
abbrev clockwork : Clockwork
clockwork = record {
  parse_timestamp = λ s. none;
  parse_day = λ s. some 7;
  truncate_to_day = λ t. t;
  day_text = λ t. bytes "2026-01-07";
  hash = λ s. s;
  lower = λ s. s;
}

abbrev arguments : FetchDocumentArguments
arguments = record {
  sender = bytes " ";
  subject = bytes "hi ";
  filename = [];
  date = some (bytes "2026-01-07");
  cursor = none;
}

-- A name of 300 letters of two bytes each has too many bytes.
abbrev letters : ℕ → Bytes
letters zero = []
letters (suc n) = 195 ∷ 169 ∷ letters n

long_filename :
    validate_fetch_document_arguments clockwork
      (record arguments { filename = letters 300; subject = []; date = none })
    ≡ err (argument_invalid (bytes "filename exceeds the bounded length"))
unfolding validate_fetch_document_arguments trim rune_count is_pair is_triple is_quad
long_filename = refl
