-- ===== src/Mcp/Fetch/Modes.antt =====
-- internal/mcp/document.go: which arguments a lookup accepts.
use pocket_advisor.Prelude.{ℕ, ◌≡◌, [], Option, none, Bytes}
use pocket_advisor.Mcp.Page.{ok}
use pocket_advisor.Mcp.Fetch.Lookup.{
  FetchDocumentMode, by_filename, by_sender_date, by_subject_date, Clockwork, parse_mailbox_date,
  set_one,
}

-- The attribute that a mode looks up by is set, and the others are not.
abbrev pub Alone : FetchDocumentMode → Bytes → Bytes → Bytes → Type 0
Alone by_filename filename sender subject = (set_one filename ≡ 1) × (sender ≡ []) × (subject ≡ [])
Alone by_sender_date filename sender subject =
    (set_one sender ≡ 1) × (filename ≡ []) × (subject ≡ [])
Alone by_subject_date filename sender subject =
    (set_one subject ≡ 1) × (filename ≡ []) × (sender ≡ [])

module _ (c : Clockwork) where
  -- A lookup by filename has no date, and the others have one that is read.
  abbrev pub Dated : FetchDocumentMode → Option Bytes → Type 0
  Dated by_filename date = date ≡ none
  Dated by_sender_date date = (day : ℕ) × (parse_mailbox_date c date ≡ ok day)
  Dated by_subject_date date = (day : ℕ) × (parse_mailbox_date c date ≡ ok day)
