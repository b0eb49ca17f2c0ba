-- ===== src/Mcp/Fetch/Lookup.antt =====
-- internal/mcp/document.go: the arguments of a lookup. The parsing of dates, `strings.ToLower` and SHA-256 are arguments.
use pocket_advisor.Prelude.{
  ℕ, ◌+◌, Bool, true, false, not, ◌&&◌, [], ◌∷◌, ◌++◌, Option, none, some, Bytes, bytes, ltb, leb,
  ◌==◌, if◌then◌else◌, length,
}
use pocket_advisor.Prelude.Runes.{trim, rune_count}
use pocket_advisor.Mcp.Page.{Result, ok, err, argument_invalid}
use pocket_advisor.Mcp.Documents.{max_cursor_bytes}
use pocket_advisor.Mcp.Fetch.Cursor.{is_empty}

abbrev pub max_document_subject_runes : ℕ
max_document_subject_runes = 512

abbrev pub max_document_filename_runes : ℕ
max_document_filename_runes = 512

abbrev pub max_document_recipients : ℕ
max_document_recipients = 50

abbrev pub max_mailbox_address_runes : ℕ
max_mailbox_address_runes = 320

abbrev pub max_mailbox_date_runes : ℕ
max_mailbox_date_runes = 64

abbrev pub fetch_document_max_results : ℕ
fetch_document_max_results = 20

pub data FetchDocumentMode : Type 0 where
  by_filename by_sender_date by_subject_date : FetchDocumentMode

pub record FetchDocumentArguments : Type 0 where
  pub sender : Bytes
  pub subject : Bytes
  pub filename : Bytes
  pub date : Option Bytes
  pub cursor : Option Bytes

-- `time.Parse` with the layouts of a timestamp and of a day, in nanoseconds, the day that an instant
-- falls on and its text, the hash of a lookup, and `strings.ToLower`.
pub record Clockwork : Type 0 where
  pub parse_timestamp : Bytes → Option ℕ
  pub parse_day : Bytes → Option ℕ
  pub truncate_to_day : ℕ → ℕ
  pub day_text : ℕ → Bytes
  pub hash : Bytes → Bytes
  pub lower : Bytes → Bytes

abbrev pub set_one : Bytes → ℕ
set_one [] = 0
set_one (b ∷ s) = 1

abbrev pub refuse : {A : Type 0} → Bytes → Result A
refuse message = err (argument_invalid message)

module _ (c : Clockwork) where
  abbrev parsed : Bytes → Result ℕ
  parsed value = elim (c.parse_timestamp value) [
    | some t ↦ ok t
    | none ↦ elim (c.parse_day value) [
      | some t ↦ ok t
      | none ↦ refuse (bytes "date must be an RFC 3339 timestamp or YYYY-MM-DD date")
    ]
  ]

  -- `parseMailboxDate`; an absent date is the zero time, which no caller here asks for.
  unfoldable pub parse_mailbox_date : Option Bytes → Result ℕ
  unfolding trim
  parse_mailbox_date none = ok 0
  parse_mailbox_date (some value) =
      if ltb max_mailbox_date_runes (length value)
      then refuse (bytes "date must be a bounded RFC 3339 timestamp or YYYY-MM-DD date")
      else parsed (trim value)

  -- The mode that is left when exactly one attribute is set.
  abbrev pub mode_of : Bytes → Bytes → FetchDocumentMode
  mode_of sender subject =
      if not (is_empty subject)
      then by_subject_date
      else if not (is_empty sender)
      then by_sender_date
      else by_filename

  abbrev pub cursor_bounded : Option Bytes → Bool
  cursor_bounded none = true
  cursor_bounded (some value) = not (length value == 0) && leb (length value) max_cursor_bytes

  abbrev pub date_present : Option Bytes → Bool
  date_present none = false
  date_present (some value) = not (is_empty (trim value))

  -- What is asked of the date in each mode.
  unfoldable pub validate_date : FetchDocumentMode → Option Bytes → Result FetchDocumentMode
  unfolding parse_mailbox_date trim
  validate_date by_filename none = ok by_filename
  validate_date by_filename (some value) = refuse (bytes "date is not accepted with filename")
  validate_date mode date =
      if not (date_present date)
      then refuse (bytes "date is required with sender or subject")
      else elim (parse_mailbox_date date) [ err e ↦ err e | ok day ↦ ok mode ]

  unfoldable pub validate_fetch_document_arguments :
      FetchDocumentArguments → Result FetchDocumentMode
  unfolding trim rune_count validate_date
  validate_fetch_document_arguments args =
      let sender = trim args.sender in
      let subject = trim args.subject in
      let filename = trim args.filename in
      if not (set_one filename + set_one sender + set_one subject == 1)
      then refuse (bytes "pass exactly one of filename, sender+date, or subject+date")
      else if ltb max_document_filename_runes (length filename)
      then refuse (bytes "filename exceeds the bounded length")
      else if ltb max_mailbox_address_runes (rune_count sender)
      then refuse (bytes "sender exceeds the mailbox address bound")
      else if ltb max_document_subject_runes (rune_count subject)
      then refuse (bytes "subject exceeds the bounded length")
      else if not (cursor_bounded args.cursor)
      then refuse (bytes "cursor must be a bounded opaque token returned by this tool")
      else validate_date (mode_of sender subject) args.date

  unfoldable pub normalize_exact_address : Bytes → Bytes
  unfolding trim
  normalize_exact_address value = c.lower (trim value)

  abbrev mode_text : FetchDocumentMode → Bytes
  mode_text by_filename = bytes "filename"
  mode_text by_sender_date = bytes "sender_date"
  mode_text by_subject_date = bytes "subject_date"

  -- The day of the fingerprint, empty when the date is absent or not read.
  abbrev fingerprint_day : Option Bytes → Bytes
  fingerprint_day none = []
  fingerprint_day (some value) = elim (parse_mailbox_date (some value)) [
    | err e ↦ []
    | ok day ↦ c.day_text (c.truncate_to_day day)
  ]

  unfoldable pub document_lookup_fingerprint : FetchDocumentMode → FetchDocumentArguments → Bytes
  unfolding normalize_exact_address parse_mailbox_date trim
  document_lookup_fingerprint mode args = c.hash (
      mode_text mode
      ++ 0 ∷ trim args.filename
      ++ 0 ∷ normalize_exact_address args.sender
      ++ 0 ∷ trim args.subject
      ++ 0 ∷ fingerprint_day args.date)
