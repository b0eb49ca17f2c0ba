-- ===== src/Source/Replay.antt =====
-- internal/source/source.go: the reading of a document, from a file or out of a container. The records,
-- the parsing of a UUID and the unpacking of containers are arguments.
use pocket_advisor.Prelude.{
  ℕ, zero, suc, ◌-◌, Bool, true, false, not, ◌&&◌, List, [], ◌∷◌, Option, none, some, Bytes,
  bytes_eq, bytes, ◌==◌, ltb, if◌then◌else◌, length, contains, bytes_Eq,
}
use pocket_advisor.Source.Resolver.{
  Disk, Root, File, ReadReply, got, failed, SourceError, unavailable, changed, budget_spent,
  lookup_failed, unsafe, is_changed, read_file,
}

abbrev pub max_depth : ℕ
max_depth = 8

abbrev pub max_replay_bytes : ℕ
max_replay_bytes = 536_870_912

pub record Member : Type 0 where
  pub parent_id : Bytes
  pub selector : Bytes

pub record Record : Type 0 where
  pub sha256 : Bytes
  pub filename : Bytes
  pub mime_type : Bytes
  pub files : List File
  pub members : List Member

pub record Child : Type 0 where
  pub selector : Bytes
  pub content : Bytes

pub record Archive : Type 0 where
  pub source_record : Bytes → Option Record
  pub children : Bytes → Bytes → Bytes → Option (List Child)
  pub parse_uuid : Bytes → Option Bytes

-- The rest of a text behind a prefix.
abbrev pub cut_prefix : Bytes → Bytes → Option Bytes
cut_prefix [] s = some s
cut_prefix (p ∷ ps) [] = none
cut_prefix (p ∷ ps) (b ∷ s) = if p == b then cut_prefix ps s else none

abbrev pub printed_id : Bytes → Option Bytes → Option Bytes
printed_id id none = none
printed_id id (some text) = if bytes_eq text id then some id else none

abbrev pub parse_id : Archive → Option Bytes → Option Bytes
parse_id a none = none
parse_id a (some id) = printed_id id (a.parse_uuid id)

-- `ParseRef`; an identifier is written as its UUID is printed.
unfoldable pub parse_ref : Archive → Bytes → Option Bytes
parse_ref a ref = parse_id a (cut_prefix (bytes "source:") ref)

-- The budget, none once it is below zero, where it stays.
abbrev pub ReplayBudget : Type 0
ReplayBudget = Option ℕ

unfoldable pub spend : ReplayBudget → ℕ → ReplayBudget
spend none n = none
spend (some left) n = if ltb left n then none else some (left - n)

abbrev pub is_empty_hash : Bytes → Bool
is_empty_hash [] = true
is_empty_hash (b ∷ s) = false

-- `resultErr` after another failure.
abbrev pub worse : SourceError → SourceError → SourceError
worse e result = if is_changed e then changed else result

abbrev pub delivered : Bytes → ReplayBudget → ReadReply × ReplayBudget
delivered content none = (failed budget_spent, none)
delivered content (some left) = (got content, some left)

unfoldable pub spend_all : List Child → ReplayBudget → ReplayBudget
unfolding spend
spend_all [] b = b
spend_all (c ∷ cs) b = spend_all cs (spend b (length c.content))

module _ (d : Disk) (roots : List Root) (a : Archive) where
  unfoldable pub find_child : Bytes → Bytes → List Child → Option Bytes
  find_child selector sha [] = none
  find_child selector sha (c ∷ cs) =
      if bytes_eq c.selector selector && bytes_eq (d.sha256_hex c.content) sha
      then some c.content
      else find_child selector sha cs

  -- The loop over the members, with the error so far.
  module _ (sha : Bytes)
      (read_parent : Bytes → Bytes → ReplayBudget → ReadReply × ReplayBudget) where
    unfoldable pub try_members : List Member → SourceError → ReplayBudget → ReadReply × ReplayBudget
    unfolding spend_all find_child
    try_members [] e b = (failed e, b)
    try_members (m ∷ ms) e b = elim (a.source_record m.parent_id) [
      | none ↦ try_members ms e b
      | some parent ↦
          let (reply, b') = read_parent m.parent_id parent.sha256 b in
          elim reply [
            | failed e' ↦ try_members ms (worse e' e) b'
            | got content ↦ elim (a.children content parent.mime_type parent.filename) [
              | none ↦ try_members ms e b'
              | some children ↦ elim (spend_all children b') [
                | none ↦ (failed budget_spent, none)
                | some left ↦ elim (find_child m.selector sha children) [
                  | some found ↦ (got found, some left)
                  | none ↦ try_members ms e (some left)
                ]
              ]
            ]
          ]
    ]

    -- The loop over the files, which have the hash of the record, and then that over the members.
    unfoldable pub try_files :
        List File → List Member → SourceError → ReplayBudget → ReadReply × ReplayBudget
    unfolding read_file spend try_members
    try_files [] members e b = try_members members e b
    try_files (f ∷ fs) members e b = elim (read_file d roots (record f { sha256 = sha })) [
      | got content ↦ delivered content (spend b (length content))
      | failed e' ↦ try_files fs members (worse e' e) b
    ]

  -- `read`, by the levels that are left, `MaxDepth + 1 - depth`; `seen` holds the documents above, since
  -- each takes its own out again.
  unfoldable pub read_source :
      ℕ → List Bytes → Bytes → Bytes → ReplayBudget → ReadReply × ReplayBudget
  unfolding try_files
  read_source zero seen id expected b = (failed unavailable, b)
  read_source (suc levels) seen id expected b =
      let parent =
        λ (i : Bytes) (e : Bytes) (n : ReplayBudget). read_source levels (id ∷ seen) i e n in
      elim (a.source_record id) [
        | none ↦ if contains seen id then (failed unavailable, b) else (failed lookup_failed, b)
        | some r ↦
            if contains seen id
            then (failed unavailable, b)
            else if not (is_empty_hash expected) && not (bytes_eq r.sha256 expected)
            then (failed changed, b)
            else try_files r.sha256 parent r.files r.members unavailable b
      ]

  abbrev pub read_id : Bytes → Option Bytes → ReadReply
  unfolding read_source
  read_id expected none = failed unsafe
  read_id expected (some id) =
      (read_source (suc max_depth) [] id expected (some max_replay_bytes)).0

  unfoldable pub read : Bytes → Bytes → ReadReply
  unfolding read_source parse_ref
  read ref expected = read_id expected (parse_ref a ref)
