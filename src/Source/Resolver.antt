-- ===== src/Source/Resolver.antt =====
-- internal/source/source.go: the reading of one original file. What the file system gives at each
-- attempt is an argument, and so are `fs.ValidPath`, the ignore rules and SHA-256.
use pocket_advisor.Prelude.{
  ℕ, zero, suc, ◌+◌, ◌-◌, Bool, true, false, not, ◌||◌, List, [], ◌∷◌, Option, none, some, Bytes,
  bytes_eq, ltb, leb, ◌==◌, if◌then◌else◌, length,
}

abbrev pub max_source_bytes : ℕ
max_source_bytes = 268_435_456

abbrev pub unstable_attempts : ℕ
unstable_attempts = 3

-- In nanoseconds.
abbrev pub mtime_tolerance : ℕ
mtime_tolerance = 1_000_000

pub data SourceError : Type 0 where
  unavailable changed unsafe unstable too_large budget_spent lookup_failed read_failed : SourceError

pub data ReadReply : Type 0 where
  got : Bytes → ReadReply
  failed : SourceError → ReadReply

-- `errors.Is(err, ErrChanged)`; `ErrUnstable` wraps it.
abbrev pub is_changed : SourceError → Bool
is_changed changed = true
is_changed unstable = true
is_changed e = false

pub record File : Type 0 where
  pub root_key : Bytes
  pub relative_path : Bytes
  pub sha256 : Bytes

pub record Root : Type 0 where
  pub key : Bytes
  pub name : Bytes

pub record Stat : Type 0 where
  pub regular : Bool
  pub size : ℕ
  pub modified : ℕ

-- What one attempt meets: whether the file opens, the two stats, and the bytes of the limited reader.
pub record ReadAttempt : Type 0 where
  pub opens : Bool
  pub before : Option Stat
  pub content : Option Bytes
  pub after : Option Stat

-- The file system under a root, and the functions that a read calls. `links` tells for each prefix of
-- a path whether it is a symbolic link, none when one cannot be read.
pub record Disk : Type 0 where
  pub opens_root : Bytes → Bool
  pub links : Bytes → Bytes → List (Option Bool)
  pub attempt : Bytes → Bytes → ℕ → ReadAttempt
  pub valid_path : Bytes → Bool
  pub ignored : Bytes → Bool
  pub sha256_hex : Bytes → Bytes

abbrev pub has_backslash : Bytes → Bool
has_backslash [] = false
has_backslash (b ∷ s) = (b == 92) || has_backslash s

abbrev pub absolute_difference : ℕ → ℕ → ℕ
absolute_difference a b = (a - b) + (b - a)

unfoldable pub root_for : List Root → Bytes → Option Root
root_for [] key = none
root_for (r ∷ rs) key = if bytes_eq r.key key then some r else root_for rs key

-- The symbolic links that a path goes through.
unfoldable pub check_links : List (Option Bool) → Option SourceError
check_links [] = none
check_links (none ∷ ls) = some unavailable
check_links (some is_link ∷ ls) = if is_link then some unsafe else check_links ls

-- The end of `readStable`, with both stats and the bytes.
unfoldable pub compare_stats : Stat → Bytes → Stat → ReadReply
compare_stats before content after =
    if not (before.size == after.size)
      || not (length content == after.size)
      || leb mtime_tolerance (absolute_difference before.modified after.modified)
    then failed unstable
    else if ltb max_source_bytes (length content)
    then failed too_large
    else got content

unfoldable pub stat_after : Stat → Bytes → Option Stat → ReadReply
unfolding compare_stats
stat_after before content none = failed unavailable
stat_after before content (some after) = compare_stats before content after

unfoldable pub read_all : Stat → Option Bytes → Option Stat → ReadReply
unfolding stat_after
read_all before none after = failed read_failed
read_all before (some content) after = stat_after before content after

unfoldable pub stat_before : ReadAttempt → Option Stat → ReadReply
unfolding read_all
stat_before a none = failed unsafe
stat_before a (some before) =
    if not before.regular
    then failed unsafe
    else if ltb max_source_bytes before.size
    then failed too_large
    else read_all before a.content a.after

unfoldable pub read_stable : ReadAttempt → ReadReply
unfolding stat_before
read_stable a = if not a.opens then failed unavailable else stat_before a a.before

abbrev pub is_unstable : ReadReply → Bool
is_unstable (got content) = false
is_unstable (failed unstable) = true
is_unstable (failed e) = false

-- The attempts, from the one with the number on; the pauses between them are left out.
unfoldable pub read_attempts : (ℕ → ReadAttempt) → ℕ → ℕ → ReadReply
unfolding read_stable
read_attempts attempt zero number = failed unstable
read_attempts attempt (suc more) number =
    let reply = read_stable (attempt number) in
    let again = read_attempts attempt more (suc number) in
    if is_unstable reply then again else reply

-- The bytes are compared with the hash of the file, when it has one.
unfoldable pub check_hash : Disk → Bytes → ReadReply → ReadReply
check_hash d sha (failed e) = failed e
check_hash d [] (got content) = got content
check_hash d (b ∷ sha) (got content) =
    if bytes_eq (d.sha256_hex content) (b ∷ sha) then got content else failed changed

unfoldable pub read_linked : Disk → File → Bytes → Option SourceError → ReadReply
unfolding read_attempts check_hash
read_linked d f name (some e) = failed e
read_linked d f name none =
    check_hash d f.sha256 (read_attempts (d.attempt name f.relative_path) unstable_attempts 1)

unfoldable pub read_under : Disk → File → Option Root → ReadReply
unfolding check_links read_linked
read_under d f none = failed unsafe
read_under d f (some r) =
    if not (d.opens_root r.name)
    then failed unavailable
    else read_linked d f r.name (check_links (d.links r.name f.relative_path))

unfoldable pub read_file : Disk → List Root → File → ReadReply
unfolding root_for read_under
read_file d roots f =
    if not (d.valid_path f.relative_path)
      || bytes_eq f.relative_path (46 ∷ [])
      || has_backslash f.relative_path
      || d.ignored f.relative_path
    then failed unsafe
    else read_under d f (root_for roots f.root_key)
