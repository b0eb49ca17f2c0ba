-- ===== src/Source/Examples.antt =====
-- A document that is the second member of a file.
use pocket_advisor.Prelude.{
  ℕ, ◌≤◌, ◌≡◌, refl, true, false, List, [], ◌∷◌, some, Bytes, bytes, bytes_eq, if◌then◌else◌,
  length,
}
use pocket_advisor.Source.Resolver.{
  Disk, Root, Stat, ReadAttempt, got, failed, unstable, changed, read_attempts,
}
use pocket_advisor.Source.Replay.{Record, Archive, parse_ref, read}
use pocket_advisor.Source.Verified.{Origin, read-Origin}

abbrev stat_at : ℕ → Stat
stat_at t = record { regular = true; size = 3; modified = t }

-- The first attempt meets a file that changes.
abbrev attempts : ℕ → ReadAttempt
attempts n = record {
  opens = true;
  before = some (stat_at 0);
  content = some (bytes "zip");
  after = some (stat_at (if bytes_eq (n ∷ []) (1 ∷ []) then 2_000_000 else 0));
}

-- The hash of a text is its length.
abbrev disk : Disk
disk = record {
  opens_root = λ name. true;
  links = λ name path. some false ∷ [];
  attempt = λ name path. attempts;
  valid_path = λ path. true;
  ignored = λ path. false;
  sha256_hex = λ content. length content ∷ [];
}

abbrev roots : List Root
roots = record { key = bytes "k"; name = bytes "/mail" } ∷ []

abbrev container_record : Record
container_record = record {
  sha256 = 3 ∷ [];
  filename = bytes "a.zip";
  mime_type = bytes "application/zip";
  files = record { root_key = bytes "k"; relative_path = bytes "a.zip"; sha256 = [] } ∷ [];
  members = [];
}

abbrev member_record : Record
member_record = record {
  sha256 = 2 ∷ [];
  filename = bytes "b.txt";
  mime_type = bytes "text/plain";
  files = [];
  members = record { parent_id = bytes "1"; selector = bytes "b" } ∷ [];
}

abbrev archive : Archive
archive = record {
  source_record =
      λ id. if bytes_eq id (bytes "1") then some container_record else some member_record;
  children = λ content mime name. some (
      record { selector = bytes "a"; content = bytes "xy" }
      ∷ record { selector = bytes "b"; content = bytes "hi" }
      ∷ []);
  parse_uuid = λ id. some id;
}

member_read : read disk roots archive (bytes "source:2") (2 ∷ []) ≡ got (bytes "hi")
unfolding read parse_ref
member_read = refl

read-Origin_example :
    (id : Bytes) × (parse_ref archive (bytes "source:2") ≡ some id)
    × Origin disk roots archive id (2 ∷ []) (got (bytes "hi"))
    × (length (bytes "hi") ≤ 536_870_912)
read-Origin_example =
    read-Origin disk roots archive (bytes "source:2") (2 ∷ []) (bytes "hi") member_read

-- Without another attempt the file is not read.
changes_once : read_attempts attempts 1 1 ≡ failed unstable
unfolding read_attempts
changes_once = refl

other_hash : read disk roots archive (bytes "source:2") (7 ∷ []) ≡ failed changed
unfolding read parse_ref
other_hash = refl
