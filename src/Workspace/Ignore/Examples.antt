-- ===== src/Workspace/Ignore/Examples.antt =====
-- Ignore rules of a small workspace, with a `path.Match` that knows the star alone.
use pocket_advisor.Prelude.{
  ◌≡◌, ◌↔◌, refl, Bool, true, false, ◌&&◌, List, [], ◌∷◌, Option, none, some, Bytes, bytes, ◌==◌,
  if◌then◌else◌, contains, length, All, nat_eq,
}
use pocket_advisor.Prelude.Runes.{trim}
use pocket_advisor.Workspace.Ignore.{
  Rule, ok, err, malformed, negates_nothing, is_none, some_tail, compile_from, compile_ignore,
  match, match_name, match_segments, rule_matches, names_member, split_slash, trim_here,
}
use pocket_advisor.Workspace.Ignore.Segments.{Covers, match_segments_iff}
use pocket_advisor.Workspace.Ignore.Rules.{
  Decided, Usable, match_iff, match_name_iff, compile_from-Usable,
}

abbrev glob : Bytes → Bytes → Bool
unfolding some_tail
glob [] s = is_none s
glob (c ∷ p) s =
    if c == b'*' then some_tail (glob p) s else elim s [ [] ↦ false | b ∷ t ↦ (b == c) && glob p t ]

abbrev path_match : Bytes → Bytes → Option Bool
path_match p s = if contains p b'[' then none else some (glob p s)

abbrev lower : Bytes → Bytes
lower s = s

abbrev patterns : List Bytes
patterns = bytes "*.tmp" ∷ bytes "caches/**" ∷ bytes "old/" ∷ bytes " !keep.tmp " ∷ []

abbrev rules : List Rule
rules =
    record { segs = bytes "*.tmp" ∷ []; name = true; negate = false; directory = false }
    ∷ record {
      segs = bytes "caches" ∷ bytes "**" ∷ [];
      name = false;
      negate = false;
      directory = false;
    }
    ∷ record { segs = bytes "old" ∷ []; name = true; negate = false; directory = true }
    ∷ record { segs = bytes "keep.tmp" ∷ []; name = true; negate = true; directory = false }
    ∷ []

compiled_patterns : compile_ignore path_match lower patterns ≡ ok rules
unfolding compile_from trim
compiled_patterns = refl

refused_pattern : compile_ignore path_match lower (bytes "a" ∷ bytes "b/[" ∷ []) ≡ err (malformed 2)
unfolding compile_from trim
refused_pattern = refl

refused_negation : compile_ignore path_match lower (bytes "! " ∷ []) ≡ err (negates_nothing 1)
unfolding compile_from trim
refused_negation = refl

ignored_file : match path_match lower rules (bytes "./a/b.x.tmp") ≡ true
unfolding match
ignored_file = refl

kept_file : match path_match lower rules (bytes "a/keep.tmp") ≡ false
unfolding match
kept_file = refl

file_named_caches : match path_match lower rules (bytes "caches") ≡ false
unfolding match
file_named_caches = refl

below_caches : match path_match lower rules (bytes "caches/a") ≡ true
unfolding match
below_caches = refl

below_old : match path_match lower rules (bytes "a/old/b") ≡ true
unfolding match
below_old = refl

file_named_old : match path_match lower rules (bytes "a/old") ≡ false
unfolding match
file_named_old = refl

member_ignored : match_name path_match lower rules (bytes "b.tmp") ≡ true
unfolding match_name glob
member_ignored = refl

abbrev deep : List Bytes
deep = bytes "**" ∷ bytes "logs" ∷ bytes "*.txt" ∷ []

abbrev deep_path : List Bytes
deep_path = bytes "src" ∷ bytes "logs" ∷ bytes "b.txt" ∷ []

match_segments_iff_example :
    (match_segments path_match lower deep deep_path ≡ true) ↔ Covers path_match lower deep deep_path
match_segments_iff_example = match_segments_iff path_match lower deep deep_path

match_iff_example :
    (match path_match lower rules (bytes "./b.tmp") ≡ true)
    ↔ Decided
        (λ r. rule_matches path_match lower r (split_slash (trim_here (bytes "./b.tmp"))))
        rules
match_iff_example = match_iff path_match lower rules (bytes "./b.tmp")

match_name_iff_example :
    (match_name path_match lower rules (bytes "b.tmp") ≡ true)
    ↔ Decided (names_member path_match lower (bytes "b.tmp")) rules
match_name_iff_example = match_name_iff path_match lower rules (bytes "b.tmp")

compile_from-Usable_example : (length rules ≡ length patterns) × All (Usable path_match lower) rules
compile_from-Usable_example =
    compile_from-Usable path_match lower 1 patterns rules compiled_patterns
