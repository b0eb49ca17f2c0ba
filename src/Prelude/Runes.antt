-- ===== src/Prelude/Runes.antt =====
-- The parts of Go's utf8, unicode and strings packages that the components use.
use Prim.Native.Nat.{ℕ, zero, suc, ◌+◌, ◌-◌}
use mathlib.Core.Bool.{Bool, true, false, not, ◌&&◌, ◌||◌}
use mathlib.Core.List.{[], ◌∷◌}
use mathlib.Core.Option.{Option, none, some}
use pocket_advisor.Prelude.Tests.{leb, ◌==◌, if◌then◌else◌}
use pocket_advisor.Prelude.Text.{Bytes}
use pocket_advisor.Prelude.Lists.{length, take, drop, get_elem?}
use mathlib.Core.List.{reverse}

abbrev pub between : ℕ → ℕ → ℕ → Bool
between a b n = leb a n && leb n b

-- `utf8.RuneStart`.
abbrev pub rune_start : ℕ → Bool
rune_start b = not (between 128 191 b)

abbrev continues : ℕ → Bool
continues = between 128 191

-- The well-formed sequences of two, three and four bytes.
unfoldable pub is_pair : ℕ → ℕ → Bool
is_pair a b = between 194 223 a && continues b

unfoldable pub is_triple : ℕ → ℕ → ℕ → Bool
is_triple a b c =
    (((a == 224) && between 160 191 b)
      || ((between 225 236 a || between 238 239 a) && continues b)
      || ((a == 237) && between 128 159 b))
    && continues c

unfoldable pub is_quad : ℕ → ℕ → ℕ → ℕ → Bool
is_quad a b c d =
    (((a == 240) && between 144 191 b)
      || (between 241 243 a && continues b)
      || ((a == 244) && between 128 143 b))
    && continues c
    && continues d

-- The size that `utf8.DecodeRuneInString` returns: 1 for a byte that begins no rune.
unfoldable pub rune_size : Bytes → ℕ
rune_size [] = 0
rune_size (a ∷ []) = 1
rune_size (a ∷ b ∷ []) = if is_pair a b then 2 else 1
rune_size (a ∷ b ∷ c ∷ []) = if is_pair a b then 2 else if is_triple a b c then 3 else 1
rune_size (a ∷ b ∷ c ∷ d ∷ s) =
    if is_pair a b then 2 else if is_triple a b c then 3 else if is_quad a b c d then 4 else 1

unfoldable pub rune_count_from : ℕ → Bytes → ℕ
unfolding rune_size
rune_count_from zero s = 0
rune_count_from (suc fuel) [] = 0
rune_count_from (suc fuel) (b ∷ s) = suc (rune_count_from fuel (drop (rune_size (b ∷ s)) (b ∷ s)))

-- `utf8.RuneCountInString`: each rune takes a byte at least.
unfoldable pub rune_count : Bytes → ℕ
unfolding rune_count_from
rune_count s = rune_count_from (length s) s

-- `unicode.IsSpace`, of one byte, and of the runes of two and three bytes.
abbrev is_space : ℕ → Bool
is_space b = between 9 13 b || (b == 32)

abbrev is_wide_space : ℕ → ℕ → Bool
is_wide_space a b = (a == 194) && ((b == 133) || (b == 160))

abbrev is_wider_space : ℕ → ℕ → ℕ → Bool
is_wider_space a b c =
    ((a == 225) && (b == 154) && (c == 128))
    || ((a == 226) && (b == 128) && (between 128 138 c || (c == 168) || (c == 169) || (c == 175)))
    || ((a == 226) && (b == 129) && (c == 159))
    || ((a == 227) && (b == 128) && (c == 128))

-- The size of the space that a text begins with, or 0.
unfoldable pub space_size : Bytes → ℕ
space_size [] = 0
space_size (a ∷ []) = if is_space a then 1 else 0
space_size (a ∷ b ∷ []) = if is_space a then 1 else if is_wide_space a b then 2 else 0
space_size (a ∷ b ∷ c ∷ s) =
    if is_space a then 1 else if is_wide_space a b then 2 else if is_wider_space a b c then 3 else 0

-- The same of a reversed text.
unfoldable pub last_space_size : Bytes → ℕ
last_space_size [] = 0
last_space_size (a ∷ []) = if is_space a then 1 else 0
last_space_size (b ∷ a ∷ []) = if is_space b then 1 else if is_wide_space a b then 2 else 0
last_space_size (c ∷ b ∷ a ∷ s) =
    if is_space c then 1 else if is_wide_space b c then 2 else if is_wider_space a b c then 3 else 0

-- How many bytes the spaces in front take, with a size function and fuel for each of them.
unfoldable pub spaces_from : (Bytes → ℕ) → ℕ → Bytes → ℕ
spaces_from size zero s = 0
spaces_from size (suc fuel) s =
    let rest = spaces_from size fuel (drop (size s) s) in if size s == 0 then 0 else size s + rest

-- `strings.TrimLeftFunc(s, unicode.IsSpace)` and its mirror image.
unfoldable pub trim_left : Bytes → Bytes
unfolding spaces_from space_size
trim_left s = drop (spaces_from space_size (length s) s) s

unfoldable pub trim_right : Bytes → Bytes
unfolding spaces_from last_space_size
trim_right s = take (length s - spaces_from last_space_size (length s) (reverse s)) s

-- `strings.TrimSpace`.
unfoldable pub trim : Bytes → Bytes
unfolding trim_left trim_right
trim s = trim_right (trim_left s)

-- The last place where a test holds of the rest of the text, as `strings.LastIndex` finds it.
unfoldable pub last_where : (Bytes → Bool) → Bytes → Option ℕ
last_where p [] = none
last_where p (b ∷ s) =
    let rest = last_where p s in
    elim rest [ some i ↦ some (suc i) | none ↦ if p (b ∷ s) then some 0 else none ]

abbrev pub at_newline : Bytes → Bool
at_newline [] = false
at_newline (b ∷ s) = b == b'\n'

abbrev pub at_paragraph : Bytes → Bool
at_paragraph [] = false
at_paragraph (b ∷ s) = (b == b'\n') && at_newline s

abbrev pub at_sentence_end : Bytes → Bool
at_sentence_end [] = false
at_sentence_end (b ∷ s) = (b == b'.') || (b == b'!') || (b == b'?')

abbrev pub at_blank : Bytes → Bool
at_blank [] = false
at_blank (b ∷ s) = b == b' '

-- Does a rune begin at the offset? Behind the end it counts as one.
unfoldable pub starts_at : Bytes → ℕ → Bool
starts_at s i = elim (get_elem? s i) [ none ↦ true | some b ↦ rune_start b ]
