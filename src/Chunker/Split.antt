-- ===== src/Chunker/Split.antt =====
-- internal/engine/embed/chunker.go: `Split` and the functions that it places its windows with.
use pocket_advisor.Prelude.{
  ℕ, zero, suc, ◌+◌, ◌-◌, ◌*◌, ◌/◌, List, [], ◌∷◌, none, some, Bytes, leb, ltb, ◌==◌, if◌then◌else◌,
  length, take, drop,
}
use pocket_advisor.Prelude.Runes.{
  rune_size, rune_count, trim, trim_left, last_where, at_newline, at_paragraph, at_sentence_end,
  at_blank, starts_at,
}

-- The window and the overlap in characters.
abbrev pub target_chars : ℕ
target_chars = 2048

abbrev pub overlap_chars : ℕ
overlap_chars = 256

pub record Chunk : Type 0 where
  pub index : ℕ
  pub start : ℕ
  pub stop : ℕ
  pub text : Bytes

-- `s[a:b]`.
abbrev pub slice : Bytes → ℕ → ℕ → Bytes
slice s a b = take (b - a) (drop a s)

-- `advanceRunes`: from the rest of the text at the offset.
unfoldable pub advance : ℕ → Bytes → ℕ → ℕ
advance zero s pos = pos
advance (suc n) [] pos = pos
advance (suc n) (b ∷ s) pos = advance n (drop (rune_size (b ∷ s)) (b ∷ s)) (pos + rune_size (b ∷ s))

unfoldable pub advance_runes : Bytes → ℕ → ℕ → ℕ
unfolding advance
advance_runes s start n = advance n (drop start s) start

-- The inner loop of `retreatRunes`.
unfoldable pub back_to_start : Bytes → ℕ → ℕ
unfolding starts_at
back_to_start s zero = zero
back_to_start s (suc pos) =
    let rest = back_to_start s pos in if starts_at s (suc pos) then suc pos else rest

unfoldable pub retreat_runes : Bytes → ℕ → ℕ → ℕ
unfolding back_to_start
retreat_runes s pos zero = pos
retreat_runes s zero (suc n) = zero
retreat_runes s (suc pos) (suc n) = retreat_runes s (back_to_start s pos) n

unfoldable pub align_from : ℕ → Bytes → ℕ → ℕ
unfolding starts_at
align_from zero s i = i
align_from (suc fuel) s i =
    let rest = align_from fuel s (suc i) in if starts_at s i then i else rest

-- `alignRune`: one step for each byte that is left, at most.
unfoldable pub align_rune : Bytes → ℕ → ℕ
unfolding align_from
align_rune s i = if leb (length s) i then length s else align_from (length s - i) s i

-- `boundary`. `float64(n) * 0.6` cut to an integer is `n * 3 / 5` for every offset that occurs.
unfoldable pub boundary : Bytes → ℕ → ℕ → ℕ
unfolding last_where align_rune
boundary text start hard_end =
    let window_start = start + (hard_end - start) * 3 / 5 in
    let region = slice text window_start hard_end in
    elim (last_where at_paragraph region) [
      | some i ↦ align_rune text (window_start + i + 2)
      | none ↦ elim (last_where at_newline region) [
        | some i ↦ align_rune text (window_start + i + 1)
        | none ↦
            let blank : ℕ = elim (last_where at_blank region) [
              | some i ↦ align_rune text (window_start + i + 1)
              | none ↦ align_rune text hard_end
            ] in
            elim (last_where at_sentence_end region) [
              | some i ↦
                  if ltb (window_start + i + 1) hard_end
                  then align_rune text (window_start + i + 1)
                  else blank
              | none ↦ blank
            ]
      ]
    ]

module _ (target overlap : ℕ) where
  unfoldable pub window_end : Bytes → ℕ → ℕ
  unfolding advance_runes boundary
  window_end text start =
      let hard_end = advance_runes text start target in
      if ltb hard_end (length text) then boundary text start hard_end else hard_end

  unfoldable pub next_start : Bytes → ℕ → ℕ → ℕ
  unfolding retreat_runes
  next_start text start stop =
      let next = retreat_runes text stop overlap in if leb next start then stop else next

  -- The loop: the windows that it visits from `start` on.
  unfoldable pub windows : ℕ → Bytes → ℕ → List (ℕ × ℕ)
  unfolding window_end next_start
  windows zero text start = []
  windows (suc fuel) text start =
      let stop = window_end text start in
      let rest = windows fuel text (next_start text start stop) in
      if ltb start (length text)
      then (if leb (length text) stop then (start, stop) ∷ [] else (start, stop) ∷ rest)
      else []

-- What the loop appends for each window: its text without the spaces round it, if any is left.
unfoldable pub chunks_of : ℕ → Bytes → ℕ → List (ℕ × ℕ) → List Chunk
unfolding trim trim_left
chunks_of base text index [] = []
chunks_of base text index ((start, stop) ∷ ws) =
    let raw = slice text start stop in
    let piece = trim raw in
    let lead = length raw - length (trim_left raw) in
    let rest = chunks_of base text index ws in
    let more = chunks_of base text (suc index) ws in
    if length piece == 0
    then rest
    else record {
      index = index;
      start = base + start + lead;
      stop = base + start + lead + length piece;
      text = piece;
    }
      ∷ more

-- `Split`; each round of its loop begins further on, so the length of the text is enough fuel.
unfoldable pub split_with : ℕ → ℕ → Bytes → List Chunk
unfolding trim trim_left rune_count windows chunks_of
split_with target overlap full =
    let text = trim full in
    let base = length full - length (trim_left full) in
    if length text == 0
    then []
    else if leb (rune_count text) target
    then record { index = 0; start = base; stop = base + length text; text = text } ∷ []
    else chunks_of base text 0 (windows target overlap (length text) text 0)

unfoldable pub split : Bytes → List Chunk
unfolding split_with
split = split_with target_chars overlap_chars
