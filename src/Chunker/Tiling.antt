-- ===== src/Chunker/Tiling.antt =====
-- internal/engine/embed/chunker.go: the windows of `Split` cover the text from end to end.
use pocket_advisor.Prelude.{
  ℕ, zero, suc, ◌+◌, ◌-◌, ◌≤◌, ◌<◌, ◌≡◌, refl, inl, inr, List, [], ◌∷◌, arith, Bytes, leb, length,
  drop, length-drop, Bool-cases,
}
use pocket_advisor.Prelude.Runes.{rune_size}
use pocket_advisor.Chunker.Split.{
  advance, advance_runes, back_to_start, retreat_runes, align_from, align_rune, boundary,
  window_end, next_start, windows,
}

-- A rune takes a byte at least, and no more than there are.
pub rune_size_bounds :
    (b : ℕ) (s : Bytes) → (1 ≤ rune_size (b ∷ s)) × (rune_size (b ∷ s) ≤ length (b ∷ s))
unfolding rune_size
rune_size_bounds a [] = ground arith
rune_size_bounds a (b ∷ []) = ground arith
rune_size_bounds a (b ∷ c ∷ []) = ground arith
rune_size_bounds a (b ∷ c ∷ d ∷ s) = ground arith

advance_bounds :
    (n : ℕ) (s : Bytes) (pos : ℕ) → (pos ≤ advance n s pos) × (advance n s pos ≤ pos + length s)
unfolding advance
advance_bounds zero s pos = (omega arith, omega arith)
advance_bounds (suc n) [] pos = (omega arith, omega arith)
advance_bounds (suc n) (b ∷ s) pos =
    let h = rune_size_bounds b s in
    let ih = advance_bounds n (drop (rune_size (b ∷ s)) (b ∷ s)) (pos + rune_size (b ∷ s)) in
    let l = length-drop (rune_size (b ∷ s)) (b ∷ s) in
    (omega (arith, h, ih, l), omega (arith, h, ih, l))

advance_moves : (n : ℕ) (b : ℕ) (s : Bytes) (pos : ℕ) → pos < advance (suc n) (b ∷ s) pos
unfolding advance
advance_moves n b s pos = omega (
  arith,
  rune_size_bounds b s,
  advance_bounds n (drop (rune_size (b ∷ s)) (b ∷ s)) (pos + rune_size (b ∷ s)),
)

advance_runes_bounds :
    (target : ℕ) (text : Bytes) (start : ℕ)
    → 0 < target
    → start < length text
    → (start < advance_runes text start target) × (advance_runes text start target ≤ length text)
unfolding advance_runes
advance_runes_bounds zero text start t h = absurd (omega arith)
advance_runes_bounds (suc n) text start t h = go (drop start text) (length-drop start text)
  where
    go :
        (s : Bytes)
        → length s ≡ length text - start
        → (start < advance (suc n) s start) × (advance (suc n) s start ≤ length text)
    go [] e = absurd (omega arith)
    go (b ∷ s) e = (advance_moves n b s start, omega (arith, advance_bounds (suc n) (b ∷ s) start))

align_from_bounds :
    (fuel : ℕ) (s : Bytes) (i : ℕ) → (i ≤ align_from fuel s i) × (align_from fuel s i ≤ i + fuel)
unfolding align_from
align_from_bounds zero s i = (omega arith, omega arith)
align_from_bounds (suc fuel) s i = ground (arith, align_from_bounds fuel s (suc i))

align_rune_bounds :
    (s : Bytes) (start i : ℕ)
    → start < i
    → start < length s
    → (start < align_rune s i) × (align_rune s i ≤ length s)
unfolding align_rune
align_rune_bounds s start i h l = ground (arith, align_from_bounds (length s - i) s i)

boundary_bounds :
    (text : Bytes) (start hard_end : ℕ)
    → start < hard_end
    → start < length text
    → (start < boundary text start hard_end) × (boundary text start hard_end ≤ length text)
unfolding boundary
boundary_bounds text start hard_end h l = grind (arith, align_rune_bounds text start)

pub back_to_start_le : (s : Bytes) (pos : ℕ) → back_to_start s pos ≤ pos
unfolding back_to_start
back_to_start_le s zero = omega arith
back_to_start_le s (suc pos) = ground (arith, back_to_start_le s pos)

retreat_runes_le : (s : Bytes) (pos n : ℕ) → retreat_runes s pos n ≤ pos
unfolding retreat_runes
retreat_runes_le s pos zero = omega arith
retreat_runes_le s zero (suc n) = omega arith
retreat_runes_le s (suc pos) (suc n) =
    omega (arith, retreat_runes_le s (back_to_start s pos) n, back_to_start_le s pos)

module _ (target overlap : ℕ) where
  window_end_bounds :
      (text : Bytes) (start : ℕ)
      → 0 < target
      → start < length text
      → (start < window_end target overlap text start)
        × (window_end target overlap text start ≤ length text)
  unfolding window_end
  window_end_bounds text start t h = ground (
    arith,
    advance_runes_bounds target text start t h,
    boundary_bounds text start (advance_runes text start target),
  )

  next_start_bounds :
      (text : Bytes) (start stop : ℕ)
      → start < stop
      → (start < next_start target overlap text start stop)
        × (next_start target overlap text start stop ≤ stop)
  unfolding next_start
  next_start_bounds text start stop h = ground (arith, retreat_runes_le text stop overlap)

-- The windows begin at `start`, each is not empty, the next one begins behind the start of the one
-- before and not behind its end, and the last one ends with the text.
abbrev pub Tiles : ℕ → ℕ → List (ℕ × ℕ) → Type 0
Tiles size start [] = ⊥
Tiles size start ((a, b) ∷ []) = (a ≡ start) × (start < b) × (b ≡ size)
Tiles size start ((a, b) ∷ (c, d) ∷ ws) =
    (a ≡ start) × (start < c) × (c ≤ b) × (b < size) × Tiles size c ((c, d) ∷ ws)

-- A tiling begins with a window at its start.
Tiles-first :
    (size start : ℕ) (ws : List (ℕ × ℕ))
    → Tiles size start ws
    → (stop : ℕ) × (rest : List (ℕ × ℕ)) × (ws ≡ (start, stop) ∷ rest)
Tiles-first size start [] t = absurd t
Tiles-first size start ((a, b) ∷ []) t = (b, [], rw t.0 refl)
Tiles-first size start ((a, b) ∷ (c, d) ∷ ws) t = (b, (c, d) ∷ ws, rw t.0 refl)

Tiles-cons :
    (size start stop next : ℕ) (ws : List (ℕ × ℕ))
    → start < next
    → next ≤ stop
    → stop < size
    → Tiles size next ws
    → Tiles size start ((start, stop) ∷ ws)
Tiles-cons size start stop next [] h k l t = absurd t
Tiles-cons size start stop next ((c, d) ∷ ws) h k l t =
    let (b, rest, e) = Tiles-first size next ((c, d) ∷ ws) t in
    let same : c ≡ next = cc in (refl, rw same h, rw same k, l, rw same t)

module _ (target overlap : ℕ) where
  windows_once :
      (fuel : ℕ) (text : Bytes) (start : ℕ)
      → start < length text
      → length text ≤ window_end target overlap text start
      → windows target overlap (suc fuel) text start
        ≡ (start, window_end target overlap text start) ∷ []
  unfolding windows
  windows_once fuel text start h k = ground arith

  windows_more :
      (fuel : ℕ) (text : Bytes) (start : ℕ)
      → start < length text
      → window_end target overlap text start < length text
      → windows target overlap (suc fuel) text start
        ≡ (start, window_end target overlap text start)
          ∷ windows target overlap fuel text
              (next_start target overlap text start (window_end target overlap text start))
  unfolding windows
  windows_more fuel text start h k = ground arith

  -- With fuel for the rest of the text, the loop over the windows ends with the text: its windows
  -- begin at the start, leave no gap, and each begins behind the one before; for a positive window
  -- and a start inside the text.
  pub windows-Tiles :
      (fuel : ℕ) (text : Bytes) (start : ℕ)
      → 0 < target
      → start < length text
      → length text ≤ start + fuel
      → Tiles (length text) start (windows target overlap fuel text start)
  windows-Tiles zero text start t h enough = absurd (omega arith)
  windows-Tiles (suc fuel) text start t h enough =
      let (after, within) = window_end_bounds target overlap text start t h in
      elim (Bool-cases (leb (length text) (window_end target overlap text start))) [
        | inl last ↦ rw (windows_once fuel text start h (ground arith)) (refl, after, ground arith)
        | inr more ↦
            let inside : window_end target overlap text start < length text = ground arith in
            let (moves, overlaps) =
              next_start_bounds target overlap text start (window_end target overlap text start)
                after in
            rw (windows_more fuel text start h inside) (
              Tiles-cons (length text) start (window_end target overlap text start)
                (next_start target overlap text start (window_end target overlap text start)) _
                moves overlaps inside
                (windows-Tiles fuel text _ t (omega (arith, overlaps, inside))
                  (omega (arith, moves, enough))))
      ]
