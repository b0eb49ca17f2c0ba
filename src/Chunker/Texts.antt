-- ===== src/Chunker/Texts.antt =====
-- internal/engine/embed/chunker.go: a chunk is the text that its offsets name.
use pocket_advisor.Prelude.{
  ℕ, suc, ◌+◌, ◌-◌, ◌≤◌, ◌<◌, ◌≡◌, refl, ap, sym, ◌∙◌, inl, inr, List, [], ◌∷◌, arith, Bytes, ◌==◌,
  leb, All, Bool-cases, length, drop, length-drop, length-take,
}
use pocket_advisor.Prelude.Runes.{trim_left, trim, rune_count}
use pocket_advisor.Chunker.Split.{Chunk, slice, chunks_of, windows, split_with}
use pocket_advisor.Chunker.Slices.{slice-slice, trim-slice}
use pocket_advisor.Chunker.Tiling.{Tiles, windows-Tiles}

-- The chunks are numbered from `i` on, none is empty, and each text is what its offsets cut out.
abbrev pub Faithful : Bytes → ℕ → List Chunk → Type 0
Faithful full i [] = Unit {0}
Faithful full i (c ∷ cs) =
    (c.index ≡ i)
    × (slice full c.start c.stop ≡ c.text)
    × (c.start < c.stop)
    × (c.stop ≤ length full)
    × Faithful full (suc i) cs

length-slice : (s : Bytes) (a b : ℕ) → b ≤ length s → length (slice s a b) ≡ b - a
length-slice s a b h = omega (arith, length-take (b - a) (drop a s), length-drop a s)

abbrev Within : Bytes → List (ℕ × ℕ) → Type 0
Within text = All (λ w. (w.0 ≤ w.1) × (w.1 ≤ length text))

Tiles-Within :
    (text : Bytes) (start : ℕ) (ws : List (ℕ × ℕ)) → Tiles (length text) start ws → Within text ws
Tiles-Within text start [] t = absurd t
Tiles-Within text start ((a, b) ∷ []) t = ((omega (arith, t.0, t.1), omega (arith, t.2)), tt)
Tiles-Within text start ((a, b) ∷ (c, d) ∷ ws) t =
    ((omega (arith, t.0, t.1, t.2), omega (arith, t.3)), Tiles-Within text c ((c, d) ∷ ws) t.4)

module _ (full text : Bytes) (base : ℕ) (here : text ≡ slice full base (base + length text))
    (fits : base + length text ≤ length full) where
  -- The text of one window without its spaces, as a slice of the whole.
  piece-slice :
      (start stop : ℕ)
      → start ≤ stop
      → stop ≤ length text
      → slice full
          (base
            + start
            + (length (slice text start stop) - length (trim_left (slice text start stop))))
          (base
            + start
            + (length (slice text start stop) - length (trim_left (slice text start stop)))
            + length (trim (slice text start stop)))
        ≡ trim (slice text start stop)
  piece-slice start stop h k =
      let raw = slice text start stop in
      let lead = length raw - length (trim_left raw) in
      let (cut, inside) = trim-slice raw in
      let l : length raw ≡ stop - start = length-slice text start stop k in
      sym (
        cut
        ∙ (slice-slice text start stop lead (lead + length (trim raw)) (omega arith)
              (omega (arith, inside, l, h))
            ∙ (ap (λ t. slice t (start + lead) (start + (lead + length (trim raw)))) here
                ∙ (slice-slice full base (base + length text) (start + lead)
                      (start + (lead + length (trim raw))) (omega arith)
                      (omega (arith, inside, l, h, k))
                    ∙ (ap (λ a. slice full a (base + (start + (lead + length (trim raw)))))
                          (same start lead)
                        ∙ ap (slice full (base + start + lead))
                            (same_stop start lead (length (trim raw))))))))
    where
      same : (start lead : ℕ) → base + (start + lead) ≡ base + start + lead
      same start lead = omega arith

      same_stop :
          (start lead size : ℕ) → base + (start + (lead + size)) ≡ base + start + lead + size
      same_stop start lead size = omega arith

  piece_inside :
      (start stop : ℕ)
      → start ≤ stop
      → stop ≤ length text
      → base
          + start
          + (length (slice text start stop) - length (trim_left (slice text start stop)))
          + length (trim (slice text start stop))
        ≤ length full
  piece_inside start stop h k =
      omega (arith, (trim-slice (slice text start stop)).1, length-slice text start stop k, fits)

  chunks_of-Faithful :
      (i : ℕ) (ws : List (ℕ × ℕ)) → Within text ws → Faithful full i (chunks_of base text i ws)
  unfolding chunks_of
  chunks_of-Faithful i [] w = tt
  chunks_of-Faithful i ((start, stop) ∷ ws) w =
      elim (Bool-cases (length (trim (slice text start stop)) == 0)) [
        | inl blank ↦ rw (chunks_of, blank) (chunks_of-Faithful i ws w.1)
        | inr text_left ↦
            rw (chunks_of, text_left)
              (
                refl,
                piece-slice start stop w.0.0 w.0.1,
                ground arith,
                piece_inside start stop w.0.0 w.0.1,
                chunks_of-Faithful (suc i) ws w.1,
              )
      ]

-- The chunks of a text are numbered from 0 on, none is empty, each lies within the text and its
-- offsets cut exactly its own text out of it, for any positive window and any overlap.
pub split_with-Faithful :
    (target overlap : ℕ) (full : Bytes)
    → 0 < target
    → Faithful full 0 (split_with target overlap full)
unfolding split_with
split_with-Faithful target overlap full t =
    let (here, fits) = trim-slice full in
    elim (Bool-cases (length (trim full) == 0)) [
      | inl blank ↦ rw (split_with, blank) tt
      | inr some_text ↦ elim (Bool-cases (leb (rune_count (trim full)) target)) [
        | inl short ↦ rw (split_with, some_text, short) (refl, sym here, ground arith, fits, tt)
        | inr long ↦
            rw (split_with, some_text, long)
              (chunks_of-Faithful full (trim full) (length full - length (trim_left full)) here fits
                0 (windows target overlap (length (trim full)) (trim full) 0)
                (Tiles-Within (trim full) 0 _ (
                  windows-Tiles target overlap (length (trim full)) (trim full) 0 t (ground arith)
                    (omega arith))))
      ]
    ]
