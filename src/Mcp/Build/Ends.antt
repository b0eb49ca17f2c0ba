-- ===== src/Mcp/Build/Ends.antt =====
-- internal/mcp/snapshot.go: in a text that is valid UTF-8, a page ends where a rune begins.
use pocket_advisor.Prelude.{
  ℕ, zero, suc, ◌+◌, ◌-◌, ◌/◌, ◌≤◌, ◌<◌, ◌≡◌, refl, ap, sym, ◌∙◌, inl, inr, Bool, true, false, ◌&&◌,
  ◌||◌, List, [], ◌∷◌, none, some, arith, Bytes, ltb, leb, if◌then◌else◌, Bool-cases, Option-cases,
  length, length-drop, length-take, take, drop, get_elem?, subst, ◌==◌,
}
use pocket_advisor.Prelude.Runes.{
  rune_size, starts_at, last_where, at_paragraph, is_pair, is_triple, is_quad,
}
use pocket_advisor.Chunker.Split.{slice, back_to_start}
use pocket_advisor.Chunker.Slices.{drop-drop}
use pocket_advisor.Chunker.Tiling.{rune_size_bounds, back_to_start_le}
use pocket_advisor.Mcp.Build.{
  boundary_at_or_before, next_boundary, preferred_paragraph_end, tried_end,
}

-- `utf8.ValidString`: no byte is decoded as an error. Each rune takes a byte at least.
unfoldable valid_from : ℕ → Bytes → Bool
unfolding rune_size
valid_from zero s = true
valid_from (suc fuel) [] = true
valid_from (suc fuel) (b ∷ s) =
    (ltb b 128 || ltb 1 (rune_size (b ∷ s))) && valid_from fuel (drop (rune_size (b ∷ s)) (b ∷ s))

unfoldable pub valid_utf8 : Bytes → Bool
unfolding valid_from
valid_utf8 s = valid_from (length s) s

get_elem?-drop : (n i : ℕ) (s : Bytes) → get_elem? (drop n s) i ≡ get_elem? s (n + i)
get_elem?-drop zero i s = let e : i ≡ 0 + i = omega arith in ap (get_elem? s) e
get_elem?-drop (suc n) i [] = refl
get_elem?-drop (suc n) i (b ∷ s) =
    let e : suc (n + i) ≡ suc n + i = omega arith in get_elem?-drop n i s ∙ ap (get_elem? (b ∷ s)) e

pub starts_at-drop : (n i : ℕ) (s : Bytes) → starts_at (drop n s) i ≡ starts_at s (n + i)
unfolding starts_at
starts_at-drop n i s = rw (starts_at, get_elem?-drop n i s) refl

starts_first :
    (fuel : ℕ) (s : Bytes) → length s ≤ fuel → valid_from fuel s ≡ true → starts_at s 0 ≡ true
unfolding valid_from starts_at rune_size is_pair is_triple is_quad
starts_first fuel [] h v = refl
starts_first zero (b ∷ s) h v = absurd (omega arith)
starts_first (suc fuel) (a ∷ []) h v = ground arith
starts_first (suc fuel) (a ∷ b ∷ []) h v = ground arith
starts_first (suc fuel) (a ∷ b ∷ c ∷ []) h v = ground arith
starts_first (suc fuel) (a ∷ b ∷ c ∷ d ∷ s) h v = ground arith

-- Inside a rune no other begins.
pub inside_rune : (s : Bytes) (p : ℕ) → 0 < p → p < rune_size s → starts_at s p ≡ false
unfolding starts_at rune_size is_pair is_triple is_quad
inside_rune s zero h k = absurd (omega arith)
inside_rune [] (suc p) h k = absurd (omega arith)
inside_rune (a ∷ []) (suc p) h k = absurd (omega arith)
inside_rune (a ∷ b ∷ []) (suc zero) h k = ground arith
inside_rune (a ∷ b ∷ []) (suc (suc p)) h k = absurd (ground arith)
inside_rune (a ∷ b ∷ c ∷ []) (suc zero) h k = ground arith
inside_rune (a ∷ b ∷ c ∷ []) (suc (suc zero)) h k = ground arith
inside_rune (a ∷ b ∷ c ∷ []) (suc (suc (suc p))) h k = absurd (ground arith)
inside_rune (a ∷ b ∷ c ∷ d ∷ s) (suc zero) h k = ground arith
inside_rune (a ∷ b ∷ c ∷ d ∷ s) (suc (suc zero)) h k = ground arith
inside_rune (a ∷ b ∷ c ∷ d ∷ s) (suc (suc (suc zero))) h k = ground arith
inside_rune (a ∷ b ∷ c ∷ d ∷ s) (suc (suc (suc (suc p)))) h k = absurd (ground arith)

-- From where a rune begins in a valid text, its size leads to where one begins again.
starts_next_from :
    (fuel : ℕ) (s : Bytes) (p : ℕ)
    → length s ≤ fuel
    → valid_from fuel s ≡ true
    → p < length s
    → starts_at s p ≡ true
    → starts_at s (p + rune_size (drop p s)) ≡ true
unfolding valid_from
starts_next_from fuel [] p h v k e = absurd (omega arith)
starts_next_from zero (b ∷ s) p h v k e = absurd (omega arith)
starts_next_from (suc fuel) (b ∷ s) p h v k e =
    let n = rune_size (b ∷ s) in
    let bounds = rune_size_bounds b s in
    let rest : valid_from fuel (drop n (b ∷ s)) ≡ true = ground arith in
    let shorter : length (drop n (b ∷ s)) ≤ fuel =
      omega (arith, length-drop n (b ∷ s), bounds, h) in
    elim (Bool-cases (ltb p n)) [
      | inl before ↦ elim (Bool-cases (p == 0)) [
        | inl first ↦
            let at_zero : p ≡ 0 = ground arith in
            let next = starts_first fuel (drop n (b ∷ s)) shorter rest in
            let there : starts_at (b ∷ s) (0 + n) ≡ true =
              ap (starts_at (b ∷ s)) {x = 0 + n} {y = n + 0} (omega arith)
              ∙ (sym (starts_at-drop n 0 (b ∷ s)) ∙ next) in
            subst (λ q. starts_at (b ∷ s) (q + rune_size (drop q (b ∷ s))) ≡ true) (sym at_zero)
              there
        | inr inside ↦
            let none_here = inside_rune (b ∷ s) p (ground arith) (ground arith) in absurd cc
      ]
      | inr behind ↦
          let q = p - n in
          let p_eq : n + q ≡ p = ground arith in
          let begins : starts_at (drop n (b ∷ s)) q ≡ true =
            starts_at-drop n q (b ∷ s) ∙ (ap (starts_at (b ∷ s)) p_eq ∙ e) in
          let ih =
            starts_next_from fuel (drop n (b ∷ s)) q shorter rest
              (omega (arith, length-drop n (b ∷ s), k, p_eq)) begins in
          let same : drop q (drop n (b ∷ s)) ≡ drop p (b ∷ s) =
            drop-drop q n (b ∷ s) ∙ ap (λ m. drop m (b ∷ s)) p_eq in
          let whole : n + (q + rune_size (drop q (drop n (b ∷ s))))
              ≡ p + rune_size (drop p (b ∷ s)) =
            omega (arith, p_eq, ap rune_size same) in
          ap (starts_at (b ∷ s)) (sym whole)
          ∙ (sym (starts_at-drop n (q + rune_size (drop q (drop n (b ∷ s)))) (b ∷ s)) ∙ ih)
    ]

pub starts_next :
    (s : Bytes) (p : ℕ)
    → valid_utf8 s ≡ true
    → p < length s
    → starts_at s p ≡ true
    → starts_at s (next_boundary s p) ≡ true
unfolding valid_utf8 next_boundary
starts_next s p v k e = starts_next_from (length s) s p (omega arith) v k e

pub starts_zero : (s : Bytes) → valid_utf8 s ≡ true → starts_at s 0 ≡ true
unfolding valid_utf8
starts_zero s v = starts_first (length s) s (omega arith) v

pub starts_behind : (s : Bytes) (i : ℕ) → length s ≤ i → starts_at s i ≡ true
unfolding starts_at
starts_behind [] i h = refl
starts_behind (b ∷ s) zero h = absurd (omega arith)
starts_behind (b ∷ s) (suc i) h = starts_behind s i (omega arith)

pub starts_back :
    (s : Bytes) (p : ℕ) → starts_at s 0 ≡ true → starts_at s (back_to_start s p) ≡ true
unfolding back_to_start
starts_back s zero h = h
starts_back s (suc p) h = ground (arith, starts_back s p h)

pub next_boundary_bounds :
    (s : Bytes) (p : ℕ) → p < length s → (p < next_boundary s p) × (next_boundary s p ≤ length s)
unfolding next_boundary
next_boundary_bounds s p h = go (drop p s) (length-drop p s)
  where
    go :
        (t : Bytes) → length t ≡ length s - p → (p < p + rune_size t) × (p + rune_size t ≤ length s)
    go [] e = absurd (omega arith)
    go (b ∷ t) e = (omega (arith, rune_size_bounds b t), omega (arith, rune_size_bounds b t))

pub retreats : (s : Bytes) (p : ℕ) → starts_at s p ≡ true → back_to_start s p ≡ p
unfolding back_to_start
retreats s zero e = refl
retreats s (suc p) e = ground arith

retreats_one :
    (s : Bytes) (p : ℕ)
    → starts_at s p ≡ true
    → starts_at s (suc p) ≡ false
    → back_to_start s (suc p) ≡ p
unfolding back_to_start
retreats_one s p e f = ground (arith, retreats s p e)

-- Where a page from `offset` on may end.
abbrev pub EndsWell : Bytes → ℕ → ℕ → Type 0
EndsWell s offset stop = (offset < stop) × (stop ≤ length s) × (starts_at s stop ≡ true)

module _ (s : Bytes) (offset : ℕ) (v : valid_utf8 s ≡ true) (h : offset < length s)
    (e : starts_at s offset ≡ true) where
  pub tried_end-EndsWell : (middle : ℕ) → EndsWell s offset (tried_end s offset middle)
  unfolding tried_end boundary_at_or_before
  tried_end-EndsWell middle =
      let next = next_boundary_bounds s offset h in
      let next_starts = starts_next s offset v h e in
      let back = starts_back s (offset + middle) (starts_zero s v) in
      let back_le = back_to_start_le s (offset + middle) in
      let ends = starts_behind s (length s) (omega arith) in ground arith

  -- The shortest page ends behind the first rune.
  pub tried_end_one : tried_end s offset 1 ≡ next_boundary s offset
  unfolding tried_end boundary_at_or_before back_to_start next_boundary
  tried_end_one = elim (Bool-cases (leb (length s) (offset + 1))) [
    | inl last ↦
        let next : (offset < offset + rune_size (drop offset s))
            × (offset + rune_size (drop offset s) ≤ length s) =
          next_boundary_bounds s offset h in
        ground arith
    | inr inside ↦
        let next : (offset < offset + rune_size (drop offset s))
            × (offset + rune_size (drop offset s) ≤ length s) =
          next_boundary_bounds s offset h in
        let plus : suc offset ≡ offset + 1 = omega arith in
        let shift : starts_at (drop offset s) 1 ≡ starts_at s (suc offset) =
          starts_at-drop offset 1 s ∙ ap (starts_at s) (sym plus) in
        elim (Bool-cases (starts_at s (suc offset))) [
          | inl at_once ↦
              let here = ap (back_to_start s) (sym plus) ∙ retreats s (suc offset) at_once in
              let single = inside_rune (drop offset s) 1 (omega arith) in ground arith
          | inr later ↦
              let here = ap (back_to_start s) (sym plus) ∙ retreats_one s offset e later in
              ground arith
        ]
  ]

last_where_further :
    (p : Bytes → Bool) (b : ℕ) (s : Bytes) (i : ℕ)
    → last_where p s ≡ some i
    → last_where p (b ∷ s) ≡ some (suc i)
unfolding last_where
last_where_further p b s i found = rw (last_where, found) refl

last_where_here :
    (p : Bytes → Bool) (b : ℕ) (s : Bytes)
    → last_where p s ≡ none
    → last_where p (b ∷ s) ≡ (if p (b ∷ s) then some 0 else none)
unfolding last_where
last_where_here p b s nowhere = rw (last_where, nowhere) refl

last_where_holds :
    (p : Bytes → Bool) (s : Bytes) (i : ℕ)
    → last_where p s ≡ some i
    → (i < length s) × (p (drop i s) ≡ true)
last_where_holds p [] i h = absurd (let none_there : none ≡ some i = (unfold last_where in h) in cc)
last_where_holds p (b ∷ s) i h = elim (Option-cases (last_where p s)) [
  | inl nowhere ↦
      let here = last_where_here p b s nowhere in
      elim (Bool-cases (p (b ∷ s))) [
        | inl passes ↦
            let zero_eq : 0 ≡ i = ground arith in
            subst (λ i. (i < length (b ∷ s)) × (p (drop i (b ∷ s)) ≡ true)) zero_eq
              (omega arith, passes)
        | inr fails ↦ absurd (ground arith)
      ]
  | inr (j, found) ↦
      let further = last_where_further p b s j found in
      let suc_eq : suc j ≡ i = cc in
      let (within, passes) = last_where_holds p s j found in
      subst (λ i. (i < length (b ∷ s)) × (p (drop i (b ∷ s)) ≡ true)) suc_eq
        (omega (arith, within), passes)
]

at_newline_there :
    (s : Bytes) (i : ℕ)
    → at_paragraph (drop i s) ≡ true
    → (suc i < length s) × (get_elem? s (suc i) ≡ some 10)
at_newline_there [] zero h = absurd cc
at_newline_there [] (suc i) h = absurd cc
at_newline_there (a ∷ []) zero h = absurd (ground arith)
at_newline_there (a ∷ b ∷ s) zero h = (omega arith, ground arith)
at_newline_there (a ∷ s) (suc i) h =
    let (within, there) = at_newline_there s i h in (omega (arith, within), there)

get_elem?-take :
    (n i : ℕ) (s : Bytes) (b : ℕ) → get_elem? (take n s) i ≡ some b → get_elem? s i ≡ some b
get_elem?-take zero i s b h = absurd cc
get_elem?-take (suc n) i [] b h = absurd cc
get_elem?-take (suc n) zero (a ∷ s) b h = h
get_elem?-take (suc n) (suc i) (a ∷ s) b h = get_elem?-take n i s b h

newline_alone : (s : Bytes) → rune_size (10 ∷ s) ≡ 1
unfolding rune_size is_pair is_triple is_quad
newline_alone [] = refl
newline_alone (b ∷ []) = refl
newline_alone (b ∷ c ∷ []) = refl
newline_alone (b ∷ c ∷ d ∷ s) = refl

pub drop_there {ℓ} :
    {A : Type ℓ} (s : List A) (p : ℕ) (b : A)
    → get_elem? s p ≡ some b
    → (drop p s ≡ b ∷ drop (suc p) s) × (p < length s)
drop_there [] p b h = absurd cc
drop_there (a ∷ s) zero b h = let same : a ≡ b = cc in (ap (λ c. c ∷ s) same, omega arith)
drop_there (a ∷ s) (suc p) b h = let (e, within) = drop_there s p b h in (e, omega (arith, within))

-- A newline is a rune of one byte.
newline_size :
    (s : Bytes) (p : ℕ)
    → get_elem? s p ≡ some 10
    → (starts_at s p ≡ true) × (next_boundary s p ≡ p + 1)
unfolding starts_at next_boundary
newline_size s p h =
    let (e, within) = drop_there s p 10 h in
    (rw (starts_at, h) refl, ap (λ n. p + n) (ap rune_size e ∙ newline_alone (drop (suc p) s)))

-- A paragraph's end that is taken lies within the page.
pub paragraph_end-EndsWell :
    (s : Bytes) (offset maximum : ℕ)
    → valid_utf8 s ≡ true
    → maximum ≤ length s
    → offset < preferred_paragraph_end s offset maximum
    → EndsWell s offset (preferred_paragraph_end s offset maximum)
unfolding preferred_paragraph_end
paragraph_end-EndsWell s offset maximum v h k =
    elim (Option-cases (last_where at_paragraph (slice s offset maximum))) [
      | inl nowhere ↦
          let none_there : preferred_paragraph_end s offset maximum ≡ 0 =
            rw (preferred_paragraph_end, nowhere) refl in
          absurd (omega (arith, none_there, k))
      | inr (i, found) ↦
          let (inside, passes) = last_where_holds at_paragraph (slice s offset maximum) i found in
          let (within, there) = at_newline_there (slice s offset maximum) i passes in
          let size : length (slice s offset maximum) ≤ maximum - offset =
            omega (arith, length-take (maximum - offset) (drop offset s)) in
          let newline : get_elem? s (offset + suc i) ≡ some 10 =
            sym (get_elem?-drop offset (suc i) s)
            ∙ get_elem?-take (maximum - offset) (suc i) (drop offset s) 10 there in
          let (begins, one_byte) = newline_size s (offset + suc i) newline in
          let next = starts_next s (offset + suc i) v (omega (arith, within, size, h)) begins in
          let plus : next_boundary s (offset + suc i) ≡ offset + i + 2 = omega (arith, one_byte) in
          let at_end : starts_at s (offset + i + 2) ≡ true = ap (starts_at s) (sym plus) ∙ next in
          let chosen : preferred_paragraph_end s offset maximum
              ≡ (if ltb i (length (slice s offset maximum) / 2) then 0 else offset + i + 2) =
            rw (preferred_paragraph_end, found) refl in
          elim (Bool-cases (ltb i (length (slice s offset maximum) / 2))) [
            | inl early ↦
                let at_zero : preferred_paragraph_end s offset maximum ≡ 0 = ground arith in
                absurd (omega (arith, at_zero, k))
            | inr late ↦
                let there : preferred_paragraph_end s offset maximum ≡ offset + i + 2 =
                  ground arith in
                subst (EndsWell s offset) (sym there)
                  (omega arith, omega (arith, within, size, h), at_end)
          ]
    ]

-- It ends within the stretch that it was looked for in.
pub paragraph_end_le :
    (s : Bytes) (offset maximum : ℕ)
    → offset < preferred_paragraph_end s offset maximum
    → preferred_paragraph_end s offset maximum ≤ maximum
unfolding preferred_paragraph_end
paragraph_end_le s offset maximum k =
    elim (Option-cases (last_where at_paragraph (slice s offset maximum))) [
      | inl nowhere ↦
          let none_there : preferred_paragraph_end s offset maximum ≡ 0 =
            rw (preferred_paragraph_end, nowhere) refl in
          absurd (omega (arith, none_there, k))
      | inr (i, found) ↦
          let (inside, passes) = last_where_holds at_paragraph (slice s offset maximum) i found in
          let (within, there) = at_newline_there (slice s offset maximum) i passes in
          let size : length (slice s offset maximum) ≤ maximum - offset =
            omega (arith, length-take (maximum - offset) (drop offset s)) in
          let chosen : preferred_paragraph_end s offset maximum
              ≡ (if ltb i (length (slice s offset maximum) / 2) then 0 else offset + i + 2) =
            rw (preferred_paragraph_end, found) refl in
          ground (arith, chosen, within, size)
    ]
