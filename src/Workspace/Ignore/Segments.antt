-- ===== src/Workspace/Ignore/Segments.antt =====
-- internal/workspace/ignore.go: what a pattern of segments covers, said without the loops.
use pocket_advisor.Prelude.{
  ◌≡◌, ◌≢◌, refl, ◌↔◌, ap, sym, ◌∙◌, ◌⊎◌, inl, inr, Bool, true, false, not, ◌&&◌, List, [], ◌∷◌,
  ◌++◌, Option, arith, Bytes, bytes_eq, bytes_eq_iff, Bool-cases,
}
use pocket_advisor.Workspace.Ignore.{is_none, some_tail, stars, match_segment, match_segments}

module _ (path_match : Bytes → Bytes → Option Bool) (lower : Bytes → Bytes) where
  -- `**` at the end covers any names but none; elsewhere it covers any run of names, none included;
  -- each other segment covers one name that it matches.
  abbrev pub Covers : List Bytes → List Bytes → Type 0
  Covers [] names = names ≡ []
  Covers (p ∷ []) names =
      ((p ≡ stars) × (names ≢ []))
      ⊎ ((p ≢ stars)
          × ((n : Bytes) × (match_segment path_match lower p n ≡ true) × (names ≡ n ∷ [])))
  Covers (p ∷ q ∷ ps) names =
      ((p ≡ stars)
        × ((skipped : List Bytes) × (rest : List Bytes) × (names ≡ skipped ++ rest)
            × Covers (q ∷ ps) rest))
      ⊎ ((p ≢ stars)
          × ((n : Bytes) × (ns : List Bytes) × (match_segment path_match lower p n ≡ true)
              × (names ≡ n ∷ ns)
              × Covers (q ∷ ps) ns))

some_tail→parts :
    (p : List Bytes → Bool) (xs : List Bytes)
    → some_tail p xs ≡ true
    → (skipped : List Bytes) × (rest : List Bytes) × (xs ≡ skipped ++ rest) × (p rest ≡ true)
unfolding some_tail
some_tail→parts p [] h = ([], [], refl, h)
some_tail→parts p (x ∷ xs) h = elim (Bool-cases (p (x ∷ xs))) [
  | inl here ↦ ([], x ∷ xs, refl, here)
  | inr further ↦
      let (skipped, rest, e, found) = some_tail→parts p xs (ground arith) in
      (x ∷ skipped, rest, ap (◌∷◌ x) e, found)
]

parts→some_tail :
    (p : List Bytes → Bool) (skipped rest : List Bytes)
    → p rest ≡ true
    → some_tail p (skipped ++ rest) ≡ true
unfolding some_tail
parts→some_tail p [] [] h = h
parts→some_tail p [] (x ∷ xs) h = ground arith
parts→some_tail p (x ∷ skipped) rest h = ground (arith, parts→some_tail p skipped rest h)

no_names : (names : List Bytes) → is_none names ≡ true → names ≡ []
no_names [] h = refl
no_names (n ∷ ns) h = absurd cc

some_names : (names : List Bytes) → not (is_none names) ≡ true → names ≢ []
some_names [] h = absurd cc
some_names (n ∷ ns) h = λ e. cc

some_names_of : (names : List Bytes) → names ≢ [] → not (is_none names) ≡ true
some_names_of [] h = absurd (h refl)
some_names_of (n ∷ ns) h = refl

apart : (p : Bytes) → bytes_eq p stars ≡ false → p ≢ stars
apart p e same = let other : bytes_eq p stars ≡ true = (bytes_eq_iff p stars).1 same in cc

apart_eq : (p : Bytes) → p ≢ stars → bytes_eq p stars ≡ false
apart_eq p h = elim (Bool-cases (bytes_eq p stars)) [
  | inl e ↦ absurd (h ((bytes_eq_iff p stars).0 e))
  | inr e ↦ e
]

module _ (path_match : Bytes → Bytes → Option Bool) (lower : Bytes → Bytes) where
  abbrev match_here : List Bytes → List Bytes → Bool
  match_here = match_segments path_match lower

  match_stars :
      (p q : Bytes) (ps names : List Bytes)
      → bytes_eq p stars ≡ true
      → match_here (p ∷ q ∷ ps) names ≡ some_tail (match_here (q ∷ ps)) names
  unfolding match_segments
  match_stars p q ps names h = rw h refl

  match_one :
      (p n : Bytes) (ps ns : List Bytes)
      → bytes_eq p stars ≡ false
      → match_here (p ∷ ps) (n ∷ ns) ≡ (match_segment path_match lower p n && match_here ps ns)
  unfolding match_segments
  match_one p n ps ns h = rw h refl

  match_none_left :
      (p : Bytes) (ps : List Bytes) → bytes_eq p stars ≡ false → match_here (p ∷ ps) [] ≡ false
  unfolding match_segments
  match_none_left p ps h = rw h refl

  match_last_stars :
      (p : Bytes) (names : List Bytes)
      → bytes_eq p stars ≡ true
      → match_here (p ∷ []) names ≡ not (is_none names)
  unfolding match_segments
  match_last_stars p names h = rw h refl

  match_end : (names : List Bytes) → match_here [] names ≡ is_none names
  unfolding match_segments
  match_end names = refl

  -- A segment other than `**` covers the first name, and what follows it the others.
  one_name :
      (p : Bytes) (ps names : List Bytes)
      → bytes_eq p stars ≡ false
      → match_here (p ∷ ps) names ≡ true
      → (n : Bytes) × (ns : List Bytes) × (match_segment path_match lower p n ≡ true)
        × (names ≡ n ∷ ns)
        × (match_here ps ns ≡ true)
  one_name p ps [] e h = absurd cc (match_none_left p ps e, h)
  one_name p ps (n ∷ ns) e h =
      let both : (match_segment path_match lower p n && match_here ps ns) ≡ true =
        sym (match_one p n ps ns e) ∙ h in
      (n, ns, (ground arith), refl, (ground arith))

  match→Covers :
      (pat names : List Bytes) → match_here pat names ≡ true → Covers path_match lower pat names
  match→Covers [] names h = no_names names (sym (match_end names) ∙ h)
  match→Covers (p ∷ []) names h = elim (Bool-cases (bytes_eq p stars)) [
    | inl e ↦
        inl ((bytes_eq_iff p stars).0 e, some_names names (sym (match_last_stars p names e) ∙ h))
    | inr e ↦
        let (n, ns, here, split, after) = one_name p [] names e h in
        let over : ns ≡ [] = no_names ns (sym (match_end ns) ∙ after) in
        inr (apart p e, (n, here, split ∙ ap (◌∷◌ n) over))
  ]
  match→Covers (p ∷ q ∷ ps) names h = elim (Bool-cases (bytes_eq p stars)) [
    | inl e ↦
        let (skipped, rest, split, after) =
          some_tail→parts (match_here (q ∷ ps)) names (sym (match_stars p q ps names e) ∙ h) in
        inl ((bytes_eq_iff p stars).0 e, (skipped, rest, split, match→Covers (q ∷ ps) rest after))
    | inr e ↦
        let (n, ns, here, split, after) = one_name p (q ∷ ps) names e h in
        inr (apart p e, (n, ns, here, split, match→Covers (q ∷ ps) ns after))
  ]

  Covers→match :
      (pat names : List Bytes) → Covers path_match lower pat names → match_here pat names ≡ true
  Covers→match [] names c = match_end names ∙ ap is_none c
  Covers→match (p ∷ []) names (inl (same, any)) =
      match_last_stars p names ((bytes_eq_iff p stars).1 same) ∙ some_names_of names any
  Covers→match (p ∷ []) names (inr (other, (n, here, split))) =
      let alone = match_one p n [] [] (apart_eq p other) in
      let over = match_end [] in
      let first : match_here (p ∷ []) (n ∷ []) ≡ true = rw (alone, over, here) refl in
      ap (match_here (p ∷ [])) split ∙ first
  Covers→match (p ∷ q ∷ ps) names (inl (same, (skipped, rest, split, after))) =
      let found =
        parts→some_tail (match_here (q ∷ ps)) skipped rest (Covers→match (q ∷ ps) rest after) in
      match_stars p q ps names ((bytes_eq_iff p stars).1 same)
      ∙ ap (some_tail (match_here (q ∷ ps))) split
      ∙ found
  Covers→match (p ∷ q ∷ ps) names (inr (other, (n, ns, here, split, after))) =
      let one = match_one p n (q ∷ ps) ns (apart_eq p other) in
      let others = Covers→match (q ∷ ps) ns after in
      let first : match_here (p ∷ q ∷ ps) (n ∷ ns) ≡ true = rw (one, others, here) refl in
      ap (match_here (p ∷ q ∷ ps)) split ∙ first

  -- A pattern of segments matches a path exactly when it covers it: a double star at the end covers
  -- one name or more, one before other segments covers any run of names and what follows it the
  -- rest, and each other segment covers a name that it matches.
  pub match_segments_iff :
      (pat names : List Bytes)
      → (match_segments path_match lower pat names ≡ true) ↔ Covers path_match lower pat names
  match_segments_iff pat names = (match→Covers pat names, Covers→match pat names)
