-- ===== src/Workspace/Ignore/Rules.antt =====
-- internal/workspace/ignore.go: which rule decides about a path, and what `CompileIgnore` accepts.
use pocket_advisor.Prelude.{
  ℕ, suc, ◌≡◌, ◌≢◌, ◌<◌, refl, ◌↔◌, ap, sym, ◌∙◌, ◌⊎◌, inl, inr, Bool, true, false, not, List, [],
  ◌∷◌, ◌++◌, Option, none, arith, Bytes, bytes_eq, bytes_eq_iff, subst, if◌then◌else◌, Bool-cases,
  All, length,
}
use pocket_advisor.Prelude.Runes.{trim}
use pocket_advisor.Workspace.Ignore.{
  Rule, Compiled, ok, err, IgnoreError, empty_entry, negates_nothing, no_pattern, malformed, stars,
  verdict_of, match, match_name, rule_matches, names_member, split_slash, has_slash, trim_here,
  trim_slash, begins_with, rest_of, well_formed, compile_rule, compile_from,
}

-- Some rule that is not negated passes the test, and no rule behind it does.
abbrev pub Decided : (Rule → Bool) → List Rule → Type 0
Decided p rules =
    (before : List Rule) × (r : Rule) × (after : List Rule) × (rules ≡ before ++ r ∷ after)
    × (p r ≡ true)
    × (r.negate ≡ false)
    × All (λ s. p s ≡ false) after

module _ (p : Rule → Bool) where
  later_rule : (r : Rule) (rs : List Rule) → Decided p rs → Decided p (r ∷ rs)
  later_rule r rs (before, s, after, split, passes, plain, others) =
      (r ∷ before, s, after, ap (◌∷◌ r) split, passes, plain, others)

  verdict→Decided :
      (rules : List Rule) (b : Bool)
      → verdict_of p rules b ≡ true
      → Decided p rules ⊎ ((b ≡ true) × All (λ s. p s ≡ false) rules)
  unfolding verdict_of
  verdict→Decided [] b h = inr (h, tt)
  verdict→Decided (r ∷ rs) b h = elim (verdict→Decided rs (if p r then not r.negate else b) h) [
    | inl d ↦ inl (later_rule r rs d)
    | inr (now, others) ↦ elim (Bool-cases (p r)) [
      | inl passes ↦ inl ([], r, rs, refl, passes, ground arith, others)
      | inr passed_over ↦ inr (ground arith, (passed_over, others))
    ]
  ]

  verdict_none :
      (rules : List Rule) (b : Bool) → All (λ s. p s ≡ false) rules → verdict_of p rules b ≡ b
  unfolding verdict_of
  verdict_none [] b a = refl
  verdict_none (r ∷ rs) b a = rw a.0 (verdict_none rs b a.1)

  Decided→verdict :
      (before : List Rule) (r : Rule) (after : List Rule) (b : Bool)
      → p r ≡ true
      → r.negate ≡ false
      → All (λ s. p s ≡ false) after
      → verdict_of p (before ++ r ∷ after) b ≡ true
  unfolding verdict_of
  Decided→verdict [] r after b passes plain others =
      rw (verdict_of, passes, plain) (verdict_none after true others)
  Decided→verdict (q ∷ before) r after b passes plain others =
      Decided→verdict before r after (if p q then not q.negate else b) passes plain others

  verdict_iff : (rules : List Rule) → (verdict_of p rules false ≡ true) ↔ Decided p rules
  verdict_iff rules = (
    λ h. elim (verdict→Decided rules false h) [ inl d ↦ d | inr (never, others) ↦ absurd cc ],
    λ (before, r, after, split, passes, plain, others).
        ap (λ rs. verdict_of p rs false) split
        ∙ Decided→verdict before r after false passes plain others,
  )

split_slash_some : (s : Bytes) → 0 < length (split_slash s)
unfolding split_slash
split_slash_some [] = ground arith
split_slash_some (b ∷ s) = ground arith

split_slash_one : (s : Bytes) → (not (has_slash s) ≡ true) ↔ (length (split_slash s) ≡ 1)
unfolding split_slash has_slash
split_slash_one [] = ground arith
split_slash_one (b ∷ s) = ground (arith, split_slash_one s, split_slash_some s)

Compiled-cases {ℓ} :
    {A : Type ℓ} (c : Compiled A) → ((a : A) × (c ≡ ok a)) ⊎ ((e : IgnoreError) × (c ≡ err e))
Compiled-cases (ok a) = inl (a, refl)
Compiled-cases (err e) = inr (e, refl)

-- What is left of the tests of `CompileIgnore` when no error came.
passed_all :
    (a b c d : Bool) (i : ℕ) (made r : Rule)
    → (if a
        then err (empty_entry i)
        else if b
        then err (negates_nothing i)
        else if c
        then err (no_pattern i)
        else if not d
        then err (malformed i)
        else ok made)
      ≡ ok r
    → (made ≡ r) × (d ≡ true)
passed_all true b c d i made r h = absurd cc
passed_all false true c d i made r h = absurd cc
passed_all false false true d i made r h = absurd cc
passed_all false false false false i made r h = absurd cc
passed_all false false false true i made r h = (cc, refl)

module _ (path_match : Bytes → Bytes → Option Bool) (lower : Bytes → Bytes) where
  -- A path is ignored exactly when some rule that is not negated matches it and no rule behind that
  -- one does.
  pub match_iff :
      (rules : List Rule) (rel : Bytes)
      → (match path_match lower rules rel ≡ true)
        ↔ Decided (λ r. rule_matches path_match lower r (split_slash (trim_here rel))) rules
  unfolding match
  match_iff [] rel =
      verdict_iff (λ r. rule_matches path_match lower r (split_slash (trim_here rel))) []
  match_iff (r ∷ rs) rel =
      verdict_iff (λ r. rule_matches path_match lower r (split_slash (trim_here rel))) (r ∷ rs)

  -- A member of a container is ignored exactly when some bare rule that is not negated names it and no
  -- rule behind that one does.
  pub match_name_iff :
      (rules : List Rule) (name : Bytes)
      → (match_name path_match lower rules name ≡ true)
        ↔ Decided (names_member path_match lower name) rules
  unfolding match_name
  match_name_iff rules name = verdict_iff (names_member path_match lower name) rules

  -- The segments are those of a pattern: one at least, exactly one for a bare name, and each is `**`
  -- or a pattern that `path.Match` can read.
  abbrev pub Usable : Rule → Type 0
  Usable r =
      (0 < length r.segs)
      × ((r.name ≡ true) ↔ (length r.segs ≡ 1))
      × All (λ seg. (seg ≡ stars) ⊎ (path_match seg [] ≢ none)) r.segs

  readable :
      (seg : Bytes) (segs : List Bytes)
      → bytes_eq seg stars ≡ false
      → path_match seg [] ≡ none
      → well_formed path_match lower (seg ∷ segs) ≢ true
  unfolding well_formed
  readable seg segs e unreadable =
      let refused : well_formed path_match lower (seg ∷ segs) ≡ false =
        rw (well_formed, e, unreadable) refl in
      λ h. absurd cc

  well_formed→All :
      (segs : List Bytes)
      → well_formed path_match lower segs ≡ true
      → All (λ seg. (seg ≡ stars) ⊎ (path_match seg [] ≢ none)) segs
  unfolding well_formed
  well_formed→All [] h = tt
  well_formed→All (seg ∷ segs) h = (
    elim (Bool-cases (bytes_eq seg stars)) [
      | inl e ↦ inl ((bytes_eq_iff seg stars).0 e)
      | inr e ↦ inr (λ unreadable. readable seg segs e unreadable h)
    ],
    well_formed→All segs (ground arith),
  )

  compile_rule-Usable :
      (i : ℕ) (raw : Bytes) (r : Rule) → compile_rule path_match lower i raw ≡ ok r → Usable r
  unfolding compile_rule
  compile_rule-Usable i raw r h =
      let (same, readable) = passed_all _ _ _ _ i _ r h in
      let p = trim raw in
      let body = trim_slash (if begins_with b'!' p then trim (rest_of p) else p) in
      subst Usable same
        (split_slash_some body, split_slash_one body, well_formed→All (split_slash body) readable)

  -- When the patterns are accepted there is a rule for each, with a segment at least, exactly one
  -- when it is a bare name and only then, and every segment is a double star or a pattern that
  -- path.Match can read.
  pub compile_from-Usable :
      (i : ℕ) (raws : List Bytes) (rules : List Rule)
      → compile_from path_match lower i raws ≡ ok rules
      → (length rules ≡ length raws) × All Usable rules
  unfolding compile_from
  compile_from-Usable i [] rules h =
      let none_made : [] ≡ rules = cc in rw (sym none_made) (refl, tt)
  compile_from-Usable i (raw ∷ raws) rules h =
      elim (Compiled-cases (compile_rule path_match lower i raw)) [
        | inl (r, made) ↦ elim (Compiled-cases (compile_from path_match lower (suc i) raws)) [
          | inl (rs, others) ↦
              let whole : r ∷ rs ≡ rules = cc in
              let (count, usable) = compile_from-Usable (suc i) raws rs others in
              rw (sym whole) (ap suc count, (compile_rule-Usable i raw r made, usable))
          | inr (e, failed) ↦ absurd cc
        ]
        | inr (e, failed) ↦ absurd cc
      ]
