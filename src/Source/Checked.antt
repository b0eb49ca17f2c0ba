-- ===== src/Source/Checked.antt =====
-- internal/source/source.go: what a read gives has the hash that was asked for, and is paid for.
use pocket_advisor.Prelude.{
  ℕ, ◌+◌, ◌≤◌, ◌<◌, ◌≡◌, refl, ap, sym, subst, ◌∙◌, ◌⊎◌, inl, inr, true, not, ◌&&◌, ◌||◌, List, [],
  ◌∷◌, Option, none, some, arith, Bytes, bytes_eq, bytes_eq→eq, ltb, Bool-cases, length, bytes_Eq,
}
use pocket_advisor.Source.Resolver.{
  Disk, Root, File, ReadReply, got, failed, SourceError, check_hash, check_links, read_linked,
  read_under, read_file, root_for, has_backslash,
}
use pocket_advisor.Source.Replay.{ReplayBudget, Child, Archive, spend, spend_all, find_child}

-- The budget does not grow.
abbrev pub Fewer : ReplayBudget → ReplayBudget → Type 0
Fewer b none = Unit {0}
Fewer none (some n) = 0 < 0
Fewer (some m) (some n) = n ≤ m

-- It pays for so many bytes, and the rest is what is left.
abbrev pub Paid : ℕ → ReplayBudget → ReplayBudget → Type 0
Paid k b none = 0 < 0
Paid k none (some n) = 0 < 0
Paid k (some m) (some n) = k + n ≤ m

pub Fewer-refl : (b : ReplayBudget) → Fewer b b
Fewer-refl none = tt
Fewer-refl (some n) = omega arith

pub Fewer-trans : (a b c : ReplayBudget) → Fewer a b → Fewer b c → Fewer a c
Fewer-trans a b none h k = tt
Fewer-trans none none (some n) h k = k
Fewer-trans (some l) none (some n) h k = absurd (omega (arith, k))
Fewer-trans none (some m) (some n) h k = h
Fewer-trans (some l) (some m) (some n) h k = omega (arith, h, k)

pub Fewer-Paid : (a b c : ReplayBudget) (k : ℕ) → Fewer a b → Paid k b c → Paid k a c
Fewer-Paid a b none k h p = p
Fewer-Paid none none (some n) k h p = p
Fewer-Paid (some l) none (some n) k h p = absurd (omega (arith, p))
Fewer-Paid none (some m) (some n) k h p = h
Fewer-Paid (some l) (some m) (some n) k h p = omega (arith, h, p)

pub spend-Fewer : (b : ReplayBudget) (k : ℕ) → Fewer b (spend b k)
unfolding spend
spend-Fewer none k = tt
spend-Fewer (some m) k = elim (Bool-cases (ltb m k)) [
  | inl over ↦ rw (spend, over) tt
  | inr within ↦ rw (spend, within) (omega arith)
]

pub spend-Paid : (b : ReplayBudget) (k left : ℕ) → spend b k ≡ some left → Paid k b (some left)
unfolding spend
spend-Paid none k left e = absurd cc
spend-Paid (some m) k left e = ground arith

pub first_child :
    (b : ReplayBudget) (k left : ℕ) → Fewer (spend b k) (some left) → Paid k b (some left)
unfolding spend
first_child none k left h = h
first_child (some m) k left h = ground arith

pub spend_all-Fewer : (cs : List Child) (b : ReplayBudget) → Fewer b (spend_all cs b)
unfolding spend_all
spend_all-Fewer [] b = Fewer-refl b
spend_all-Fewer (c ∷ cs) b =
    Fewer-trans b (spend b (length c.content)) (spend_all cs (spend b (length c.content)))
      (spend-Fewer b (length c.content)) (spend_all-Fewer cs (spend b (length c.content)))

module _ (d : Disk) (roots : List Root) (a : Archive) where
  -- The bytes have the hash, when there is one.
  abbrev pub Matches : Bytes → Bytes → Type 0
  Matches sha content = (sha ≡ []) ⊎ (d.sha256_hex content ≡ sha)

  abbrev pub Hashed : Bytes → ReadReply → Type 0
  Hashed sha (failed e) = Unit {0}
  Hashed sha (got content) = Matches sha content

  check_hash-Hashed : (sha : Bytes) (r : ReadReply) → Hashed sha (check_hash d sha r)
  unfolding check_hash
  check_hash-Hashed sha (failed e) = tt
  check_hash-Hashed [] (got content) = inl refl
  check_hash-Hashed (b ∷ sha) (got content) =
      elim (Bool-cases (bytes_eq (d.sha256_hex content) (b ∷ sha))) [
        | inl same ↦ rw (check_hash, same) (inr (bytes_eq→eq (d.sha256_hex content) (b ∷ sha) same))
        | inr other ↦ rw (check_hash, other) tt
      ]

  linked-Hashed :
      (f : File) (name : Bytes) (e : Option SourceError) → Hashed f.sha256 (read_linked d f name e)
  unfolding read_linked
  linked-Hashed f name (some e) = tt
  linked-Hashed f name none = check_hash-Hashed f.sha256 _

  under-Hashed : (f : File) (o : Option Root) → Hashed f.sha256 (read_under d f o)
  unfolding read_under
  under-Hashed f none = tt
  under-Hashed f (some r) = elim (Bool-cases (not (d.opens_root r.name))) [
    | inl closed ↦ rw (read_under, closed) tt
    | inr opened ↦
        rw (read_under, opened)
          (linked-Hashed f r.name (check_links (d.links r.name f.relative_path)))
  ]

  pub read_file-Hashed : (f : File) → Hashed f.sha256 (read_file d roots f)
  unfolding read_file
  read_file-Hashed f =
      let refused =
        not (d.valid_path f.relative_path)
        || bytes_eq f.relative_path (46 ∷ [])
        || has_backslash f.relative_path
        || d.ignored f.relative_path in
      elim (Bool-cases refused) [
        | inl r ↦ rw (read_file, r) tt
        | inr r ↦ rw (read_file, r) (under-Hashed f (root_for roots f.root_key))
      ]

  pub find_child-Paid :
      (selector sha : Bytes) (cs : List Child) (b : ReplayBudget) (left : ℕ) (x : Bytes)
      → spend_all cs b ≡ some left
      → find_child d roots a selector sha cs ≡ some x
      → (d.sha256_hex x ≡ sha) × Paid (length x) b (some left)
  unfolding spend_all find_child
  find_child-Paid selector sha [] b left x s e = absurd cc
  find_child-Paid selector sha (c ∷ cs) b left x s e =
      let after = spend b (length c.content) in
      elim (Bool-cases (bytes_eq c.selector selector && bytes_eq (d.sha256_hex c.content) sha)) [
        | inl there ↦
            let first : find_child d roots a selector sha (c ∷ cs) ≡ some c.content =
              rw (find_child, there) refl in
            let same : c.content ≡ x = cc in
            let hash : bytes_eq (d.sha256_hex c.content) sha ≡ true = ground arith in
            (
              ap d.sha256_hex (sym same) ∙ bytes_eq→eq (d.sha256_hex c.content) sha hash,
              subst (λ y. Paid (length y) b (some left)) same
                  (first_child b (length c.content) left
                    (subst (Fewer after) s (spend_all-Fewer cs after))),
            )
        | inr other ↦
            let step : find_child d roots a selector sha (c ∷ cs)
                ≡ find_child d roots a selector sha cs =
              rw (find_child, other) refl in
            let (hash, paid) = find_child-Paid selector sha cs after left x s (sym step ∙ e) in
            (
              hash,
              Fewer-Paid b after (some left) (length x) (spend-Fewer b (length c.content)) paid,
            )
      ]
