-- ===== src/Mcp/Store/Entries.antt =====
-- internal/mcp/snapshot.go: what the maps hold after a deletion.
use pocket_advisor.Prelude.{
  ℕ, suc, ◌+◌, ◌≡◌, refl, ap, sym, ◌∙◌, inl, inr, true, false, List, [], ◌∷◌, some, arith, Bytes,
  bytes_eq, bytes_eq_iff, Bool-cases, length, subst,
}
use pocket_advisor.Mcp.Page.{EvidenceSnapshot}
use pocket_advisor.Mcp.Store.{find_in, without, is_there}

-- No key stands twice.
unfoldable pub DistinctKeys : {V : Type 0} → List (Bytes × V) → Type 0
unfolding find_in
DistinctKeys [] = Unit {0}
DistinctKeys ((k, v) ∷ m) = (is_there (find_in k m) ≡ false) × DistinctKeys m

module _ {V : Type 0} where
  pub without_missing :
      (k : Bytes) (m : List (Bytes × V)) → is_there (find_in k m) ≡ false → without k m ≡ m
  unfolding find_in without
  without_missing k [] h = refl
  without_missing k ((j, v) ∷ m) h = elim (Bool-cases (bytes_eq j k)) [
    | inl same ↦
        absurd
          (let there : is_there (find_in k ((j, v) ∷ m)) ≡ true = rw (find_in, same) refl in cc)
    | inr other ↦
        let missing : is_there (find_in k m) ≡ false = ground arith in
        rw (without, other) (ap (◌∷◌ (j, v)) (without_missing k m missing))
  ]

  -- The entries of the other keys are not touched.
  pub find_in-without :
      (j k : Bytes) (m : List (Bytes × V))
      → bytes_eq j k ≡ false
      → find_in j (without k m) ≡ find_in j m
  unfolding find_in without
  find_in-without j k [] h = refl
  find_in-without j k ((i, v) ∷ m) h = elim (Bool-cases (bytes_eq i k)) [
    | inl same ↦
        let i_eq = (bytes_eq_iff i k).0 same in
        let apart : bytes_eq i j ≡ false = elim (Bool-cases (bytes_eq i j)) [
          | inl e ↦
              let j_eq : j ≡ k = sym ((bytes_eq_iff i j).0 e) ∙ i_eq in
              let there = (bytes_eq_iff j k).1 j_eq in absurd cc
          | inr e ↦ e
        ] in
        rw (without, same, apart) (find_in-without j k m h)
    | inr other ↦ elim (Bool-cases (bytes_eq i j)) [
      | inl e ↦ rw (without, other, find_in, e) refl
      | inr e ↦ rw (without, other, find_in, e) (find_in-without j k m h)
    ]
  ]

  pub find_in-without_same :
      (k : Bytes) (m : List (Bytes × V)) → is_there (find_in k (without k m)) ≡ false
  unfolding find_in without
  find_in-without_same k [] = refl
  find_in-without_same k ((i, v) ∷ m) = ground (arith, find_in-without_same k m)

  pub DistinctKeys-without :
      (k : Bytes) (m : List (Bytes × V)) → DistinctKeys m → DistinctKeys (without k m)
  unfolding DistinctKeys without
  DistinctKeys-without k [] h = tt
  DistinctKeys-without k ((i, v) ∷ m) (missing, rest) = elim (Bool-cases (bytes_eq i k)) [
    | inl same ↦ rw (without, same) (DistinctKeys-without k m rest)
    | inr other ↦
        rw (without, other)
          (ap is_there (find_in-without i k m other) ∙ missing, DistinctKeys-without k m rest)
  ]

unfoldable pub total_size : {D M : Type 0} → List (Bytes × EvidenceSnapshot D M) → ℕ
total_size [] = 0
total_size ((k, v) ∷ m) = v.size + total_size m

module _ {D M : Type 0} where
  -- A deletion takes one entry away, with its size.
  pub total_size-without :
      (k : Bytes) (v : EvidenceSnapshot D M) (m : List (Bytes × EvidenceSnapshot D M))
      → find_in k m ≡ some v
      → DistinctKeys m
      → (suc (length (without k m)) ≡ length m) × (v.size + total_size (without k m) ≡ total_size m)
  unfolding DistinctKeys without find_in total_size
  total_size-without k v [] h ds = absurd cc
  total_size-without k v ((i, w) ∷ m) h (missing, rest) = elim (Bool-cases (bytes_eq i k)) [
    | inl same ↦
        let i_eq = (bytes_eq_iff i k).0 same in
        let here : w ≡ v = ground arith in
        let gone : without k m ≡ m =
          without_missing k m (subst (λ i. is_there (find_in i m) ≡ false) i_eq missing) in
        rw (without, same, gone)
          (refl, ap (λ (v : EvidenceSnapshot D M). v.size + total_size m) (sym here))
    | inr other ↦
        let found : find_in k m ≡ some v = ground arith in
        let (fewer, smaller) = total_size-without k v m found rest in
        rw (without, other) (omega (arith, fewer), omega (arith, smaller))
  ]
