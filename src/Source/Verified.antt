-- ===== src/Source/Verified.antt =====
-- internal/source/source.go: what `Read` returns.
use pocket_advisor.Prelude.{
  ℕ, zero, suc, ◌≤◌, ◌≡◌, refl, sym, subst, ◌∙◌, ◌⊎◌, inl, inr, false, not, ◌&&◌, List, [], ◌∷◌,
  none, some, arith, Bytes, bytes_eq, bytes_eq→eq, Bool-cases, Option-cases, length, contains,
  bytes_Eq,
}
use pocket_advisor.Source.Resolver.{Disk, Root, ReadReply, got, failed, unavailable, unsafe}
use pocket_advisor.Source.Replay.{
  ReplayBudget, Record, Archive, read_source, parse_ref, is_empty_hash, read, max_depth,
  max_replay_bytes,
}
use pocket_advisor.Source.Checked.{Fewer-refl, Paid, Matches, Hashed}
use pocket_advisor.Source.Returns.{Fair, try_files-Settled}

expected_hash :
    (expected sha : Bytes)
    → (not (is_empty_hash expected) && not (bytes_eq sha expected)) ≡ false
    → (expected ≡ []) ⊎ (sha ≡ expected)
expected_hash [] sha h = inl refl
expected_hash (b ∷ s) sha h = elim (Bool-cases (bytes_eq sha (b ∷ s))) [
  | inl same ↦ inr (bytes_eq→eq sha (b ∷ s) same)
  | inr other ↦ absurd (ground arith)
]

module _ (d : Disk) (roots : List Root) (a : Archive) where
  -- Bytes belong to the record of the document, whose hash is the one expected.
  abbrev pub Origin : Bytes → Bytes → ReadReply → Type 0
  Origin id expected (failed e) = Unit {0}
  Origin id expected (got content) =
      (r : Record) × (a.source_record id ≡ some r)
      × ((expected ≡ []) ⊎ (r.sha256 ≡ expected))
      × Matches d roots a r.sha256 content

  from_record :
      (id expected : Bytes) (r : Record) (reply : ReadReply)
      → a.source_record id ≡ some r
      → (expected ≡ []) ⊎ (r.sha256 ≡ expected)
      → Hashed d roots a r.sha256 reply
      → Origin id expected reply
  from_record id expected r (failed e) there asked hash = tt
  from_record id expected r (got content) there asked hash = (r, there, asked, hash)

  abbrev Answered : Bytes → Bytes → ReplayBudget → ReadReply × ReplayBudget → Type 0
  Answered id expected b (reply, b') = Origin id expected reply × Fair b reply b'

  pub read_source-Answered :
      (levels : ℕ) (seen : List Bytes) (id expected : Bytes) (b : ReplayBudget)
      → Answered id expected b (read_source d roots a levels seen id expected b)
  unfolding read_source
  read_source-Answered zero seen id expected b = (tt, Fewer-refl b)
  read_source-Answered (suc levels) seen id expected b = elim (Option-cases (a.source_record id)) [
    | inl missing ↦ elim (Bool-cases (contains seen id)) [
      | inl again ↦ rw (read_source, missing, again) (tt, Fewer-refl b)
      | inr new ↦ rw (read_source, missing, new) (tt, Fewer-refl b)
    ]
    | inr (r, there) ↦ elim (Bool-cases (contains seen id)) [
      | inl again ↦ rw (read_source, there, again) (tt, Fewer-refl b)
      | inr new ↦
          elim (Bool-cases (not (is_empty_hash expected) && not (bytes_eq r.sha256 expected))) [
            | inl other ↦ rw (read_source, there, new, other) (tt, Fewer-refl b)
            | inr asked ↦
                let (hash, fair) =
                  try_files-Settled d roots a r.sha256
                    (λ i e n. read_source d roots a levels (id ∷ seen) i e n)
                    (λ i e n. (read_source-Answered levels (id ∷ seen) i e n).1) r.files r.members
                    unavailable b in
                rw (read_source, there, new, asked)
                  (
                    from_record id expected r _ there (expected_hash expected r.sha256 asked) hash,
                    fair,
                  )
          ]
    ]
  ]

  -- Bytes that are read for a reference belong to the record of the document that it names, whose
  -- hash is the one expected when one is, and they have that hash when the record has one, whether
  -- they came from a file or out of containers of any depth, and they are no more than the bytes of
  -- a replay; for any file system, records and containers.
  pub read-Origin :
      (ref expected content : Bytes)
      → read d roots a ref expected ≡ got content
      → (id : Bytes) × (parse_ref a ref ≡ some id)
        × Origin id expected (got content)
        × (length content ≤ max_replay_bytes)
  unfolding read
  read-Origin ref expected content h = elim (Option-cases (parse_ref a ref)) [
    | inl unread ↦
        let step : read d roots a ref expected ≡ failed unsafe = rw (read, unread) refl in
        absurd (let bad : failed unsafe ≡ got content = sym step ∙ h in cc)
    | inr (id, parsed) ↦
        let answer = read_source d roots a (suc max_depth) [] id expected (some max_replay_bytes) in
        let step : read d roots a ref expected ≡ answer.0 = rw (read, parsed) refl in
        let (origin, fair) =
          read_source-Answered (suc max_depth) [] id expected (some max_replay_bytes) in
        let paid : Fair (some max_replay_bytes) (got content) answer.1 =
          subst (λ r. Fair (some max_replay_bytes) r answer.1) (sym step ∙ h) fair in
        (
          id,
          parsed,
          subst (Origin id expected) (sym step ∙ h) origin,
          within_budget (length content) max_replay_bytes answer.1 paid,
        )
  ]
    where
      within_budget : (k m : ℕ) (b : ReplayBudget) → Paid k (some m) b → k ≤ m
      within_budget k m none p = absurd (omega (arith, p))
      within_budget k m (some n) p = omega (arith, p)
