-- ===== src/Mcp/Store/Invariant.antt =====
-- internal/mcp/snapshot.go: the bounds of the store and the order in it, over any calls.
use pocket_advisor.Prelude.{
  ℕ, suc, ◌+◌, ◌≤◌, ◌<◌, ◌≡◌, refl, ◌⊎◌, inl, inr, true, false, List, [], ◌∷◌, arith, Bytes,
  bytes_eq_refl, ltb, Bool-cases, length, All,
}
use pocket_advisor.Mcp.Page.{EvidenceSnapshot, CursorPosition, ToolError, Result, ok, err}
use pocket_advisor.Mcp.Store.{
  CursorState, SnapshotStore, StoreLimits, find_in, is_there, is_empty_id, remove_snapshot,
  remove_expired, make_room, insert_snapshot,
}
use pocket_advisor.Mcp.Store.Entries.{DistinctKeys, total_size}
use pocket_advisor.Mcp.Store.Room.{
  Kept, Missing, remove_snapshot-Removed, Missing-remove, make_room-Kept,
}
use pocket_advisor.Mcp.Store.Serve.{add_cursor, admit_snapshot}

pub Result-cases {ℓ} :
    {A : Type ℓ} (o : Result A) → ((e : ToolError) × (o ≡ err e)) ⊎ ((a : A) × (o ≡ ok a))
Result-cases (ok a) = inr (a, refl)
Result-cases (err e) = inl (e, refl)

-- The store is in order and within its bounds.
abbrev pub StoreInv : {D M : Type 0} → StoreLimits → SnapshotStore D M → Type 0
StoreInv limits st =
    Kept st × (length st.snapshots ≤ limits.max_snapshots) × (st.bytes ≤ limits.max_bytes)

module _ {D M : Type 0} (limits : StoreLimits) where
  pub remove_snapshot-StoreInv :
      (id : Bytes) (st : SnapshotStore D M)
      → StoreInv limits st
      → StoreInv limits (remove_snapshot id st)
  remove_snapshot-StoreInv id st (kept, few, small) =
      let (kept', fewer, smaller, less) = remove_snapshot-Removed id st kept in
      (kept', omega (arith, few, fewer), omega (arith, small, smaller))

  pub remove_expired-StoreInv :
      (now : ℕ) (m : List (Bytes × EvidenceSnapshot D M)) (st : SnapshotStore D M)
      → StoreInv limits st
      → StoreInv limits (remove_expired now m st)
        × ((j : Bytes) → Missing j st.snapshots → Missing j (remove_expired now m st).snapshots)
  unfolding remove_expired
  remove_expired-StoreInv now [] st inv = (inv, λ j h. h)
  remove_expired-StoreInv now ((id, v) ∷ m) st inv = elim (Bool-cases (ltb now v.expires)) [
    | inl alive ↦ rw (remove_expired, alive) (remove_expired-StoreInv now m st inv)
    | inr over ↦
        let (inv', missing) =
          remove_expired-StoreInv now m (remove_snapshot id st)
            (remove_snapshot-StoreInv id st inv) in
        rw (remove_expired, over) (inv', λ j h. missing j (Missing-remove j id st h))
  ]

  still_pointed :
      (id : Bytes) (v : EvidenceSnapshot D M) (m : List (Bytes × EvidenceSnapshot D M))
      (cs : List (Bytes × CursorState))
      → All (λ c. is_there (find_in c.1.snapshot_id m) ≡ true) cs
      → All (λ c. is_there (find_in c.1.snapshot_id ((id, v) ∷ m)) ≡ true) cs
  unfolding find_in
  still_pointed id v m [] a = tt
  still_pointed id v m (c ∷ cs) a = (ground arith, still_pointed id v m cs a.1)

  insert_snapshot-StoreInv :
      (id : Bytes) (v : EvidenceSnapshot D M) (st : SnapshotStore D M)
      → is_empty_id id ≡ false
      → Missing id st.snapshots
      → Kept st
      → length st.snapshots < limits.max_snapshots
      → st.bytes + v.size ≤ limits.max_bytes
      → StoreInv limits (insert_snapshot id v st)
        × (is_there (find_in id (insert_snapshot id v st).snapshots) ≡ true)
  unfolding insert_snapshot DistinctKeys total_size find_in Missing
  insert_snapshot-StoreInv id v st named missing kept few small = (
    (
      record {
        distinct = (missing, kept.distinct);
        named = (named, kept.named);
        sized = omega (arith, kept.sized);
        pointed = still_pointed id v st.snapshots st.cursors kept.pointed;
      },
      omega (arith, few),
      small,
    ),
    rw (find_in, bytes_eq_refl id) refl,
  )

  pub admit_snapshot-StoreInv :
      (id : Bytes) (v : EvidenceSnapshot D M) (st : SnapshotStore D M)
      → 0 < limits.max_snapshots
      → v.size ≤ limits.max_bytes
      → is_empty_id id ≡ false
      → Missing id st.snapshots
      → Kept st
      → StoreInv limits (admit_snapshot limits id v st)
        × (is_there (find_in id (admit_snapshot limits id v st).snapshots) ≡ true)
  unfolding admit_snapshot
  admit_snapshot-StoreInv id v st p fits named missing kept =
      let (kept', few, small, others) =
        make_room-Kept limits v.size (suc (length st.snapshots)) st p fits (omega arith) kept in
      insert_snapshot-StoreInv id v (make_room limits v.size (suc (length st.snapshots)) st) named
        (others id missing) kept' few small

  pub add_cursor-StoreInv :
      (cursor id : Bytes) (position : CursorPosition) (st : SnapshotStore D M)
      → is_there (find_in id st.snapshots) ≡ true
      → StoreInv limits st
      → StoreInv limits (add_cursor cursor id position st)
  unfolding add_cursor
  add_cursor-StoreInv cursor id position st there (kept, few, small) = (
    record {
      distinct = kept.distinct;
      named = kept.named;
      sized = kept.sized;
      pointed = (there, kept.pointed);
    },
    few,
    small,
  )
