-- ===== src/Mcp/Store/Calls.antt =====
-- internal/mcp/snapshot.go: what every call leaves, and any sequence of them.
use pocket_advisor.Prelude.{
  ℕ, suc, ◌+◌, ◌≡◌, refl, ap, ◌∙◌, inl, inr, true, false, List, [], ◌∷◌, arith, Bytes, bytes_eq,
  Bool-cases, length, All,
}
use pocket_advisor.Mcp.Page.{EvidencePage, EvidenceSnapshot, Delivery, finalize_page}
use pocket_advisor.Mcp.Store.{
  CursorState, SnapshotStore, StoreLimits, Randomness, find_in, change, is_there, is_empty_id,
  cleanup_expired, release_result_id,
}
use pocket_advisor.Mcp.Store.Entries.{DistinctKeys, total_size}
use pocket_advisor.Mcp.Store.Room.{Missing, All-without}
use pocket_advisor.Mcp.Store.Invariant.{
  StoreInv, Result-cases, remove_snapshot-StoreInv, remove_expired-StoreInv,
}
use pocket_advisor.Mcp.Store.Serve.{
  Reply, finish_search, touch_snapshot, set_next_token, drop_cursor,
}

module _ {V : Type 0} (k : Bytes) (f : V → V) where
  find_in-change :
      (j : Bytes) (m : List (Bytes × V))
      → is_there (find_in j (change k f m)) ≡ is_there (find_in j m)
  unfolding find_in change
  find_in-change j [] = refl
  find_in-change j ((i, v) ∷ m) = ground (arith, find_in-change j m)

  length-change : (m : List (Bytes × V)) → length (change k f m) ≡ length m
  unfolding change
  length-change [] = refl
  length-change ((i, v) ∷ m) = ap suc (length-change m)

  DistinctKeys-change : (m : List (Bytes × V)) → DistinctKeys m → DistinctKeys (change k f m)
  unfolding DistinctKeys change
  DistinctKeys-change [] h = tt
  DistinctKeys-change ((i, v) ∷ m) h = (find_in-change i m ∙ h.0, DistinctKeys-change m h.1)

  named-change :
      (m : List (Bytes × V))
      → All (λ e. is_empty_id e.0 ≡ false) m
      → All (λ e. is_empty_id e.0 ≡ false) (change k f m)
  unfolding change
  named-change [] h = tt
  named-change ((i, v) ∷ m) h = (h.0, named-change m h.1)

module _ {D M : Type 0} where
  total_size-change :
      (k : Bytes) (f : EvidenceSnapshot D M → EvidenceSnapshot D M)
      (m : List (Bytes × EvidenceSnapshot D M))
      → ((v : EvidenceSnapshot D M) → (f v).size ≡ v.size)
      → total_size (change k f m) ≡ total_size m
  unfolding change total_size
  total_size-change k f [] h = refl
  total_size-change k f ((i, v) ∷ m) h = ground (arith, total_size-change k f m h, h v)

  pointed-touched :
      (k : Bytes) (f : EvidenceSnapshot D M → EvidenceSnapshot D M)
      (m : List (Bytes × EvidenceSnapshot D M)) (cs : List (Bytes × CursorState))
      → All (λ c. is_there (find_in c.1.snapshot_id m) ≡ true) cs
      → All (λ c. is_there (find_in c.1.snapshot_id (change k f m)) ≡ true) cs
  pointed-touched k f m [] a = tt
  pointed-touched k f m (c ∷ cs) a =
      (find_in-change k f c.1.snapshot_id m ∙ a.0, pointed-touched k f m cs a.1)

  pointed-change :
      (k token : Bytes) (m : List (Bytes × EvidenceSnapshot D M)) (cs : List (Bytes × CursorState))
      → All (λ c. is_there (find_in c.1.snapshot_id m) ≡ true) cs
      → All
          (λ c. is_there (find_in c.1.snapshot_id m) ≡ true)
          (change k (λ c. record c { next_token = token }) cs)
  unfolding change
  pointed-change k token m [] a = tt
  pointed-change k token m ((i, c) ∷ cs) a = elim (Bool-cases (bytes_eq i k)) [
    | inl same ↦ rw (change, same) (a.0, pointed-change k token m cs a.1)
    | inr other ↦ rw (change, other) (a.0, pointed-change k token m cs a.1)
  ]

module _ {D M : Type 0} (limits : StoreLimits) where
  pub touch_snapshot-StoreInv :
      (now : ℕ) (id : Bytes) (st : SnapshotStore D M)
      → StoreInv limits st
      → StoreInv limits (touch_snapshot limits now id st)
  unfolding touch_snapshot
  touch_snapshot-StoreInv now id st (kept, few, small) =
      let renewed : EvidenceSnapshot D M → EvidenceSnapshot D M =
        λ v. record v { last_access = now; expires = now + limits.ttl } in
      (
        record {
          distinct = DistinctKeys-change id renewed st.snapshots kept.distinct;
          named = named-change id renewed st.snapshots kept.named;
          sized = total_size-change id renewed st.snapshots (λ v. refl) ∙ kept.sized;
          pointed = pointed-touched id renewed st.snapshots st.cursors kept.pointed;
        },
        omega (arith, length-change id renewed st.snapshots, few),
        small,
      )

  pub set_next_token-StoreInv :
      (cursor token : Bytes) (st : SnapshotStore D M)
      → StoreInv limits st
      → StoreInv limits (set_next_token cursor token st)
  unfolding set_next_token
  set_next_token-StoreInv cursor token st (kept, few, small) = (
    record {
      distinct = kept.distinct;
      named = kept.named;
      sized = kept.sized;
      pointed = pointed-change cursor token st.snapshots st.cursors kept.pointed;
    },
    few,
    small,
  )

  pub drop_cursor-StoreInv :
      (cursor : Bytes) (st : SnapshotStore D M)
      → StoreInv limits st
      → StoreInv limits (drop_cursor cursor st)
  unfolding drop_cursor
  drop_cursor-StoreInv cursor st (kept, few, small) = (
    record {
      distinct = kept.distinct;
      named = kept.named;
      sized = kept.sized;
      pointed =
          All-without (λ c. is_there (find_in c.1.snapshot_id st.snapshots) ≡ true) cursor
            st.cursors kept.pointed;
    },
    few,
    small,
  )

  pub release-StoreInv :
      (id : Bytes) (st : SnapshotStore D M)
      → StoreInv limits st
      → StoreInv limits (release_result_id id st)
  unfolding release_result_id
  release-StoreInv id st (kept, few, small) = (
    record {
      distinct = kept.distinct;
      named = kept.named;
      sized = kept.sized;
      pointed = kept.pointed;
    },
    few,
    small,
  )

  pub cleanup_expired-StoreInv :
      (now : ℕ) (st : SnapshotStore D M)
      → StoreInv limits st
      → StoreInv limits (cleanup_expired now st)
        × ((j : Bytes) → Missing j st.snapshots → Missing j (cleanup_expired now st).snapshots)
  unfolding cleanup_expired
  cleanup_expired-StoreInv now st inv = remove_expired-StoreInv limits now st.snapshots st inv

module _ {D M R : Type 0} (d : Delivery D M) (limits : StoreLimits) (random : Randomness R) where
  abbrev pub Leaves : Reply d limits random → Type 0
  Leaves reply = StoreInv limits reply.1.0

  pub finish_search-StoreInv :
      (id : Bytes) (page : EvidencePage D M) (st : SnapshotStore D M) (r : R)
      → StoreInv limits st
      → Leaves (finish_search d limits random id page st r)
  unfolding finish_search
  finish_search-StoreInv id page st r inv = elim (Result-cases (finalize_page d page)) [
    | inl (e, failed) ↦ rw (finish_search, failed) (remove_snapshot-StoreInv limits id st inv)
    | inr (answer, sent) ↦ elim (Bool-cases page.complete) [
      | inl whole ↦ rw (finish_search, sent, whole) (remove_snapshot-StoreInv limits id st inv)
      | inr more ↦ rw (finish_search, sent, more) inv
    ]
  ]
