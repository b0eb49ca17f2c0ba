-- ===== src/Mcp/Store/Serve.antt =====
-- internal/mcp/snapshot.go: `storeSearchResult` and `readEvidencePage`.
use pocket_advisor.Prelude.{
  ℕ, suc, ◌+◌, Bool, true, not, [], ◌∷◌, none, some, Bytes, ltb, if◌then◌else◌, length, map,
}
use pocket_advisor.Mcp.Page.{
  EvidencePage, EvidenceResult, EvidenceSnapshot, CursorPosition, encode_failed, duplicate_identity,
  cursor_invalid, cancelled, result_size, Result, ok, err, Delivery, ToolResult, index_packet,
  items_of, apply_continuation, finalize_page,
}
use pocket_advisor.Mcp.Build.{build_index_page, read_position}
use pocket_advisor.Mcp.Store.{
  CursorState, SnapshotStore, StoreLimits, Randomness, find_in, without, change, is_there,
  is_empty_id, remove_snapshot, cleanup_expired, make_room, insert_snapshot, release_result_id,
  new_cursor,
}

module _ {D M : Type 0} where
  unfoldable pub add_cursor : Bytes → Bytes → CursorPosition → SnapshotStore D M → SnapshotStore D M
  add_cursor cursor id position st = record st {
    cursors =
        (cursor, record { snapshot_id = id; position = position; next_token = [] }) ∷ st.cursors;
  }

  unfoldable pub set_next_token : Bytes → Bytes → SnapshotStore D M → SnapshotStore D M
  unfolding change
  set_next_token cursor token st = record st {
    cursors = change cursor (λ c. record c { next_token = token }) st.cursors;
  }

  unfoldable pub drop_cursor : Bytes → SnapshotStore D M → SnapshotStore D M
  unfolding without
  drop_cursor cursor st = record st { cursors = without cursor st.cursors }

module _ {D M : Type 0} (limits : StoreLimits) where
  unfoldable pub snapshot_from : ℕ → ℕ → EvidenceResult D M → EvidenceSnapshot D M
  unfolding index_packet items_of
  snapshot_from now size result = record {
    result = result;
    index = map index_packet result.packets;
    items = items_of result.packets;
    size = size;
    last_access = now;
    expires = now + limits.ttl;
  }

  -- The store with room made for a snapshot, and the snapshot in it.
  unfoldable pub admit_snapshot :
      Bytes → EvidenceSnapshot D M → SnapshotStore D M → SnapshotStore D M
  unfolding make_room insert_snapshot
  admit_snapshot id snapshot st =
      insert_snapshot id snapshot (make_room limits snapshot.size (suc (length st.snapshots)) st)

  unfoldable pub touch_snapshot : ℕ → Bytes → SnapshotStore D M → SnapshotStore D M
  unfolding change
  touch_snapshot now id st = record st {
    snapshots =
        change id (λ v. record v { last_access = now; expires = now + limits.ttl }) st.snapshots;
  }

module _ {D M R : Type 0} (d : Delivery D M) (limits : StoreLimits) (random : Randomness R) where
  -- What an operation returns, the store and the random source after it.
  abbrev pub Reply : Type 0
  Reply = Result (ToolResult D M) × (SnapshotStore D M × R)

  -- The end of `storeSearchResult`, from `finalizePage` on.
  unfoldable pub finish_search : Bytes → EvidencePage D M → SnapshotStore D M → R → Reply
  unfolding finalize_page remove_snapshot
  finish_search id page st r = elim (finalize_page d page) [
    | err e ↦ (err e, (remove_snapshot id st, r))
    | ok answer ↦ (ok answer, (if page.complete then remove_snapshot id st else st, r))
  ]

  -- What `storeSearchResult` does with the snapshot in the store.
  unfoldable pub first_page : Bytes → EvidenceSnapshot D M → SnapshotStore D M → R → Reply
  unfolding build_index_page finish_search new_cursor add_cursor
  first_page id snapshot st r = elim (build_index_page d snapshot 0 true) [
    | err e ↦ (err e, (remove_snapshot id st, r))
    | ok (page, none) ↦ finish_search id page st r
    | ok (page, some position) ↦
        let (drawn, r') = new_cursor random 16 st r in
        elim drawn [
          | err e ↦ (err e, (remove_snapshot id st, r'))
          | ok cursor ↦
              finish_search id (apply_continuation d.tool_name cursor page)
                (add_cursor cursor id position st) r'
        ]
  ]

  unfoldable pub store_search_result : ℕ → EvidenceResult D M → SnapshotStore D M → R → Reply
  unfolding snapshot_from admit_snapshot first_page cleanup_expired release_result_id
  store_search_result now result st r =
      let id = result.result_id in
      let released = release_result_id id st in
      elim (d.encoded_result result) [
        | none ↦ (err encode_failed, (released, r))
        | some size ↦
            let cleaned = cleanup_expired now released in
            let snapshot = snapshot_from limits now size result in
            if is_there (find_in id released.snapshots)
            then (err duplicate_identity, (released, r))
            else if ltb limits.max_bytes size
            then (err (result_size limits.max_bytes), (cleaned, r))
            else first_page id snapshot (admit_snapshot limits id snapshot cleaned) r
      ]

  -- The end of `readEvidencePage`, from `finalizePage` on.
  unfoldable pub finish_read : ℕ → Bytes → EvidencePage D M → SnapshotStore D M → R → Reply
  unfolding finalize_page touch_snapshot
  finish_read now id page st r = elim (finalize_page d page) [
    | err e ↦ (err e, (st, r))
    | ok answer ↦ (ok answer, (touch_snapshot limits now id st, r))
  ]

  -- What `readEvidencePage` does with a cursor that leads to a snapshot.
  unfoldable pub serve_page :
      ℕ → Bytes → CursorState → EvidenceSnapshot D M → SnapshotStore D M → R → Reply
  unfolding read_position finish_read new_cursor add_cursor set_next_token
  serve_page now cursor state snapshot st r = elim (read_position d snapshot state.position) [
    | err e ↦ (err e, (st, r))
    | ok (page, none) ↦ finish_read now state.snapshot_id page st r
    | ok (page, some position) ↦
        let (drawn, r') = new_cursor random 16 st r in
        if is_empty_id state.next_token
        then (elim drawn [
          | err e ↦ (err e, (st, r'))
          | ok token ↦
              finish_read now state.snapshot_id (apply_continuation d.tool_name token page)
                (add_cursor token state.snapshot_id position (set_next_token cursor token st)) r'
        ])
        else finish_read now state.snapshot_id
            (apply_continuation d.tool_name state.next_token page) st r
  ]

  unfoldable pub read_evidence_page : ℕ → Bool → Bytes → SnapshotStore D M → R → Reply
  unfolding cleanup_expired serve_page drop_cursor
  read_evidence_page now is_cancelled cursor st r =
      let cleaned = cleanup_expired now st in
      let found : Reply = elim (find_in cursor cleaned.cursors) [
        | none ↦ (err cursor_invalid, (cleaned, r))
        | some state ↦ elim (find_in state.snapshot_id cleaned.snapshots) [
          | none ↦ (err cursor_invalid, (drop_cursor cursor cleaned, r))
          | some snapshot ↦
              if not (ltb now snapshot.expires)
              then (err cursor_invalid, (drop_cursor cursor cleaned, r))
              else serve_page now cursor state snapshot cleaned r
        ]
      ] in
      if is_cancelled then (err cancelled, (st, r)) else found
