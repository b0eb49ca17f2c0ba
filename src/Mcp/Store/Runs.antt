-- ===== src/Mcp/Store/Runs.antt =====
-- internal/mcp/snapshot.go: the store over any sequence of searches and reads.
use pocket_advisor.Prelude.{
  ℕ, ◌<◌, ◌≡◌, refl, ap, ◌∙◌, inl, inr, Bool, true, false, List, [], ◌∷◌, none, some, arith, Bytes,
  ltb, Bool-cases, Option-cases, All,
}
use pocket_advisor.Mcp.Page.{
  EvidencePage, EvidenceResult, EvidenceSnapshot, ok, Delivery, apply_continuation, finalize_page,
}
use pocket_advisor.Mcp.Build.{build_index_page, read_position}
use pocket_advisor.Mcp.Store.{
  CursorState, SnapshotStore, StoreLimits, Randomness, find_in, is_there, is_empty_id,
  cleanup_expired, release_result_id, new_cursor, new_store,
}
use pocket_advisor.Mcp.Store.Entries.{DistinctKeys, total_size}
use pocket_advisor.Mcp.Store.Room.{Missing}
use pocket_advisor.Mcp.Store.Invariant.{
  StoreInv, Result-cases, remove_snapshot-StoreInv, admit_snapshot-StoreInv, add_cursor-StoreInv,
}
use pocket_advisor.Mcp.Store.Calls.{
  Leaves, touch_snapshot-StoreInv, set_next_token-StoreInv, drop_cursor-StoreInv, release-StoreInv,
  cleanup_expired-StoreInv, finish_search-StoreInv,
}
use pocket_advisor.Mcp.Store.Serve.{
  Reply, snapshot_from, add_cursor, first_page, admit_snapshot, store_search_result, finish_read,
  set_next_token, serve_page, read_evidence_page,
}

new_store-StoreInv :
    {D M : Type 0} (limits : StoreLimits) → StoreInv limits (new_store {D = D} {M = M})
unfolding new_store DistinctKeys total_size
new_store-StoreInv limits =
    (record { distinct = tt; named = tt; sized = refl; pointed = tt }, omega arith, omega arith)

-- The calls of a client.
pub data ToolCall (D M : Type 0) : Type 0 where
  search_call : ℕ → EvidenceResult D M → ToolCall D M
  read_call : ℕ → Bool → Bytes → ToolCall D M

module _ {D M R : Type 0} (d : Delivery D M) (limits : StoreLimits) (random : Randomness R) where
  first_page-StoreInv :
      (id : Bytes) (v : EvidenceSnapshot D M) (st : SnapshotStore D M) (r : R)
      → is_there (find_in id st.snapshots) ≡ true
      → StoreInv limits st
      → Leaves d limits random (first_page d limits random id v st r)
  unfolding first_page
  first_page-StoreInv id v st r there inv = elim (Result-cases (build_index_page d v 0 true)) [
    | inl (e, failed) ↦ rw (first_page, failed) (remove_snapshot-StoreInv limits id st inv)
    | inr ((page, next), built) ↦ elim (Option-cases next) [
      | inl over ↦
          let whole : build_index_page d v 0 true ≡ ok (page, none) =
            built ∙ ap (λ n. ok (page, n)) over in
          rw (first_page, whole) (finish_search-StoreInv d limits random id page st r inv)
      | inr (position, more) ↦
          let partial : build_index_page d v 0 true ≡ ok (page, some position) =
            built ∙ ap (λ n. ok (page, n)) more in
          elim (Result-cases (new_cursor random 16 st r).0) [
            | inl (e, none_drawn) ↦
                rw (first_page, partial, none_drawn) (remove_snapshot-StoreInv limits id st inv)
            | inr (cursor, drawn) ↦
                rw (first_page, partial, drawn)
                  (finish_search-StoreInv d limits random id
                    (apply_continuation d.tool_name cursor page) (add_cursor cursor id position st)
                    (new_cursor random 16 st r).1
                    (add_cursor-StoreInv limits cursor id position st there inv))
          ]
    ]
  ]

  store_search_result-StoreInv :
      (now : ℕ) (result : EvidenceResult D M) (st : SnapshotStore D M) (r : R)
      → 0 < limits.max_snapshots
      → is_empty_id result.result_id ≡ false
      → StoreInv limits st
      → Leaves d limits random (store_search_result d limits random now result st r)
  unfolding store_search_result Missing snapshot_from
  store_search_result-StoreInv now result st r p named inv =
      let id = result.result_id in
      let released = release_result_id id st in
      let inv_released = release-StoreInv limits id st inv in
      let (inv_cleaned, others) = cleanup_expired-StoreInv limits now released inv_released in
      elim (Option-cases (d.encoded_result result)) [
        | inl unsized ↦ rw (store_search_result, unsized) inv_released
        | inr (size, encoded) ↦ elim (Bool-cases (is_there (find_in id released.snapshots))) [
          | inl twice ↦ rw (store_search_result, encoded, twice) inv_released
          | inr fresh ↦ elim (Bool-cases (ltb limits.max_bytes size)) [
            | inl large ↦ rw (store_search_result, encoded, fresh, large) inv_cleaned
            | inr small ↦
                let (inv_admitted, there) =
                  admit_snapshot-StoreInv limits id (snapshot_from limits now size result)
                    (cleanup_expired now released) p (ground arith) named (others id fresh)
                    inv_cleaned.0 in
                rw (store_search_result, encoded, fresh, small)
                  (first_page-StoreInv id (snapshot_from limits now size result)
                    (admit_snapshot limits id (snapshot_from limits now size result)
                      (cleanup_expired now released))
                    r there inv_admitted)
          ]
        ]
      ]

  finish_read-StoreInv :
      (now : ℕ) (id : Bytes) (page : EvidencePage D M) (st : SnapshotStore D M) (r : R)
      → StoreInv limits st
      → Leaves d limits random (finish_read d limits random now id page st r)
  unfolding finish_read
  finish_read-StoreInv now id page st r inv = elim (Result-cases (finalize_page d page)) [
    | inl (e, failed) ↦ rw (finish_read, failed) inv
    | inr (answer, sent) ↦ rw (finish_read, sent) (touch_snapshot-StoreInv limits now id st inv)
  ]

  serve_page-StoreInv :
      (now : ℕ) (cursor : Bytes) (state : CursorState) (v : EvidenceSnapshot D M)
      (st : SnapshotStore D M) (r : R)
      → is_there (find_in state.snapshot_id st.snapshots) ≡ true
      → StoreInv limits st
      → Leaves d limits random (serve_page d limits random now cursor state v st r)
  unfolding serve_page set_next_token
  serve_page-StoreInv now cursor state v st r there inv =
      elim (Result-cases (read_position d v state.position)) [
        | inl (e, failed) ↦ rw (serve_page, failed) inv
        | inr ((page, next), built) ↦ elim (Option-cases next) [
          | inl over ↦
              let whole : read_position d v state.position ≡ ok (page, none) =
                built ∙ ap (λ n. ok (page, n)) over in
              rw (serve_page, whole) (finish_read-StoreInv now state.snapshot_id page st r inv)
          | inr (position, more) ↦
              let partial : read_position d v state.position ≡ ok (page, some position) =
                built ∙ ap (λ n. ok (page, n)) more in
              elim (Bool-cases (is_empty_id state.next_token)) [
                | inr named ↦
                    rw (serve_page, partial, named)
                      (finish_read-StoreInv now state.snapshot_id
                        (apply_continuation d.tool_name state.next_token page) st r inv)
                | inl unnamed ↦ elim (Result-cases (new_cursor random 16 st r).0) [
                  | inl (e, none_drawn) ↦ rw (serve_page, partial, unnamed, none_drawn) inv
                  | inr (token, drawn) ↦
                      rw (serve_page, partial, unnamed, drawn)
                        (finish_read-StoreInv now state.snapshot_id
                          (apply_continuation d.tool_name token page)
                          (add_cursor token state.snapshot_id position
                            (set_next_token cursor token st))
                          (new_cursor random 16 st r).1
                          (add_cursor-StoreInv limits token state.snapshot_id position
                            (set_next_token cursor token st) there
                            (set_next_token-StoreInv limits cursor token st inv)))
                ]
              ]
        ]
      ]

  read_evidence_page-StoreInv :
      (now : ℕ) (is_cancelled : Bool) (cursor : Bytes) (st : SnapshotStore D M) (r : R)
      → StoreInv limits st
      → Leaves d limits random (read_evidence_page d limits random now is_cancelled cursor st r)
  unfolding read_evidence_page
  read_evidence_page-StoreInv now true cursor st r inv = inv
  read_evidence_page-StoreInv now false cursor st r inv =
      let cleaned = cleanup_expired now st in
      let inv_cleaned = (cleanup_expired-StoreInv limits now st inv).0 in
      let inv_dropped = drop_cursor-StoreInv limits cursor cleaned inv_cleaned in
      elim (Option-cases (find_in cursor cleaned.cursors)) [
        | inl unknown ↦ rw (read_evidence_page, unknown) inv_cleaned
        | inr (state, known) ↦ elim (Option-cases (find_in state.snapshot_id cleaned.snapshots)) [
          | inl gone ↦ rw (read_evidence_page, known, gone) inv_dropped
          | inr (v, stored) ↦ elim (Bool-cases (ltb now v.expires)) [
            | inr expired ↦ rw (read_evidence_page, known, stored, expired) inv_dropped
            | inl alive ↦
                rw (read_evidence_page, known, stored, alive)
                  (serve_page-StoreInv now cursor state v cleaned r (ap is_there stored)
                    inv_cleaned)
          ]
        ]
      ]

  abbrev step_call : ToolCall D M → SnapshotStore D M → R → Reply d limits random
  step_call (search_call now result) st r = store_search_result d limits random now result st r
  step_call (read_call now is_cancelled cursor) st r =
      read_evidence_page d limits random now is_cancelled cursor st r

  -- The store after calls, one after the other.
  unfoldable pub run_calls : List (ToolCall D M) → SnapshotStore D M → R → SnapshotStore D M × R
  run_calls [] st r = (st, r)
  run_calls (c ∷ cs) st r = let reply = step_call c st r in run_calls cs reply.1.0 reply.1.1

  -- A search comes with an identity that is not empty.
  abbrev pub HasId : ToolCall D M → Type 0
  HasId (search_call now result) = is_empty_id result.result_id ≡ false
  HasId (read_call now is_cancelled cursor) = Unit {0}

  calls-StoreInv :
      (cs : List (ToolCall D M)) (st : SnapshotStore D M) (r : R)
      → 0 < limits.max_snapshots
      → All HasId cs
      → StoreInv limits st
      → StoreInv limits (run_calls cs st r).0
  unfolding run_calls
  calls-StoreInv [] st r p a inv = inv
  calls-StoreInv (search_call now result ∷ cs) st r p a inv =
      let reply = store_search_result d limits random now result st r in
      calls-StoreInv cs reply.1.0 reply.1.1 p a.1
        (store_search_result-StoreInv now result st r p a.0 inv)
  calls-StoreInv (read_call now is_cancelled cursor ∷ cs) st r p a inv =
      let reply = read_evidence_page d limits random now is_cancelled cursor st r in
      calls-StoreInv cs reply.1.0 reply.1.1 p a.1
        (read_evidence_page-StoreInv now is_cancelled cursor st r inv)

  -- After any searches and reads of evidence on a new store, whatever the clock and the random
  -- source give and whichever of them fail, its snapshots have distinct identities, are no more
  -- than its limit and take no more bytes than its limit, the bytes counted are those of the
  -- snapshots held, and every cursor leads to a snapshot that is held; where the limit on snapshots
  -- is positive and each search brings an identity that is not empty.
  pub run_calls-StoreInv :
      (cs : List (ToolCall D M)) (r : R)
      → 0 < limits.max_snapshots
      → All HasId cs
      → StoreInv limits (run_calls cs new_store r).0
  run_calls-StoreInv cs r p a = calls-StoreInv cs new_store r p a (new_store-StoreInv limits)
