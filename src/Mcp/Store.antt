-- ===== src/Mcp/Store.antt =====
-- internal/mcp/snapshot.go: the snapshots that a session keeps, and the cursors into them. A map is a
-- list of its entries; the order of the list is that of an iteration, over which the code has no
-- say. The lock makes each operation one step, at one time of the clock. The random source, its
-- encodings and the clock are arguments.
pub mod Serve
pub mod Entries
pub mod Room
pub mod Invariant
pub mod Calls
pub mod Runs
use pocket_advisor.Prelude.{
  ℕ, zero, suc, ◌+◌, ◌-◌, Bool, true, false, not, ◌||◌, List, [], ◌∷◌, Option, none, some, Bytes,
  bytes_eq, bytes_Eq, contains, ltb, leb, if◌then◌else◌, length, select, map,
}
use pocket_advisor.Mcp.Page.{
  EvidencePage, EvidencePacket, EvidenceIndexPacket, EvidenceResult, EvidenceSnapshot,
  CursorPosition, ToolError, encode_failed, random_failed, not_unique, duplicate_identity,
  cursor_invalid, cancelled, result_size, Result, ok, err, Delivery, ToolResult, index_packet,
  items_of, apply_continuation, finalize_page,
}
use pocket_advisor.Mcp.Build.{build_index_page, read_position}

pub record CursorState : Type 0 where
  pub snapshot_id : Bytes
  pub position : CursorPosition
  pub next_token : Bytes

pub record SnapshotStore (D M : Type 0) : Type 0 where
  pub snapshots : List (Bytes × EvidenceSnapshot D M)
  pub cursors : List (Bytes × CursorState)
  pub reserved : List Bytes
  pub bytes : ℕ

-- The bounds of the store, which are positive once they are initialized.
pub record StoreLimits : Type 0 where
  pub ttl : ℕ
  pub max_snapshots : ℕ
  pub max_bytes : ℕ

-- `io.ReadFull` of some bytes and what it leaves, and the two encodings.
pub record Randomness (R : Type 0) : Type 0 where
  pub read : ℕ → R → Option Bytes × R
  pub hex : Bytes → Bytes
  pub base64 : Bytes → Bytes

-- `m[k]`, `m[k] = v` and `delete(m, k)` of a map of strings.
unfoldable pub find_in : {V : Type 0} → Bytes → List (Bytes × V) → Option V
find_in k [] = none
find_in k ((j, v) ∷ m) = if bytes_eq j k then some v else find_in k m

unfoldable pub without : {V : Type 0} → Bytes → List (Bytes × V) → List (Bytes × V)
without k [] = []
without k ((j, v) ∷ m) = if bytes_eq j k then without k m else (j, v) ∷ without k m

unfoldable pub change : {V : Type 0} → Bytes → (V → V) → List (Bytes × V) → List (Bytes × V)
change k f [] = []
change k f ((j, v) ∷ m) = (j, if bytes_eq j k then f v else v) ∷ change k f m

abbrev pub is_there : {V : Type 0} → Option V → Bool
is_there none = false
is_there (some v) = true

abbrev pub is_empty_id : Bytes → Bool
is_empty_id [] = true
is_empty_id (b ∷ s) = false

unfoldable pub delete_name : Bytes → List Bytes → List Bytes
delete_name k [] = []
delete_name k (j ∷ js) = if bytes_eq j k then delete_name k js else j ∷ delete_name k js

module _ {D M : Type 0} where
  unfoldable pub new_store : SnapshotStore D M
  new_store = record { snapshots = []; cursors = []; reserved = []; bytes = 0 }

  unfoldable pub remove_snapshot : Bytes → SnapshotStore D M → SnapshotStore D M
  unfolding find_in without select
  remove_snapshot id st = elim (find_in id st.snapshots) [
    | none ↦ st
    | some snapshot ↦ record st {
      snapshots = without id st.snapshots;
      bytes = st.bytes - snapshot.size;
      cursors = select (λ c. not (bytes_eq c.1.snapshot_id id)) st.cursors;
    }
  ]

  -- The loop of `cleanupExpiredLocked`.
  unfoldable pub remove_expired :
      ℕ → List (Bytes × EvidenceSnapshot D M) → SnapshotStore D M → SnapshotStore D M
  unfolding remove_snapshot
  remove_expired now [] st = st
  remove_expired now ((id, snapshot) ∷ rest) st =
      remove_expired now rest (if ltb now snapshot.expires then st else remove_snapshot id st)

  unfoldable pub cleanup_expired : ℕ → SnapshotStore D M → SnapshotStore D M
  unfolding remove_expired
  cleanup_expired now st = remove_expired now st.snapshots st

  -- The loop of `evictOldestLocked`, with the oldest so far.
  unfoldable pub oldest_of : Bytes → ℕ → List (Bytes × EvidenceSnapshot D M) → Bytes
  oldest_of id oldest [] = id
  oldest_of id oldest ((j, snapshot) ∷ rest) =
      if is_empty_id id || ltb snapshot.last_access oldest
      then oldest_of j snapshot.last_access rest
      else oldest_of id oldest rest

  unfoldable pub evict_oldest : SnapshotStore D M → Bool × SnapshotStore D M
  unfolding oldest_of remove_snapshot
  evict_oldest st =
      let id = oldest_of [] 0 st.snapshots in
      if is_empty_id id then (false, st) else (true, remove_snapshot id st)

  -- The loop that makes room, of which each round takes a snapshot away.
  unfoldable pub make_room : StoreLimits → ℕ → ℕ → SnapshotStore D M → SnapshotStore D M
  unfolding evict_oldest
  make_room limits size zero st = st
  make_room limits size (suc fuel) st =
      let (evicted, st') = evict_oldest st in
      let rest = make_room limits size fuel st' in
      if leb limits.max_snapshots (length st.snapshots) || ltb limits.max_bytes (st.bytes + size)
      then (if evicted then rest else st)
      else st

  -- What the store holds, with the loop's `snapshot` put in.
  unfoldable pub insert_snapshot :
      Bytes → EvidenceSnapshot D M → SnapshotStore D M → SnapshotStore D M
  insert_snapshot id snapshot st = record st {
    snapshots = (id, snapshot) ∷ st.snapshots;
    bytes = st.bytes + snapshot.size;
  }

  unfoldable pub release_result_id : Bytes → SnapshotStore D M → SnapshotStore D M
  unfolding delete_name
  release_result_id id st = record st { reserved = delete_name id st.reserved }

  module _ {R : Type 0} (random : Randomness R) where
    -- The rounds of `newResultID` and `newCursorLocked`.
    unfoldable pub draw_result_id : ℕ → SnapshotStore D M → R → Result Bytes × R
    unfolding find_in
    draw_result_id zero st r = (err not_unique, r)
    draw_result_id (suc n) st r =
        let (raw, r') = random.read 6 r in
        elim raw [
          | none ↦ (err random_failed, r')
          | some bs ↦
              let id = b'R' ∷ random.hex bs in
              let again = draw_result_id n st r' in
              if is_there (find_in id st.snapshots) || contains st.reserved id
              then again
              else (ok id, r')
        ]

    unfoldable pub new_result_id : SnapshotStore D M → R → Result Bytes × (SnapshotStore D M × R)
    unfolding draw_result_id
    new_result_id st r =
        let (drawn, r') = draw_result_id 16 st r in
        elim drawn [
          | err e ↦ (err e, (st, r'))
          | ok id ↦ (ok id, (record st { reserved = id ∷ st.reserved }, r'))
        ]

    unfoldable pub new_cursor : ℕ → SnapshotStore D M → R → Result Bytes × R
    unfolding find_in
    new_cursor zero st r = (err not_unique, r)
    new_cursor (suc n) st r =
        let (raw, r') = random.read 24 r in
        elim raw [
          | none ↦ (err random_failed, r')
          | some bs ↦
              let cursor = random.base64 bs in
              let again = new_cursor n st r' in
              if is_there (find_in cursor st.cursors) then again else (ok cursor, r')
        ]
