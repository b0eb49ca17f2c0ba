-- ===== src/Mcp/Store/Room.antt =====
-- internal/mcp/snapshot.go: what the store keeps in order, and how room is made in it.
use pocket_advisor.Prelude.{
  ℕ, zero, suc, ◌+◌, ◌≤◌, ◌<◌, ◌≡◌, refl, ap, sym, ◌∙◌, ◌⊎◌, inl, inr, Bool, true, false, not, ◌||◌,
  List, [], ◌∷◌, arith, Bytes, bytes_eq, bytes_eq_iff, ltb, leb, if◌then◌else◌, Bool-cases,
  Option-cases, length, select, All, subst,
}
use pocket_advisor.Mcp.Page.{EvidenceSnapshot}
use pocket_advisor.Mcp.Store.{
  CursorState, SnapshotStore, StoreLimits, find_in, without, is_there, is_empty_id, remove_snapshot,
  oldest_of, evict_oldest, make_room,
}
use pocket_advisor.Mcp.Store.Entries.{
  DistinctKeys, find_in-without, find_in-without_same, DistinctKeys-without, total_size,
  total_size-without,
}

-- The identities are distinct and not empty, the bytes are those of the snapshots, and each cursor
-- leads to one.
pub record Kept {D M : Type 0} (st : SnapshotStore D M) : Type 0 where
  pub distinct : DistinctKeys st.snapshots
  pub named : All (λ e. is_empty_id e.0 ≡ false) st.snapshots
  pub sized : total_size st.snapshots ≡ st.bytes
  pub pointed : All (λ c. is_there (find_in c.1.snapshot_id st.snapshots) ≡ true) st.cursors

pub All-without {ℓ} :
    {V : Type 0} (P : Bytes × V → Type ℓ) (k : Bytes) (m : List (Bytes × V))
    → All P m
    → All P (without k m)
unfolding without
All-without P k [] a = tt
All-without P k ((i, v) ∷ m) a = elim (Bool-cases (bytes_eq i k)) [
  | inl same ↦ rw (without, same) (All-without P k m a.1)
  | inr other ↦ rw (without, other) (a.0, All-without P k m a.1)
]

unfoldable pub Missing : {V : Type 0} → Bytes → List (Bytes × V) → Type 0
Missing k m = is_there (find_in k m) ≡ false

Missing-without :
    {V : Type 0} (j k : Bytes) (m : List (Bytes × V)) → Missing j m → Missing j (without k m)
unfolding Missing
Missing-without j k m h = elim (Bool-cases (bytes_eq j k)) [
  | inl same ↦
      let j_eq = (bytes_eq_iff j k).0 same in
      subst (λ j. is_there (find_in j (without k m)) ≡ false) (sym j_eq) (find_in-without_same k m)
  | inr other ↦ ap is_there (find_in-without j k m other) ∙ h
]

module _ {D M : Type 0} where
  -- The cursors that are left lead to the snapshots that are left.
  pointed-without :
      (k : Bytes) (m : List (Bytes × EvidenceSnapshot D M)) (cs : List (Bytes × CursorState))
      → All (λ c. is_there (find_in c.1.snapshot_id m) ≡ true) cs
      → All
          (λ c. is_there (find_in c.1.snapshot_id (without k m)) ≡ true)
          (select (λ c. not (bytes_eq c.1.snapshot_id k)) cs)
  unfolding select
  pointed-without k m [] a = tt
  pointed-without k m (c ∷ cs) a = elim (Bool-cases (bytes_eq c.1.snapshot_id k)) [
    | inl same ↦ rw (select, same) (pointed-without k m cs a.1)
    | inr other ↦
        rw (select, other)
          (
            ap is_there (find_in-without c.1.snapshot_id k m other) ∙ a.0,
            pointed-without k m cs a.1,
          )
  ]

  -- A removal keeps the store in order, and takes away one snapshot when there is one.
  abbrev pub Removed : Bytes → SnapshotStore D M → SnapshotStore D M → Type 0
  Removed id st st' =
      Kept st'
      × (length st'.snapshots ≤ length st.snapshots)
      × (st'.bytes ≤ st.bytes)
      × ((is_there (find_in id st.snapshots) ≡ false)
          ⊎ (length st'.snapshots < length st.snapshots))

  pub remove_snapshot-Removed :
      (id : Bytes) (st : SnapshotStore D M) → Kept st → Removed id st (remove_snapshot id st)
  unfolding remove_snapshot
  remove_snapshot-Removed id st kept = elim (Option-cases (find_in id st.snapshots)) [
    | inl nothing ↦ rw (remove_snapshot, nothing) (kept, omega arith, omega arith, inl refl)
    | inr (v, found) ↦
        let (fewer, smaller) = total_size-without id v st.snapshots found kept.distinct in
        rw (remove_snapshot, found)
          (
            record {
              distinct = DistinctKeys-without id st.snapshots kept.distinct;
              named = All-without (λ e. is_empty_id e.0 ≡ false) id st.snapshots kept.named;
              sized = omega (arith, smaller, kept.sized);
              pointed = pointed-without id st.snapshots st.cursors kept.pointed;
            },
            omega (arith, fewer),
            omega arith,
            inr (omega (arith, fewer)),
          )
  ]

  pub Missing-remove :
      (j id : Bytes) (st : SnapshotStore D M)
      → Missing j st.snapshots
      → Missing j (remove_snapshot id st).snapshots
  unfolding remove_snapshot
  Missing-remove j id st h = elim (Option-cases (find_in id st.snapshots)) [
    | inl nothing ↦ rw (remove_snapshot, nothing) h
    | inr (v, found) ↦ rw (remove_snapshot, found) (Missing-without j id st.snapshots h)
  ]

  pub found_further :
      (k j : Bytes) (v : EvidenceSnapshot D M) (m : List (Bytes × EvidenceSnapshot D M))
      → is_there (find_in k m) ≡ true
      → is_there (find_in k ((j, v) ∷ m)) ≡ true
  unfolding find_in
  found_further k j v m h = ground arith

  pub found_here :
      (k j : Bytes) (v : EvidenceSnapshot D M) (m : List (Bytes × EvidenceSnapshot D M))
      → k ≡ j
      → is_there (find_in k ((j, v) ∷ m)) ≡ true
  unfolding find_in
  found_here k j v m e = let same = (bytes_eq_iff j k).1 (sym e) in rw (find_in, same) refl

  oldest_of_step :
      (id j : Bytes) (oldest : ℕ) (v : EvidenceSnapshot D M)
      (m : List (Bytes × EvidenceSnapshot D M))
      → oldest_of id oldest ((j, v) ∷ m) ≡ (
          if is_empty_id id || ltb v.last_access oldest
          then oldest_of j v.last_access m
          else oldest_of id oldest m)
  unfolding oldest_of
  oldest_of_step id j oldest v m = refl

  -- The oldest is the one that the search began with, or one of the list.
  oldest_of_found :
      (id : Bytes) (oldest : ℕ) (m : List (Bytes × EvidenceSnapshot D M))
      → (oldest_of id oldest m ≡ id) ⊎ (is_there (find_in (oldest_of id oldest m) m) ≡ true)
  oldest_of_found id oldest [] = inl (unfold oldest_of in refl)
  oldest_of_found id oldest ((j, v) ∷ m) =
      let step = oldest_of_step id j oldest v m in
      elim (Bool-cases (is_empty_id id || ltb v.last_access oldest)) [
        | inl older ↦
            let now : oldest_of id oldest ((j, v) ∷ m) ≡ oldest_of j v.last_access m =
              ground arith in
            elim (oldest_of_found j v.last_access m) [
              | inl e ↦ inr (found_here (oldest_of id oldest ((j, v) ∷ m)) j v m (now ∙ e))
              | inr there ↦ inr (
                  found_further (oldest_of id oldest ((j, v) ∷ m)) j v m
                    (ap (λ k. is_there (find_in k m)) now ∙ there))
            ]
        | inr younger ↦
            let now : oldest_of id oldest ((j, v) ∷ m) ≡ oldest_of id oldest m = ground arith in
            elim (oldest_of_found id oldest m) [
              | inl e ↦ inl (now ∙ e)
              | inr there ↦ inr (
                  found_further (oldest_of id oldest ((j, v) ∷ m)) j v m
                    (ap (λ k. is_there (find_in k m)) now ∙ there))
            ]
      ]

  named_there :
      (k : Bytes) (m : List (Bytes × EvidenceSnapshot D M))
      → All (λ e. is_empty_id e.0 ≡ false) m
      → is_there (find_in k m) ≡ true
      → is_empty_id k ≡ false
  unfolding find_in
  named_there k [] a h = absurd cc
  named_there k ((j, v) ∷ m) a h = elim (Bool-cases (bytes_eq j k)) [
    | inl same ↦ subst (λ k. is_empty_id k ≡ false) ((bytes_eq_iff j k).0 same) a.0
    | inr other ↦ named_there k m a.1 (ground arith)
  ]

  -- While a snapshot is there, one is evicted.
  evict_oldest_some :
      (st : SnapshotStore D M)
      → Kept st
      → 0 < length st.snapshots
      → (id : Bytes) × (evict_oldest st ≡ (true, remove_snapshot id st))
        × (is_there (find_in id st.snapshots) ≡ true)
  unfolding evict_oldest
  evict_oldest_some st kept h =
      let there = oldest_there st.snapshots kept.named h in
      let named = named_there (oldest_of [] 0 st.snapshots) st.snapshots kept.named there in
      (oldest_of [] 0 st.snapshots, rw (evict_oldest, named) refl, there)
    where
      oldest_there :
          (m : List (Bytes × EvidenceSnapshot D M))
          → All (λ e. is_empty_id e.0 ≡ false) m
          → 0 < length m
          → is_there (find_in (oldest_of [] 0 m) m) ≡ true
      oldest_there [] a h = absurd (omega arith)
      oldest_there ((j, v) ∷ m) a h =
          let step = oldest_of_step [] j 0 v m in
          elim (oldest_of_found [] 0 ((j, v) ∷ m)) [
            | inr there ↦ there
            | inl e ↦ elim (oldest_of_found j v.last_access m) [
              | inl same ↦ found_here (oldest_of [] 0 ((j, v) ∷ m)) j v m (step ∙ same)
              | inr there ↦
                  found_further (oldest_of [] 0 ((j, v) ∷ m)) j v m
                    (ap (λ k. is_there (find_in k m)) step ∙ there)
            ]
          ]

  abbrev is_full : StoreLimits → ℕ → SnapshotStore D M → Bool
  is_full limits size st =
      leb limits.max_snapshots (length st.snapshots) || ltb limits.max_bytes (st.bytes + size)

  make_room_done :
      (limits : StoreLimits) (size fuel : ℕ) (st : SnapshotStore D M)
      → is_full limits size st ≡ false
      → make_room limits size (suc fuel) st ≡ st
  unfolding make_room
  make_room_done limits size fuel st h = rw (make_room, h) refl

  make_room_next :
      (limits : StoreLimits) (size fuel : ℕ) (st : SnapshotStore D M) (id : Bytes)
      → is_full limits size st ≡ true
      → evict_oldest st ≡ (true, remove_snapshot id st)
      → make_room limits size (suc fuel) st ≡ make_room limits size fuel (remove_snapshot id st)
  unfolding make_room
  make_room_next limits size fuel st id h e = rw (make_room, h, e) refl

  no_bytes : (m : List (Bytes × EvidenceSnapshot D M)) → length m ≡ 0 → total_size m ≡ 0
  unfolding total_size
  no_bytes [] h = refl
  no_bytes (e ∷ m) h = absurd (omega arith)

  some_there :
      (limits : StoreLimits) (size : ℕ) (st : SnapshotStore D M)
      → 0 < limits.max_snapshots
      → size ≤ limits.max_bytes
      → total_size st.snapshots ≡ st.bytes
      → is_full limits size st ≡ true
      → 0 < length st.snapshots
  some_there limits size st p fits sized full = ground (arith, no_bytes st.snapshots)

  -- With a round for each snapshot and one more there is room, and the store is in order.
  pub make_room-Kept :
      (limits : StoreLimits) (size fuel : ℕ) (st : SnapshotStore D M)
      → 0 < limits.max_snapshots
      → size ≤ limits.max_bytes
      → length st.snapshots < fuel
      → Kept st
      → Kept (make_room limits size fuel st)
        × (length (make_room limits size fuel st).snapshots < limits.max_snapshots)
        × ((make_room limits size fuel st).bytes + size ≤ limits.max_bytes)
        × ((j : Bytes)
            → Missing j st.snapshots
            → Missing j (make_room limits size fuel st).snapshots)
  make_room-Kept limits size zero st p fits h kept = absurd (omega arith)
  make_room-Kept limits size (suc fuel) st p fits h kept =
      elim (Bool-cases (is_full limits size st)) [
        | inr room ↦
            rw (make_room_done limits size fuel st room)
              (kept, ground arith, ground arith, λ j m. m)
        | inl full ↦
            let (id, evicted, there) =
              evict_oldest_some st kept (some_there limits size st p fits kept.sized full) in
            let (kept', few, small, fewer) = remove_snapshot-Removed id st kept in
            let shorter : length (remove_snapshot id st).snapshots < fuel = elim fewer [
              | inl gone ↦ absurd cc
              | inr less ↦ omega (arith, less, h)
            ] in
            let (k, l, b, m) =
              make_room-Kept limits size fuel (remove_snapshot id st) p fits shorter kept' in
            rw (make_room_next limits size fuel st id full evicted)
              (k, l, b, λ j missing. m j (Missing-remove j id st missing))
      ]
