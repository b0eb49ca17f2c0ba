-- ===== src/Queue/Fence.antt =====
-- internal/storage/postgres/jobs.go: the ownership fence. Only the claim that holds a row changes it.
use pocket_advisor.Prelude.{
  Option, some, ◌≢◌, ◌⊎◌, ℕ, ◌<◌, ◌≡◌, refl, ap₂, true, false, List, [], ◌∷◌, map, arith, Bytes,
  bytes_eq_iff, All,
}
use pocket_advisor.Queue.{
  fail, done, store_failed, acknowledged, applied, FailAttempt, Row, Job, Update, Outcome, Attempt,
  lease_lost, commit_uncertain, owned, apply, affected, transition, retry, release, wait,
  fail_update, renewal, completion, is_live, run,
}

-- What a claim can ask of its row.
pub data Verdict : Type 0 where
  retries : ℕ → Bytes → Verdict
  releases : ℕ → Verdict
  waits : Bytes → Verdict
  fails : Bytes → Verdict
  renews : Verdict
  completes : Verdict

unfoldable pub update_of : ℕ → Job → Verdict → Update
unfolding retry release wait fail_update renewal completion
update_of now j (retries delay why) = retry now j delay why
update_of now j (releases delay) = release now j delay
update_of now j (waits why) = wait now j why
update_of now j (fails why) = fail_update now j why
update_of now j renews = renewal now j
update_of now j completes = completion now j

-- The guard of every verdict contains the fence.
pub guard-owned :
    (now : ℕ) (j : Job) (v : Verdict) (r : Row)
    → (update_of now j v).guard r ≡ true
    → owned now j r ≡ true
unfolding update_of
guard-owned now j (retries delay why) r h = h
guard-owned now j (releases delay) r h = h
guard-owned now j (waits why) r h = h
guard-owned now j (fails why) r h = h
guard-owned now j renews r h = ground arith
guard-owned now j completes r h = ground arith

pub apply_unowned :
    (now : ℕ) (j : Job) (v : Verdict) (r : Row)
    → owned now j r ≡ false
    → apply (update_of now j v) r ≡ r
unfolding apply
apply_unowned now j v r h = ground (arith, guard-owned now j v r)

-- No row of the table is owned by the claim.
abbrev pub Unowned : ℕ → Job → List Row → Type 0
Unowned now j = All (λ r. owned now j r ≡ false)

map-Unowned :
    (now : ℕ) (j : Job) (v : Verdict) (rows : List Row)
    → Unowned now j rows
    → map (apply (update_of now j v)) rows ≡ rows
map-Unowned now j v [] u = refl
map-Unowned now j v (r ∷ rows) u =
    ap₂ ◌∷◌ (apply_unowned now j v r u.0) (map-Unowned now j v rows u.1)

affected-Unowned :
    (now : ℕ) (j : Job) (v : Verdict) (rows : List Row)
    → Unowned now j rows
    → affected (update_of now j v) rows ≡ 0
unfolding affected
affected-Unowned now j v [] u = refl
affected-Unowned now j v (r ∷ rows) u =
    ground (arith, guard-owned now j v r, affected-Unowned now j v rows u.1)

-- A claim that owns no row of the table changes nothing, whichever of the six updates it asks for,
-- and is told that its lease is lost.
pub stale_verdict :
    (now : ℕ) (j : Job) (v : Verdict) (rows : List Row)
    → Unowned now j rows
    → transition (update_of now j v) rows ≡ (rows, lease_lost)
unfolding transition
stale_verdict now j v rows u = rw (map-Unowned now j v rows u, affected-Unowned now j v rows u)

-- Two claims that own one row, at whatever times, have the same job and the same generation.
pub owned_unique :
    (now now' : ℕ) (j j' : Job) (r : Row)
    → owned now j r ≡ true
    → owned now' j' r ≡ true
    → (j.id ≡ j'.id) × (j.generation ≡ j'.generation)
unfolding owned
owned_unique now now' j j' r h k =
    ground (arith, bytes_eq_iff r.job_id j.id, bytes_eq_iff r.job_id j'.id)

-- What `Run` reports of the table it leaves: a completion is recorded exactly when the claim owned
-- its row, inside its budget, both before the handler and at the end.
abbrev pub Ran : Job → Attempt → List Row → Outcome → Type 0
Ran j a rows done =
    (a.handled ≡ true)
    × (is_live a.begin_now j a.begin_rows ≡ true)
    × (0 < affected (completion a.end_now j) a.end_rows)
    × (rows ≡ map (apply (completion a.end_now j)) a.end_rows)
Ran j a rows commit_uncertain =
    (rows ≡ a.end_rows) ⊎ (rows ≡ map (apply (completion a.end_now j)) a.end_rows)
Ran j a rows _ = rows ≡ a.end_rows

-- A run reports completion only when its handler succeeded and its claim owned its row within the
-- budget both before the handler and at the end, and then the table is the completed one; after an
-- uncertain commit the table is the one before or the completed one, and after any other outcome it
-- is unchanged.
pub run-Ran : (j : Job) (a : Attempt) → Ran j a (run j a).0 (run j a).1
unfolding run
run-Ran j a = ground arith

-- What `Fail` leaves: the documents and the table as they were, and no success, or both changed, with
-- success when the commit was acknowledged and the error of the store when it was not.
abbrev pub Failed :
    {D : Type 0}
    → (D → Option D)
    → FailAttempt
    → Job
    → Bytes
    → D
    → List Row
    → (D × List Row) × Outcome
    → Type 0
Failed mark a j why docs rows (after, outcome) =
    ((after ≡ (docs, rows)) × (outcome ≢ done))
    ⊎ ((a.begun ≡ true)
        × (a.locked ≡ true)
        × (a.sent ≡ true)
        × (mark docs ≡ some after.0)
        × (transition (fail_update a.now j why) rows ≡ (after.1, done))
        × (((a.commit ≡ acknowledged) × (outcome ≡ done))
            ⊎ ((a.commit ≡ applied) × (outcome ≡ store_failed))))

-- A failure verdict leaves the documents and the table as they were and reports no success, or
-- makes both changes, never one without the other. It makes them only when the transaction opened,
-- the lock was free, the document could be marked, and the fenced update of the job answered and
-- took effect; and then it reports success when the commit is acknowledged, and the error of the
-- store when the commit was applied without being acknowledged.
pub fail-transition :
    {D : Type 0} (mark : D → Option D) (a : FailAttempt) (j : Job) (why : Bytes) (docs : D)
    (rows : List Row)
    → Failed mark a j why docs rows (fail mark a j why (docs, rows))
unfolding fail transition
fail-transition mark a j why docs rows = ground arith
