-- ===== src/Queue/Lifecycle.antt =====
-- internal/storage/postgres/jobs.go: the life of one row, over any sequence of statements.
use pocket_advisor.Prelude.{
  ℕ, ◌+◌, ◌≤◌, ◌<◌, ◌≡◌, refl, ◌⊎◌, Bool, true, false, ◌&&◌, List, [], ◌∷◌, Option, none, some,
  arith, if◌then◌else◌, Bytes, bytes_eq_iff, ◌↔◌, All,
}
use pocket_advisor.Queue.{
  Row, Job, State, running, completed, failed, owned, apply, resume, refund, is_waiting,
  handler_budget, lease_duration, max_attempts, unfinished, failed_since, count_rows,
  check_resolved, not_before,
}
use pocket_advisor.Queue.Claims.{
  Statement, ready_work, expired_work, eligible, claim_row, claimed_job,
}
use pocket_advisor.Queue.Fence.{
  Verdict, retries, releases, waits, fails, renews, completes, update_of,
}

-- One statement as a row meets it. `takes` says that the selection of a claim chose the row, which
-- it can do only for an eligible one.
pub data Event : Type 0 where
  claims : Statement → ℕ → Bytes → Bytes → Bool → Event
  verdicts : ℕ → Job → Verdict → Event
  resumes : ℕ → Event

unfoldable pub row_step : Event → Row → Row
unfolding eligible claim_row update_of apply resume
row_step (claims s now subject owner takes) r =
    if eligible s now subject r && takes then claim_row now owner r else r
row_step (verdicts now j v) r = apply (update_of now j v) r
row_step (resumes now) r = apply (resume now) r

unfoldable pub row_run : List Event → Row → Row
row_run [] r = r
row_run (e ∷ es) r = row_run es (row_step e r)

-- A lease stands exactly while the row runs, and ends within the budget of its claim; the attempts
-- stay within the threshold.
abbrev pub LeaseFits : State → Option ℕ → Option ℕ → Type 0
LeaseFits running (some t) (some lease) = lease ≤ t + handler_budget
LeaseFits running _ _ = ⊥
LeaseFits _ _ none = Unit {0}
LeaseFits _ _ (some lease) = ⊥

pub record RowInv (r : Row) : Type 0 where
  pub few : r.attempts ≤ max_attempts
  pub lease : LeaseFits r.state r.claimed_at r.lease_until

-- Every statement of the queue keeps the invariant of a row: the attempts stay within the
-- threshold, a lease stands exactly while the row runs, and a lease ends within the handler budget
-- of its claim.
pub row_step-RowInv : (e : Event) (r : Row) → RowInv r → RowInv (row_step e r)
unfolding row_step owned refund
row_step-RowInv (claims ready_work now subject owner takes) r i = ground arith
row_step-RowInv (claims expired_work now subject owner takes) r i = ground arith
row_step-RowInv (verdicts now j (retries delay why)) r i = ground arith
row_step-RowInv (verdicts now j (releases delay)) r i = ground arith
row_step-RowInv (verdicts now j (waits why)) r i = ground arith
row_step-RowInv (verdicts now j (fails why)) r i = ground arith
row_step-RowInv (verdicts now j renews) r i = ground arith
row_step-RowInv (verdicts now j completes) r i = ground arith
row_step-RowInv (resumes now) r i = ground arith

-- A completed or failed job.
abbrev pub IsSettled : State → Type 0
IsSettled completed = Unit {0}
IsSettled failed = Unit {0}
IsSettled _ = ⊥

row_step_settled : (e : Event) (r : Row) → IsSettled r.state → row_step e r ≡ r
unfolding row_step owned
row_step_settled (claims ready_work now subject owner takes) r h = ground arith
row_step_settled (claims expired_work now subject owner takes) r h = ground arith
row_step_settled (verdicts now j (retries delay why)) r h = ground arith
row_step_settled (verdicts now j (releases delay)) r h = ground arith
row_step_settled (verdicts now j (waits why)) r h = ground arith
row_step_settled (verdicts now j (fails why)) r h = ground arith
row_step_settled (verdicts now j renews) r h = ground arith
row_step_settled (verdicts now j completes) r h = ground arith
row_step_settled (resumes now) r h = ground arith

-- A completed or failed row is never changed again, by any sequence of claims, verdicts and
-- resumptions.
pub settled_forever : (es : List Event) (r : Row) → IsSettled r.state → row_run es r ≡ r
unfolding row_run
settled_forever [] r h = refl
settled_forever (e ∷ es) r h = rw (row_step_settled e r h) (settled_forever es r h)

generation_grows : (e : Event) (r : Row) → r.generation ≤ (row_step e r).generation
unfolding row_step
generation_grows (claims s now subject owner takes) r = ground arith
generation_grows (verdicts now j (retries delay why)) r = ground arith
generation_grows (verdicts now j (releases delay)) r = ground arith
generation_grows (verdicts now j (waits why)) r = ground arith
generation_grows (verdicts now j (fails why)) r = ground arith
generation_grows (verdicts now j renews) r = ground arith
generation_grows (verdicts now j completes) r = ground arith
generation_grows (resumes now) r = ground arith

generation_run_grows : (es : List Event) (r : Row) → r.generation ≤ (row_run es r).generation
unfolding row_run
generation_run_grows [] r = omega arith
generation_run_grows (e ∷ es) r =
    omega (arith, generation_grows e r, generation_run_grows es (row_step e r))

old_generation_unowned :
    (now : ℕ) (j : Job) (r : Row) → j.generation < r.generation → owned now j r ≡ false
unfolding owned
old_generation_unowned now j r h = ground arith

-- Once a claim has taken a row whose generation is at least that of a job, that job owns the row at
-- no time, after any further sequence of claims, verdicts and resumptions.
pub superseded_forever :
    (j : Job) (s : Statement) (now later_now : ℕ) (subject owner : Bytes) (es : List Event)
    (r : Row)
    → j.generation ≤ r.generation
    → eligible s now subject r ≡ true
    → owned later_now j (row_run es (row_step (claims s now subject owner true) r)) ≡ false
superseded_forever j s now later_now subject owner es r h e =
    old_generation_unowned later_now j _
      (omega (arith, claimed_next, generation_run_grows es (row_step claimed r)))
  where
    claimed : Event
    claimed = claims s now subject owner true

    claimed_next : (row_step claimed r).generation ≡ r.generation + 1
    claimed_next = unfold row_step claim_row in (rw e)

-- For a row within the threshold, the claim that has just been made owns its row until its lease
-- ends, and giving it back then restores the attempts it had before the claim.
pub claim-release :
    (now start later_now delay : ℕ) (owner : Bytes) (r : Row)
    → r.attempts ≤ max_attempts
    → later_now < now + lease_duration
    → (owned later_now (claimed_job now start r) (claim_row now owner r) ≡ true)
      × ((row_step
            (verdicts later_now (claimed_job now start r) (releases delay))
            (claim_row now owner r)).attempts
          ≡ r.attempts)
unfolding row_step owned claimed_job claim_row refund
claim-release now start later_now delay owner r few t =
    ground (arith, bytes_eq_iff r.job_id r.job_id)

-- For a row within the threshold, a claim is charged exactly when attempts are left and then counts
-- one more; with none left it is not charged and the count stays.
pub claim_charges :
    (now start : ℕ) (owner : Bytes) (r : Row)
    → r.attempts ≤ max_attempts
    → ((claimed_job now start r).charged ≡ true
        × ((claim_row now owner r).attempts ≡ r.attempts + 1)
        × (r.attempts < max_attempts))
      ⊎ ((claimed_job now start r).charged ≡ false
          × ((claim_row now owner r).attempts ≡ max_attempts)
          × (r.attempts ≡ max_attempts))
unfolding claimed_job claim_row
claim_charges now start owner r few = ground arith

-- Work that a finite run that began at `since` leaves settled.
abbrev pub Settled : ℕ → Row → Type 0
Settled since r =
    (r.state ≡ completed) ⊎ ((r.state ≡ failed) × (not_before since r.finished_at ≡ false))

Settled-counts :
    (since : ℕ) (r : Row)
    → (unfinished r ≡ false) × (is_waiting r.state ≡ false) × (failed_since since r ≡ false)
    → Settled since r
unfolding unfinished failed_since
Settled-counts since r h = ground arith

counts-Settled :
    (since : ℕ) (r : Row)
    → Settled since r
    → (unfinished r ≡ false) × (is_waiting r.state ≡ false) × (failed_since since r ≡ false)
unfolding unfinished failed_since
counts-Settled since r h = ground arith

check_resolved→All :
    (since : ℕ) (rows : List Row) → check_resolved since rows ≡ true → All (Settled since) rows
unfolding check_resolved count_rows
check_resolved→All since [] h = tt
check_resolved→All since (r ∷ rows) h = (
  Settled-counts since r (ground arith, ground arith, ground arith),
  check_resolved→All since rows (ground arith),
)

All→check_resolved :
    (since : ℕ) (rows : List Row) → All (Settled since) rows → check_resolved since rows ≡ true
unfolding check_resolved count_rows
All→check_resolved since [] h = refl
All→check_resolved since (r ∷ rows) h =
    ground (arith, counts-Settled since r h.0, All→check_resolved since rows h.1)

-- A run counts as resolved exactly when every job is completed, or had failed before the run began.
pub check_resolved_iff :
    (since : ℕ) (rows : List Row) → (check_resolved since rows ≡ true) ↔ All (Settled since) rows
check_resolved_iff since rows = (check_resolved→All since rows, All→check_resolved since rows)
