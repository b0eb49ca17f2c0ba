-- ===== src/Queue.antt =====
-- internal/storage/postgres/jobs.go: the job table of PostgreSQL and the statements over it.
-- A row is a record, the table a list of rows with distinct identifiers, a statement one step at a
-- database time `now` (in any one unit). `UPDATE … WHERE` changes the rows that its guard accepts,
-- and the number of them is what the driver reports.
pub mod Claims
pub mod Gate
pub mod Fence
pub mod Lifecycle
pub mod Examples
use pocket_advisor.Prelude.{
  ℕ, ◌+◌, ◌-◌, Bool, true, false, not, ◌&&◌, ◌||◌, List, [], ◌∷◌, map, Option, none, some, ltb, leb,
  ◌==◌, if◌then◌else◌, Bytes, bytes_eq, min,
}

pub data State : Type 0 where
  ready running waiting_source completed failed : State

abbrev pub is_ready : State → Bool
is_ready ready = true
is_ready _ = false

abbrev pub is_running : State → Bool
is_running running = true
is_running _ = false

abbrev pub is_waiting : State → Bool
is_waiting waiting_source = true
is_waiting _ = false

abbrev pub is_failed : State → Bool
is_failed failed = true
is_failed _ = false

pub record Row : Type 0 where
  pub job_id : Bytes
  pub doc_id : Bytes
  pub subject : Bytes
  pub state : State
  pub generation : ℕ
  pub attempts : ℕ
  pub created_at : ℕ
  pub available_at : ℕ
  pub claimed_at : Option ℕ
  pub claimed_by : Bytes
  pub lease_until : Option ℕ
  pub reason : Bytes
  pub last_failure : Bytes
  pub finished_at : Option ℕ

-- One claimed unit of work.
pub record Job : Type 0 where
  pub id : Bytes
  pub doc_id : Bytes
  pub generation : ℕ
  pub attempts : ℕ
  pub charged : Bool
  pub last_failure : Bytes
  pub lease_until : ℕ
  pub server_now : ℕ
  pub started : ℕ  -- the local clock

-- The durations of the package, in seconds.
abbrev pub max_attempts : ℕ
max_attempts = 3

abbrev pub lease_duration : ℕ
lease_duration = 300

abbrev pub handler_budget : ℕ
handler_budget = 3600

abbrev pub busy_delay : ℕ
busy_delay = 30

-- `t > now` in SQL, where NULL is not true.
abbrev pub later : Option ℕ → ℕ → Bool
later none now = false
later (some t) now = ltb now t

-- `claimed_at + budget > now`.
abbrev pub in_budget : Option ℕ → ℕ → Bool
in_budget none now = false
in_budget (some t) now = ltb now (t + handler_budget)

-- The predicate `owned`: this exact claim, still running, with an unexpired lease.
unfoldable pub owned : ℕ → Job → Row → Bool
owned now j r =
    bytes_eq r.job_id j.id
    && (r.generation == j.generation)
    && is_running r.state
    && later r.lease_until now

-- A statement's guard and its `SET`.
pub record Update : Type 0 where
  pub guard : Row → Bool
  pub change : Row → Row

unfoldable pub apply : Update → Row → Row
apply u r = if u.guard r then u.change r else r

unfoldable pub affected : Update → List Row → ℕ
affected u [] = 0
affected u (r ∷ rs) = (if u.guard r then 1 else 0) + affected u rs

pub data Outcome : Type 0 where
  done : Outcome
  lease_lost : Outcome
  job_busy : Outcome
  invalid_job : Outcome
  commit_uncertain : Outcome
  handler_failed : Outcome
  store_failed : Outcome

-- `transition`: one guarded update, and `ErrLeaseLost` when the guard matched nothing.
unfoldable pub transition : Update → List Row → List Row × Outcome
transition u rows = (map (apply u) rows, if affected u rows == 0 then lease_lost else done)

unfoldable pub refund : Job → ℕ
refund j = if j.charged then 1 else 0

unfoldable pub retry : ℕ → Job → ℕ → Bytes → Update
retry now j delay why = record {
  guard = owned now j;
  change = λ r. record r {
    state = ready;
    available_at = now + delay;
    lease_until = none;
    last_failure = why;
  };
}

unfoldable pub release : ℕ → Job → ℕ → Update
unfolding refund
release now j delay = record {
  guard = owned now j;
  change = λ r. record r {
    state = ready;
    available_at = now + delay;
    lease_until = none;
    attempts = r.attempts - refund j;
  };
}

unfoldable pub wait : ℕ → Job → Bytes → Update
unfolding refund
wait now j why = record {
  guard = owned now j;
  change = λ r. record r {
    state = waiting_source;
    reason = why;
    lease_until = none;
    attempts = r.attempts - refund j;
  };
}

-- The job's own statement in `Fail`, behind the advisory lock.
unfoldable pub fail_update : ℕ → Job → Bytes → Update
fail_update now j why = record {
  guard = owned now j;
  change = λ r. record r {
    state = failed;
    reason = why;
    last_failure = why;
    finished_at = some now;
    lease_until = none;
  };
}

-- `LEAST(now + lease, claimed_at + budget)`, which passes over NULL.
abbrev pub renewed : ℕ → Option ℕ → ℕ
renewed now none = now + lease_duration
renewed now (some t) = min (now + lease_duration) (t + handler_budget)

unfoldable pub renewal : ℕ → Job → Update
renewal now j = record {
  guard = λ r. owned now j r && in_budget r.claimed_at now;
  change = λ r. record r { lease_until = some (renewed now r.claimed_at) };
}

-- The completion statement of `Run`, the ownership fence.
unfoldable pub completion : ℕ → Job → Update
completion now j = record {
  guard = λ r. owned now j r && in_budget r.claimed_at now;
  change = λ r. record r {
    state = completed;
    finished_at = some now;
    lease_until = none;
    reason = [];
    last_failure = [];
  };
}

-- What `Run` reads before the handler: does a row of the job pass the same test?
unfoldable pub is_live : ℕ → Job → List Row → Bool
is_live now j [] = false
is_live now j (r ∷ rs) = (owned now j r && in_budget r.claimed_at now) || is_live now j rs

-- A commit that is not acknowledged may still have been applied.
pub data Commit : Type 0 where
  acknowledged : Commit
  applied : Commit
  rolled_back : Commit

-- What happens round one `Fail`: the answers to its statements, its clock, and its commit.
pub record FailAttempt : Type 0 where
  pub begun : Bool  -- the transaction opens and the lock is asked for
  pub locked : Bool
  pub now : ℕ
  pub sent : Bool  -- the update of the job gives an answer
  pub commit : Commit

-- `Transaction` passes the error of a commit on as it is.
abbrev pub commit_both {ℓ} :
    {D : Type ℓ} → Commit → D × List Row → D × List Row → (D × List Row) × Outcome
commit_both acknowledged before after = (after, done)
commit_both applied before after = (after, store_failed)
commit_both rolled_back before after = (before, store_failed)

-- `Fail`, over the documents `D` and the table. The advisory lock is tried first, `mark` is the
-- update of the document, which may fail, and everything rolls back unless the fence holds.
unfoldable pub fail {ℓ} :
    {D : Type ℓ}
    → (D → Option D)
    → FailAttempt
    → Job
    → Bytes
    → D × List Row
    → (D × List Row) × Outcome
fail mark a j why (docs, rows) =
    if not a.begun
    then ((docs, rows), store_failed)
    else if not a.locked
    then ((docs, rows), job_busy)
    else elim (mark docs) [
      | none ↦ ((docs, rows), store_failed)
      | some docs' ↦
          if not a.sent
          then ((docs, rows), store_failed)
          else if affected (fail_update a.now j why) rows == 0
          then ((docs, rows), lease_lost)
          else commit_both a.commit (docs, rows) (docs', map (apply (fail_update a.now j why)) rows)
    ]

-- What happens round one `Run`: the table and the clock when it reads its row, and when it
-- completes; the handler's answer and the commit's.
pub record Attempt : Type 0 where
  pub canonical : Bool  -- `uuid.Parse` gives the identifier back
  pub begun : Bool  -- the transaction opens and the lock is asked for
  pub locked : Bool
  pub row_read : Bool  -- the first read gives an answer
  pub begin_now : ℕ
  pub begin_rows : List Row
  pub handled : Bool
  pub end_now : ℕ
  pub end_rows : List Row
  pub completion_sent : Bool  -- the completion statement gives an answer
  pub commit : Commit

abbrev pub commit_rows : Commit → List Row → List Row → List Row × Outcome
commit_rows acknowledged before after = (after, done)
commit_rows applied before after = (after, commit_uncertain)
commit_rows rolled_back before after = (before, commit_uncertain)

-- The table after, and the outcome: everything but a commit rolls back.
unfoldable pub run : Job → Attempt → List Row × Outcome
unfolding is_live completion
run j a =
    if not a.canonical
    then (a.end_rows, invalid_job)
    else if not a.begun
    then (a.end_rows, store_failed)
    else if not a.locked
    then (a.end_rows, job_busy)
    else if not a.row_read
    then (a.end_rows, store_failed)
    else if not (is_live a.begin_now j a.begin_rows)
    then (a.end_rows, lease_lost)
    else if not a.handled
    then (a.end_rows, handler_failed)
    else if not a.completion_sent
    then (a.end_rows, store_failed)
    else if affected (completion a.end_now j) a.end_rows == 0
    then (a.end_rows, lease_lost)
    else commit_rows a.commit a.end_rows (map (apply (completion a.end_now j)) a.end_rows)

-- `ResumeSources`.
unfoldable pub resume : ℕ → Update
resume now = record {
  guard = λ r. is_waiting r.state;
  change = λ r. record r {
    state = ready;
    generation = r.generation + 1;
    available_at = now;
    lease_until = none;
  };
}

-- `CheckResolved`: unfinished work, source waits, and jobs that failed since the run began.
unfoldable pub unfinished : Row → Bool
unfinished r = is_ready r.state || is_running r.state

abbrev pub not_before : ℕ → Option ℕ → Bool
not_before since none = false
not_before since (some t) = leb since t

unfoldable pub failed_since : ℕ → Row → Bool
failed_since since r = is_failed r.state && not_before since r.finished_at

unfoldable pub count_rows : (Row → Bool) → List Row → ℕ
count_rows p [] = 0
count_rows p (r ∷ rs) = (if p r then 1 else 0) + count_rows p rs

unfoldable pub check_resolved : ℕ → List Row → Bool
unfolding unfinished failed_since count_rows
check_resolved since rows =
    count_rows unfinished rows
      + count_rows (λ r. is_waiting r.state) rows
      + count_rows (failed_since since) rows
    == 0
