-- ===== src/Queue/Claims.antt =====
-- internal/storage/postgres/jobs.go: `claimStatement` and `Claim`.
pub mod Liveness
pub mod Served
pub mod Fair
use pocket_advisor.Prelude.{
  ℕ, suc, ◌+◌, ◌-◌, ◌%◌, Bool, true, false, not, ◌&&◌, ◌||◌, List, [], ◌∷◌, ◌++◌, map, Option, none,
  some, ltb, leb, ◌==◌, if◌then◌else◌, Bytes, bytes_eq, bytes_lt, min, take, length, sort_by,
  contains, bytes_Eq,
}
use pocket_advisor.Queue.{
  Row, Job, State, running, is_ready, is_running, max_attempts, lease_duration,
}

-- The two statements: READY work whose delay has elapsed, RUNNING work whose lease expired.
pub data Statement : Type 0 where
  ready_work : Statement
  expired_work : Statement

-- `t <= now` in SQL, where NULL is not true.
abbrev pub reached : Option ℕ → ℕ → Bool
reached none now = false
reached (some t) now = leb t now

unfoldable pub eligible : Statement → ℕ → Bytes → Row → Bool
eligible ready_work now subject r =
    bytes_eq r.subject subject && is_ready r.state && leb r.available_at now
eligible expired_work now subject r =
    bytes_eq r.subject subject && is_running r.state && reached r.lease_until now

abbrev pub or_zero : Option ℕ → ℕ
or_zero none = 0
or_zero (some t) = t

abbrev pub sort_key : Statement → Row → ℕ
sort_key ready_work r = r.available_at
sort_key expired_work r = or_zero r.lease_until

-- `ORDER BY key, created_at, job_id`.
unfoldable pub row_before : Statement → Row → Row → Bool
row_before s a b =
    ltb (sort_key s a) (sort_key s b)
    || ((sort_key s a == sort_key s b)
        && (ltb a.created_at b.created_at
            || ((a.created_at == b.created_at) && bytes_lt a.job_id b.job_id)))

unfoldable pub select_rows : (Row → Bool) → List Row → List Row
select_rows p [] = []
select_rows p (r ∷ rs) = if p r then r ∷ select_rows p rs else select_rows p rs

-- `FOR UPDATE SKIP LOCKED … LIMIT`: the rows that another transaction holds are passed over.
unfoldable pub selected : Statement → ℕ → Bytes → ℕ → (Row → Bool) → List Row → List Row
unfolding row_before select_rows eligible sort_by
selected s now subject limit locked rows =
    take limit
      (sort_by (row_before s) (select_rows (λ r. eligible s now subject r && not (locked r)) rows))

unfoldable pub claim_row : ℕ → Bytes → Row → Row
claim_row now owner r = record r {
  state = running;
  attempts = min (r.attempts + 1) max_attempts;
  generation = r.generation + 1;
  claimed_at = some now;
  claimed_by = owner;
  lease_until = some (now + lease_duration);
}

-- What `RETURNING` gives for a row that is claimed; `started` is the local clock.
unfoldable pub claimed_job : ℕ → ℕ → Row → Job
claimed_job now started r = record {
  id = r.job_id;
  doc_id = r.doc_id;
  generation = r.generation + 1;
  attempts = min (r.attempts + 1) max_attempts;
  charged = ltb r.attempts max_attempts;
  last_failure = r.last_failure;
  lease_until = now + lease_duration;
  server_now = now;
  started = started;
}

abbrev pub ids : List Row → List Bytes
ids = map (λ r. r.job_id)

unfoldable pub claim_apply : ℕ → Bytes → List Bytes → Row → Row
unfolding claim_row
claim_apply now owner chosen r = if contains chosen r.job_id then claim_row now owner r else r

-- When and by whom the statements of one `Claim` run, what they fail on, and what is locked.
pub record Session : Type 0 where
  pub owner : Bytes
  pub now : Statement → ℕ
  pub started : Statement → ℕ
  pub locked : Statement → Row → Bool
  pub fails : Statement → Bool

pub record Claimed : Type 0 where
  pub rows : List Row
  pub jobs : List Job
  pub failed : Bool

-- One statement: it fails whole, or commits whole.
unfoldable pub claim_statement : Session → Statement → Bytes → ℕ → List Row → Claimed
unfolding selected claim_apply claimed_job
claim_statement c s subject limit rows =
    let chosen = selected s (c.now s) subject limit (c.locked s) rows in
    if c.fails s then record { rows = rows; jobs = []; failed = true } else record {
      rows = map (claim_apply (c.now s) c.owner (ids chosen)) rows;
      jobs = map (claimed_job (c.now s) (c.started s)) chosen;
      failed = false;
    }

-- The statement that is tried first for one reservation, by the parity of the subject's counter.
abbrev pub first_choice : ℕ → Statement
first_choice flip = if flip % 2 == 0 then expired_work else ready_work

abbrev pub second_choice : ℕ → Statement
second_choice flip = if flip % 2 == 0 then ready_work else expired_work

-- The second statement of a `Claim` after the first, keeping the jobs of both.
abbrev pub then_claim : Claimed → Claimed → Claimed
then_claim a b = record { rows = b.rows; jobs = a.jobs ++ b.jobs; failed = b.failed }

abbrev pub is_empty {ℓ} : {A : Type ℓ} → List A → Bool
is_empty [] = true
is_empty (x ∷ xs) = false

-- `Claim`. `flip` is the subject's counter, already advanced.
unfoldable pub claim : Session → ℕ → Bytes → ℕ → List Row → Claimed
claim c flip subject limit rows =
    let several = claim_statement c expired_work subject 1 rows in
    let rest = claim_statement c ready_work subject (limit - length several.jobs) several.rows in
    let one = claim_statement c (first_choice flip) subject 1 rows in
    let other = claim_statement c (second_choice flip) subject 1 one.rows in
    if ltb limit 1
    then record { rows = rows; jobs = []; failed = false }
    else if ltb 1 limit
    then (if several.failed then several else then_claim several rest)
    else if one.failed || not (is_empty one.jobs)
    then one
    else other
