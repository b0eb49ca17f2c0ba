-- ===== src/Queue/Examples.antt =====
-- internal/storage/postgres: small tables on which the theorems about the queue apply.
use pocket_advisor.Prelude.{
  ℕ, ◌+◌, ◌≤◌, ◌<◌, ◌≡◌, refl, ◌⊎◌, ◌↔◌, true, false, [], ◌∷◌, none, some, arith, Bytes, All,
  length, Option,
}
use pocket_advisor.Queue.{
  fail, FailAttempt, applied, Row, Job, ready, running, completed, Attempt, acknowledged, owned,
  transition, lease_lost, run, check_resolved, max_attempts,
}
use pocket_advisor.Queue.Claims.{
  Session, ready_work, expired_work, eligible, claim, claim_row, claimed_job, select_rows,
}
use pocket_advisor.Queue.Claims.Liveness.{claim_le}
use pocket_advisor.Queue.Claims.Fair.{claim_fair}
use pocket_advisor.Queue.Claims.Served.{Served}
use pocket_advisor.Queue.Fence.{
  retries, releases, update_of, stale_verdict, Failed, fail-transition, Ran, run-Ran,
}
use pocket_advisor.Queue.Lifecycle.{
  claims, verdicts, resumes, row_step, row_run, RowInv, row_step-RowInv, settled_forever,
  superseded_forever, claim-release, claim_charges, Settled, check_resolved_iff,
}

abbrev subject : Bytes
subject = 7 ∷ []

abbrev waiting : Row
waiting = record {
  job_id = 1 ∷ [];
  doc_id = 2 ∷ [];
  subject = subject;
  state = ready;
  generation = 4;
  attempts = 1;
  created_at = 10;
  available_at = 20;
  claimed_at = none;
  claimed_by = [];
  lease_until = none;
  reason = [];
  last_failure = [];
  finished_at = none;
}

abbrev claimed : Row
claimed = record waiting {
  state = running;
  generation = 5;
  attempts = 2;
  claimed_at = some 100;
  lease_until = some 400;
}

abbrev finished : Row
finished = record waiting { state = completed; finished_at = some 120 }

abbrev holder : Job
holder = record {
  id = 1 ∷ [];
  doc_id = 2 ∷ [];
  generation = 5;
  attempts = 2;
  charged = true;
  last_failure = [];
  lease_until = 400;
  server_now = 100;
  started = 0;
}

abbrev stale : Job
stale = record holder { generation = 4 }

stale_verdict_example :
    transition (update_of 200 stale (retries 60 [])) (claimed ∷ []) ≡ (claimed ∷ [], lease_lost)
unfolding owned
stale_verdict_example = stale_verdict 200 stale (retries 60 []) (claimed ∷ []) (refl, tt)

-- A document that counts its updates.
abbrev marked : ℕ → Option ℕ
marked n = some (n + 1)

-- The commit of a failure verdict is applied, and its acknowledgement is lost.
abbrev unacknowledged : FailAttempt
unacknowledged = record { begun = true; locked = true; now = 150; sent = true; commit = applied }

fail-transition_example :
    Failed marked unacknowledged holder [] 0
      (claimed ∷ [])
      (fail marked unacknowledged holder [] (0, claimed ∷ []))
fail-transition_example = fail-transition marked unacknowledged holder [] 0 (claimed ∷ [])

abbrev attempt : Attempt
attempt = record {
  canonical = true;
  begun = true;
  locked = true;
  row_read = true;
  begin_now = 110;
  begin_rows = claimed ∷ [];
  handled = true;
  end_now = 150;
  end_rows = claimed ∷ [];
  completion_sent = true;
  commit = acknowledged;
}

run-Ran_example : Ran holder attempt (run holder attempt).0 (run holder attempt).1
run-Ran_example = run-Ran holder attempt

row_step-RowInv_example : RowInv (row_step (verdicts 200 holder (releases 0)) claimed)
row_step-RowInv_example =
    row_step-RowInv (verdicts 200 holder (releases 0)) claimed
      (record { few = omega arith; lease = omega arith })

settled_forever_example :
    row_run (resumes 130 ∷ claims ready_work 200 subject [] true ∷ []) finished ≡ finished
settled_forever_example =
    settled_forever (resumes 130 ∷ claims ready_work 200 subject [] true ∷ []) finished tt

superseded_forever_example :
    owned 510 holder
      (row_run (resumes 505 ∷ []) (row_step (claims expired_work 500 subject [] true) claimed))
    ≡ false
unfolding eligible
superseded_forever_example =
    superseded_forever holder expired_work 500 510 subject [] (resumes 505 ∷ []) claimed
      (omega arith) refl

claim-release_example :
    (owned 350 (claimed_job 100 0 waiting) (claim_row 100 [] waiting) ≡ true)
    × ((row_step
          (verdicts 350 (claimed_job 100 0 waiting) (releases 0))
          (claim_row 100 [] waiting)).attempts
        ≡ 1)
claim-release_example = claim-release 100 0 350 0 [] waiting (omega arith) (omega arith)

claim_charges_example :
    ((claimed_job 100 0 waiting).charged ≡ true
      × ((claim_row 100 [] waiting).attempts ≡ 1 + 1)
      × (1 < max_attempts))
    ⊎ ((claimed_job 100 0 waiting).charged ≡ false
        × ((claim_row 100 [] waiting).attempts ≡ max_attempts)
        × (1 ≡ max_attempts))
claim_charges_example = claim_charges 100 0 [] waiting (omega arith)

check_resolved_iff_example :
    (check_resolved 100 (finished ∷ claimed ∷ []) ≡ true)
    ↔ All (Settled 100) (finished ∷ claimed ∷ [])
check_resolved_iff_example = check_resolved_iff 100 (finished ∷ claimed ∷ [])

abbrev session : Session
session = record {
  owner = 9 ∷ [];
  now = λ s. 500;
  started = λ s. 0;
  locked = λ s r. false;
  fails = λ s. false;
}

claim_le_example : length (claim session 3 subject 1 (waiting ∷ claimed ∷ [])).jobs ≤ 1
claim_le_example = claim_le session 3 subject 1 (waiting ∷ claimed ∷ [])

-- A second job of the subject, whose holder's lease expired.
abbrev abandoned : Row
abandoned = record claimed { job_id = 4 ∷ [] }

claim_fair_example :
    Served session ready_work subject
      (abandoned ∷ waiting ∷ [])
      (claim session 2 subject 1 (abandoned ∷ waiting ∷ [])).jobs
    ⊎ Served session ready_work subject
        (waiting ∷ abandoned ∷ [])
        (claim session 3 subject 1 (waiting ∷ abandoned ∷ [])).jobs
unfolding select_rows eligible
claim_fair_example =
    claim_fair session session 2 subject 1 1 (abandoned ∷ waiting ∷ []) (waiting ∷ abandoned ∷ [])
      ready_work (λ t. refl) (λ t. refl) (omega arith) (omega arith) (refl, (refl, tt))
      (refl, (refl, tt)) (omega arith) (omega arith)
