-- ===== src/Worker/Examples.antt =====
-- internal/worker/runtime.go: a queue, a store and handlers on which the theorems apply.
use pocket_advisor.Prelude.{
  ℕ, suc, ◌+◌, ◌*◌, ◌≤◌, ◌<◌, ◌≡◌, ◌⊎◌, refl, true, false, [], ◌∷◌, none, some, min,
}
use pocket_advisor.Domain.Reasons.{ocr_failed, nul_bytes}
use pocket_advisor.Queue.{Job, State}
use pocket_advisor.Worker.Runtime.{
  Err, transient, declined, deadlock_detected, pg_error, Queue, Run, is_declined, is_deadlock,
}
use pocket_advisor.Worker.Runtime.Backoff.{
  second, nak_backoff, nak_backoff_max, nak_backoff_base, capped, double, nak_backoff_bounds,
  capped-double-suc,
}
use pocket_advisor.Worker.Runtime.Settle.{Settings, is_lost, settle}
use pocket_advisor.Worker.Runtime.Settle.AtMostOne.{recorded, settle-AtMostOne}
use pocket_advisor.Worker.Runtime.Settle.Outcomes.{
  charged, settle-charged, failure_verdict, failure_counter, settle-failure_verdict,
}
use pocket_advisor.Worker.Runtime.Invoke.{
  returned, panicked, Handler, Store, panic_error, run_handler, handle,
}
use pocket_advisor.Worker.Runtime.Invoke.Laws.{
  run_handler_success, run_handler_panic, run_handler_declined, handle_uncharged,
}

-- A queue that carries out every transition and counts them, and a store that commits.
abbrev queue : Queue ℕ
queue = record {
  transition = λ k j w. (none, w + 1);
  read_state = λ j w. ((none, record { found = true; state = State.running; generation = 5 }), w);
  document_exists = λ d w. ((none, true), w);
}

abbrev store : Store ℕ
store = record {
  begin = λ j w. none;
  commit = λ j w. (none, w + 100);
  mark_skipped = λ d r w. (none, w + 10);
}

abbrev settings : Settings
settings = record { shutting_down = false; has_docs = true; rand = λ n. 0 }

abbrev job : Job
job = record {
  id = 1 ∷ [];
  doc_id = 2 ∷ [];
  generation = 5;
  attempts = 2;
  charged = true;
  last_failure = [];
  lease_until = 400;
  server_now = 100;
  started = 0;
}

abbrev begun : Run ℕ
begun = record { world = 0; calls = []; counters = [] }

abbrev failed : Err
failed = transient ocr_failed ∷ []

settle-AtMostOne_example :
    recorded (settle queue settings job (some failed) [] begun).calls ≤ suc (recorded begun.calls)
settle-AtMostOne_example = settle-AtMostOne queue settings job (some failed) [] begun

settle-charged_example :
    (charged (settle queue settings job (some (pg_error deadlock_detected ∷ [])) [] begun).calls
      ≡ charged begun.calls)
    × ((is_lost (pg_error deadlock_detected ∷ []) [] ≡ false)
        ⊎ ((settle queue settings job (some (pg_error deadlock_detected ∷ [])) [] begun).calls
            ≡ begun.calls))
unfolding is_deadlock
settle-charged_example =
    settle-charged queue settings job (pg_error deadlock_detected ∷ []) [] begun refl

settle-failure_verdict_example :
    ((settle queue settings job (some failed) [] begun).calls
      ≡ (failure_verdict settings job failed, none) ∷ [])
    × ((settle queue settings job (some failed) [] begun).counters
        ≡ failure_counter (failure_verdict settings job failed) ∷ [])
unfolding is_declined is_deadlock
settle-failure_verdict_example =
    settle-failure_verdict queue settings job failed [] begun (λ k w. refl) (λ w. refl) refl refl
      refl

nak_backoff_bounds_example :
    (30 * second ≤ nak_backoff (λ n. 0) 2) × (nak_backoff (λ n. 0) 2 < nak_backoff_max)
nak_backoff_bounds_example = nak_backoff_bounds (λ n. 0) 2 (λ n h. h)

capped-double-suc_example :
    capped (double (suc 1) nak_backoff_base)
    ≡ min (2 * capped (double 1 nak_backoff_base)) nak_backoff_max
capped-double-suc_example = capped-double-suc 1

abbrev writes : Handler ℕ
writes w = (returned none, w + 1)

abbrev panics : Handler ℕ
panics w = (panicked, w + 1)

abbrev declines : Handler ℕ
declines w = (returned (some (declined nul_bytes (2 ∷ []) ∷ [])), w + 1)

run_handler_success_example :
    (store.begin job 0 ≡ none)
    × ((writes 0).0 ≡ returned none)
    × (run_handler store job writes 0 ≡ store.commit job 1)
unfolding run_handler
run_handler_success_example = run_handler_success store job writes 0 refl

run_handler_panic_example : run_handler store job panics 0 ≡ (some panic_error, 0)
run_handler_panic_example = run_handler_panic store job panics 0 refl refl

run_handler_declined_example :
    run_handler store job declines 0 ≡ (some (declined nul_bytes (2 ∷ []) ∷ []), 111)
run_handler_declined_example =
    run_handler_declined store job declines 0 1 (declined nul_bytes (2 ∷ []) ∷ []) nul_bytes
      (2 ∷ []) refl refl refl refl refl

abbrev spent : Job
spent = record job { attempts = 3; charged = false }

handle_uncharged_example :
    (handle store queue settings none spent ocr_failed [] writes begun
      ≡ handle store queue settings none spent ocr_failed [] panics begun)
    × (recorded (handle store queue settings none spent ocr_failed [] writes begun).calls
        ≤ suc (recorded begun.calls))
handle_uncharged_example =
    handle_uncharged store queue settings none none spent ocr_failed [] [] writes panics begun refl
