-- ===== src/Worker/Runtime.antt =====
-- internal/worker/runtime.go: how a handler's result becomes a verdict about its job.
-- An error is the chain of what `errors.As` and `errors.Is` can find in it, the outermost first.
-- The queue and the document store are interfaces of the code: here a record of operations over a
-- state of their own. A run carries that state, the calls made with their answers (the newest
-- first), and the counters. Durations are nanoseconds. Logging is left out.
pub mod Backoff
pub mod Settle
pub mod Invoke
use pocket_advisor.Prelude.{
  ℕ, Bool, true, false, not, ◌&&◌, ◌||◌, List, [], ◌∷◌, Option, none, some, Bytes, ◌==◌, leb,
  if◌then◌else◌, bytes_eq,
}
use pocket_advisor.Domain.Reasons.{Reason, unclassified, unlisted, handler_panic, store_rejected}
use pocket_advisor.Queue.{Job, State, is_running}

-- Which class of SQLSTATE a PostgreSQL error has.
pub data Sqlstate : Type 0 where
  deadlock_detected data_exception other_state : Sqlstate

pub data Link : Type 0 where
  terminal : Reason → Link
  transient : Reason → Link
  declined : Reason → Bytes → Link
  doc_id : Bytes → Link
  pg_error : Sqlstate → Link
  lease_lost lease_uncertain commit_uncertain job_busy : Link
  source_unavailable source_changed : Link
  other : Link

-- A non-nil error; `Option Err` where the code has an error that may be nil.
abbrev pub Err : Type 0
Err = List Link

abbrev pub fatal : Reason → Err → Err
fatal reason e = terminal reason ∷ e

-- `errors.Is` and `errors.As`, one for each thing that the code asks.
abbrev pub has : (Link → Bool) → Err → Bool
has p [] = false
has p (l ∷ ls) = p l || has p ls

abbrev pub find_link {ℓ} : {A : Type ℓ} → (Link → Option A) → Err → Option A
find_link p [] = none
find_link p (l ∷ ls) = elim (p l) [ none ↦ find_link p ls | some a ↦ some a ]

abbrev pub link_terminal : Link → Option Reason
link_terminal (terminal r) = some r
link_terminal _ = none

abbrev pub link_transient : Link → Option Reason
link_transient (transient r) = some r
link_transient _ = none

abbrev pub link_declined : Link → Option (Reason × Bytes)
link_declined (declined r d) = some (r, d)
link_declined _ = none

abbrev pub link_doc_id : Link → Option Bytes
link_doc_id (doc_id d) = some d
link_doc_id _ = none

abbrev pub link_pg : Link → Option Sqlstate
link_pg (pg_error s) = some s
link_pg _ = none

abbrev pub link_lease_lost : Link → Bool
link_lease_lost lease_lost = true
link_lease_lost _ = false

abbrev pub link_lease_uncertain : Link → Bool
link_lease_uncertain lease_uncertain = true
link_lease_uncertain _ = false

abbrev pub link_commit_uncertain : Link → Bool
link_commit_uncertain commit_uncertain = true
link_commit_uncertain _ = false

abbrev pub link_job_busy : Link → Bool
link_job_busy job_busy = true
link_job_busy _ = false

abbrev pub link_source_unavailable : Link → Bool
link_source_unavailable source_unavailable = true
link_source_unavailable _ = false

abbrev pub link_source_changed : Link → Bool
link_source_changed source_changed = true
link_source_changed _ = false

abbrev pub is_some {ℓ} : {A : Type ℓ} → Option A → Bool
is_some none = false
is_some (some a) = true

-- `isDeclined`, `isTerminal`, `IsDeadlock`, `IsDataException`, `docIDOf`, `reasonOf`.
unfoldable pub is_declined : Err → Bool
is_declined e = is_some (find_link link_declined e)

unfoldable pub is_terminal : Err → Bool
is_terminal e = is_some (find_link link_terminal e)

unfoldable pub is_deadlock : Err → Bool
is_deadlock e = elim (find_link link_pg e) [ some deadlock_detected ↦ true | _ ↦ false ]

unfoldable pub is_data_exception : Err → Bool
is_data_exception e = elim (find_link link_pg e) [ some data_exception ↦ true | _ ↦ false ]

unfoldable pub doc_id_of : Err → Bytes
doc_id_of e = elim (find_link link_doc_id e) [ none ↦ [] | some d ↦ d ]

unfoldable pub reason_of : Err → Reason
reason_of e = elim (find_link link_terminal e) [
  | some r ↦ r
  | none ↦ elim (find_link link_transient e) [ some r ↦ r | none ↦ unclassified ]
]

-- The transitions that the runtime asks of the queue.
pub data Call : Type 0 where
  retries : ℕ → Reason → Call
  releases : ℕ → Call
  waits : Reason → Call
  fails : Reason → Call

pub record JobState : Type 0 where
  pub found : Bool
  pub state : State
  pub generation : ℕ

pub record Queue (W : Type 0) : Type 0 where
  pub transition : Call → Job → W → Option Err × W
  pub read_state : Job → W → (Option Err × JobState) × W
  pub document_exists : Bytes → W → (Option Err × Bool) × W

pub data Counter : Type 0 where
  completed skipped retried dead_letter lost : Counter

pub record Run (W : Type 0) : Type 0 where
  pub world : W
  pub calls : List (Call × Option Err)
  pub counters : List Counter

abbrev pub is_failed_state : State → Bool
is_failed_state State.failed = true
is_failed_state _ = false

abbrev pub is_completed_state : State → Bool
is_completed_state State.completed = true
is_completed_state _ = false

module _ {W : Type 0} where
  abbrev pub count : Counter → Run W → Run W
  count k s = record s { counters = k ∷ s.counters }

  unfoldable pub lost_lease : Run W → Run W
  lost_lease s = count lost s

module _ {W : Type 0} (q : Queue W) where
  -- One transition of the queue, recorded with its answer.
  unfoldable pub call : Call → Job → Run W → Option Err × Run W
  call c j s =
      let (answer, w) = q.transition c j s.world in
      (answer, record s { world = w; calls = (c, answer) ∷ s.calls })

  -- `verdict`: one fenced transition; a lost lease is counted, another failure left to expiry.
  unfoldable pub verdict : Call → Job → Run W → Bool × Run W
  unfolding call lost_lease
  verdict c j s =
      let (answer, s') = call c j s in
      elim answer [
        | none ↦ (true, s')
        | some e ↦ if has link_lease_lost e then (false, lost_lease s') else (false, s')
      ]

  -- The case of `fail` where the answer leaves the outcome open: the durable state decides.
  unfoldable pub fail_recorded : Job → Run W → Bool × Run W
  fail_recorded j s =
      let ((e, st), w) = q.read_state j s.world in
      let s' : Run W = record s { world = w } in
      if is_some e
        || not st.found
        || not (is_failed_state st.state)
        || not (st.generation == j.generation)
      then (false, s')
      else (true, count dead_letter s')

  unfoldable pub fail : ℕ → Job → Reason → Run W → Bool × Run W
  unfolding call lost_lease verdict fail_recorded
  fail busy_delay j reason s =
      let (answer, s') = call (fails reason) j s in
      elim answer [
        | none ↦ (true, count dead_letter s')
        | some e ↦
            let busy = verdict (releases busy_delay) j s' in
            let open_end = fail_recorded j s' in
            if has link_lease_lost e
            then (false, lost_lease s')
            else if has link_job_busy e
            then (false, busy.1)
            else open_end
      ]
