-- ===== src/Worker/Runtime/Settle.antt =====
-- internal/worker/runtime.go: `settle`, which turns a handler's result into a verdict.
pub mod AtMostOne
pub mod Outcomes
use pocket_advisor.Prelude.{
  ℕ, ◌*◌, Bool, true, false, not, ◌&&◌, ◌||◌, List, [], ◌∷◌, Option, none, some, Bytes, bytes, ◌==◌,
  leb, if◌then◌else◌,
}
use pocket_advisor.Domain.Reasons.{Reason, unlisted, store_rejected}
use pocket_advisor.Queue.{Job, is_running, max_attempts}
use pocket_advisor.Worker.Runtime.{
  Err, Run, Queue, Call, retries, releases, waits, fails, Counter, completed, skipped, retried,
  fatal, has, is_some, is_declined, is_terminal, is_deadlock, is_data_exception, doc_id_of,
  reason_of, count, lost_lease, verdict, fail, is_completed_state, link_lease_lost,
  link_lease_uncertain, link_commit_uncertain, link_job_busy, link_source_unavailable,
  link_source_changed,
}
use pocket_advisor.Worker.Runtime.Backoff.{second, nak_backoff, spread}

-- What `settle` reads besides the error: whether the run is shutting down, whether the runtime has a
-- document store, and the random numbers.
pub record Settings : Type 0 where
  pub shutting_down : Bool
  pub has_docs : Bool
  pub rand : ℕ → ℕ

abbrev pub busy_delay : ℕ
busy_delay = 30 * second

abbrev pub deadlock_delay : ℕ
deadlock_delay = 5 * second

abbrev pub source_reason : Err → Reason
source_reason e =
    if has link_source_changed e
    then unlisted (bytes "SOURCE_CHANGED")
    else unlisted (bytes "SOURCE_UNAVAILABLE")

abbrev pub is_source : Err → Bool
is_source e = has link_source_unavailable e || has link_source_changed e

-- Ownership is lost, or not known to be held: no verdict.
abbrev pub is_lost : Err → Err → Bool
is_lost e cause =
    has link_lease_lost e || has link_lease_lost cause || has link_lease_uncertain cause

abbrev pub is_empty_text : Bytes → Bool
is_empty_text [] = true
is_empty_text (x ∷ xs) = false

module _ {W : Type 0} (q : Queue W) (c : Settings) where
  -- A verdict after which the job counts as retried.
  unfoldable pub retried_by : Call → Job → Run W → Run W
  retried_by k j s =
      let (recorded, s') = verdict q k j s in if recorded then count retried s' else s'

  -- The end of `settle`: the work itself failed.
  unfoldable pub process_failure : Job → Err → Run W → Run W
  process_failure j e s =
      let e' : Err =
        if not (is_terminal e) && is_data_exception e then fatal store_rejected e else e in
      if is_terminal e' || leb max_attempts j.attempts
      then (fail q busy_delay j (reason_of e') s).1
      else retried_by (retries (nak_backoff c.rand j.attempts) (reason_of e')) j s

  -- A job can outlive its document.
  unfoldable pub unless_pruned : Job → Err → Run W → Run W
  unless_pruned j e s =
      let ((failed, exists), w) = q.document_exists (doc_id_of e) s.world in
      let s' : Run W = record s { world = w } in
      let asked =
        if not (is_some failed) && not exists then count skipped s' else process_failure j e s' in
      let plain = process_failure j e s in
      if not (is_empty_text (doc_id_of e)) && c.has_docs then asked else plain

  -- The verdicts on an error that the claim still has to answer for.
  unfoldable pub owned_outcome : Job → Err → Err → Run W → Run W
  owned_outcome j e cause s =
      if is_lost e cause
      then lost_lease s
      else if has link_job_busy e
      then (verdict q (releases busy_delay) j s).1
      else if is_deadlock e
      then retried_by (releases (spread c.rand deadlock_delay)) j s
      else if is_source e
      then (verdict q (waits (source_reason e)) j s).1
      else if c.shutting_down
      then retried_by (releases 0) j s
      else unless_pruned j e s

  -- After a commit whose outcome is not known the durable state decides.
  unfoldable pub after_uncertain : Job → Err → Err → Run W → Run W
  after_uncertain j e cause s =
      let ((failed, st), w) = q.read_state j s.world in
      let s' : Run W = record s { world = w } in
      let mine = owned_outcome j e cause s' in
      if is_some failed
      then s'
      else if st.found && is_completed_state st.state && (st.generation == j.generation)
      then count completed s'
      else if not st.found || not (is_running st.state) || not (st.generation == j.generation)
      then lost_lease s'
      else mine

  unfoldable pub settle : Job → Option Err → Err → Run W → Run W
  settle j none cause s = count completed s
  settle j (some e) cause s =
      if is_declined e
      then count skipped s
      else if has link_commit_uncertain e
      then after_uncertain j e cause s
      else owned_outcome j e cause s
