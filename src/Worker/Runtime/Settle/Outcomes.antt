-- ===== src/Worker/Runtime/Settle/Outcomes.antt =====
-- internal/worker/runtime.go: which verdict `settle` asks for, and when an attempt is spent.
use pocket_advisor.Prelude.{
  ℕ, suc, ◌≡◌, ◌⊎◌, inl, inr, Bool-cases, refl, Bool, true, false, ◌||◌, List, [], ◌∷◌, Option,
  none, some, arith, if◌then◌else◌, leb,
}
use pocket_advisor.Domain.Reasons.{store_rejected}
use pocket_advisor.Queue.{Job, max_attempts}
use pocket_advisor.Worker.Runtime.{
  Err, Run, Queue, Call, Counter, dead_letter, retried, verdict, lost_lease, fail, retries,
  releases, waits, fails, has, is_declined, is_terminal, is_deadlock, is_data_exception, doc_id_of,
  reason_of, link_job_busy, link_commit_uncertain,
}
use pocket_advisor.Worker.Runtime.Backoff.{nak_backoff}
use pocket_advisor.Worker.Runtime.Settle.{
  Settings, is_lost, is_source, retried_by, process_failure, unless_pruned, owned_outcome,
  after_uncertain, settle,
}

-- The calls that keep the attempt of the claim: the others refund it.
abbrev pub charges : Call → Bool
charges (retries delay r) = true
charges (fails r) = true
charges (releases delay) = false
charges (waits r) = false

unfoldable pub charged : List (Call × Option Err) → ℕ
charged [] = 0
charged ((c, answer) ∷ cs) = if charges c then suc (charged cs) else charged cs

-- The handler was stopped or the work could not be tried: that says nothing about the document.
abbrev pub interrupted : Settings → Err → Err → Bool
interrupted c e cause =
    is_lost e cause || has link_job_busy e || is_deadlock e || is_source e || c.shutting_down

module _ {W : Type 0} (q : Queue W) (c : Settings) where
  verdict-charged :
      (k : Call) (j : Job) (s : Run W)
      → charges k ≡ false
      → charged (verdict q k j s).1.calls ≡ charged s.calls
  unfolding verdict charged
  verdict-charged k j s h = ground arith

  owned_outcome-charged :
      (j : Job) (e cause : Err) (s : Run W)
      → interrupted c e cause ≡ true
      → charged (owned_outcome q c j e cause s).calls ≡ charged s.calls
  unfolding owned_outcome lost_lease retried_by
  owned_outcome-charged j e cause s h = grind (arith, verdict-charged)

  after_uncertain-charged :
      (j : Job) (e cause : Err) (s : Run W)
      → interrupted c e cause ≡ true
      → charged (after_uncertain q c j e cause s).calls ≡ charged s.calls
  unfolding after_uncertain lost_lease
  after_uncertain-charged j e cause s h = grind (arith, owned_outcome-charged)

  owned_outcome-lost :
      (j : Job) (e cause : Err) (s : Run W)
      → is_lost e cause ≡ true
      → (owned_outcome q c j e cause s).calls ≡ s.calls
  unfolding owned_outcome lost_lease
  owned_outcome-lost j e cause s h = rw (owned_outcome, h) refl

  after_uncertain-lost :
      (j : Job) (e cause : Err) (s : Run W)
      → is_lost e cause ≡ true
      → (after_uncertain q c j e cause s).calls ≡ s.calls
  unfolding after_uncertain lost_lease
  after_uncertain-lost j e cause s h = grind (arith, owned_outcome-lost)

  -- A claim that lost its lease, found its job busy, met a deadlock or a missing source, or was
  -- stopped by the shutdown asks the queue for no retry and no failure; and one that lost its
  -- lease, or could not confirm that it held it, makes no call to the queue at all, so that it
  -- gives no attempt back either.
  pub settle-charged :
      (j : Job) (e cause : Err) (s : Run W)
      → interrupted c e cause ≡ true
      → (charged (settle q c j (some e) cause s).calls ≡ charged s.calls)
        × ((is_lost e cause ≡ false) ⊎ ((settle q c j (some e) cause s).calls ≡ s.calls))
  unfolding settle
  settle-charged j e cause s h = (
    grind (arith, after_uncertain-charged, owned_outcome-charged),
    elim (Bool-cases (is_lost e cause)) [
      | inl lost ↦ inr (grind (arith, after_uncertain-lost, owned_outcome-lost))
      | inr kept ↦ inl kept
    ],
  )

-- The verdict on a processing failure.
abbrev pub failure_verdict : Settings → Job → Err → Call
failure_verdict c j e =
    if is_terminal e
    then fails (reason_of e)
    else if is_data_exception e
    then fails store_rejected
    else if leb max_attempts j.attempts
    then fails (reason_of e)
    else retries (nak_backoff c.rand j.attempts) (reason_of e)

abbrev pub failure_counter : Call → Counter
failure_counter (fails r) = dead_letter
failure_counter _ = retried

module _ {W : Type 0} (q : Queue W) (c : Settings) where
  process_failure-verdict :
      (j : Job) (e : Err) (s : Run W)
      → ((k : Call) (w : W) → (q.transition k j w).0 ≡ none)
      → ((process_failure q c j e s).calls ≡ (failure_verdict c j e, none) ∷ s.calls)
        × ((process_failure q c j e s).counters
            ≡ failure_counter (failure_verdict c j e) ∷ s.counters)
  unfolding process_failure fail retried_by verdict is_terminal reason_of
  process_failure-verdict j e s ok = ground (
    arith,
    ok (fails (reason_of e)) s.world,
    ok (fails store_rejected) s.world,
    ok (retries (nak_backoff c.rand j.attempts) (reason_of e)) s.world,
  )

  abbrev Answered : Job → Err → Run W → Run W → Type 0
  Answered j e s t =
      (t.calls ≡ (failure_verdict c j e, none) ∷ s.calls)
      × (t.counters ≡ failure_counter (failure_verdict c j e) ∷ s.counters)

  unless_pruned-verdict :
      (j : Job) (e : Err) (s : Run W)
      → ((k : Call) (w : W) → (q.transition k j w).0 ≡ none)
      → ((w : W) → (q.document_exists (doc_id_of e) w).0.1 ≡ true)
      → Answered j e s (unless_pruned q c j e s)
  unfolding unless_pruned
  unless_pruned-verdict j e s ok exists = ground (
    arith,
    exists s.world,
    process_failure-verdict j e s ok,
    process_failure-verdict j e (record s { world = (q.document_exists (doc_id_of e) s.world).1 })
        ok,
  )

  -- When the work failed, the queue carries out what it is asked and the document is still there,
  -- and the error is neither a decline nor an uncertain commit nor an interruption, settle makes
  -- exactly one call and counts it once: a terminal error or refused value fails the job, so does
  -- the last attempt, and any other error retries it after the backoff.
  pub settle-failure_verdict :
      (j : Job) (e cause : Err) (s : Run W)
      → ((k : Call) (w : W) → (q.transition k j w).0 ≡ none)
      → ((w : W) → (q.document_exists (doc_id_of e) w).0.1 ≡ true)
      → is_declined e ≡ false
      → has link_commit_uncertain e ≡ false
      → interrupted c e cause ≡ false
      → ((settle q c j (some e) cause s).calls ≡ (failure_verdict c j e, none) ∷ s.calls)
        × ((settle q c j (some e) cause s).counters
            ≡ failure_counter (failure_verdict c j e) ∷ s.counters)
  unfolding settle owned_outcome
  settle-failure_verdict j e cause s ok exists d u i =
      ground (arith, unless_pruned-verdict j e s ok exists)
