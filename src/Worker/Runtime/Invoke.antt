-- ===== src/Worker/Runtime/Invoke.antt =====
-- internal/worker/runtime.go: `handle`, `invoke` and `prepare`, with panics as values, and the gate
-- slot of a handler that prepares first.
pub mod Laws
use pocket_advisor.Prelude.{
  ℕ, suc, ◌+◌, ◌-◌, Bool, true, false, List, [], ◌∷◌, Option, none, some, Bytes, if◌then◌else◌, leb,
  ltb, min, ◌==◌,
}
use pocket_advisor.Domain.Reasons.{Reason, unclassified, handler_panic, unlisted}
use pocket_advisor.Queue.{Job}
use pocket_advisor.Worker.Runtime.{
  Err, Link, Queue, Run, fatal, other, find_link, link_declined, is_declined, is_some, fail,
}
use pocket_advisor.Worker.Runtime.Settle.{Settings, settle, busy_delay}

-- How a call of outside code ends.
pub data Ended (A : Type 0) : Type 0 where
  returned : A → Ended A
  panicked : Ended A

-- A handler: its answer, and what it made of the database.
abbrev pub Handler : Type 0 → Type 0
Handler W = W → Ended (Option Err) × W

-- What `Queue.Run` and the document store offer a handler. `begin` refuses, or opens the
-- transaction; `commit` answers for what the handler left; the state of a transaction that is
-- rolled back is the one before it.
pub record Store (W : Type 0) : Type 0 where
  pub begin : Job → W → Option Err
  pub commit : Job → W → Option Err × W
  pub mark_skipped : Bytes → Reason → W → Option Err × W

-- The error that a panic becomes.
abbrev pub panic_error : Err
panic_error = fatal handler_panic (other ∷ [])

module _ {W : Type 0} (t : Store W) where
  -- The body that `invoke` hands to `Queue.Run`: a decline marks the document, and then succeeds.
  unfoldable pub body_answer : Option Err → W → (Option Err × Option Err) × W
  body_answer none w = ((none, none), w)
  body_answer (some e) w = elim (find_link link_declined e) [
    | none ↦ ((some e, none), w)
    | some (reason, doc) ↦
        let (failed, w') = t.mark_skipped doc reason w in
        elim failed [ none ↦ ((none, some e), w') | some u ↦ ((some u, none), w') ]
  ]

  -- The end of the transaction: the answer, and the decline that was committed with it.
  unfoldable pub finish : Job → W → (Option Err × Option Err) × W → Option Err × W
  finish j before ((some e, declined), after) = (some e, before)
  finish j before ((none, declined), after) =
      let (failed, w) = t.commit j after in
      elim failed [ none ↦ (declined, w) | some e ↦ (some e, w) ]

  -- `invoke` from `Queue.Run` on.
  unfoldable pub run_handler : Job → Handler W → W → Option Err × W
  unfolding body_answer finish
  run_handler j h w = elim (t.begin j w) [
    | some e ↦ (some e, w)
    | none ↦
        let (ended, w') = h w in
        elim ended [
          | panicked ↦ (some panic_error, w)
          | returned answer ↦ finish j w (body_answer answer w')
        ]
  ]

-- What `Prepare` gives: the handler that commits, or an error.
pub data Prepared (W : Type 0) : Type 0 where
  handler : Handler W → Prepared W
  refused : Err → Prepared W

abbrev pub Prepare : Type 0 → Type 0
Prepare W = W → Ended (Prepared W) × W

-- The reason of `failExhausted`: the last failure, if one is recorded.
unfoldable pub exhausted_reason : Reason → Reason
exhausted_reason (unlisted []) = unclassified
exhausted_reason r = r

module _ {W : Type 0} (t : Store W) where
  -- A decline while preparing is recorded in the job's transaction; another error ends the job's
  -- handling before one is opened.
  unfoldable pub after_prepare : Job → Ended (Prepared W) → W → Option Err × W
  unfolding run_handler
  after_prepare j panicked w = (some panic_error, w)
  after_prepare j (returned (handler h)) w = run_handler t j h w
  after_prepare j (returned (refused e)) w =
      if is_declined e then run_handler t j (λ v. (returned (some e), v)) w else (some e, w)

  -- `invoke`.
  unfoldable pub invoke : Option (Prepare W) → Job → Handler W → W → Option Err × W
  invoke none j h w = run_handler t j h w
  invoke (some prepare) j h w = let (ended, w') = prepare w in after_prepare j ended w'

  -- `handle`: a claim made with the budget spent never reaches a handler. `cause` is what cancelled
  -- the handler's context, and `last` the reason recorded with the job.
  unfoldable pub handle :
      Queue W → Settings → Option (Prepare W) → Job → Reason → Err → Handler W → Run W → Run W
  handle q c prepare j last cause h s =
      let (answer, w) = invoke prepare j h s.world in
      let settled = settle q c j answer cause (record s { world = w }) in
      if j.charged then settled else (fail q busy_delay j (exhausted_reason last) s).1
