-- ===== src/Worker/Runtime/Settle/AtMostOne.antt =====
-- internal/worker/runtime.go: `settle` records at most one verdict.
use pocket_advisor.Prelude.{ℕ, suc, ◌≤◌, ◌≡◌, List, [], ◌∷◌, Option, none, some, arith}
use pocket_advisor.Domain.Reasons.{Reason}
use pocket_advisor.Queue.{Job}
use pocket_advisor.Worker.Runtime.{
  Err, Run, Queue, Call, call, verdict, lost_lease, fail, fail_recorded, releases, fails,
}
use pocket_advisor.Worker.Runtime.Settle.{
  Settings, retried_by, process_failure, unless_pruned, owned_outcome, after_uncertain, settle,
}

-- How many of the calls the queue carried out.
unfoldable pub recorded : List (Call × Option Err) → ℕ
recorded [] = 0
recorded ((c, none) ∷ cs) = suc (recorded cs)
recorded ((c, some e) ∷ cs) = recorded cs

abbrev pub AtMostOne : {W : Type 0} → Run W → Run W → Type 0
AtMostOne s t = recorded t.calls ≤ suc (recorded s.calls)

module _ {W : Type 0} (q : Queue W) where
  verdict-AtMostOne : (k : Call) (j : Job) (s : Run W) → AtMostOne s (verdict q k j s).1
  unfolding verdict recorded
  verdict-AtMostOne k j s = ground arith

  fail_recorded-calls : (j : Job) (s : Run W) → (fail_recorded q j s).1.calls ≡ s.calls
  unfolding fail_recorded
  fail_recorded-calls j s = ground arith

  -- A refused failure verdict leaves room for the busy return.
  pub fail-AtMostOne :
      (delay : ℕ) (j : Job) (r : Reason) (s : Run W) → AtMostOne s (fail q delay j r s).1
  unfolding fail recorded
  fail-AtMostOne delay j r s = ground (
    arith,
    verdict-AtMostOne (releases delay) j (call q (fails r) j s).1,
    fail_recorded-calls j (call q (fails r) j s).1,
  )

module _ {W : Type 0} (q : Queue W) (c : Settings) where
  retried_by-AtMostOne : (k : Call) (j : Job) (s : Run W) → AtMostOne s (retried_by q c k j s)
  unfolding retried_by
  retried_by-AtMostOne k j s = ground (arith, verdict-AtMostOne q k j s)

  process_failure-AtMostOne :
      (j : Job) (e : Err) (s : Run W) → AtMostOne s (process_failure q c j e s)
  unfolding process_failure
  process_failure-AtMostOne j e s = grind (arith, fail-AtMostOne q, retried_by-AtMostOne)

  unless_pruned-AtMostOne : (j : Job) (e : Err) (s : Run W) → AtMostOne s (unless_pruned q c j e s)
  unfolding unless_pruned
  unless_pruned-AtMostOne j e s = grind (arith, process_failure-AtMostOne)

  owned_outcome-AtMostOne :
      (j : Job) (e cause : Err) (s : Run W) → AtMostOne s (owned_outcome q c j e cause s)
  unfolding owned_outcome lost_lease
  owned_outcome-AtMostOne j e cause s =
      grind (arith, verdict-AtMostOne q, retried_by-AtMostOne, unless_pruned-AtMostOne)

  after_uncertain-AtMostOne :
      (j : Job) (e cause : Err) (s : Run W) → AtMostOne s (after_uncertain q c j e cause s)
  unfolding after_uncertain lost_lease
  after_uncertain-AtMostOne j e cause s = grind (arith, owned_outcome-AtMostOne)

  -- Whatever the handler returned and however the queue answers, at most one of the calls that
  -- `settle` makes is carried out.
  pub settle-AtMostOne :
      (j : Job) (e : Option Err) (cause : Err) (s : Run W)
      → recorded (settle q c j e cause s).calls ≤ suc (recorded s.calls)
  unfolding settle
  settle-AtMostOne j none cause s = omega arith
  settle-AtMostOne j (some e) cause s =
      grind (arith, after_uncertain-AtMostOne, owned_outcome-AtMostOne)
