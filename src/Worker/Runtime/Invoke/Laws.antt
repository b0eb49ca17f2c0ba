-- ===== src/Worker/Runtime/Invoke/Laws.antt =====
-- internal/worker/runtime.go: what `invoke` and `handle` guarantee round a handler.
use pocket_advisor.Prelude.{suc, ◌≤◌, ◌≡◌, refl, true, false, Option, none, some, arith, Bytes}
use pocket_advisor.Domain.Reasons.{Reason, handler_panic}
use pocket_advisor.Queue.{Job}
use pocket_advisor.Worker.Runtime.{
  Err, Queue, Run, is_terminal, reason_of, find_link, link_declined,
}
use pocket_advisor.Worker.Runtime.Settle.{Settings, busy_delay}
use pocket_advisor.Worker.Runtime.Settle.AtMostOne.{recorded, fail-AtMostOne}
use pocket_advisor.Worker.Runtime.Invoke.{
  returned, panicked, Handler, Store, panic_error, run_handler, Prepare, handle, exhausted_reason,
}

-- A panic is a terminal failure under its own reason.
pub panic-terminal : (is_terminal panic_error ≡ true) × (reason_of panic_error ≡ handler_panic)
unfolding is_terminal reason_of
panic-terminal = (refl, refl)

module _ {W : Type 0} (t : Store W) where
  -- Running a handler reports success only when the transaction opened, the handler returned no
  -- error, and the result is that of committing what the handler left.
  pub run_handler_success :
      (j : Job) (h : Handler W) (w : W)
      → (run_handler t j h w).0 ≡ none
      → (t.begin j w ≡ none)
        × ((h w).0 ≡ returned none)
        × (run_handler t j h w ≡ t.commit j (h w).1)
  unfolding run_handler
  run_handler_success j h w e = ground arith

  -- A handler that panics in an open transaction leaves the database as it was and gives the
  -- terminal panic error.
  pub run_handler_panic :
      (j : Job) (h : Handler W) (w : W)
      → t.begin j w ≡ none
      → (h w).0 ≡ panicked
      → run_handler t j h w ≡ (some panic_error, w)
  unfolding run_handler
  run_handler_panic j h w b p = ground arith

  -- When the document of a decline can be marked and the transaction commits, the decline is
  -- returned and the database is the one committed with the mark.
  pub run_handler_declined :
      (j : Job) (h : Handler W) (w w' : W) (e : Err) (r : Reason) (doc : Bytes)
      → t.begin j w ≡ none
      → h w ≡ (returned (some e), w')
      → find_link link_declined e ≡ some (r, doc)
      → (t.mark_skipped doc r w').0 ≡ none
      → (t.commit j (t.mark_skipped doc r w').1).0 ≡ none
      → run_handler t j h w ≡ (some e, (t.commit j (t.mark_skipped doc r w').1).1)
  unfolding run_handler
  run_handler_declined j h w w' e r doc b p d m c = ground arith

  -- A claim made with its budget spent never depends on a handler, its preparation or its
  -- cancellation, and leads to at most one verdict.
  pub handle_uncharged :
      (q : Queue W) (c : Settings) (p p' : Option (Prepare W)) (j : Job) (last : Reason)
      (cause cause' : Err) (h h' : Handler W) (s : Run W)
      → j.charged ≡ false
      → (handle t q c p j last cause h s ≡ handle t q c p' j last cause' h' s)
        × (recorded (handle t q c p j last cause h s).calls ≤ suc (recorded s.calls))
  unfolding handle
  handle_uncharged q c p p' j last cause cause' h h' s u =
      ground (arith, fail-AtMostOne q busy_delay j (exhausted_reason last) s)
