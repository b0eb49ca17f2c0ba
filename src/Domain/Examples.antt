-- ===== src/Domain/Examples.antt =====
-- internal/domain: single reasons on which the theorems apply.
use pocket_advisor.Prelude.{◌≡◌}
use pocket_advisor.Domain.Reasons.{
  ocr_failed, handler_panic, lists, retryable_reasons, can_retry, classify_reason, Sorted,
  retryable_reasons_lem, classify_reason-Sorted,
}

retryable_reasons_lem_example : lists retryable_reasons ocr_failed ≡ can_retry ocr_failed
retryable_reasons_lem_example = retryable_reasons_lem ocr_failed

classify_reason-Sorted_example : Sorted handler_panic (classify_reason handler_panic)
classify_reason-Sorted_example = classify_reason-Sorted handler_panic
