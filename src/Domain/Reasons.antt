-- ===== src/Domain/Reasons.antt =====
-- internal/domain/document.go and classification.go: failure reasons and what class each has.
-- A Go string that is none of the constants is `unlisted`.
use native.Mathlib.Decide.{ℕ_discrete}
use pocket_advisor.Prelude.{◌≡◌, refl, Bool, true, false, List, [], ◌∷◌, Bytes, if◌then◌else◌}

pub data Reason : Type 0 where
  unsupported_format recursion_limit image_not_viable extraction_failed empty_extraction : Reason
  unknown_encoding nul_bytes pdf_encrypted pdf_damaged image_unreadable : Reason
  archive_encrypted archive_too_large archive_damaged missing_trace_context : Reason
  malformed_command ocr_unavailable ocr_failed pdf_open_failed email_parse_failed : Reason
  handler_panic embedding_unavailable store_rejected document_pruned unclassified : Reason
  unlisted : Bytes → Reason

unfoldable pub Reason-discrete : Discrete Reason
Reason-discrete = hlevel ℕ_discrete

-- `slices.Contains`.
unfoldable pub lists : List Reason → Reason → Bool
unfolding Reason-discrete
lists [] r = false
lists (x ∷ xs) r = elim (Reason-discrete x r) [ yes e ↦ true | no e ↦ lists xs r ]

abbrev pub decline_reasons : List Reason
decline_reasons =
    unsupported_format ∷ recursion_limit ∷ image_not_viable ∷ ocr_unavailable ∷ nul_bytes
    ∷ pdf_encrypted ∷ pdf_damaged ∷ image_unreadable ∷ archive_encrypted ∷ archive_too_large
    ∷ archive_damaged ∷ document_pruned ∷ []

pub data FailureClass : Type 0 where
  expected_decline retryable terminal operator_decision : FailureClass

-- The `switch` of `ClassifyReason`; the last clause is `default`.
unfoldable pub class_switch : Reason → FailureClass
class_switch extraction_failed = retryable
class_switch empty_extraction = retryable
class_switch ocr_failed = retryable
class_switch pdf_open_failed = retryable
class_switch email_parse_failed = retryable
class_switch embedding_unavailable = retryable
class_switch unknown_encoding = terminal
class_switch missing_trace_context = terminal
class_switch malformed_command = terminal
class_switch handler_panic = terminal
class_switch store_rejected = terminal
class_switch unclassified = operator_decision
class_switch _ = operator_decision

unfoldable pub classify_reason : Reason → FailureClass
unfolding lists class_switch
classify_reason r = if lists decline_reasons r then expected_decline else class_switch r

abbrev pub is_retryable : FailureClass → Bool
is_retryable retryable = true
is_retryable _ = false

unfoldable pub can_retry : Reason → Bool
unfolding classify_reason
can_retry r = is_retryable (classify_reason r)

abbrev pub processing_failure_reasons : List Reason
processing_failure_reasons =
    extraction_failed ∷ empty_extraction ∷ unknown_encoding ∷ missing_trace_context
    ∷ malformed_command ∷ ocr_failed ∷ pdf_open_failed ∷ email_parse_failed ∷ handler_panic
    ∷ embedding_unavailable ∷ store_rejected ∷ unclassified ∷ []

-- The loop of `RetryableReasons`.
unfoldable pub keep_retryable : List Reason → List Reason
unfolding can_retry
keep_retryable [] = []
keep_retryable (r ∷ rs) = if can_retry r then r ∷ keep_retryable rs else keep_retryable rs

unfoldable pub retryable_reasons : List Reason
unfolding keep_retryable
retryable_reasons = keep_retryable processing_failure_reasons

-- A reason stands in RetryableReasons exactly when Retryable holds of it.
pub retryable_reasons_lem : (r : Reason) → lists retryable_reasons r ≡ can_retry r
unfolding lists retryable_reasons
retryable_reasons_lem extraction_failed = refl
retryable_reasons_lem _ = refl

-- Every expected decline is outside the processing failures, and every processing failure but
-- `UNCLASSIFIED` is retryable or terminal.
abbrev pub Sorted : Reason → FailureClass → Type 0
Sorted r expected_decline = lists processing_failure_reasons r ≡ false
Sorted r retryable = lists processing_failure_reasons r ≡ true
Sorted r terminal = lists processing_failure_reasons r ≡ true
Sorted r operator_decision =
    lists processing_failure_reasons r ≡ elim r [ unclassified ↦ true | _ ↦ false ]

-- An expected decline is no processing failure, every retryable or terminal reason is one, and of
-- the reasons left to the operator only UNCLASSIFIED is one.
pub classify_reason-Sorted : (r : Reason) → Sorted r (classify_reason r)
unfolding classify_reason
classify_reason-Sorted extraction_failed = refl
classify_reason-Sorted _ = refl
