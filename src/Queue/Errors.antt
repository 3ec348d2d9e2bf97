-- ===== src/Queue/Errors.antt =====
-- Which calls of internal/queue/queue.go return an error, and what they leave behind.
use paperless_ai_ocr.Prelude.{Option, none, some}
use paperless_ai_ocr.Saferr.{Error, Result, ok, err}
use paperless_ai_ocr.Queue.Model.{Db}
use paperless_ai_ocr.Queue.Calls.{Call}
use paperless_ai_ocr.Queue.Enqueue
use paperless_ai_ocr.Queue.Candidates
use paperless_ai_ocr.Queue.Leases
use paperless_ai_ocr.Queue.Transitions
use paperless_ai_ocr.Queue.Batches
use paperless_ai_ocr.Queue.Finalizing
use paperless_ai_ocr.Queue.Failures

abbrev error_in {ℓ} : {A : Type ℓ} → Result A → Option Error
error_in (ok a) = none
error_in (err e) = some e

-- the error that a call returns, if it does
unfoldable pub error_of : Call → Db → Option Error
error_of (Call.enqueue c now input) db = error_in (Enqueue.enqueue_context c now input db).0
error_of (Call.enqueue_candidate c now document_id priority) db =
    error_in (Candidates.enqueue_candidate c now document_id priority db).0
error_of (Call.discard_candidate c document_id generation) db =
    error_in (Candidates.discard_candidate c document_id generation db).0
error_of (Call.resolve_candidate c now document_id generation input) db =
    error_in (Candidates.resolve_candidate c now document_id generation input db).0
error_of (Call.claim c now owner duration) db = error_in (Leases.claim c now owner duration db).0
error_of (Call.recover c now) db = error_in (Leases.recover_expired_leases c now db).0
error_of (Call.retry_failed c checked_at now id available_at) db =
    error_in (Transitions.retry_failed c checked_at now id available_at db).0
error_of (Call.renew c k duration) db =
    error_in (Leases.renew_lease c k.now k.id k.attempt k.owner duration db).0
error_of (Call.release c k) db = error_in (Leases.release c k.now k.id k.attempt k.owner db).0
error_of (Call.schedule_retry c k available_at d) db =
    error_in (Transitions.schedule_retry c k.now k.id k.attempt k.owner available_at d db).0
error_of (Call.complete c k) db =
    error_in (Transitions.complete c k.now k.id k.attempt k.owner db).0
error_of (Call.fail c k d) db = error_in (Transitions.fail c k.now k.id k.attempt k.owner d db).0
error_of (Call.ensure_batches c k now ranges dpi format) db =
    error_in (Batches.ensure_batches c k.now now k.id k.attempt k.owner ranges dpi format db).0
error_of (Call.list_batches c k) db =
    error_in (Batches.list_batches_context c k.now k.id k.attempt k.owner db).0
error_of (Call.checkpoint_batch c k r dpi format text) db =
    error_in (Batches.checkpoint_batch c k.now k.id k.attempt k.owner r dpi format text db).0
error_of (Call.acquire c k token duration) db =
    error_in (Finalizing.acquire_finalization c k.now k.id k.attempt k.owner token duration db).0
error_of (Call.finalization_state c k token) db =
    error_in (Finalizing.finalization_state c k.now k.id k.attempt k.owner token db).0
error_of (Call.renew_finalization c k token duration) db =
    error_in (Finalizing.renew_finalization c k.now k.id k.attempt k.owner token duration db).0
error_of (Call.advance c k token from to) db =
    error_in (Finalizing.advance_finalization c k.now k.id k.attempt k.owner token from to db).0
error_of (Call.set_dispatch c k token from to) db =
    error_in (Finalizing.set_dispatch_state c k.now k.id k.attempt k.owner token from to db).0
error_of (Call.record_failure c k d) db =
    error_in (Failures.record_terminal_failure c k.now k.id k.attempt k.owner d db).0
error_of (Call.success_started c k) db =
    error_in (Failures.success_finalization_started c k.now k.id k.attempt k.owner db).0
error_of (Call.terminal_failure c k) db =
    error_in (Failures.terminal_failure c k.now k.id k.attempt k.owner db).0
