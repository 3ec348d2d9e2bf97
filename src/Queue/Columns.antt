-- ===== src/Queue/Columns.antt =====
-- Which tables the calls of internal/queue/queue.go leave alone.
use paperless_ai_ocr.Prelude.{◌≡◌, Bool, true, false, arith}
use paperless_ai_ocr.Queue.Model.{Db}
use paperless_ai_ocr.Queue.Transaction.{write_context}
use paperless_ai_ocr.Queue.Enqueue
use paperless_ai_ocr.Queue.Candidates
use paperless_ai_ocr.Queue.Leases
use paperless_ai_ocr.Queue.Transitions
use paperless_ai_ocr.Queue.Batches
use paperless_ai_ocr.Queue.Finalizing
use paperless_ai_ocr.Queue.Failures
use paperless_ai_ocr.Queue.Calls.{Call, run}

abbrev pub writes_finalizations : Call → Bool
writes_finalizations (Call.acquire _ _ _ _) = true
writes_finalizations (Call.advance _ _ _ _ _) = true
writes_finalizations (Call.record_failure _ _ _) = true
writes_finalizations _ = false

pub finalizations-run :
    (call : Call) (db : Db)
    → writes_finalizations call ≡ false
    → (run call db).finalizations ≡ db.finalizations
unfolding run write_context Leases.require_active_lease Enqueue.enqueue_context
    Candidates.enqueue_candidate Candidates.discard_candidate Candidates.resolve_candidate
    Leases.claim Leases.recover_expired_leases Transitions.retry_failed Leases.renew_lease
    Leases.release Transitions.schedule_retry Transitions.complete Transitions.fail
    Batches.ensure_batches Batches.list_batches_context Batches.checkpoint_batch
    Finalizing.finalization_state Finalizing.renew_finalization Finalizing.set_dispatch_state
    Failures.success_finalization_started Failures.terminal_failure
finalizations-run (Call.enqueue c now input) db h = ground arith
finalizations-run (Call.enqueue_candidate c now i p) db h = ground arith
finalizations-run (Call.discard_candidate c i g) db h = ground arith
finalizations-run (Call.resolve_candidate c now i g input) db h = ground arith
finalizations-run (Call.claim c now owner duration) db h = ground arith
finalizations-run (Call.recover c now) db h = ground arith
finalizations-run (Call.retry_failed c checked_at now id available_at) db h = ground arith
finalizations-run (Call.renew c k duration) db h = ground arith
finalizations-run (Call.release c k) db h = ground arith
finalizations-run (Call.schedule_retry c k available_at d) db h = ground arith
finalizations-run (Call.complete c k) db h = ground arith
finalizations-run (Call.fail c k d) db h = ground arith
finalizations-run (Call.ensure_batches c k now ranges dpi format) db h = ground arith
finalizations-run (Call.list_batches c k) db h = ground arith
finalizations-run (Call.checkpoint_batch c k r dpi format text) db h = ground arith
finalizations-run (Call.acquire c k token duration) db h = absurd (ground arith)
finalizations-run (Call.finalization_state c k token) db h = ground arith
finalizations-run (Call.renew_finalization c k token duration) db h = ground arith
finalizations-run (Call.advance c k token from to) db h = absurd (ground arith)
finalizations-run (Call.set_dispatch c k token from to) db h = ground arith
finalizations-run (Call.record_failure c k d) db h = absurd (ground arith)
finalizations-run (Call.success_started c k) db h = ground arith
finalizations-run (Call.terminal_failure c k) db h = ground arith

abbrev pub writes_controls : Call → Bool
writes_controls (Call.acquire _ _ _ _) = true
writes_controls (Call.renew_finalization _ _ _ _) = true
writes_controls (Call.set_dispatch _ _ _ _ _) = true
writes_controls (Call.record_failure _ _ _) = true
writes_controls _ = false

pub controls-run :
    (call : Call) (db : Db) → writes_controls call ≡ false → (run call db).controls ≡ db.controls
unfolding run write_context Leases.require_active_lease Enqueue.enqueue_context
    Candidates.enqueue_candidate Candidates.discard_candidate Candidates.resolve_candidate
    Leases.claim Leases.recover_expired_leases Transitions.retry_failed Leases.renew_lease
    Leases.release Transitions.schedule_retry Transitions.complete Transitions.fail
    Batches.ensure_batches Batches.list_batches_context Batches.checkpoint_batch
    Finalizing.finalization_state Finalizing.advance_finalization
    Failures.success_finalization_started Failures.terminal_failure
controls-run (Call.enqueue c now input) db h = ground arith
controls-run (Call.enqueue_candidate c now i p) db h = ground arith
controls-run (Call.discard_candidate c i g) db h = ground arith
controls-run (Call.resolve_candidate c now i g input) db h = ground arith
controls-run (Call.claim c now owner duration) db h = ground arith
controls-run (Call.recover c now) db h = ground arith
controls-run (Call.retry_failed c checked_at now id available_at) db h = ground arith
controls-run (Call.renew c k duration) db h = ground arith
controls-run (Call.release c k) db h = ground arith
controls-run (Call.schedule_retry c k available_at d) db h = ground arith
controls-run (Call.complete c k) db h = ground arith
controls-run (Call.fail c k d) db h = ground arith
controls-run (Call.ensure_batches c k now ranges dpi format) db h = ground arith
controls-run (Call.list_batches c k) db h = ground arith
controls-run (Call.checkpoint_batch c k r dpi format text) db h = ground arith
controls-run (Call.acquire c k token duration) db h = absurd (ground arith)
controls-run (Call.finalization_state c k token) db h = ground arith
controls-run (Call.renew_finalization c k token duration) db h = absurd (ground arith)
controls-run (Call.advance c k token from to) db h = ground arith
controls-run (Call.set_dispatch c k token from to) db h = absurd (ground arith)
controls-run (Call.record_failure c k d) db h = absurd (ground arith)
controls-run (Call.success_started c k) db h = ground arith
controls-run (Call.terminal_failure c k) db h = ground arith

abbrev pub writes_batches : Call → Bool
writes_batches (Call.ensure_batches _ _ _ _ _ _) = true
writes_batches (Call.checkpoint_batch _ _ _ _ _ _) = true
writes_batches _ = false

pub batches-run :
    (call : Call) (db : Db) → writes_batches call ≡ false → (run call db).batches ≡ db.batches
unfolding run write_context Leases.require_active_lease Enqueue.enqueue_context
    Candidates.enqueue_candidate Candidates.discard_candidate Candidates.resolve_candidate
    Leases.claim Leases.recover_expired_leases Transitions.retry_failed Leases.renew_lease
    Leases.release Transitions.schedule_retry Transitions.complete Transitions.fail
    Batches.list_batches_context Finalizing.acquire_finalization Finalizing.finalization_state
    Finalizing.renew_finalization Finalizing.advance_finalization Finalizing.set_dispatch_state
    Failures.record_terminal_failure Failures.success_finalization_started Failures.terminal_failure
batches-run (Call.enqueue c now input) db h = ground arith
batches-run (Call.enqueue_candidate c now i p) db h = ground arith
batches-run (Call.discard_candidate c i g) db h = ground arith
batches-run (Call.resolve_candidate c now i g input) db h = ground arith
batches-run (Call.claim c now owner duration) db h = ground arith
batches-run (Call.recover c now) db h = ground arith
batches-run (Call.retry_failed c checked_at now id available_at) db h = ground arith
batches-run (Call.renew c k duration) db h = ground arith
batches-run (Call.release c k) db h = ground arith
batches-run (Call.schedule_retry c k available_at d) db h = ground arith
batches-run (Call.complete c k) db h = ground arith
batches-run (Call.fail c k d) db h = ground arith
batches-run (Call.ensure_batches c k now ranges dpi format) db h = absurd (ground arith)
batches-run (Call.list_batches c k) db h = ground arith
batches-run (Call.checkpoint_batch c k r dpi format text) db h = absurd (ground arith)
batches-run (Call.acquire c k token duration) db h = ground arith
batches-run (Call.finalization_state c k token) db h = ground arith
batches-run (Call.renew_finalization c k token duration) db h = ground arith
batches-run (Call.advance c k token from to) db h = ground arith
batches-run (Call.set_dispatch c k token from to) db h = ground arith
batches-run (Call.record_failure c k d) db h = ground arith
batches-run (Call.success_started c k) db h = ground arith
batches-run (Call.terminal_failure c k) db h = ground arith
