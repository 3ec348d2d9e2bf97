-- ===== src/Queue/Jobs/Untouched.antt =====
-- The calls of internal/queue/queue.go that have nothing to do with the table of jobs.
use paperless_ai_ocr.Prelude.{ℕ, String, ◌≡◌, List, arith}
use paperless_ai_ocr.Queue.Model.{
  FinalizationStage, DispatchState, Priority, SafeDiagnostic, BatchRange, Db,
}
use paperless_ai_ocr.Queue.Transaction.{Conn, write_context}
use paperless_ai_ocr.Queue.Candidates.{enqueue_candidate, discard_candidate}
use paperless_ai_ocr.Queue.Batches.{ensure_batches, list_batches_context, checkpoint_batch}
use paperless_ai_ocr.Queue.Finalizing.{
  acquire_finalization, finalization_state, renew_finalization, advance_finalization,
  set_dispatch_state,
}
use paperless_ai_ocr.Queue.Failures.{
  record_terminal_failure, success_finalization_started, terminal_failure,
}

pub jobs-enqueue_candidate :
    (conn : Conn) (now document_id : ℕ) (priority : Priority) (db : Db)
    → (enqueue_candidate conn now document_id priority db).1.jobs ≡ db.jobs
unfolding enqueue_candidate write_context
jobs-enqueue_candidate conn now document_id priority db = ground arith

pub jobs-discard_candidate :
    (conn : Conn) (document_id generation : ℕ) (db : Db)
    → (discard_candidate conn document_id generation db).1.jobs ≡ db.jobs
unfolding discard_candidate write_context
jobs-discard_candidate conn document_id generation db = ground arith

module _ (conn : Conn) (now id attempt : ℕ) (owner : String) (db : Db) where
  pub jobs-list_batches : (list_batches_context conn now id attempt owner db).1.jobs ≡ db.jobs
  unfolding list_batches_context write_context
  jobs-list_batches = ground arith

  pub jobs-success_finalization_started :
      (success_finalization_started conn now id attempt owner db).1.jobs ≡ db.jobs
  unfolding success_finalization_started write_context
  jobs-success_finalization_started = ground arith

  pub jobs-terminal_failure : (terminal_failure conn now id attempt owner db).1.jobs ≡ db.jobs
  unfolding terminal_failure write_context
  jobs-terminal_failure = ground arith

  pub jobs-record_terminal_failure :
      (d : SafeDiagnostic)
      → (record_terminal_failure conn now id attempt owner d db).1.jobs ≡ db.jobs
  unfolding record_terminal_failure write_context
  jobs-record_terminal_failure d = ground arith

  pub jobs-checkpoint_batch :
      (r : BatchRange) (dpi : ℕ) (format text : String)
      → (checkpoint_batch conn now id attempt owner r dpi format text db).1.jobs ≡ db.jobs
  unfolding checkpoint_batch write_context
  jobs-checkpoint_batch r dpi format text = ground arith

  pub jobs-acquire_finalization :
      (token : String) (duration : ℕ)
      → (acquire_finalization conn now id attempt owner token duration db).1.jobs ≡ db.jobs
  unfolding acquire_finalization write_context
  jobs-acquire_finalization token duration = ground arith

  pub jobs-finalization_state :
      (token : String) → (finalization_state conn now id attempt owner token db).1.jobs ≡ db.jobs
  unfolding finalization_state write_context
  jobs-finalization_state token = ground arith

  pub jobs-renew_finalization :
      (token : String) (duration : ℕ)
      → (renew_finalization conn now id attempt owner token duration db).1.jobs ≡ db.jobs
  unfolding renew_finalization write_context
  jobs-renew_finalization token duration = ground arith

  pub jobs-advance_finalization :
      (token : String) (from to : FinalizationStage)
      → (advance_finalization conn now id attempt owner token from to db).1.jobs ≡ db.jobs
  unfolding advance_finalization write_context
  jobs-advance_finalization token from to = ground arith

  pub jobs-set_dispatch_state :
      (token : String) (from to : DispatchState)
      → (set_dispatch_state conn now id attempt owner token from to db).1.jobs ≡ db.jobs
  unfolding set_dispatch_state write_context
  jobs-set_dispatch_state token from to = ground arith

  pub jobs-ensure_batches :
      (now' : ℕ) (ranges : List BatchRange) (dpi : ℕ) (format : String)
      → (ensure_batches conn now now' id attempt owner ranges dpi format db).1.jobs ≡ db.jobs
  unfolding ensure_batches write_context
  jobs-ensure_batches now' ranges dpi format = ground arith
