-- ===== src/Finalize/Process.antt =====
-- Process and FailOCR of internal/finalize/finalize.go, with process and failOCR. A nil context is
-- not modelled, and the token is an argument: `none` where it cannot be made.
use paperless_ai_ocr.Prelude.{
  ℕ, ◌+◌, String, inr, Bool, true, false, not, ◌&&◌, ◌||◌, Option, none, some, str_eq, ◌==◌,
  if◌then◌else◌,
}
use paperless_ai_ocr.Text.{blank}
use paperless_ai_ocr.Saferr.{
  Category, configuration, paperless, provider, validation, rendering, internal, failure, new, wrap,
}
use paperless_ai_ocr.Queue.Model.{
  FinalizationStage, content_updated, complete_tag_added, failed_tag_removed, metadata_dispatched,
  failure_pending, failure_tag_added, reserved, FinalizationState, SafeDiagnostic, Job,
  is_processing,
}
use paperless_ai_ocr.Queue.Transitions
use paperless_ai_ocr.Queue.Finalizing.{same_stage, same_dispatch}
use paperless_ai_ocr.Finalize.World.{
  Failure, ambiguous_dispatch_error, source_changed, Document, Env, Exec, ◌>>=◌, ◌>>◌, give, stop,
  ask, stored,
}
use paperless_ai_ocr.Finalize.Steps.{
  owner_of, safe_error, safe_document_id, complete_tag_name, failed_tag_name, renew_lease, renew,
  acquire, advance, content_stage, tag_stage, dispatch_stage, stop_heartbeat,
}

-- Result of internal/worker/worker.go, which the finalizer takes
pub record WorkerResult : Type 0 where
  pub job_id : ℕ
  pub document_id : ℕ
  pub source_checksum : String
  pub content : String

-- validateJob
unfoldable pub valid_job : Job → Bool
valid_job job =
    not (job.id == 0)
    && not (job.document_id == 0)
    && not (job.attempts == 0)
    && is_processing job.state
    && not (blank (owner_of job.lease_owner))

-- validateSuccessInput, for a valid job
unfoldable pub matches : Job → WorkerResult → Bool
matches job result =
    result.job_id == job.id
    && result.document_id == job.document_id
    && str_eq result.source_checksum job.source_checksum
    && not (blank result.source_checksum)
    && not (blank result.content)

abbrev pub valid_failure_category : Option Category → Bool
valid_failure_category none = false
valid_failure_category (some configuration) = true
valid_failure_category (some paperless) = true
valid_failure_category (some provider) = true
valid_failure_category (some validation) = true
valid_failure_category (some rendering) = true
valid_failure_category (some internal) = true
valid_failure_category (some (Category.other text)) = false

-- the diagnostic that failOCR finds, or `none` where it is missing
abbrev pub intent : Option Category → Option String → Option SafeDiagnostic
intent (some c) (some message) =
    if not (valid_failure_category (some c)) || blank message
    then none
    else some (record { category = c; message = message })
intent _ _ = none

abbrev pub failed_diagnostic : String
failed_diagnostic = "OCR processing failed"

abbrev pub uncertain_dispatch_diagnostic : String
uncertain_dispatch_diagnostic = "Paperless AI dispatch outcome is uncertain"

abbrev pub source_changed_error : Failure
source_changed_error =
    source_changed (wrap validation "source document changed before finalization" failure)

module _ (env : Env) (job : Job) where
  -- complete
  unfoldable pub complete : Exec (Unit {0})
  complete =
      stored env safe_error
        λ conn now. Transitions.complete conn now job.id job.attempts (owner_of job.lease_owner)

  -- fail and failTerminal
  unfoldable pub fail : SafeDiagnostic → Exec (Unit {0})
  fail d =
      stored env safe_error
        λ conn now. Transitions.fail conn now job.id job.attempts (owner_of job.lease_owner) d

  -- retry
  unfoldable pub retry_later : ℕ → Exec (Unit {0})
  retry_later delay = do
    instant ← ask (λ n. inr (env.now n))
    stored env safe_error λ conn now.
        Transitions.schedule_retry conn now job.id job.attempts (owner_of job.lease_owner)
          (instant + delay)
          (record { category = internal; message = "OCR finalization interrupted" })

module _ (env : Env) (lease : ℕ) (job : Job) where
  -- process, from the document on
  unfoldable pub finalize_document :
      String → WorkerResult → FinalizationState → ℕ → Document → Exec (Unit {0})
  unfolding content_stage tag_stage dispatch_stage renew stop_heartbeat complete
  finalize_document token result state document_id document =
      if not (document.id == document_id) || not (str_eq document.checksum result.source_checksum)
      then stop source_changed_error
      else (do
        written ← content_stage env lease job token document_id document result.content state.stage
        tagged ←
            tag_stage env lease job token document_id content_updated complete_tag_added
              complete_tag_name true written
        cleared ←
            tag_stage env lease job token document_id complete_tag_added failed_tag_removed
              failed_tag_name false tagged
        sent ← dispatch_stage env lease job token document_id state.dispatch cleared
        if not (same_stage sent metadata_dispatched)
            then stop (safe_error (new validation "invalid success finalization checkpoint"))
            else (do renew env lease job token; stop_heartbeat env; complete env job))

  -- process
  unfoldable pub process : String → WorkerResult → Exec (Unit {0})
  unfolding renew_lease acquire renew finalize_document
  process token result = do
    renew_lease env lease job
    state ← acquire env lease job token
    if same_dispatch state.dispatch reserved then stop ambiguous_dispatch_error else (do
      document_id ← safe_document_id job.document_id
      renew env lease job token
      document ← ask env.document
      finalize_document token result state document_id document)

  -- failOCR, from its diagnostic on
  unfoldable pub fail_with : String → FinalizationStage → Option SafeDiagnostic → Exec (Unit {0})
  unfolding advance tag_stage renew stop_heartbeat fail
  fail_with token stage none =
      stop (safe_error (new validation "terminal OCR failure intent is missing"))
  fail_with token stage (some d) = do
    document_id ← safe_document_id job.document_id
    begun ←
        (if same_stage stage FinalizationStage.pending
          then (do advance env lease job token stage failure_pending; give failure_pending)
          else give stage)
    tagged ←
        tag_stage env lease job token document_id failure_pending failure_tag_added failed_tag_name
          true begun
    if not (same_stage tagged failure_tag_added)
        then stop (safe_error (new validation "invalid failure finalization checkpoint"))
        else (do renew env lease job token; stop_heartbeat env; fail env job d)

  -- failOCR
  unfoldable pub fail_ocr : String → Exec (Unit {0})
  unfolding renew_lease acquire fail_with
  fail_ocr token = do
    renew_lease env lease job
    state ← acquire env lease job token
    fail_with token state.stage (intent state.failure_category state.failure_message)
