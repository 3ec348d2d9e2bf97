-- ===== src/Worker/Process.antt =====
-- process, reconstructResult and Process of internal/worker/worker.go.
use paperless_ai_ocr.Prelude.{
  ℕ, String, ◌⊎◌, inl, inr, Bool, true, false, not, ◌||◌, Option, none, some, List, [], ◌∷◌, str_eq,
  leb, ◌==◌, length, if◌then◌else◌, holds,
}
use paperless_ai_ocr.Text.{blank}
use paperless_ai_ocr.Saferr.{
  validation, internal, Cause, canceled, deadline_exceeded, failure, Error, new, Result, ok, err,
}
use paperless_ai_ocr.Queue.Model.{is_processing, Job, BatchRange, Batch, SafeDiagnostic}
use paperless_ai_ocr.Queue.Batches
use paperless_ai_ocr.Queue.Failures
use paperless_ai_ocr.Finalize.World.{Foreign, safe, other, Document}
use paperless_ai_ocr.Ocr.Bytes.{Bytes}
use paperless_ai_ocr.Ocr.Model as Model
use paperless_ai_ocr.Ocr.Join.{join}
use paperless_ai_ocr.Worker.Plan.{Capability, direct_pdf, page_images, plan_ranges}
use paperless_ai_ocr.Worker.Transcribe.{owner_of}
use paperless_ai_ocr.Worker.World.{
  Failure, lost_lease, panicked, reconstruction, foreign, Env, Exec, ◌>>=◌, ◌>>◌, give, stop, ask,
  caught, stored, safe_error, checked,
}
use paperless_ai_ocr.Worker.Steps.{
  Options, render_format, incomplete, renew, transcribe, checkpoint, process_batches,
  restore_batches,
}

-- Result
pub record Produced : Type 0 where
  pub job_id : ℕ
  pub document_id : ℕ
  pub source_checksum : String
  pub download_sha256 : String
  pub content : Bytes

abbrev pub invalid : String → Failure
invalid message = safe_error (new validation message)

-- A job that was claimed; a number that is not positive is 0.
unfoldable pub claimed_job : Job → Bool
claimed_job job = not (
    job.id == 0
    || job.document_id == 0
    || job.attempts == 0
    || not (is_processing job.state)
    || blank (owner_of job.lease_owner))

-- safeDocumentID: a number that is positive fits
abbrev pub safe_document_id : ℕ → Exec ℕ
safe_document_id id =
    if id == 0 then stop (invalid "document ID is outside supported range") else give id

-- publicError and category
abbrev pub public_error : Foreign → Error
public_error (safe e) = e
public_error (other cause) = new internal "OCR processing failed"

abbrev interrupts : Cause → Bool
interrupts canceled = true
interrupts deadline_exceeded = true
interrupts failure = false

-- errors.Is for context.Canceled or context.DeadlineExceeded
abbrev pub is_interruption : Failure → Bool
is_interruption lost_lease = false
is_interruption panicked = false
is_interruption (reconstruction e) = false
is_interruption (foreign (safe e)) = holds interrupts e.cause
is_interruption (foreign (other cause)) = interrupts cause

-- the plan that the loop of planRanges ends with
abbrev pub planned : Option (List BatchRange) → Exec (List BatchRange)
planned none = stop panicked
planned (some ranges) = give ranges

module _ (o : Options) (env : Env) (job : Job) where
  abbrev owner : String
  owner = owner_of job.lease_owner

  abbrev produced : String → Bytes → Produced
  produced digest content = record {
    job_id = job.id;
    document_id = job.document_id;
    source_checksum = job.source_checksum;
    download_sha256 = digest;
    content = content;
  }

  abbrev pub reconstructed : Result Bytes → Exec Produced
  reconstructed (err e) = stop incomplete
  reconstructed (ok content) = give (produced "" content)

  -- reconstructResult
  unfoldable pub reconstruct_result : Exec Produced
  reconstruct_result =
      stored env reconstruction
        (λ conn now db. Batches.list_batches_context conn now job.id job.attempts owner db)
      >>= λ checkpoints.
          if length checkpoints == 0
          then stop incomplete
          else (restore_batches o env job checkpoints >>= λ batches.
              reconstructed (join o.unicode batches))

  -- EnsureBatchesContext, which reads its clock twice
  unfoldable pub ensure : List BatchRange → Exec (List Batch)
  ensure ranges w =
      stored env safe_error
        (λ conn now db.
          Batches.ensure_batches conn now (env.worker_now w.step) job.id job.attempts owner ranges
            o.render_dpi render_format db)
        w

  -- the part of process for page images
  unfoldable pub by_images : ℕ → Exec Bytes
  unfolding ensure
  by_images pages = checked (plan_ranges pages o.batch_size page_images) >>= λ plan.
      planned plan >>= λ ranges. ensure ranges >>= λ checkpoints.
      process_batches o env job checkpoints ranges >>= λ batches.
      checked (join o.unicode batches) >>= λ content. renew o env job >> give content

  unfoldable pub after_direct : ℕ → BatchRange → Failure ⊎ (Model.Batch × Bytes) → Exec Bytes
  unfolding by_images ensure
  after_direct pages r (inl f) = if o.falls_back f then by_images pages else stop f
  after_direct pages r (inr answer) = ensure (r ∷ []) >>= λ _.
      checkpoint o env job r answer.1 >> checked (join o.unicode (answer.0 ∷ []))

  -- the part of process for the whole document in one request
  unfoldable pub directly : ℕ → Exec Bytes
  unfolding after_direct
  directly pages =
      let r : BatchRange = record { first_page = 1; last_page = pages } in
      caught (transcribe o env job r true) >>= λ result. after_direct pages r result

  -- which of the two: the capability as process narrows it
  unfoldable pub content_of : Capability → ℕ → Exec Bytes
  unfolding directly by_images
  content_of page_images pages = by_images pages
  content_of direct_pdf pages =
      if leb pages 5
      then (ask env.source >>= λ pdf.
          if o.eligible pages pdf then directly pages else by_images pages)
      else by_images pages

  -- what process does in the workspace, which is closed in any case
  unfoldable pub in_workspace : ℕ → Exec Produced
  unfolding content_of
  in_workspace document_id =
      ask env.workspace
      >> (ask env.download >>= λ digest.
          ask env.workspace
          >> (renew o env job
              >> (ask env.pages >>= λ pages.
                  renew o env job >> content_of o.capability pages >>= λ content.
                  give (produced digest content))))

  -- the deferred Close: its error counts where there is none yet
  unfoldable pub closing : Exec Produced → Exec Produced
  closing m = m >>= λ result. ask env.workspace >> give result

  unfoldable pub same_source : ℕ → Document → Exec (Unit {0})
  same_source document_id document =
      if not (document.id == document_id) || not (str_eq document.checksum job.source_checksum)
      then stop (invalid "source document changed before OCR")
      else give tt

  unfoldable pub fresh : Exec Produced
  unfolding in_workspace closing same_source
  fresh = safe_document_id job.document_id >>= λ document_id.
      renew o env job
      >> (ask env.document >>= λ document.
          renew o env job
          >> (same_source document_id document
              >> (ask env.workspace >> closing (in_workspace document_id))))

  -- a terminal failure that was recorded before ends the run with it
  abbrev known : Option SafeDiagnostic → Exec (Unit {0})
  known none = give tt
  known (some d) = stop (safe_error (new d.category d.message))

  abbrev resumed : Bool → Exec Produced
  resumed started = if started then reconstruct_result else fresh

  -- process past its checks of the job
  unfoldable pub resume : Exec Produced
  unfolding reconstruct_result fresh
  resume =
      stored env safe_error
        (λ conn now db. Failures.terminal_failure conn now job.id job.attempts owner db)
      >>= λ diagnostic.
          known diagnostic
          >> (stored env safe_error (λ conn now db.
                Failures.success_finalization_started conn now job.id job.attempts owner db)
              >>= resumed)

  -- process
  unfoldable pub process : Exec Produced
  unfolding resume
  process =
      if not (claimed_job job)
      then stop (invalid "invalid claimed job")
      else if not (str_eq job.model o.model) || not (str_eq job.prompt_version o.prompt_version)
      then stop (invalid "job processing contract does not match worker")
      else resume
