-- ===== src/Worker/Steps.antt =====
-- The steps of process of internal/worker/worker.go: renew, transcribe, checkpoint, the rendering of
-- a range of pages, and the loops over the checkpoints.
use paperless_ai_ocr.Prelude.{
  ℕ, suc, String, Bool, false, not, ◌||◌, Option, none, some, List, [], ◌∷◌, ltb, ◌==◌,
  if◌then◌else◌,
}
use paperless_ai_ocr.Text.{blank}
use paperless_ai_ocr.Saferr.{validation, rendering, new, Result, ok, err}
use paperless_ai_ocr.Queue.Model.{is_completed, Job, BatchRange, Batch}
use paperless_ai_ocr.Queue.Leases
use paperless_ai_ocr.Queue.Batches
use paperless_ai_ocr.Finalize.World.{other}
use paperless_ai_ocr.Ocr.Bytes.{Bytes}
use paperless_ai_ocr.Ocr.Meta.{Unicode}
use paperless_ai_ocr.Ocr.Model as Model
use paperless_ai_ocr.Ocr.Validate.{JsonReader}
use paperless_ai_ocr.Ocr.Canonical.{validate_canonical}
use paperless_ai_ocr.Worker.Plan.{Capability}
use paperless_ai_ocr.Worker.Transcribe.{
  Ending, raw, interrupted, refused, Session, owner_of, request_transcription,
}
use paperless_ai_ocr.Worker.World.{
  Failure, lost_lease, panicked, reconstruction, foreign, RenderedPage, Env, World, Exec, ◌>>=◌,
  ◌>>◌, give, stop, ask, check_context, stored, safe_error, checked,
}

-- What New of the worker is given, as far as a run reads it, with the injected functions: `text` and
-- `bytes` are string(canonical) and []byte(text), `falls_back` is Unsupported or ProviderTimeout of
-- an error, `eligible` is aigate.DirectPDFEligible.
pub record Options : Type 0 where
  pub model : String
  pub prompt_version : String
  pub batch_size : ℕ
  pub render_dpi : ℕ
  pub model_attempts : ℕ
  pub lease : ℕ
  pub retry_delay : ℕ
  pub capability : Capability
  pub unicode : Unicode
  pub json : JsonReader
  pub text : Bytes → String
  pub bytes : String → Bytes
  pub falls_back : Failure → Bool
  pub eligible : ℕ → Bytes → Bool

abbrev pub render_format : String
render_format = "png"

abbrev pub max_page_bytes : ℕ
max_page_bytes = 8_388_608

-- the checks of the rendered pages, from a number on
unfoldable pub accept_rendered : ℕ → List RenderedPage → Result (Unit {0})
accept_rendered number [] = ok tt
accept_rendered number (page ∷ pages) =
    let rest = accept_rendered (suc number) pages in
    if not (page.number == number) || page.size == 0 || ltb max_page_bytes page.size
    then err (new rendering "rendered page output exceeded limits")
    else if not page.readable
    then err (new rendering "rendered page output could not be read safely")
    else rest

abbrev pub incomplete : Failure
incomplete = reconstruction (new validation "durable OCR checkpoints are incomplete")

-- the text of a checkpoint, where NULL reads as the empty string
abbrev pub text_of : Option String → String
text_of none = ""
text_of (some text) = text

module _ (o : Options) (env : Env) (job : Job) where
  -- renew
  unfoldable pub renew : Exec (Unit {0})
  renew =
      check_context env
      >> stored env (λ _. lost_lease)
          (λ conn now db.
            Leases.renew_lease conn now job.id job.attempts (owner_of job.lease_owner) o.lease db)

  -- what follows the loop of transcribe
  unfoldable pub validated : BatchRange → Ending → Exec (Model.Batch × Bytes)
  validated r (raw text) =
      check_context env
      >> checked (validate_canonical o.unicode o.json (o.bytes text) r.first_page r.last_page)
  validated r Ending.lost_lease = stop lost_lease
  validated r (interrupted cause) = stop (foreign (other cause))
  validated r (refused e) = stop (safe_error e)

  abbrev pub from_session : World → BatchRange → Session → World
  from_session w r s = record w { step = suc w.step; db = s.db; asked = r ∷ w.asked }

  -- transcribe
  unfoldable pub transcribe : BatchRange → Bool → Exec (Model.Batch × Bytes)
  unfolding validated
  transcribe r stop_on_timeout w =
      let ended =
        request_transcription (env.attempts w.step) o.lease job stop_on_timeout o.model_attempts 1
          (record { db = w.db; requests = []; waits = [] }) in
      validated r ended.0 (from_session w r ended.1)

  -- checkpoint
  unfoldable pub checkpoint : BatchRange → Bytes → Exec (Unit {0})
  unfolding renew
  checkpoint r canonical =
      renew
      >> stored env safe_error (λ conn now db.
        Batches.checkpoint_batch conn now job.id job.attempts (owner_of job.lease_owner) r
          o.render_dpi render_format (o.text canonical) db)

  -- transcribeAndCheckpoint
  unfoldable pub transcribe_and_checkpoint : BatchRange → Exec Model.Batch
  unfolding transcribe checkpoint
  transcribe_and_checkpoint r =
      transcribe r false >>= λ answer. checkpoint r answer.1 >> give answer.0

  -- renderTranscribeAndCheckpoint: the renderer hands the pages over, and cleans up afterwards
  unfoldable pub render_transcribe_and_checkpoint : BatchRange → Exec Model.Batch
  unfolding renew transcribe_and_checkpoint
  render_transcribe_and_checkpoint r = ask env.rendered >>= λ pages.
      renew
      >> (checked (accept_rendered r.first_page pages) >> transcribe_and_checkpoint r)
      >>= λ batch. ask env.workspace >> give batch

  -- a checkpoint that is kept, validated again
  unfoldable pub kept : Batch → Exec Model.Batch
  kept c =
      checked (
        validate_canonical o.unicode o.json (o.bytes (text_of c.result_text)) c.first_page
          c.last_page)
      >>= λ answer. give answer.0

  -- one round of the loop of process
  unfoldable pub batch_of : Batch → BatchRange → Exec Model.Batch
  unfolding kept renew render_transcribe_and_checkpoint
  batch_of c r =
      if is_completed c.state then kept c else (renew >> render_transcribe_and_checkpoint r)

  -- one round where no range stands at the place of the checkpoint
  unfoldable pub batch_beyond : Batch → Exec Model.Batch
  unfolding kept renew
  batch_beyond c = if is_completed c.state then kept c else (renew >> stop panicked)

  -- the loop over the checkpoints, and the ranges at the same places
  unfoldable pub process_batches : List Batch → List BatchRange → Exec (List Model.Batch)
  process_batches [] rs = give []
  process_batches (c ∷ cs) [] =
      batch_beyond c >>= λ batch. process_batches cs [] >>= λ batches. give (batch ∷ batches)
  process_batches (c ∷ cs) (r ∷ rs) =
      batch_of c r >>= λ batch. process_batches cs rs >>= λ batches. give (batch ∷ batches)

  abbrev pub restored : Result (Model.Batch × Bytes) → Exec Model.Batch
  restored (err e) = stop incomplete
  restored (ok answer) = give answer.0

  -- one round of the loop of reconstructResult
  unfoldable pub restore : Batch → Exec Model.Batch
  restore c =
      if not (c.job_id == job.id) || not (is_completed c.state) || blank (text_of c.result_text)
      then stop incomplete
      else restored (
          validate_canonical o.unicode o.json (o.bytes (text_of c.result_text)) c.first_page
            c.last_page)

  unfoldable pub restore_batches : List Batch → Exec (List Model.Batch)
  unfolding restore
  restore_batches [] = give []
  restore_batches (c ∷ cs) =
      restore c >>= λ batch. restore_batches cs >>= λ batches. give (batch ∷ batches)
