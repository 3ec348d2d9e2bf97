-- ===== src/Queue/Failures.antt =====
-- The terminal OCR failure of internal/queue/queue.go: RecordTerminalFailureContext,
-- SuccessFinalizationStartedContext, TerminalFailureContext.
use paperless_ai_ocr.Prelude.{
  ℕ, String, Bool, false, not, ◌&&◌, ◌||◌, Option, none, some, List, [], ◌∷◌, ◌++◌, ◌==◌,
  if◌then◌else◌, count_where, update_where,
}
use paperless_ai_ocr.Saferr.{Category, Cause, Result, ok, err, ◌>>=◌, ◌>>◌}
use paperless_ai_ocr.Queue.Model.{
  FinalizationStage, failure_pending, failure_tag_added, SafeDiagnostic, Finalization, Control, Db,
}
use paperless_ai_ocr.Queue.Valid.{validation_error, valid_diagnostic}
use paperless_ai_ocr.Queue.Transaction.{Conn, carried, write_context}
use paperless_ai_ocr.Queue.Leases.{require_active_lease, invalid_claim_key}
use paperless_ai_ocr.Queue.Finalizing.{
  finalization_of, control_of, at_stage, moved_to, same_stage, new_control,
}

abbrev pub diagnosed : ℕ → SafeDiagnostic → Control → Control
diagnosed now diagnostic c = record c {
  failure_category = some diagnostic.category;
  failure_message = some diagnostic.message;
  updated_at = now;
}

-- INSERT … ON CONFLICT(job_id) DO UPDATE SET failure_category = …, failure_message = …
abbrev pub upsert_failure : ℕ → ℕ → SafeDiagnostic → List Control → List Control
upsert_failure id now diagnostic rows =
    if count_where (λ c. c.job_id == id) rows == 0
    then rows ++ diagnosed now diagnostic (new_control id now) ∷ []
    else update_where (λ c. c.job_id == id) (diagnosed now diagnostic) rows

-- the `switch` of RecordTerminalFailureContext
unfoldable pub record_stage :
    (ℕ → Option Cause)
    → ℕ
    → ℕ
    → List Finalization
    → Option Finalization
    → Result (List Finalization)
record_stage io now id rows none = do
  carried (io 2) "cannot record terminal OCR failure"
  ok (
      rows
      ++ record { job_id = id; stage = failure_pending; created_at = now; updated_at = now } ∷ [])
record_stage io now id rows (some f) =
    if same_stage f.stage FinalizationStage.pending
    then (do
      carried (io 2) "cannot record terminal OCR failure"
      ok (update_where (at_stage id FinalizationStage.pending) (moved_to failure_pending now) rows))
    else if not (same_stage f.stage failure_pending)
    then err (validation_error "success finalization already started")
    else ok rows

-- the transaction of RecordTerminalFailureContext
unfoldable pub record_failure_body :
    (ℕ → Option Cause) → ℕ → ℕ → ℕ → String → SafeDiagnostic → Db → Result (Unit {0} × Db)
unfolding require_active_lease record_stage
record_failure_body io now id attempt owner diagnostic db = do
  require_active_lease (io 0) now id attempt owner db.jobs
  carried (io 1) "cannot inspect terminal OCR failure transition"
  rows ← record_stage io now id db.finalizations (finalization_of id db.finalizations)
  carried (io 3) "cannot record terminal OCR failure"
  ok (
    tt,
    record db { finalizations = rows; controls = upsert_failure id now diagnostic db.controls },
  )

-- RecordTerminalFailureContext
unfoldable pub record_terminal_failure :
    Conn → ℕ → ℕ → ℕ → String → SafeDiagnostic → Db → Result (Unit {0}) × Db
unfolding record_failure_body
record_terminal_failure conn now id attempt owner diagnostic db =
    if invalid_claim_key id attempt owner || not (valid_diagnostic diagnostic)
    then (err (validation_error "invalid terminal OCR failure input"), db)
    else write_context conn (record_failure_body conn.statement now id attempt owner diagnostic) db

abbrev pub success_started : Option Finalization → Bool
success_started none = false
success_started (some f) =
    not (same_stage f.stage FinalizationStage.pending)
    && not (same_stage f.stage failure_pending)
    && not (same_stage f.stage failure_tag_added)

-- the transaction of SuccessFinalizationStartedContext
unfoldable pub success_started_body :
    (ℕ → Option Cause) → ℕ → ℕ → ℕ → String → Db → Result (Bool × Db)
unfolding require_active_lease
success_started_body io now id attempt owner db = do
  require_active_lease (io 0) now id attempt owner db.jobs
  carried (io 1) "cannot inspect success finalization state"
  ok (success_started (finalization_of id db.finalizations), db)

-- SuccessFinalizationStartedContext
unfoldable pub success_finalization_started : Conn → ℕ → ℕ → ℕ → String → Db → Result Bool × Db
unfolding success_started_body
success_finalization_started conn now id attempt owner db =
    if invalid_claim_key id attempt owner
    then (err (validation_error "invalid success finalization lookup"), db)
    else write_context conn (success_started_body conn.statement now id attempt owner) db

-- the diagnostic is found where both columns have a value
abbrev pub diagnostic_from : Option Category → Option String → Option SafeDiagnostic
diagnostic_from (some category) (some message) =
    some (record { category = category; message = message })
diagnostic_from (some category) none = none
diagnostic_from none message = none

abbrev pub diagnostic_of : Option Control → Option SafeDiagnostic
diagnostic_of none = none
diagnostic_of (some c) = diagnostic_from c.failure_category c.failure_message

-- the transaction of TerminalFailureContext
unfoldable pub terminal_failure_body :
    (ℕ → Option Cause) → ℕ → ℕ → ℕ → String → Db → Result (Option SafeDiagnostic × Db)
unfolding require_active_lease
terminal_failure_body io now id attempt owner db = do
  require_active_lease (io 0) now id attempt owner db.jobs
  carried (io 1) "cannot load terminal OCR failure"
  ok (diagnostic_of (control_of id db.controls), db)

-- TerminalFailureContext
unfoldable pub terminal_failure :
    Conn → ℕ → ℕ → ℕ → String → Db → Result (Option SafeDiagnostic) × Db
unfolding terminal_failure_body
terminal_failure conn now id attempt owner db =
    if invalid_claim_key id attempt owner
    then (err (validation_error "invalid terminal OCR failure lookup"), db)
    else write_context conn (terminal_failure_body conn.statement now id attempt owner) db
