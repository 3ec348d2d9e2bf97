-- ===== src/Queue/Transitions.antt =====
-- The transitions out of a claim, and the manual retry (internal/queue/queue.go):
-- ScheduleRetryContext, CompleteContext, FailContext, RetryFailed.
use paperless_ai_ocr.Prelude.{
  ℕ, ◌+◌, String, Bool, not, ◌&&◌, ◌||◌, Option, none, some, List, str_eq, ltb, ◌==◌, if◌then◌else◌,
  count_where, find_where,
}
use paperless_ai_ocr.Saferr.{Cause, Result, err, reject_if, ◌>>◌}
use paperless_ai_ocr.Queue.Model.{State, SafeDiagnostic, Job, Db, is_current, is_failed}
use paperless_ai_ocr.Queue.Valid.{validation_error, valid_diagnostic}
use paperless_ai_ocr.Queue.Transaction.{Conn, carried, write_context}
use paperless_ai_ocr.Queue.Leases.{holds_lease, invalid_claim_key, retried, update_job}

-- ScheduleRetryContext
unfoldable pub schedule_retry :
    Conn → ℕ → ℕ → ℕ → String → ℕ → SafeDiagnostic → Db → Result (Unit {0}) × Db
unfolding update_job
schedule_retry conn now id attempt owner available_at diagnostic db =
    if invalid_claim_key id attempt owner || not (valid_diagnostic diagnostic)
    then (err (validation_error "invalid retry input"), db)
    else write_context conn
        (λ d.
          if not (ltb now available_at)
          then err (validation_error "invalid retry input")
          else update_job conn.statement (holds_lease now id attempt owner)
              (retried now available_at diagnostic) d)
        db

-- UPDATE jobs SET state = 'completed', lease_owner = NULL, …
abbrev pub completed_at_now : ℕ → Job → Job
completed_at_now now r = record r {
  state = State.completed;
  lease_owner = none;
  lease_expires_at = none;
  error_category = none;
  error_message = none;
  completed_at = some now;
  updated_at = now;
}

-- CompleteContext
unfoldable pub complete : Conn → ℕ → ℕ → ℕ → String → Db → Result (Unit {0}) × Db
unfolding update_job
complete conn now id attempt owner db =
    if invalid_claim_key id attempt owner
    then (err (validation_error "invalid completion input"), db)
    else write_context conn
        (update_job conn.statement (holds_lease now id attempt owner) (completed_at_now now)) db

-- UPDATE jobs SET state = 'failed', lease_owner = NULL, …
abbrev pub failed_at_now : ℕ → SafeDiagnostic → Job → Job
failed_at_now now diagnostic r = record r {
  state = State.failed;
  lease_owner = none;
  lease_expires_at = none;
  error_category = some diagnostic.category;
  error_message = some diagnostic.message;
  completed_at = some now;
  updated_at = now;
}

-- FailContext
unfoldable pub fail : Conn → ℕ → ℕ → ℕ → String → SafeDiagnostic → Db → Result (Unit {0}) × Db
unfolding update_job
fail conn now id attempt owner diagnostic db =
    if invalid_claim_key id attempt owner || not (valid_diagnostic diagnostic)
    then (err (validation_error "invalid failure input"), db)
    else write_context conn
        (update_job conn.statement (holds_lease now id attempt owner)
          (failed_at_now now diagnostic))
        db

-- the join of RetryFailed: `current` is other current work of the source of `f`.
abbrev pub conflicts : Job → Job → Bool
conflicts f r =
    not (r.id == f.id)
    && r.document_id == f.document_id
    && str_eq r.source_checksum f.source_checksum
    && is_current r.state

-- the number of rows of the join; `id` is the primary key, so at most one row is `failed`.
abbrev pub conflict_count : List Job → Option Job → ℕ
conflict_count jobs none = 0
conflict_count jobs (some f) = count_where (conflicts f) jobs

-- UPDATE jobs SET state = 'retry', available_at = ?, … completed_at = NULL
abbrev pub requeued : ℕ → ℕ → Job → Job
requeued now available_at r = record r {
  state = State.retry;
  available_at = available_at;
  lease_owner = none;
  lease_expires_at = none;
  error_category = none;
  error_message = none;
  completed_at = none;
  updated_at = now;
}

-- the transaction of RetryFailed
unfoldable pub retry_failed_body : (ℕ → Option Cause) → ℕ → ℕ → ℕ → Db → Result (Unit {0} × Db)
unfolding update_job
retry_failed_body io now id available_at db = do
  carried (io 0) "cannot inspect failed job retry"
  reject_if (not (conflict_count db.jobs (find_where (λ r. r.id == id) db.jobs) == 0))
      (validation_error "current work already exists for failed job")
  update_job (λ k. io (k + 1)) (λ r. r.id == id && is_failed r.state) (requeued now available_at) db

-- RetryFailed reads the clock for the check of its input and again for the row.
unfoldable pub retry_failed : Conn → ℕ → ℕ → ℕ → ℕ → Db → Result (Unit {0}) × Db
unfolding retry_failed_body
retry_failed conn checked_at now id available_at db =
    if id == 0 || not (ltb checked_at available_at)
    then (err (validation_error "invalid failed retry input"), db)
    else write_context conn (retry_failed_body conn.statement now id available_at) db
