-- ===== src/Queue/Jobs/Step.antt =====
-- The abstract queue: the ways in which one call of internal/queue/queue.go may change the table
-- of jobs.
use paperless_ai_ocr.Prelude.{
  ℕ, ◌<◌, String, ◌≡◌, true, ◌&&◌, some, List, [], ◌∷◌, ◌++◌, ◌==◌, count_where, select_where,
  update_where, find_where, first_by,
}
use paperless_ai_ocr.Queue.Model.{
  EnqueueInput, SafeDiagnostic, Job, is_processing, is_waiting, is_failed,
}
use paperless_ai_ocr.Queue.Enqueue.{enqueue_before, jobs_of, new_job, next_id, promoted}
use paperless_ai_ocr.Queue.Leases.{
  is_due, claim_before, claimed, holds_lease, renewed, retried, has_expired, lease_expired,
}
use paperless_ai_ocr.Queue.Transitions.{completed_at_now, failed_at_now, requeued, conflicts}

pub data JobsStep (js : List Job) : List Job → Type 0 where
  -- nothing changes
  same : JobsStep js js
  -- a job for a source that has none
  create :
      (now : ℕ) (input : EnqueueInput)
      → jobs_of input js ≡ []
      → JobsStep js (js ++ new_job (next_id js) now input ∷ [])
  -- a waiting job, the first of its source, rises in priority
  promote :
      (now : ℕ) (input : EnqueueInput) (job : Job)
      → first_by enqueue_before (jobs_of input js) ≡ some job
      → is_waiting job.state ≡ true
      → job.priority < input.priority
      → JobsStep js (update_where (λ r. r.id == job.id) (promoted input.priority now) js)
  -- the first job that is due is leased, where no job is
  take :
      (now : ℕ) (owner : String) (duration : ℕ) (job : Job)
      → count_where (λ r. is_processing r.state) js ≡ 0
      → first_by claim_before (select_where (is_due now) js) ≡ some job
      → JobsStep js
          (update_where (λ r. r.id == job.id && is_due now r) (claimed now owner duration) js)
  -- the holder of a lease that has not expired extends it
  renew :
      (now id attempt : ℕ) (owner : String) (duration : ℕ)
      → JobsStep js (update_where (holds_lease now id attempt owner) (renewed now duration) js)
  -- the holder gives the job back
  give_back :
      (now id attempt : ℕ) (owner : String) (available_at : ℕ) (d : SafeDiagnostic)
      → JobsStep js
          (update_where (holds_lease now id attempt owner) (retried now available_at d) js)
  -- the holder completes the job
  complete :
      (now id attempt : ℕ) (owner : String)
      → JobsStep js (update_where (holds_lease now id attempt owner) (completed_at_now now) js)
  -- the holder fails the job
  fail :
      (now id attempt : ℕ) (owner : String) (d : SafeDiagnostic)
      → JobsStep js (update_where (holds_lease now id attempt owner) (failed_at_now now d) js)
  -- jobs whose lease has expired wait again
  recover :
      (now : ℕ) → JobsStep js (update_where (has_expired now) (retried now now lease_expired) js)
  -- a failed job waits again, where no other job of its source is current
  requeue :
      (now id available_at : ℕ) (f : Job)
      → find_where (λ r. r.id == id) js ≡ some f
      → count_where (conflicts f) js ≡ 0
      → JobsStep js
          (update_where (λ r. r.id == id && is_failed r.state) (requeued now available_at) js)
