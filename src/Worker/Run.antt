-- ===== src/Worker/Run.antt =====
-- Process of internal/worker/worker.go: the guard, the heartbeat, and what becomes of the job when a
-- run ends with an error.
use paperless_ai_ocr.Prelude.{
  ℕ, ◌+◌, ◌≤◌, ◌<◌, ◌≡◌, refl, sym, ap, ◌∙◌, inl, inr, Bool, true, false, if◌then◌else◌, Bool-cases,
}
use paperless_ai_ocr.Saferr.{Category, internal, new}
use paperless_ai_ocr.Finalize.World.{safe, other}
use paperless_ai_ocr.Worker.World.{
  Failure, lost_lease, panicked, reconstruction, foreign, Outcome, halted, done, Env, World, Exec,
  stored, safe_error,
}
use paperless_ai_ocr.Worker.Whole.{Covers, process-Covers}
use paperless_ai_ocr.Queue.Model.{Job, SafeDiagnostic}
use paperless_ai_ocr.Queue.Failures
use paperless_ai_ocr.Queue.Transitions
use paperless_ai_ocr.Worker.Transcribe.{owner_of}
use paperless_ai_ocr.Worker.Steps.{Options}
use paperless_ai_ocr.Worker.Process.{Produced, invalid, public_error, is_interruption, process}
use paperless_ai_ocr.Worker.Asked.{is_done, not_both}

abbrev pub retry_diagnostic : SafeDiagnostic
retry_diagnostic = record { category = internal; message = "OCR processing interrupted" }

-- the error of a transition as transitionError hides it, or the error of the run
abbrev pub transitioned : Failure → Outcome (Unit {0}) × World → Outcome Produced × World
transitioned f (done _, w) = (halted f, w)
transitioned f (halted (foreign (safe e)), w) =
    (halted (safe_error (new e.category "job state transition failed")), w)
transitioned f (halted _, w) = (halted (safe_error (new internal "job state transition failed")), w)

module _ (o : Options) (env : Env) (job : Job) where
  -- scheduleRetry
  unfoldable pub schedule_retry : Exec (Unit {0})
  schedule_retry w =
      stored env safe_error
        (λ conn now db.
          Transitions.schedule_retry conn now job.id job.attempts (owner_of job.lease_owner)
            (env.worker_now w.step + o.retry_delay) retry_diagnostic db)
        w

  -- recordTerminalFailure
  unfoldable pub record_terminal_failure : Category → Exec (Unit {0})
  record_terminal_failure category = stored env safe_error (λ conn now db.
      Failures.record_terminal_failure conn now job.id job.attempts (owner_of job.lease_owner)
        (record { category = category; message = "OCR processing failed" }) db)

  -- the errors that are no interruption
  unfoldable pub conclude : Failure → World → Outcome Produced × World
  unfolding record_terminal_failure
  conclude lost_lease w = (halted (invalid "active job lease was lost"), w)
  conclude panicked w = (halted panicked, w)
  conclude (reconstruction e) w = (halted (safe_error e), w)
  conclude (foreign f) w =
      transitioned (safe_error (public_error f))
        (record_terminal_failure (public_error f).category w)

  unfoldable pub after_process : Outcome Produced → World → Outcome Produced × World
  unfolding conclude schedule_retry
  after_process (done result) w = (done result, w)
  after_process (halted f) w =
      if is_interruption f then transitioned f (schedule_retry w) else conclude f w

  abbrev heartbeat : Bool → Outcome Produced → Outcome Produced
  heartbeat lost outcome = if lost then halted lost_lease else outcome

  -- Process: whether the worker is active already, and whether the heartbeat lost the lease
  unfoldable pub run : Bool → Bool → World → Outcome Produced × World
  unfolding after_process
  run active lost w =
      if active
      then (halted (invalid "worker is already processing a job"), w)
      else (let r = process o env job w in after_process (heartbeat lost r.0) r.1)

-- A transition is made after an error only.
transitioned-error :
    (f : Failure) (p : Outcome (Unit {0}) × World) → is_done (transitioned f p).0 ≡ false
transitioned-error f (done _, w) = refl
transitioned-error f (halted lost_lease, w) = refl
transitioned-error f (halted panicked, w) = refl
transitioned-error f (halted (reconstruction e), w) = refl
transitioned-error f (halted (foreign (safe e)), w) = refl
transitioned-error f (halted (foreign (other cause)), w) = refl

-- An error that is shown: a safe one, or that of a context; an index out of range ends the process.
abbrev pub Public : Failure → Type 0
Public lost_lease = ⊥
Public panicked = Unit
Public (reconstruction e) = ⊥
Public (foreign (safe e)) = Unit
Public (foreign (other cause)) = is_interruption (foreign (other cause)) ≡ true

abbrev pub Shown : Outcome Produced → Type 0
Shown (done result) = Unit
Shown (halted f) = Public f

done≢halted :
    (p : Outcome Produced × World) (result : Produced) (w : World)
    → is_done p.0 ≡ false
    → p ≡ (done result, w)
    → ⊥
done≢halted p result w h e = not_both (sym (ap (λ q. is_done q.0) e) ∙ h)

module _ (o : Options) (env : Env) (job : Job) where
  conclude-error : (f : Failure) (w : World) → is_done (conclude o env job f w).0 ≡ false
  unfolding conclude
  conclude-error lost_lease w = refl
  conclude-error panicked w = refl
  conclude-error (reconstruction e) w = refl
  conclude-error (foreign f) w = transitioned-error _ _

  after_process-error :
      (f : Failure) (w : World) → is_done (after_process o env job (halted f) w).0 ≡ false
  unfolding after_process
  after_process-error f w = elim (Bool-cases (is_interruption f)) [
    | inl t ↦ rw t (transitioned-error f _)
    | inr n ↦ rw n (conclude-error f w)
  ]

  after_process-done :
      (outcome : Outcome Produced) (w w' : World) (result : Produced)
      → after_process o env job outcome w ≡ (done result, w')
      → (outcome ≡ done result) × (w ≡ w')
  unfolding after_process
  after_process-done (done r) w w' result h = (ap (λ p. p.0) h, ap (λ p. p.1) h)
  after_process-done (halted f) w w' result h =
      absurd (done≢halted _ result w' (after_process-error f w) h)

  heartbeat-done :
      (lost : Bool) (outcome : Outcome Produced) (result : Produced)
      → heartbeat o env job lost outcome ≡ done result
      → (lost ≡ false) × (outcome ≡ done result)
  heartbeat-done true outcome result h = absurd (cc)
  heartbeat-done false outcome result h = (refl, h)

  module _ (pos : 0 < o.batch_size) (small : o.batch_size ≤ 5) where
    -- With a batch size of one to five, and whatever the queue, other callers, Paperless, the PDF
    -- tools, the model and the heartbeat do: where Process returns a result, the heartbeat has not
    -- lost the lease, and the content, read page by page, holds the pages from 1 on, with none
    -- missing and none twice.
    pub run-Covers :
        (active lost : Bool) (w w' : World) (result : Produced)
        → run o env job active lost w ≡ (done result, w')
        → (lost ≡ false) × ((count : ℕ) × Covers count result.content)
    unfolding run
    run-Covers true lost w w' result h = absurd (cc)
    run-Covers false lost w w' result h =
        let r = process o env job w in
        let (ended, same) = after_process-done (heartbeat o env job lost r.0) r.1 w' result h in
        let (held, delivered) = heartbeat-done lost r.0 result ended in
        (held, process-Covers o env job pos small w r.1 result (λ i. (delivered i, r.1)))
