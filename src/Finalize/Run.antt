-- ===== src/Finalize/Run.antt =====
-- Process and FailOCR of internal/finalize/finalize.go: the guard, the token, the run, and what
-- becomes of the job where the run fails.
use paperless_ai_ocr.Prelude.{ℕ, String, true, false, not, Option, none, some, if◌then◌else◌}
use paperless_ai_ocr.Text.{blank}
use paperless_ai_ocr.Saferr.{provider, validation, internal, failure, Error, new, Result, ok, err}
use paperless_ai_ocr.Queue.Model.{Job}
use paperless_ai_ocr.Finalize.World.{
  Foreign, safe, other, Failure, lost_lease, admission_error, ambiguous_dispatch_error,
  source_changed, foreign, Outcome, halted, done, Env, World, Exec,
}
use paperless_ai_ocr.Finalize.Steps.{stop_heartbeat}
use paperless_ai_ocr.Finalize.Process.{
  WorkerResult, valid_job, matches, failed_diagnostic, uncertain_dispatch_diagnostic, fail,
  retry_later, process, fail_ocr,
}

-- publicError
abbrev pub public_error : Foreign → Error
public_error (safe e) = e
public_error (other cause) = new internal "OCR finalization failed"

-- the error of a call on the queue that ends a run, as transitionError hides it, or the error of
-- the run
abbrev pub transitioned : Error → Outcome (Unit {0}) × World → Result (Unit {0}) × World
transitioned e (done _, w) = (err e, w)
transitioned e (halted (foreign (safe e')), w) =
    (err (new e'.category "job state transition failed"), w)
transitioned e (halted _, w) = (err (new internal "job state transition failed"), w)

-- the end of a run: the heartbeat is stopped, and a lost lease comes before every other error
unfoldable pub conclude :
    (Failure → World → Result (Unit {0}) × World)
    → Outcome (Unit {0})
    → Outcome (Unit {0}) × World
    → Result (Unit {0}) × World
conclude after outcome (halted f, w) = after f w
conclude after (halted f) (done _, w) = after f w
conclude after (done _) (done _, w) = (ok tt, w)

unfoldable pub finish :
    Env
    → (Failure → World → Result (Unit {0}) × World)
    → Outcome (Unit {0}) × World
    → Result (Unit {0}) × World
unfolding conclude stop_heartbeat
finish env after (outcome, w) = conclude after outcome (stop_heartbeat env w)

-- the run with its token, where one can be made
unfoldable pub with_token :
    Env
    → (Failure → World → Result (Unit {0}) × World)
    → (String → Exec (Unit {0}))
    → Option String
    → World
    → Result (Unit {0}) × World
unfolding finish
with_token env after body none w = (err (new internal "cannot create finalization admission"), w)
with_token env after body (some token) w =
    if blank token
    then (err (new internal "cannot create finalization admission"), w)
    else finish env after (body token (record w { stopped = none }))

-- one run at a time
unfoldable pub exclusively : (World → Result (Unit {0}) × World) → World → Result (Unit {0}) × World
exclusively body w =
    if w.active
    then (err (new validation "finalizer is already processing a job"), w)
    else (let r = body (record w { active = true }) in (r.0, record r.1 { active = false }))

module _ (env : Env) (lease delay : ℕ) (job : Job) where
  -- what Process does with the error of a run
  unfoldable pub after_process : Failure → World → Result (Unit {0}) × World
  unfolding fail retry_later
  after_process lost_lease w = (err (new validation "active job lease was lost"), w)
  after_process (source_changed e) w =
      transitioned e
        (fail env job (record { category = validation; message = failed_diagnostic }) w)
  after_process (admission_error e) w = (err e, w)
  after_process ambiguous_dispatch_error w =
      transitioned (new provider uncertain_dispatch_diagnostic)
        (fail env job (record { category = provider; message = uncertain_dispatch_diagnostic }) w)
  after_process (foreign f) w = transitioned (public_error f) (retry_later env job delay w)

  -- what FailOCR does with the error of a run, which is never of the other kinds
  unfoldable pub after_fail_ocr : Failure → World → Result (Unit {0}) × World
  unfolding retry_later
  after_fail_ocr lost_lease w = (err (new validation "active job lease was lost"), w)
  after_fail_ocr (admission_error e) w = (err e, w)
  after_fail_ocr (foreign f) w = transitioned (public_error f) (retry_later env job delay w)
  after_fail_ocr (source_changed e) w = transitioned e (retry_later env job delay w)
  after_fail_ocr ambiguous_dispatch_error w =
      transitioned (public_error (other failure)) (retry_later env job delay w)

  -- Process and FailOCR, past the guard
  unfoldable pub process_valid : Option String → WorkerResult → World → Result (Unit {0}) × World
  unfolding with_token after_process process
  process_valid token result w =
      if not (valid_job job)
      then (err (new validation "invalid claimed job"), w)
      else if not (matches job result)
      then (err (new validation "OCR result does not match claimed job"), w)
      else with_token env after_process (λ t. process env lease job t result) token w

  unfoldable pub fail_valid : Option String → World → Result (Unit {0}) × World
  unfolding with_token after_fail_ocr fail_ocr
  fail_valid token w =
      if not (valid_job job)
      then (err (new validation "invalid claimed job"), w)
      else with_token env after_fail_ocr (fail_ocr env lease job) token w

  -- Process
  unfoldable pub process_job : Option String → WorkerResult → World → Result (Unit {0}) × World
  unfolding exclusively process_valid
  process_job token result = exclusively (process_valid token result)

  -- FailOCR
  unfoldable pub fail_job : Option String → World → Result (Unit {0}) × World
  unfolding exclusively fail_valid
  fail_job token = exclusively (fail_valid token)
