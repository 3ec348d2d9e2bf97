-- ===== src/Tests.antt =====
-- Concrete runs of the queue and the worker, and the theorems at them.
use paperless_ai_ocr.Prelude.{
  ◌≤◌, ◌≡◌, refl, subst, true, false, none, some, List, [], ◌∷◌, arith, if◌then◌else◌, All,
  count_where, select_where, update_where, find_where, first_by, ℕ, length, leb, ◌+◌, ◌-◌, ◌<◌,
}
use paperless_ai_ocr.Text.{blank}
use paperless_ai_ocr.Saferr.{internal, ok}
use paperless_ai_ocr.Queue.Model.{
  pending, processing, completed, content_updated, complete_tag_added, DispatchState, reserved,
  confirmed, EnqueueInput, Job, BatchRange, Db,
}
use paperless_ai_ocr.Queue.Valid.{valid_enqueue_input, valid_batch_ranges}
use paperless_ai_ocr.Queue.Transaction.{healthy, write_context}
use paperless_ai_ocr.Queue.Calls.{Call, Key, run, run_all, empty}
use paperless_ai_ocr.Queue.Jobs.Valid.{JobsValid}
use paperless_ai_ocr.Queue.Jobs.Step.{JobsStep}
use paperless_ai_ocr.Queue.Jobs.Refinement.{run-JobsStep}
use paperless_ai_ocr.Queue.Jobs.Keeps.{run_all-JobsValid}
use paperless_ai_ocr.Queue.Jobs.Lifecycle.{
  job_at, attempts, SlotStep, run-SlotStep, run_all-attempts, run_all-completed,
}
use paperless_ai_ocr.Queue.Enqueue
use paperless_ai_ocr.Queue.Leases
use paperless_ai_ocr.Queue.Transitions
use paperless_ai_ocr.Queue.Fence.{run-stale, superseded_forever}
use paperless_ai_ocr.Queue.ClaimOrder.{HoldsAlone, claim-HoldsAlone}
use paperless_ai_ocr.Queue.StageSteps.{StageStep, stage_at}
use paperless_ai_ocr.Queue.Stages.{Committed, run-StageStep, run_all-side}
use paperless_ai_ocr.Queue.DispatchSteps.{DispatchStep, dispatch_at}
use paperless_ai_ocr.Queue.Dispatches.{run-DispatchStep, run_all-confirmed}
use paperless_ai_ocr.Worker.Plan.{plan_ranges, page_images, pages_of, count_up, plan_ranges_lem}
use paperless_ai_ocr.Worker.Backoff.{
  default_backoff, backoff_delay, maximum_backoff, backoff_delay_bounds,
}
use paperless_ai_ocr.Queue.Finalizing.{dispatch_set}
use paperless_ai_ocr.Worker.Transcribe.{Env, Fault, Reply, unavailable, faulted, transcribed}
use paperless_ai_ocr.Worker.Attempts.{asked, Held, request_transcription_bounds}

abbrev input : EnqueueInput
input = record {
  document_id = 7;
  source_checksum = "abc";
  priority = 100;
  model = "vision";
  prompt_version = "1";
}

abbrev enqueued : Call
enqueued = Call.enqueue healthy 10 input

abbrev claimed_once : Call
claimed_once = Call.claim healthy 20 "worker" 60

abbrev key : Key
key = record { now = 30; id = 1; attempt = 1; owner = "worker" }

abbrev two_calls : List Call
two_calls = enqueued ∷ claimed_once ∷ []

abbrev held_job : Job
held_job = record {
  id = 1;
  document_id = 7;
  source_checksum = "abc";
  priority = 100;
  state = processing;
  attempts = 1;
  available_at = 10;
  lease_owner = some "worker";
  lease_expires_at = some 80;
  model = "vision";
  prompt_version = "1";
  error_category = none;
  error_message = none;
  created_at = 10;
  updated_at = 20;
  completed_at = none;
}

abbrev held_db : Db
held_db = record empty { jobs = held_job ∷ [] }

two_calls_lem : run_all two_calls empty ≡ held_db
unfolding run_all run Enqueue.enqueue_context Leases.claim blank write_context count_where
    valid_enqueue_input first_by select_where find_where Enqueue.max_id update_where
two_calls_lem = refl

held_valid : JobsValid held_db.jobs
held_valid = subst (λ d. JobsValid d.jobs) two_calls_lem (run_all-JobsValid two_calls)

abbrev waiting_job : Job
waiting_job = record held_job {
  state = pending;
  attempts = 0;
  lease_owner = none;
  lease_expires_at = none;
  updated_at = 10;
}

abbrev waiting_db : Db
waiting_db = record empty { jobs = waiting_job ∷ [] }

enqueued_lem : run_all (enqueued ∷ []) empty ≡ waiting_db
unfolding run_all run Enqueue.enqueue_context blank write_context count_where valid_enqueue_input
    first_by select_where find_where Enqueue.max_id update_where
enqueued_lem = refl

waiting_valid : JobsValid waiting_db.jobs
waiting_valid = subst (λ d. JobsValid d.jobs) enqueued_lem (run_all-JobsValid (enqueued ∷ []))

-- the lease expires, and the job is claimed again
abbrev retaken : List Call
retaken =
    enqueued ∷ claimed_once ∷ Call.recover healthy 100 ∷ Call.claim healthy 110 "worker" 60 ∷ []

abbrev retaken_job : Job
retaken_job = record held_job {
  attempts = 2;
  available_at = 100;
  lease_expires_at = some 170;
  updated_at = 110;
  error_category = some internal;
  error_message = some "lease expired";
}

abbrev retaken_db : Db
retaken_db = record empty { jobs = retaken_job ∷ [] }

retaken_lem : run_all retaken empty ≡ retaken_db
unfolding run_all run Enqueue.enqueue_context Leases.claim blank write_context count_where
    valid_enqueue_input first_by select_where find_where Enqueue.max_id update_where
    Leases.recover_expired_leases
retaken_lem = refl

retaken_valid : JobsValid retaken_db.jobs
retaken_valid = subst (λ d. JobsValid d.jobs) retaken_lem (run_all-JobsValid retaken)

-- the holder completes the job
abbrev finished : List Call
finished = enqueued ∷ claimed_once ∷ Call.complete healthy key ∷ []

abbrev finished_job : Job
finished_job = record held_job {
  state = completed;
  lease_owner = none;
  lease_expires_at = none;
  updated_at = 30;
  completed_at = some 30;
}

abbrev finished_db : Db
finished_db = record empty { jobs = finished_job ∷ [] }

finished_lem : run_all finished empty ≡ finished_db
unfolding run_all run Enqueue.enqueue_context Leases.claim blank write_context count_where
    valid_enqueue_input first_by select_where find_where Enqueue.max_id update_where
    Transitions.complete
finished_lem = refl

finished_valid : JobsValid finished_db.jobs
finished_valid = subst (λ d. JobsValid d.jobs) finished_lem (run_all-JobsValid finished)

-- the content is written, and the dispatch is reserved
abbrev written_db : Db
written_db = record held_db {
  finalizations =
      record { job_id = 1; stage = content_updated; created_at = 30; updated_at = 31 } ∷ [];
  controls =
      record {
        job_id = 1;
        admission_token = some "token";
        admission_attempt = some 1;
        admission_owner = some "worker";
        admission_expires_at = some 90;
        dispatch_state = reserved;
        failure_category = none;
        failure_message = none;
        created_at = 30;
        updated_at = 32;
      }
      ∷ [];
}

abbrev confirm : Call
confirm = Call.set_dispatch healthy key "token" reserved confirmed

run-JobsStep_example : JobsStep waiting_db.jobs (run claimed_once waiting_db).jobs
run-JobsStep_example = run-JobsStep claimed_once waiting_db

run_all-JobsValid_example : JobsValid (run_all finished empty).jobs
run_all-JobsValid_example = run_all-JobsValid finished

run-SlotStep_example :
    SlotStep (job_at 1 held_db.jobs) (job_at 1 (run (Call.complete healthy key) held_db).jobs)
run-SlotStep_example = run-SlotStep (Call.complete healthy key) held_db 1 held_valid

run_all-attempts_example :
    attempts (job_at 1 held_db.jobs)
    ≤ attempts (
        job_at 1
          (run_all
            (Call.recover healthy 100 ∷ Call.claim healthy 110 "worker" 60 ∷ [])
            held_db).jobs)
run_all-attempts_example =
    run_all-attempts (Call.recover healthy 100 ∷ Call.claim healthy 110 "worker" 60 ∷ []) held_db 1
      held_valid

run_all-completed_example : job_at 1 (run_all two_calls finished_db).jobs ≡ some finished_job
run_all-completed_example =
    run_all-completed two_calls finished_db 1 finished_job finished_valid
      (unfold find_where in refl) refl

run-stale_example : run (Call.complete healthy (record key { now = 90 })) held_db ≡ held_db
run-stale_example =
    run-stale (Call.complete healthy (record key { now = 90 })) (record key { now = 90 }) held_db
      refl (unfold count_where in refl)

superseded_forever_example :
    run (Call.complete healthy (record key { now = 120 })) (run_all two_calls retaken_db)
    ≡ run_all two_calls retaken_db
superseded_forever_example =
    superseded_forever retaken_db two_calls (Call.complete healthy (record key { now = 120 }))
      (record key { now = 120 }) retaken_valid (unfold find_where in omega arith) refl

claim-HoldsAlone_example :
    HoldsAlone 20 "worker" held_job (Leases.claim healthy 20 "worker" 60 waiting_db).1.jobs
claim-HoldsAlone_example =
    claim-HoldsAlone 20 "worker" 60 waiting_db waiting_valid (omega arith) held_job
      (unfold blank in refl)
      (unfold Leases.claim write_context blank count_where first_by select_where find_where
          update_where in
        refl)

run-StageStep_example : StageStep (stage_at 1 written_db.finalizations) (
    stage_at 1
      (run
        (Call.advance healthy key "token" content_updated complete_tag_added)
        written_db).finalizations)
run-StageStep_example =
    run-StageStep (Call.advance healthy key "token" content_updated complete_tag_added) written_db 1

run_all-side_example : Committed content_updated (
    stage_at 1
      (run_all
        (Call.advance healthy key "token" content_updated complete_tag_added ∷ [])
        written_db).finalizations)
run_all-side_example =
    run_all-side (Call.advance healthy key "token" content_updated complete_tag_added ∷ [])
      written_db 1 content_updated (unfold find_where in refl) (omega arith)

run-DispatchStep_example :
    DispatchStep
      (dispatch_at 1 written_db.controls)
      (dispatch_at 1 (run confirm written_db).controls)
run-DispatchStep_example = run-DispatchStep confirm written_db 1

run_all-confirmed_example :
    dispatch_at 1
      (run_all
        (Call.set_dispatch healthy key "token" confirmed DispatchState.none ∷ [])
        (record written_db {
          controls = update_where (λ c. true) (dispatch_set confirmed 33) written_db.controls;
        })).controls
    ≡ some confirmed
run_all-confirmed_example =
    run_all-confirmed (Call.set_dispatch healthy key "token" confirmed DispatchState.none ∷ [])
      (record written_db {
        controls = update_where (λ c. true) (dispatch_set confirmed 33) written_db.controls;
      })
      1 (unfold find_where update_where in refl)

plan_ranges_lem_example :
    (rs : List BatchRange) × (plan_ranges 12 5 page_images ≡ ok (some rs))
    × (valid_batch_ranges rs ≡ true)
    × (pages_of rs ≡ count_up 1 12)
plan_ranges_lem_example =
    plan_ranges_lem 12 5 (omega arith) (omega arith) (omega arith) (omega arith)

backoff_delay_bounds_example :
    (default_backoff ≤ backoff_delay 3 (λ b. b)) × (backoff_delay 3 (λ b. b) ≤ maximum_backoff)
backoff_delay_bounds_example = backoff_delay_bounds 3 (λ b. b)

-- two faults, and then a transcription, while the lease is held
abbrev busy : Fault
busy = record {
  unsupported = false;
  provider_timeout = false;
  deadline_exceeded = false;
  retry_after = 0;
  retryable = true;
  error = unavailable;
}

abbrev replies : ℕ → Reply
replies attempt = if leb attempt 2 then faulted busy else transcribed "{}"

abbrev answers : Env
answers = record {
  conn = λ n. healthy;
  now = λ n. 20 + n;
  between = λ n. [];
  context_before = λ n. none;
  context_after = λ n. none;
  reply = replies;
  sleep = λ n. none;
  jitter = λ n. n;
}

request_transcription_bounds_example :
    (length (asked answers 60 held_job true 3 held_db).requests ≤ 3)
    × (length (asked answers 60 held_job true 3 held_db).waits ≤ 3 - 1)
    × All (λ w. 0 < w) (asked answers 60 held_job true 3 held_db).waits
    × All (Held held_job) (asked answers 60 held_job true 3 held_db).requests
request_transcription_bounds_example =
    request_transcription_bounds answers 60 held_job true 3 held_db
