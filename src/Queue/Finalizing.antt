-- ===== src/Queue/Finalizing.antt =====
-- The finalization checkpoints of internal/queue/queue.go: which stage a job's side effects have
-- reached, who is admitted to go on, and whether the dispatch downstream was sent.
use paperless_ai_ocr.Prelude.{
  ℕ, ◌+◌, String, Bool, false, not, ◌&&◌, ◌||◌, Option, none, some, List, [], ◌∷◌, ◌++◌, str_eq,
  ltb, leb, ◌==◌, if◌then◌else◌, holds, is_some, count_where, update_where, find_where,
}
use paperless_ai_ocr.Text.{blank}
use paperless_ai_ocr.Saferr.{Cause, Result, ok, err, reject_if, ◌>>=◌, ◌>>◌}
use paperless_ai_ocr.Queue.Model.{
  FinalizationStage, content_updated, complete_tag_added, failed_tag_removed, metadata_dispatched,
  failure_pending, failure_tag_added, DispatchState, reserved, confirmed, FinalizationState,
  Finalization, Control, Db,
}
use paperless_ai_ocr.Queue.Valid.{validation_error, internal_error}
use paperless_ai_ocr.Queue.Transaction.{Conn, carried, write_context, update_one}
use paperless_ai_ocr.Queue.Leases.{require_active_lease, invalid_claim_key}

-- equality of stages, as of the texts that stand for them
abbrev pub stage_code : FinalizationStage → ℕ
stage_code FinalizationStage.pending = 0
stage_code content_updated = 1
stage_code complete_tag_added = 2
stage_code failed_tag_removed = 3
stage_code metadata_dispatched = 4
stage_code failure_pending = 5
stage_code failure_tag_added = 6

abbrev pub same_stage : FinalizationStage → FinalizationStage → Bool
same_stage a b = stage_code a == stage_code b

abbrev pub dispatch_code : DispatchState → ℕ
dispatch_code DispatchState.none = 0
dispatch_code reserved = 1
dispatch_code confirmed = 2

abbrev pub same_dispatch : DispatchState → DispatchState → Bool
same_dispatch a b = dispatch_code a == dispatch_code b

-- validFinalizationTransition
unfoldable pub valid_finalization_transition : FinalizationStage → FinalizationStage → Bool
valid_finalization_transition FinalizationStage.pending to =
    same_stage to content_updated || same_stage to failure_pending
valid_finalization_transition content_updated to = same_stage to complete_tag_added
valid_finalization_transition complete_tag_added to = same_stage to failed_tag_removed
valid_finalization_transition failed_tag_removed to = same_stage to metadata_dispatched
valid_finalization_transition failure_pending to = same_stage to failure_tag_added
valid_finalization_transition metadata_dispatched to = false
valid_finalization_transition failure_tag_added to = false

-- `validTransition` of SetDispatchStateContext
unfoldable pub valid_dispatch_transition : DispatchState → DispatchState → Bool
valid_dispatch_transition from to =
    same_dispatch from DispatchState.none && same_dispatch to reserved
    || same_dispatch from reserved
      && (same_dispatch to DispatchState.none || same_dispatch to confirmed)

-- SELECT … FROM finalizations WHERE job_id = ?
abbrev pub finalization_of : ℕ → List Finalization → Option Finalization
finalization_of id = find_where (λ f. f.job_id == id)

-- SELECT … FROM finalization_controls WHERE job_id = ?
abbrev pub control_of : ℕ → List Control → Option Control
control_of id = find_where (λ c. c.job_id == id)

-- INSERT … ON CONFLICT(job_id) DO NOTHING
abbrev pub insert_finalization : ℕ → ℕ → List Finalization → List Finalization
insert_finalization id now rows =
    if count_where (λ f. f.job_id == id) rows == 0
    then rows
      ++ record {
        job_id = id;
        stage = FinalizationStage.pending;
        created_at = now;
        updated_at = now;
      }
        ∷ []
    else rows

abbrev pub new_control : ℕ → ℕ → Control
new_control id now = record {
  job_id = id;
  admission_token = none;
  admission_attempt = none;
  admission_owner = none;
  admission_expires_at = none;
  dispatch_state = DispatchState.none;
  failure_category = none;
  failure_message = none;
  created_at = now;
  updated_at = now;
}

abbrev pub insert_control : ℕ → ℕ → List Control → List Control
insert_control id now rows =
    if count_where (λ c. c.job_id == id) rows == 0 then rows ++ new_control id now ∷ [] else rows

-- the WHERE clause that admits a finalizer: no one is admitted, or the admission expired, or it is
-- of another claim generation, or it is the caller's own.
abbrev pub may_admit : ℕ → ℕ → ℕ → String → String → Control → Bool
may_admit now id attempt owner token c =
    c.job_id == id
    && (not (is_some c.admission_token)
        || holds (λ t. leb t now) c.admission_expires_at
        || holds (λ a. not (a == attempt)) c.admission_attempt
        || holds (λ o. not (str_eq o owner)) c.admission_owner
        || holds (λ t. str_eq t token) c.admission_token)

abbrev pub admitted : ℕ → ℕ → String → String → ℕ → Control → Control
admitted now attempt owner token duration c = record c {
  admission_token = some token;
  admission_attempt = some attempt;
  admission_owner = some owner;
  admission_expires_at = some (now + duration);
  updated_at = now;
}

-- the WHERE clause of an admission that is in force
abbrev pub holds_admission : ℕ → ℕ → ℕ → String → String → Control → Bool
holds_admission now id attempt owner token c =
    c.job_id == id
    && holds (λ a. a == attempt) c.admission_attempt
    && holds (λ o. str_eq o owner) c.admission_owner
    && holds (λ t. str_eq t token) c.admission_token
    && holds (λ t. ltb now t) c.admission_expires_at

-- requireFinalizationAdmission; its two statements
unfoldable pub require_finalization_admission :
    Option Cause → Option Cause → ℕ → ℕ → ℕ → String → String → Db → Result (Unit {0})
unfolding require_active_lease
require_finalization_admission io io' now id attempt owner token db = do
  require_active_lease io now id attempt owner db.jobs
  carried io' "cannot validate finalization admission"
  reject_if (not (count_where (holds_admission now id attempt owner token) db.controls == 1))
      (validation_error "illegal finalization transition or stale admission")

-- the row of the two tables joined on the job
abbrev pub joined : Option Finalization → Option Control → Result FinalizationState
joined (some f) (some c) = ok (record {
  stage = f.stage;
  dispatch = c.dispatch_state;
  failure_category = c.failure_category;
  failure_message = c.failure_message;
})
joined (some f) none = err (internal_error "cannot load finalization state" Cause.failure)
joined none c = err (internal_error "cannot load finalization state" Cause.failure)

unfoldable pub load_state : Option Cause → ℕ → Db → Result FinalizationState
load_state io id db = do
  carried io "cannot load finalization state"
  joined (finalization_of id db.finalizations) (control_of id db.controls)

-- the transaction of AcquireFinalizationContext
unfoldable pub acquire_body :
    (ℕ → Option Cause) → ℕ → ℕ → ℕ → String → String → ℕ → Db → Result (FinalizationState × Db)
unfolding require_active_lease load_state
acquire_body io now id attempt owner token duration db = do
  require_active_lease (io 0) now id attempt owner db.jobs
  carried (io 1) "cannot create finalization checkpoint"
  carried (io 2) "cannot create finalization control"
  carried (io 3) "cannot acquire finalization admission"
  carried (io 4) "cannot confirm finalization admission"
  let controls = insert_control id now db.controls
  let p = may_admit now id attempt owner token
  reject_if (not (count_where p controls == 1))
      (validation_error "finalizer is already active for this job")
  let after = record db {
    finalizations = insert_finalization id now db.finalizations;
    controls = update_where p (admitted now attempt owner token duration) controls;
  }
  state ← load_state (io 5) id after
  ok (state, after)

-- AcquireFinalizationContext
unfoldable pub acquire_finalization :
    Conn → ℕ → ℕ → ℕ → String → String → ℕ → Db → Result FinalizationState × Db
unfolding acquire_body
acquire_finalization conn now id attempt owner token duration db =
    if invalid_claim_key id attempt owner || blank token || duration == 0
    then (err (validation_error "invalid finalization admission input"), db)
    else write_context conn (acquire_body conn.statement now id attempt owner token duration) db

-- the transaction of FinalizationStateContext
unfoldable pub finalization_state_body :
    (ℕ → Option Cause) → ℕ → ℕ → ℕ → String → String → Db → Result (FinalizationState × Db)
unfolding require_finalization_admission load_state
finalization_state_body io now id attempt owner token db = do
  require_finalization_admission (io 0) (io 1) now id attempt owner token db
  state ← load_state (io 2) id db
  ok (state, db)

-- FinalizationStateContext
unfoldable pub finalization_state :
    Conn → ℕ → ℕ → ℕ → String → String → Db → Result FinalizationState × Db
unfolding finalization_state_body
finalization_state conn now id attempt owner token db =
    if invalid_claim_key id attempt owner || blank token
    then (err (validation_error "invalid finalization state input"), db)
    else write_context conn (finalization_state_body conn.statement now id attempt owner token) db

-- UPDATE finalization_controls SET admission_expires_at = ?, updated_at = ?
abbrev pub readmitted : ℕ → ℕ → Control → Control
readmitted now duration c = record c {
  admission_expires_at = some (now + duration);
  updated_at = now;
}

-- the transaction of RenewFinalizationContext
unfoldable pub renew_finalization_body :
    (ℕ → Option Cause) → ℕ → ℕ → ℕ → String → String → ℕ → Db → Result (Unit {0} × Db)
unfolding require_finalization_admission update_one
renew_finalization_body io now id attempt owner token duration db = do
  require_finalization_admission (io 0) (io 1) now id attempt owner token db
  controls ←
      update_one (io 2) (io 3) (holds_admission now id attempt owner token)
        (readmitted now duration) db.controls
  ok (tt, record db { controls = controls })

-- RenewFinalizationContext
unfoldable pub renew_finalization :
    Conn → ℕ → ℕ → ℕ → String → String → ℕ → Db → Result (Unit {0}) × Db
unfolding renew_finalization_body
renew_finalization conn now id attempt owner token duration db =
    if invalid_claim_key id attempt owner || blank token || duration == 0
    then (err (validation_error "invalid finalization admission renewal input"), db)
    else write_context conn
        (renew_finalization_body conn.statement now id attempt owner token duration) db

abbrev pub at_stage : ℕ → FinalizationStage → Finalization → Bool
at_stage id stage f = f.job_id == id && same_stage f.stage stage

abbrev pub moved_to : FinalizationStage → ℕ → Finalization → Finalization
moved_to stage now f = record f { stage = stage; updated_at = now }

unfoldable pub advance_found :
    (ℕ → Option Cause)
    → ℕ
    → ℕ
    → FinalizationStage
    → FinalizationStage
    → Db
    → Option Finalization
    → Result (Unit {0} × Db)
unfolding update_one
advance_found io now id from to db none =
    err (internal_error "cannot load finalization checkpoint" Cause.failure)
advance_found io now id from to db (some f) =
    if same_stage f.stage to
    then ok (tt, db)
    else if not (same_stage f.stage from)
    then err (validation_error "finalization checkpoint changed")
    else (do
      rows ← update_one (io 3) (io 4) (at_stage id from) (moved_to to now) db.finalizations
      ok (tt, record db { finalizations = rows }))

-- the transaction of AdvanceFinalizationContext
unfoldable pub advance_body :
    (ℕ → Option Cause)
    → ℕ
    → ℕ
    → ℕ
    → String
    → String
    → FinalizationStage
    → FinalizationStage
    → Db
    → Result (Unit {0} × Db)
unfolding require_finalization_admission advance_found
advance_body io now id attempt owner token from to db = do
  require_finalization_admission (io 0) (io 1) now id attempt owner token db
  carried (io 2) "cannot load finalization checkpoint"
  advance_found io now id from to db (finalization_of id db.finalizations)

-- AdvanceFinalizationContext
unfoldable pub advance_finalization :
    Conn
    → ℕ
    → ℕ
    → ℕ
    → String
    → String
    → FinalizationStage
    → FinalizationStage
    → Db
    → Result (Unit {0}) × Db
unfolding advance_body
advance_finalization conn now id attempt owner token from to db =
    if invalid_claim_key id attempt owner
      || blank token
      || not (valid_finalization_transition from to)
    then (err (validation_error "invalid finalization checkpoint transition"), db)
    else write_context conn (advance_body conn.statement now id attempt owner token from to) db

abbrev pub dispatch_set : DispatchState → ℕ → Control → Control
dispatch_set to now c = record c { dispatch_state = to; updated_at = now }

-- the transaction of SetDispatchStateContext
unfoldable pub set_dispatch_body :
    (ℕ → Option Cause)
    → ℕ
    → ℕ
    → ℕ
    → String
    → String
    → DispatchState
    → DispatchState
    → Db
    → Result (Unit {0} × Db)
unfolding require_finalization_admission update_one
set_dispatch_body io now id attempt owner token from to db = do
  require_finalization_admission (io 0) (io 1) now id attempt owner token db
  controls ←
      update_one (io 2) (io 3) (λ c. c.job_id == id && same_dispatch c.dispatch_state from)
        (dispatch_set to now) db.controls
  ok (tt, record db { controls = controls })

-- SetDispatchStateContext
unfoldable pub set_dispatch_state :
    Conn → ℕ → ℕ → ℕ → String → String → DispatchState → DispatchState → Db → Result (Unit {0}) × Db
unfolding set_dispatch_body
set_dispatch_state conn now id attempt owner token from to db =
    if invalid_claim_key id attempt owner || blank token || not (valid_dispatch_transition from to)
    then (err (validation_error "invalid dispatch state transition"), db)
    else write_context conn (set_dispatch_body conn.statement now id attempt owner token from to) db
