-- ===== src/Queue/Leases.antt =====
-- The lease of a job in internal/queue/queue.go: Claim, RenewLeaseContext, ReleaseContext,
-- RecoverExpiredLeases, and the fence that every other operation of a worker passes.
use paperless_ai_ocr.Prelude.{
  ℕ, ◌+◌, String, Bool, not, ◌&&◌, ◌||◌, Option, none, some, List, str_eq, ltb, leb, ◌==◌,
  if◌then◌else◌, holds, count_where, select_where, update_where, find_where, first_by,
}
use paperless_ai_ocr.Text.{blank}
use paperless_ai_ocr.Saferr.{internal, Cause, Result, ok, err, reject_if, ◌>>=◌, ◌>>◌}
use paperless_ai_ocr.Queue.Model.{State, SafeDiagnostic, Job, Db, is_processing, is_waiting}
use paperless_ai_ocr.Queue.Valid.{validation_error, internal_error}
use paperless_ai_ocr.Queue.Transaction.{Conn, carried, write_context, update_one}

-- ORDER BY priority DESC, created_at, id
abbrev pub claim_before : Job → Job → Bool
claim_before a b =
    ltb b.priority a.priority
    || a.priority == b.priority && ltb a.created_at b.created_at
    || a.priority == b.priority && a.created_at == b.created_at && ltb a.id b.id

-- state IN ('pending', 'retry') AND available_at <= ?
abbrev pub is_due : ℕ → Job → Bool
is_due now r = is_waiting r.state && leb r.available_at now

-- the WHERE clause of a claim generation: the job is processing, at this attempt, for this owner,
-- and its lease has not expired.
abbrev pub holds_lease : ℕ → ℕ → ℕ → String → Job → Bool
holds_lease now id attempt owner r =
    r.id == id
    && is_processing r.state
    && r.attempts == attempt
    && holds (λ o. str_eq o owner) r.lease_owner
    && holds (λ t. ltb now t) r.lease_expires_at

-- requireActiveLease
unfoldable pub require_active_lease :
    Option Cause → ℕ → ℕ → ℕ → String → List Job → Result (Unit {0})
require_active_lease io now id attempt owner jobs = do
  carried io "cannot validate active job lease"
  reject_if (not (count_where (holds_lease now id attempt owner) jobs == 1))
      (validation_error "illegal job transition or stale lease owner")

-- `id <= 0 || attempt <= 0 || blank(owner)`
abbrev pub invalid_claim_key : ℕ → ℕ → String → Bool
invalid_claim_key id attempt owner = id == 0 || attempt == 0 || blank owner

abbrev pub loaded : String → Option Job → Result Job
loaded message none = err (internal_error message Cause.failure)
loaded message (some r) = ok r

-- getJob: a row by its primary key; `sql.ErrNoRows` is an error like any other of the load.
unfoldable pub load_job : Option Cause → String → ℕ → List Job → Result Job
load_job io message id jobs = do
  carried io message
  loaded message (find_where (λ r. r.id == id) jobs)

-- UPDATE jobs SET state = 'processing', attempts = attempts + 1, lease_owner = ?, …
abbrev pub claimed : ℕ → String → ℕ → Job → Job
claimed now owner duration r = record r {
  state = State.processing;
  attempts = r.attempts + 1;
  lease_owner = some owner;
  lease_expires_at = some (now + duration);
  updated_at = now;
}

unfoldable pub claim_selected :
    (ℕ → Option Cause) → ℕ → String → ℕ → Db → Option Job → Result (Option Job × Db)
unfolding load_job
claim_selected io now owner duration db none = ok (none, db)
claim_selected io now owner duration db (some candidate) = do
  carried (io 2) "cannot claim queued job"
  carried (io 3) "cannot confirm queued job claim"
  let p = λ (r : Job). r.id == candidate.id && is_due now r
  reject_if (not (count_where p db.jobs == 1)) (validation_error "queued job changed during claim")
  let jobs = update_where p (claimed now owner duration) db.jobs
  job ← load_job (io 4) "cannot load claimed job" candidate.id jobs
  ok (some job, record db { jobs = jobs })

-- the transaction of Claim
unfoldable pub claim_body : (ℕ → Option Cause) → ℕ → String → ℕ → Db → Result (Option Job × Db)
unfolding claim_selected
claim_body io now owner duration db = do
  carried (io 0) "cannot inspect active jobs"
  if not (count_where (λ r. is_processing r.state) db.jobs == 0) then ok (none, db) else (do
    carried (io 1) "cannot select queued job"
    claim_selected io now owner duration db
        (first_by claim_before (select_where (is_due now) db.jobs)))

-- Claim: the leased job, if there is one to lease.
unfoldable pub claim : Conn → ℕ → String → ℕ → Db → Result (Option Job) × Db
unfolding claim_body
claim conn now owner duration db =
    if blank owner || duration == 0
    then (err (validation_error "invalid claim input"), db)
    else write_context conn (claim_body conn.statement now owner duration) db

-- UPDATE jobs SET lease_expires_at = ?, updated_at = ?
abbrev pub renewed : ℕ → ℕ → Job → Job
renewed now duration r = record r { lease_expires_at = some (now + duration); updated_at = now }

-- the transaction of an operation that is one UPDATE of one job
unfoldable pub update_job :
    (ℕ → Option Cause) → (Job → Bool) → (Job → Job) → Db → Result (Unit {0} × Db)
unfolding update_one
update_job io p f db = do
  jobs ← update_one (io 0) (io 1) p f db.jobs
  ok (tt, record db { jobs = jobs })

-- RenewLeaseContext
unfoldable pub renew_lease : Conn → ℕ → ℕ → ℕ → String → ℕ → Db → Result (Unit {0}) × Db
unfolding update_job
renew_lease conn now id attempt owner duration db =
    if invalid_claim_key id attempt owner || duration == 0
    then (err (validation_error "invalid lease renewal input"), db)
    else write_context conn
        (update_job conn.statement (holds_lease now id attempt owner) (renewed now duration)) db

-- UPDATE jobs SET state = 'retry', available_at = ?, lease_owner = NULL, …
abbrev pub retried : ℕ → ℕ → SafeDiagnostic → Job → Job
retried now available_at diagnostic r = record r {
  state = State.retry;
  available_at = available_at;
  lease_owner = none;
  lease_expires_at = none;
  error_category = some diagnostic.category;
  error_message = some diagnostic.message;
  updated_at = now;
}

abbrev pub shutting_down : SafeDiagnostic
shutting_down = record { category = internal; message = "service shutting down" }

abbrev pub lease_expired : SafeDiagnostic
lease_expired = record { category = internal; message = "lease expired" }

-- the transaction of ReleaseContext
unfoldable pub release_body : (ℕ → Option Cause) → ℕ → ℕ → ℕ → String → Db → Result (Bool × Db)
release_body io now id attempt owner db = do
  carried (io 0) "cannot release active job lease"
  carried (io 1) "cannot confirm active job lease release"
  let p = holds_lease now id attempt owner
  ok (
    count_where p db.jobs == 1,
    record db { jobs = update_where p (retried now now shutting_down) db.jobs },
  )

-- ReleaseContext
unfoldable pub release : Conn → ℕ → ℕ → ℕ → String → Db → Result Bool × Db
unfolding release_body
release conn now id attempt owner db =
    if invalid_claim_key id attempt owner
    then (err (validation_error "invalid lease release input"), db)
    else write_context conn (release_body conn.statement now id attempt owner) db

-- state = 'processing' AND lease_expires_at <= ?
abbrev pub has_expired : ℕ → Job → Bool
has_expired now r = is_processing r.state && holds (λ t. leb t now) r.lease_expires_at

-- the transaction of RecoverExpiredLeases
unfoldable pub recover_body : (ℕ → Option Cause) → ℕ → Db → Result (ℕ × Db)
recover_body io now db = do
  carried (io 0) "cannot recover expired job leases"
  carried (io 1) "cannot count recovered job leases"
  ok (
    count_where (has_expired now) db.jobs,
    record db { jobs = update_where (has_expired now) (retried now now lease_expired) db.jobs },
  )

-- RecoverExpiredLeases
unfoldable pub recover_expired_leases : Conn → ℕ → Db → Result ℕ × Db
unfolding recover_body
recover_expired_leases conn now db = write_context conn (recover_body conn.statement now) db

-- ActiveContext
unfoldable pub active : Option Cause → ℕ → ℕ → ℕ → String → Db → Result Bool
active io now id attempt owner db =
    if invalid_claim_key id attempt owner
    then err (validation_error "invalid active lease lookup")
    else (do
      carried io "cannot inspect active job lease"
      ok (count_where (holds_lease now id attempt owner) db.jobs == 1))

abbrev pub claim_state_of : String → Option Job → Option State
claim_state_of owner none = none
claim_state_of owner (some r) =
    if is_processing r.state && not (holds (λ o. str_eq o owner) r.lease_owner)
    then none
    else some r.state

-- ClaimStateContext
unfoldable pub claim_state : Option Cause → ℕ → ℕ → String → Db → Result (Option State)
claim_state io id attempt owner db =
    if invalid_claim_key id attempt owner
    then err (validation_error "invalid claim state lookup")
    else (do
      carried io "cannot inspect claim state"
      ok (claim_state_of owner (find_where (λ r. r.id == id && r.attempts == attempt) db.jobs)))
