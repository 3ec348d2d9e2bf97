-- ===== src/Queue/Enqueue.antt =====
-- EnqueueContext and the part of it that ResolveCandidate shares (internal/queue/queue.go).
use paperless_ai_ocr.Queue.Leases.{load_job}
use paperless_ai_ocr.Prelude.{
  ℕ, suc, max, String, Bool, true, false, not, ◌&&◌, ◌||◌, Option, none, some, List, [], ◌∷◌, ◌++◌,
  str_eq, ltb, ◌==◌, if◌then◌else◌, select_where, update_where, first_by,
}
use paperless_ai_ocr.Saferr.{Cause, Result, ok, err, ◌>>◌, ◌>>=◌}
use paperless_ai_ocr.Queue.Model.{
  State, pending, processing, retry, completed, failed, EnqueueInput, Job, Db, is_waiting,
}
use paperless_ai_ocr.Queue.Valid.{validation_error, valid_enqueue_input}
use paperless_ai_ocr.Queue.Transaction.{Conn, carried, write_context}

abbrev pub same_source : ℕ → String → Job → Bool
same_source document_id source_checksum r =
    r.document_id == document_id && str_eq r.source_checksum source_checksum

-- the CASE of the ORDER BY in `enqueue`
abbrev pub state_rank : State → ℕ
state_rank pending = 0
state_rank processing = 0
state_rank retry = 0
state_rank completed = 1
state_rank failed = 2

-- ORDER BY state_rank, id DESC
abbrev pub enqueue_before : Job → Job → Bool
enqueue_before a b =
    ltb (state_rank a.state) (state_rank b.state)
    || state_rank a.state == state_rank b.state && ltb b.id a.id

-- The row that INSERT gives to a new job. Its other columns have no value.
abbrev pub new_job : ℕ → ℕ → EnqueueInput → Job
new_job id now input = record {
  id = id;
  document_id = input.document_id;
  source_checksum = input.source_checksum;
  priority = input.priority;
  state = State.pending;
  attempts = 0;
  available_at = now;
  lease_owner = none;
  lease_expires_at = none;
  model = input.model;
  prompt_version = input.prompt_version;
  error_category = none;
  error_message = none;
  created_at = now;
  updated_at = now;
  completed_at = none;
}

unfoldable pub max_id : List Job → ℕ
max_id [] = 0
max_id (r ∷ rs) = max r.id (max_id rs)

-- SQLite gives a new row of a table with an INTEGER PRIMARY KEY the largest id and one.
abbrev pub next_id : List Job → ℕ
next_id rows = suc (max_id rows)

-- UPDATE jobs SET priority = ?, updated_at = ?
abbrev pub promoted : ℕ → ℕ → Job → Job
promoted priority now r = record r { priority = priority; updated_at = now }

-- `enqueue` where a job of the source is there: it is promoted, or returned as it is.
unfoldable pub enqueue_existing :
    (ℕ → Option Cause) → ℕ → EnqueueInput → Job → Db → Result ((Job × Bool) × Db)
enqueue_existing io now input job db =
    if is_waiting job.state && ltb job.priority input.priority
    then (do
      carried (io 1) "cannot promote queued job"
      ok (
        (promoted input.priority now job, false),
        record db {
          jobs = update_where (λ r. r.id == job.id) (promoted input.priority now) db.jobs;
        },
      ))
    else ok ((job, false), db)

-- `enqueue` where no job of the source is there.
unfoldable pub enqueue_new : (ℕ → Option Cause) → ℕ → EnqueueInput → Db → Result ((Job × Bool) × Db)
unfolding load_job
enqueue_new io now input db = do
  carried (io 2) "cannot enqueue job"
  carried (io 3) "cannot identify enqueued job"
  let id = next_id db.jobs
  let jobs = db.jobs ++ new_job id now input ∷ []
  job ← load_job (io 4) "cannot load enqueued job" id jobs
  ok ((job, true), record db { jobs = jobs })

unfoldable pub enqueue_found :
    (ℕ → Option Cause) → ℕ → EnqueueInput → Db → Option Job → Result ((Job × Bool) × Db)
unfolding enqueue_existing enqueue_new
enqueue_found io now input db none = enqueue_new io now input db
enqueue_found io now input db (some job) = enqueue_existing io now input job db

abbrev pub jobs_of : EnqueueInput → List Job → List Job
jobs_of input = select_where (same_source input.document_id input.source_checksum)

-- enqueue
unfoldable pub enqueue : (ℕ → Option Cause) → ℕ → EnqueueInput → Db → Result ((Job × Bool) × Db)
unfolding enqueue_found
enqueue io now input db = do
  carried (io 0) "cannot inspect queued jobs"
  enqueue_found io now input db (first_by enqueue_before (jobs_of input db.jobs))

-- EnqueueContext: the job, and whether it is new.
unfoldable pub enqueue_context : Conn → ℕ → EnqueueInput → Db → Result (Job × Bool) × Db
unfolding enqueue
enqueue_context conn now input db =
    if not (valid_enqueue_input input)
    then (err (validation_error "invalid enqueue input"), db)
    else write_context conn (enqueue conn.statement now input) db
