-- ===== src/Queue/Candidates.antt =====
-- The candidates of internal/queue/queue.go: documents whose checksum is not known yet.
use paperless_ai_ocr.Prelude.{
  ℕ, ◌+◌, max, Bool, true, false, not, ◌&&◌, ◌||◌, Option, none, some, [], ◌∷◌, ◌++◌, ltb, ◌==◌,
  if◌then◌else◌, count_where, update_where, delete_where, find_where, first_by,
}
use paperless_ai_ocr.Saferr.{Cause, Result, ok, err, ◌>>=◌, ◌>>◌}
use paperless_ai_ocr.Queue.Model.{Priority, EnqueueInput, Candidate, Job, Db}
use paperless_ai_ocr.Queue.Valid.{validation_error, valid_priority, valid_enqueue_input}
use paperless_ai_ocr.Queue.Transaction.{Conn, carried, write_context}
use paperless_ai_ocr.Queue.Enqueue.{enqueue}

-- ORDER BY priority DESC, created_at, document_id
abbrev pub candidate_before : Candidate → Candidate → Bool
candidate_before a b =
    ltb b.priority a.priority
    || a.priority == b.priority && ltb a.created_at b.created_at
    || a.priority == b.priority && a.created_at == b.created_at && ltb a.document_id b.document_id

abbrev pub of_document : ℕ → Candidate → Bool
of_document document_id c = c.document_id == document_id

abbrev pub of_generation : ℕ → ℕ → Candidate → Bool
of_generation document_id generation c = c.document_id == document_id && c.generation == generation

-- UPDATE candidates SET priority = ?, generation = generation + 1, updated_at = ?
abbrev pub refreshed : ℕ → ℕ → Candidate → Candidate
refreshed priority now c = record c {
  priority = priority;
  generation = c.generation + 1;
  updated_at = now;
}

unfoldable pub enqueue_candidate_found :
    (ℕ → Option Cause) → ℕ → ℕ → Priority → Db → Option Candidate → Result (Bool × Db)
enqueue_candidate_found io now document_id priority db (some current) = do
  carried (io 1) "cannot refresh queued candidate"
  let p = max priority current.priority
  ok (
    false,
    record db {
      candidates = update_where (of_document document_id) (refreshed p now) db.candidates;
    },
  )
enqueue_candidate_found io now document_id priority db none = do
  carried (io 2) "cannot enqueue candidate"
  let c : Candidate = record {
    document_id = document_id;
    priority = priority;
    generation = 1;
    created_at = now;
    updated_at = now;
  }
  ok (true, record db { candidates = db.candidates ++ c ∷ [] })

-- the transaction of EnqueueCandidate
unfoldable pub enqueue_candidate_body :
    (ℕ → Option Cause) → ℕ → ℕ → Priority → Db → Result (Bool × Db)
unfolding enqueue_candidate_found
enqueue_candidate_body io now document_id priority db = do
  carried (io 0) "cannot inspect queued candidate"
  enqueue_candidate_found io now document_id priority db
      (find_where (of_document document_id) db.candidates)

-- EnqueueCandidate
unfoldable pub enqueue_candidate : Conn → ℕ → ℕ → Priority → Db → Result Bool × Db
unfolding enqueue_candidate_body
enqueue_candidate conn now document_id priority db =
    if document_id == 0 || not (valid_priority priority)
    then (err (validation_error "invalid candidate input"), db)
    else write_context conn (enqueue_candidate_body conn.statement now document_id priority) db

-- NextCandidate
unfoldable pub next_candidate : Option Cause → Db → Result (Option Candidate)
next_candidate io db = do
  carried io "cannot inspect queued candidates"
  ok (first_by candidate_before db.candidates)

-- the transaction of DiscardCandidate
unfoldable pub discard_candidate_body : (ℕ → Option Cause) → ℕ → ℕ → Db → Result (Bool × Db)
discard_candidate_body io document_id generation db = do
  carried (io 0) "cannot discard queued candidate"
  carried (io 1) "cannot confirm discarded candidate"
  let p = of_generation document_id generation
  ok (count_where p db.candidates == 1, record db { candidates = delete_where p db.candidates })

-- DiscardCandidate
unfoldable pub discard_candidate : Conn → ℕ → ℕ → Db → Result Bool × Db
unfolding discard_candidate_body
discard_candidate conn document_id generation db =
    if document_id == 0 || generation == 0
    then (err (validation_error "invalid candidate discard input"), db)
    else write_context conn (discard_candidate_body conn.statement document_id generation) db

-- what ResolveCandidate returns: the job, whether it is new, and whether the candidate was there.
pub record Resolution : Type 0 where
  pub job : Option Job
  pub created : Bool
  pub resolved : Bool

unfoldable pub resolve_candidate_found :
    (ℕ → Option Cause) → ℕ → ℕ → ℕ → EnqueueInput → Db → Option Candidate → Result (Resolution × Db)
resolve_candidate_found io now document_id generation input db none =
    ok (record { job = none; created = false; resolved = false }, db)
resolve_candidate_found io now document_id generation input db (some candidate) = do
  r ← enqueue (λ k. io (k + 1)) now (record input { priority = candidate.priority }) db
  carried (io 6) "cannot delete resolved candidate"
  carried (io 7) "cannot confirm resolved candidate"
  let p = of_generation document_id generation
  let after = r.1
  if count_where p after.candidates == 1
      then ok (
        record { job = some r.0.0; created = r.0.1; resolved = true },
        record after { candidates = delete_where p after.candidates },
      )
      else err (validation_error "candidate changed during resolution")

-- the transaction of ResolveCandidate
unfoldable pub resolve_candidate_body :
    (ℕ → Option Cause) → ℕ → ℕ → ℕ → EnqueueInput → Db → Result (Resolution × Db)
unfolding resolve_candidate_found
resolve_candidate_body io now document_id generation input db = do
  carried (io 0) "cannot inspect queued candidate"
  resolve_candidate_found io now document_id generation input db
      (find_where (of_generation document_id generation) db.candidates)

-- ResolveCandidate
unfoldable pub resolve_candidate : Conn → ℕ → ℕ → ℕ → EnqueueInput → Db → Result Resolution × Db
unfolding resolve_candidate_body
resolve_candidate conn now document_id generation input db =
    if document_id == 0
      || generation == 0
      || not (input.document_id == document_id)
      || not (valid_enqueue_input input)
    then (err (validation_error "invalid candidate resolution input"), db)
    else write_context conn (resolve_candidate_body conn.statement now document_id generation input)
        db
