-- ===== src/Queue/Batches.antt =====
-- The batch checkpoints of internal/queue/queue.go: EnsureBatchesContext, ListBatchesContext,
-- CheckpointBatchContext.
use paperless_ai_ocr.Prelude.{
  ℕ, suc, max, String, Bool, not, ◌&&◌, ◌||◌, Option, none, some, List, [], ◌∷◌, ◌++◌, str_eq, ltb,
  ◌==◌, if◌then◌else◌, select_where, find_where,
}
use paperless_ai_ocr.Text.{blank}
use paperless_ai_ocr.Saferr.{Cause, Result, ok, err, ◌>>=◌, ◌>>◌}
use paperless_ai_ocr.Queue.Model.{State, BatchRange, Batch, Db, is_completed, is_pending}
use paperless_ai_ocr.Queue.Valid.{
  validation_error, valid_batch_range, valid_batch_ranges, same_batch_plan,
}
use paperless_ai_ocr.Queue.Transaction.{Conn, carried, write_context, update_one}
use paperless_ai_ocr.Queue.Leases.{require_active_lease, invalid_claim_key}

-- ORDER BY page_start, page_end
abbrev pub page_before : Batch → Batch → Bool
page_before a b =
    ltb a.first_page b.first_page || a.first_page == b.first_page && ltb a.last_page b.last_page

unfoldable pub insert_by_page : Batch → List Batch → List Batch
insert_by_page b [] = b ∷ []
insert_by_page b (c ∷ cs) =
    let later = insert_by_page b cs in if page_before c b then c ∷ later else b ∷ c ∷ cs

unfoldable pub order_by_page : List Batch → List Batch
unfolding insert_by_page
order_by_page [] = []
order_by_page (b ∷ bs) = insert_by_page b (order_by_page bs)

-- listBatches
unfoldable pub list_batches : Option Cause → ℕ → Db → Result (List Batch)
unfolding order_by_page
list_batches io job_id db = do
  carried io "cannot load batch checkpoints"
  ok (order_by_page (select_where (λ b. b.job_id == job_id) db.batches))

unfoldable pub max_batch_id : List Batch → ℕ
max_batch_id [] = 0
max_batch_id (b ∷ bs) = max b.id (max_batch_id bs)

-- The row that INSERT gives to a planned range.
abbrev pub new_batch : ℕ → ℕ → ℕ → ℕ → String → BatchRange → Batch
new_batch id now job_id dpi format r = record {
  id = id;
  job_id = job_id;
  first_page = r.first_page;
  last_page = r.last_page;
  render_dpi = dpi;
  render_format = format;
  state = State.pending;
  result_text = none;
  created_at = now;
  updated_at = now;
  completed_at = none;
}

-- the loop over the ranges of a new plan; its statements are numbered from `k`
unfoldable pub insert_batches :
    (ℕ → Option Cause) → ℕ → ℕ → ℕ → ℕ → String → List BatchRange → List Batch → Result (List Batch)
insert_batches io k now job_id dpi format [] batches = ok batches
insert_batches io k now job_id dpi format (r ∷ rs) batches =
    let id = suc (max_batch_id batches) in
    let more =
      insert_batches io (suc k) now job_id dpi format rs
        (batches ++ new_batch id now job_id dpi format r ∷ []) in
    carried (io k) "cannot create batch checkpoints" >> more

unfoldable pub ensure_listed :
    (ℕ → Option Cause)
    → ℕ
    → ℕ
    → List BatchRange
    → ℕ
    → String
    → Db
    → List Batch
    → Result (List Batch × Db)
unfolding insert_batches list_batches
ensure_listed io now job_id ranges dpi format db (b ∷ bs) =
    if not (same_batch_plan (b ∷ bs) ranges dpi format)
    then err (validation_error "batch plan does not match existing checkpoints")
    else ok (b ∷ bs, db)
ensure_listed io now job_id ranges dpi format db [] = do
  batches ← insert_batches io 3 now job_id dpi format ranges db.batches
  let after = record db { batches = batches }
  listed ← list_batches (io 2) job_id after
  ok (listed, after)

-- the transaction of EnsureBatchesContext, which reads the clock for the lease and again for the
-- rows
unfoldable pub ensure_batches_body :
    (ℕ → Option Cause)
    → ℕ
    → ℕ
    → ℕ
    → ℕ
    → String
    → List BatchRange
    → ℕ
    → String
    → Db
    → Result (List Batch × Db)
unfolding ensure_listed list_batches
ensure_batches_body io leased_at now id attempt owner ranges dpi format db = do
  require_active_lease (io 0) leased_at id attempt owner db.jobs
  listed ← list_batches (io 1) id db
  ensure_listed io now id ranges dpi format db listed

-- EnsureBatchesContext
unfoldable pub ensure_batches :
    Conn → ℕ → ℕ → ℕ → ℕ → String → List BatchRange → ℕ → String → Db → Result (List Batch) × Db
unfolding ensure_batches_body
ensure_batches conn leased_at now id attempt owner ranges dpi format db =
    if invalid_claim_key id attempt owner
      || not (valid_batch_ranges ranges)
      || dpi == 0
      || blank format
    then (err (validation_error "invalid batch plan"), db)
    else write_context conn
        (ensure_batches_body conn.statement leased_at now id attempt owner ranges dpi format) db

-- the transaction of ListBatchesContext
unfoldable pub list_batches_body :
    (ℕ → Option Cause) → ℕ → ℕ → ℕ → String → Db → Result (List Batch × Db)
unfolding list_batches
list_batches_body io now id attempt owner db = do
  require_active_lease (io 0) now id attempt owner db.jobs
  listed ← list_batches (io 1) id db
  ok (listed, db)

-- ListBatchesContext
unfoldable pub list_batches_context : Conn → ℕ → ℕ → ℕ → String → Db → Result (List Batch) × Db
unfolding list_batches_body
list_batches_context conn now id attempt owner db =
    if invalid_claim_key id attempt owner
    then (err (validation_error "invalid batch list input"), db)
    else write_context conn (list_batches_body conn.statement now id attempt owner) db

-- the WHERE clause of one checkpoint
abbrev pub is_batch : ℕ → BatchRange → ℕ → String → Batch → Bool
is_batch job_id r dpi format b =
    b.job_id == job_id
    && b.first_page == r.first_page
    && b.last_page == r.last_page
    && b.render_dpi == dpi
    && str_eq b.render_format format

-- UPDATE batches SET state = 'completed', result_text = ?, completed_at = ?, updated_at = ?
abbrev pub checkpointed : ℕ → String → Batch → Batch
checkpointed now text b = record b {
  state = State.completed;
  result_text = some text;
  completed_at = some now;
  updated_at = now;
}

-- `existing.String == resultText`: a NULL column is read as the empty text.
abbrev pub same_text : Option String → String → Bool
same_text none text = str_eq "" text
same_text (some existing) text = str_eq existing text

unfoldable pub checkpoint_found :
    (ℕ → Option Cause)
    → ℕ
    → ℕ
    → BatchRange
    → ℕ
    → String
    → String
    → Db
    → Option Batch
    → Result (Unit {0} × Db)
unfolding update_one
checkpoint_found io now id r dpi format text db none =
    err (validation_error "batch checkpoint does not match planned range")
checkpoint_found io now id r dpi format text db (some b) =
    if is_completed b.state
    then if same_text b.result_text text
      then ok (tt, db)
      else err (validation_error "completed batch checkpoint cannot be replaced")
    else if not (is_pending b.state)
    then err (validation_error "batch checkpoint is not pending")
    else (do
      batches ←
          update_one (io 2) (io 3) (λ c. is_batch id r dpi format c && is_pending c.state)
            (checkpointed now text) db.batches
      ok (tt, record db { batches = batches }))

-- the transaction of CheckpointBatchContext
unfoldable pub checkpoint_batch_body :
    (ℕ → Option Cause)
    → ℕ
    → ℕ
    → ℕ
    → String
    → BatchRange
    → ℕ
    → String
    → String
    → Db
    → Result (Unit {0} × Db)
unfolding checkpoint_found
checkpoint_batch_body io now id attempt owner r dpi format text db = do
  require_active_lease (io 0) now id attempt owner db.jobs
  carried (io 1) "cannot inspect batch checkpoint"
  checkpoint_found io now id r dpi format text db (find_where (is_batch id r dpi format) db.batches)

-- CheckpointBatchContext
unfoldable pub checkpoint_batch :
    Conn → ℕ → ℕ → ℕ → String → BatchRange → ℕ → String → String → Db → Result (Unit {0}) × Db
unfolding checkpoint_batch_body
checkpoint_batch conn now id attempt owner r dpi format text db =
    if invalid_claim_key id attempt owner
      || not (valid_batch_range r)
      || dpi == 0
      || blank format
      || blank text
    then (err (validation_error "invalid batch checkpoint input"), db)
    else write_context conn
        (checkpoint_batch_body conn.statement now id attempt owner r dpi format text) db
