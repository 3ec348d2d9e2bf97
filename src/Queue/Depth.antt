-- ===== src/Queue/Depth.antt =====
-- DepthContext of internal/queue/queue.go: how many jobs are in each state.
use paperless_ai_ocr.Prelude.{ℕ, ◌+◌, Bool, true, false, Option, List, count_where}
use paperless_ai_ocr.Saferr.{Cause, Result, ok, ◌>>◌}
use paperless_ai_ocr.Queue.Model.{
  State, processing, retry, completed, failed, Job, Db, is_processing, is_completed, is_failed,
  is_pending,
}
use paperless_ai_ocr.Queue.Transaction.{carried}

-- the map from states to counts, which has every fixed state
pub record Depth : Type 0 where
  pub pending : ℕ
  pub processing : ℕ
  pub retry : ℕ
  pub completed : ℕ
  pub failed : ℕ

abbrev pub is_retry : State → Bool
is_retry retry = true
is_retry _ = false

-- SELECT state, count(*) FROM jobs GROUP BY state: a state without a row keeps 0.
abbrev pub depth_of : List Job → Depth
depth_of js = record {
  pending = count_where (λ r. is_pending r.state) js;
  processing = count_where (λ r. is_processing r.state) js;
  retry = count_where (λ r. is_retry r.state) js;
  completed = count_where (λ r. is_completed r.state) js;
  failed = count_where (λ r. is_failed r.state) js;
}

-- DepthContext, with what SQLite answers to the query
unfoldable pub depth_context : Option Cause → Db → Result Depth
depth_context io db = do carried io "cannot count queued jobs"; ok (depth_of db.jobs)

abbrev pub total : Depth → ℕ
total d = d.pending + d.processing + d.retry + d.completed + d.failed
