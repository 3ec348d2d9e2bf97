-- ===== src/Finalize/Runs.antt =====
-- Runs of Process and FailOCR of internal/finalize/finalize.go one after another, with the calls
-- that other parts make on the queue before, between and during them.
use paperless_ai_ocr.Prelude.{ℕ, String, ◌≡◌, false, Option, none, List, [], ◌∷◌, All}
use paperless_ai_ocr.Queue.Model.{Job}
use paperless_ai_ocr.Queue.Calls.{Call, run_all, empty}
use paperless_ai_ocr.Queue.Engaged.{sets_dispatch}
use paperless_ai_ocr.Finalize.World.{Env, World}
use paperless_ai_ocr.Finalize.Process.{WorkerResult}
use paperless_ai_ocr.Finalize.Run.{process_job, fail_job}
use paperless_ai_ocr.Finalize.Hoare.{Quiet}

-- one run, with what it is given: the answers, the lease duration, the retry delay, the job, the
-- token, and the result of the worker
pub data Run : Type 0 where
  processed : Env → ℕ → ℕ → Job → Option String → WorkerResult → Run
  failed_ocr : Env → ℕ → ℕ → Job → Option String → Run
  meanwhile : List Call → Run

unfoldable pub run_once : Run → World → World
run_once (processed env lease delay job token result) w =
    (process_job env lease delay job token result w).1
run_once (failed_ocr env lease delay job token) w = (fail_job env lease delay job token w).1
run_once (meanwhile calls) w = record w { db = run_all calls w.db }

unfoldable pub run_each : List Run → World → World
unfolding run_once
run_each [] w = w
run_each (r ∷ rs) w = run_each rs (run_once r w)

-- Only the finalizer sets the dispatch state.
abbrev pub QuietRun : Run → Type 0
QuietRun (processed env lease delay job token result) = Quiet env
QuietRun (failed_ocr env lease delay job token) = Quiet env
QuietRun (meanwhile calls) = All (λ c. sets_dispatch c ≡ false) calls

-- a new database, before any request
abbrev pub start : World
start = record { step = 0; db = empty; effects = []; stopped = none; active = false }
