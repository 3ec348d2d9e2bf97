-- ===== src/Finalize/AtMostOnce.antt =====
-- How often the finalizer (internal/finalize/finalize.go) dispatches a job.
use paperless_ai_ocr.Finalize.World.{World}
use paperless_ai_ocr.Finalize.Runs.{Run}
