-- ===== src/Queue/Valid.antt =====
-- The input checks of internal/queue/queue.go. An integer that the code rejects unless it is
-- positive is a natural number, and 0 stands for every value that is not.
use paperless_ai_ocr.Prelude.{
  ℕ, ◌+◌, ◌-◌, String, Bool, true, false, not, ◌&&◌, ◌||◌, List, [], ◌∷◌, leb, ltb, ◌==◌, str_eq,
}
use paperless_ai_ocr.Text.{blank, no_control, byte_length}
use paperless_ai_ocr.Saferr.{
  Category, configuration, paperless, provider, validation, rendering, internal, other, Cause,
  Error, new, wrap,
}
use paperless_ai_ocr.Queue.Model.{
  Priority, priority_backfill, priority_webhook, EnqueueInput, SafeDiagnostic, BatchRange, Batch,
}

-- validationError
abbrev pub validation_error : String → Error
validation_error message = new validation message

-- internalError
abbrev pub internal_error : String → Cause → Error
internal_error message cause = wrap internal message cause

-- Priority.valid
unfoldable pub valid_priority : Priority → Bool
valid_priority priority = priority == priority_backfill || priority == priority_webhook

-- validEnqueueInput
unfoldable pub valid_enqueue_input : EnqueueInput → Bool
unfolding valid_priority
valid_enqueue_input input =
    ltb 0 input.document_id
    && valid_priority input.priority
    && not (blank input.source_checksum)
    && not (blank input.model)
    && not (blank input.prompt_version)

abbrev pub max_diagnostic_message_bytes : ℕ
max_diagnostic_message_bytes = 256

-- validDiagnosticCategory
unfoldable pub valid_diagnostic_category : Category → Bool
valid_diagnostic_category configuration = true
valid_diagnostic_category paperless = true
valid_diagnostic_category provider = true
valid_diagnostic_category validation = true
valid_diagnostic_category rendering = true
valid_diagnostic_category internal = true
valid_diagnostic_category (other _) = false

-- SafeDiagnostic.valid
unfoldable pub valid_diagnostic : SafeDiagnostic → Bool
unfolding valid_diagnostic_category
valid_diagnostic diagnostic =
    valid_diagnostic_category diagnostic.category
    && not (blank diagnostic.message)
    && leb (byte_length diagnostic.message) max_diagnostic_message_bytes
    && no_control diagnostic.message

-- validBatchRange
unfoldable pub valid_batch_range : BatchRange → Bool
valid_batch_range r =
    ltb 0 r.first_page && leb r.first_page r.last_page && ltb (r.last_page - r.first_page) 5

-- the loop of validBatchRanges past the first range
unfoldable pub valid_following : ℕ → List BatchRange → Bool
valid_following previous_last [] = true
valid_following previous_last (r ∷ rs) =
    valid_batch_range r && r.first_page == previous_last + 1 && valid_following r.last_page rs

-- validBatchRanges
unfoldable pub valid_batch_ranges : List BatchRange → Bool
valid_batch_ranges [] = false
valid_batch_ranges (r ∷ rs) =
    r.first_page == 1 && valid_batch_range r && valid_following r.last_page rs

-- sameBatchPlan
unfoldable pub same_batch_plan : List Batch → List BatchRange → ℕ → String → Bool
same_batch_plan [] [] dpi format = true
same_batch_plan [] (r ∷ rs) dpi format = false
same_batch_plan (b ∷ bs) [] dpi format = false
same_batch_plan (b ∷ bs) (r ∷ rs) dpi format =
    b.first_page == r.first_page
    && b.last_page == r.last_page
    && b.render_dpi == dpi
    && str_eq b.render_format format
    && same_batch_plan bs rs dpi format
