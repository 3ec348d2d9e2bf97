-- ===== src/WorkerTests.antt =====
-- A run of the worker on a document of two pages: the first was transcribed in an earlier run, the
-- second is in this one; and the theorems at that run.
use paperless_ai_ocr.Prelude.{
  ℕ, ◌+◌, String, ◌≡◌, refl, inr, true, false, Option, none, some, List, [], ◌∷◌, map, arith,
  if◌then◌else◌, count_where, select_where, update_where, find_where, first_by,
}
use paperless_ai_ocr.Saferr
use paperless_ai_ocr.Text.{blank, no_control}
use paperless_ai_ocr.Saferr.{ok, err, is_ok}
use paperless_ai_ocr.Queue.Model.{State, processing, pending, completed, Job, BatchRange, Batch}
use paperless_ai_ocr.Queue.Transaction.{healthy, write_context, update_one}
use paperless_ai_ocr.Queue.Leases
use paperless_ai_ocr.Queue.Batches
use paperless_ai_ocr.Queue.Calls.{run_all}
use paperless_ai_ocr.Queue.Failures
use paperless_ai_ocr.Queue.Plans.{ensure_batches-plan}
use paperless_ai_ocr.Queue.Valid.{
  valid_batch_ranges, valid_following, valid_batch_range, same_batch_plan,
}
use paperless_ai_ocr.Ocr.Bytes.{Bytes, ascii, bytes_eq}
use paperless_ai_ocr.Ocr.Model as Model
use paperless_ai_ocr.Ocr.Validate.{
  JsonReader, validate, readable, validate_decoded, validate_pages, accept_pages, accept_fields,
}
use paperless_ai_ocr.Ocr.Canonical.Again.{raw_of, canonical_value}
use paperless_ai_ocr.Ocr.Fields.Shape.{value_tokens}
use paperless_ai_ocr.Ocr.Utf8.{valid_string, read_bytes, read_byte, first_byte, runes}
use paperless_ai_ocr.Ocr.Meta.{suspicious_non_transcription}
use paperless_ai_ocr.Ocr.Valid.{valid_batch, valid_range, valid_pages, valid_text, blank_text}
use paperless_ai_ocr.Ocr.Join.{join, heading}
use paperless_ai_ocr.Ocr.Fields.{accepts_fields, next_object_key, is_page_field}
use paperless_ai_ocr.Ocr.Escapes.{valid_json_unicode_escapes}
use paperless_ai_ocr.Ocr.Keys.{literal_object_keys}
use paperless_ai_ocr.Ocr.Canonical.{marshal, validate_canonical}
use paperless_ai_ocr.Ocr.Decimal.{decimal}
use paperless_ai_ocr.OcrTests.{ascii_tables, two_pages}
use paperless_ai_ocr.Worker.Plan.{page_images, plan_ranges, plan_loop, plan_from}
use paperless_ai_ocr.Worker.Transcribe as Transcribe
use paperless_ai_ocr.Worker.Transcribe.{
  transcribed, request_transcription, attempt_once, renewal, after_renewal, after_reply,
}
use paperless_ai_ocr.Worker.World.{
  done, Env, World, stored, ask, checked, check_context, give, stop, ◌>>=◌, ◌>>◌,
}
use paperless_ai_ocr.Worker.Steps.{
  Options, process_batches, batch_of, kept, renew, render_transcribe_and_checkpoint,
  transcribe_and_checkpoint, transcribe, validated, checkpoint, accept_rendered,
}
use paperless_ai_ocr.Worker.Process.{
  Produced, content_of, process, claimed_job as is_claimed, resume, fresh, in_workspace, closing,
  same_source, by_images, ensure,
}
use paperless_ai_ocr.Worker.Fallback.{OtherPlan, after_direct-OtherPlan}
use paperless_ai_ocr.Worker.Process.{after_direct}
use paperless_ai_ocr.Worker.Asked.{is_done}
use paperless_ai_ocr.Worker.Whole.{Covers, content_of-all}
use paperless_ai_ocr.Worker.Run.{run, after_process, run-Covers}

abbrev page_text : Bytes → List Model.Page
page_text raw =
    if bytes_eq raw (ascii "1")
    then record { number = 1; text = ascii "Hello\n" } ∷ []
    else record { number = 2; text = ascii "World" } ∷ []

-- the answers of these tests are "1" and "2"
abbrev two_answers : JsonReader
two_answers = record {
  tokens = λ raw. value_tokens (canonical_value (page_text raw)) [];
  decode = λ raw. some (record { pages = some (map raw_of (page_text raw)) });
  ends = λ _. true;
}

abbrev options : Options
options = record {
  model = "vision";
  prompt_version = "1";
  batch_size = 1;
  render_dpi = 200;
  model_attempts = 3;
  lease = 60;
  retry_delay = 10;
  capability = page_images;
  unicode = ascii_tables;
  json = two_answers;
  text = λ _. "2";
  bytes = ascii;
  falls_back = λ _. false;
  eligible = λ _ _. false;
}

abbrev claimed_job : Job
claimed_job = record {
  id = 1;
  document_id = 7;
  source_checksum = "abc";
  priority = 100;
  state = processing;
  attempts = 1;
  available_at = 10;
  lease_owner = some "worker";
  lease_expires_at = some 80;
  model = "vision";
  prompt_version = "1";
  error_category = none;
  error_message = none;
  created_at = 10;
  updated_at = 20;
  completed_at = none;
}

abbrev range : ℕ → BatchRange
range page = record { first_page = page; last_page = page }

abbrev checkpoint_row : ℕ → State → Option String → Batch
checkpoint_row page state text = record {
  id = page;
  job_id = 1;
  first_page = page;
  last_page = page;
  render_dpi = 200;
  render_format = "png";
  state = state;
  result_text = text;
  created_at = 10;
  updated_at = 10;
  completed_at = none;
}

abbrev rows : List Batch
rows = checkpoint_row 1 completed (some "1") ∷ checkpoint_row 2 pending none ∷ []

abbrev at_work : World
at_work = record {
  step = 0;
  db = record {
    jobs = claimed_job ∷ [];
    candidates = [];
    batches = rows;
    finalizations = [];
    controls = [];
  };
  asked = [];
}

abbrev model_answers : Transcribe.Env
model_answers = record {
  conn = λ n. healthy;
  now = λ n. 20 + n;
  between = λ n. [];
  context_before = λ n. none;
  context_after = λ n. none;
  reply = λ n. transcribed "2";
  sleep = λ n. none;
  jitter = λ n. n;
}

abbrev answers : Env
answers = record {
  conn = λ n. healthy;
  now = λ n. 20 + n;
  worker_now = λ n. 20 + n;
  context = λ n. none;
  between = λ n. [];
  document = λ n. inr (record { id = 7; checksum = "abc"; content = ""; tags = [] });
  workspace = λ n. inr tt;
  download = λ n. inr "digest";
  pages = λ n. inr 2;
  source = λ n. inr [];
  rendered = λ n. inr (record { number = 2; size = 1000; readable = true } ∷ []);
  attempts = λ n. model_answers;
}

abbrev two_pages_produced : Produced
two_pages_produced = record {
  job_id = 1;
  document_id = 7;
  source_checksum = "abc";
  download_sha256 = "digest";
  content = two_pages;
}

run-done : (run options answers claimed_job false false at_work).0 ≡ done two_pages_produced
unfolding run run_all process is_claimed resume fresh in_workspace closing same_source content_of
    by_images ensure process_batches batch_of kept renew render_transcribe_and_checkpoint
    transcribe_and_checkpoint transcribe validated checkpoint accept_rendered after_process stored
    ask checked check_context give stop ◌>>=◌ ◌>>◌ Saferr.◌>>=◌ Saferr.◌>>◌ Leases.renew_lease
    Leases.require_active_lease Leases.update_job Batches.ensure_batches Batches.ensure_batches_body
    Batches.ensure_listed Batches.list_batches Batches.order_by_page Batches.insert_by_page
    Batches.checkpoint_batch Batches.checkpoint_batch_body Batches.checkpoint_found
    Failures.terminal_failure Failures.terminal_failure_body Failures.success_finalization_started
    Failures.success_started_body write_context update_one valid_batch_ranges valid_following
    valid_batch_range same_batch_plan plan_ranges plan_loop plan_from count_where select_where
    update_where find_where first_by blank no_control request_transcription attempt_once renewal
    after_renewal after_reply validate_canonical marshal join valid_batch valid_range valid_pages
    valid_text valid_string read_bytes read_byte first_byte blank_text runes
    suspicious_non_transcription heading decimal validate readable valid_json_unicode_escapes
    literal_object_keys accepts_fields next_object_key is_page_field value_tokens validate_decoded
    validate_pages accept_pages accept_fields
run-done = refl

run-Covers_example : (false ≡ false) × ((count : ℕ) × Covers count two_pages)
run-Covers_example =
    run-Covers options answers claimed_job (omega arith) (omega arith) false false at_work
      (run options answers claimed_job false false at_work).1 two_pages_produced
      (λ i. (run-done i, (run options answers claimed_job false false at_work).1))

content_of-done : (content_of options answers claimed_job page_images 2 at_work).0 ≡ done two_pages
unfolding run_all content_of by_images ensure process_batches batch_of kept renew
    render_transcribe_and_checkpoint transcribe_and_checkpoint transcribe validated checkpoint
    accept_rendered stored ask checked check_context give stop ◌>>=◌ ◌>>◌ Saferr.◌>>=◌ Saferr.◌>>◌
    Leases.renew_lease Leases.require_active_lease Leases.update_job Batches.ensure_batches
    Batches.ensure_batches_body Batches.ensure_listed Batches.list_batches Batches.order_by_page
    Batches.insert_by_page Batches.checkpoint_batch Batches.checkpoint_batch_body
    Batches.checkpoint_found Failures.terminal_failure Failures.terminal_failure_body
    Failures.success_finalization_started Failures.success_started_body write_context update_one
    valid_batch_ranges valid_following valid_batch_range same_batch_plan plan_ranges plan_loop
    plan_from count_where select_where update_where find_where first_by blank no_control
    request_transcription attempt_once renewal after_renewal after_reply validate_canonical marshal
    join valid_batch valid_range valid_pages valid_text valid_string read_bytes read_byte first_byte
    blank_text runes suspicious_non_transcription heading decimal validate readable
    valid_json_unicode_escapes literal_object_keys accepts_fields next_object_key is_page_field
    value_tokens validate_decoded validate_pages accept_pages accept_fields
content_of-done = refl

content_of-all_example : Covers 2 two_pages
content_of-all_example =
    content_of-all options answers claimed_job (omega arith) (omega arith) page_images 2 at_work
      (content_of options answers claimed_job page_images 2 at_work).1 two_pages
      (λ i. (content_of-done i, (content_of options answers claimed_job page_images 2 at_work).1))

abbrev two_ranges : List BatchRange
two_ranges = range 1 ∷ range 2 ∷ []

ensured :
    (Batches.ensure_batches healthy 20 20 1 1 "worker" two_ranges 200 "png" at_work.db).0 ≡ ok rows
unfolding write_context Batches.ensure_batches Batches.ensure_batches_body Batches.ensure_listed
    Batches.list_batches Batches.order_by_page Batches.insert_by_page Leases.require_active_lease
    valid_batch_ranges valid_following valid_batch_range same_batch_plan count_where select_where
    find_where first_by blank Saferr.◌>>=◌ Saferr.◌>>◌
ensured = refl

ensure_batches-plan_example :
    (valid_batch_ranges two_ranges ≡ true) × (same_batch_plan rows two_ranges 200 "png" ≡ true)
ensure_batches-plan_example =
    ensure_batches-plan healthy 20 20 1 1 "worker" two_ranges 200 "png" at_work.db rows ensured

abbrev both_pages : BatchRange
both_pages = record { first_page = 1; last_page = 2 }

abbrev answer : Model.Batch × Bytes
answer = (record { first_page = 1; last_page = 2; pages = [] }, ascii "{}")

-- The checkpoints are of two ranges of one page each.
page_by_page : OtherPlan 1 (both_pages ∷ []) 200 "png" at_work.db
unfolding Batches.list_batches Batches.order_by_page Batches.insert_by_page select_where
    same_batch_plan
page_by_page =
    (checkpoint_row 1 completed (some "1"), (checkpoint_row 2 pending none ∷ [], (refl, refl)))

after_direct-OtherPlan_example :
    is_done (after_direct options answers claimed_job 2 both_pages (inr answer) at_work).0 ≡ false
after_direct-OtherPlan_example =
    after_direct-OtherPlan options answers claimed_job 2 both_pages answer at_work
      (unfold run_all in page_by_page)
