-- ===== src/FinalizeTests.antt =====
-- Concrete runs of the finalizer, and the theorem at one.
use paperless_ai_ocr.Prelude.{◌+◌, inr, false, none, some, List, [], ◌∷◌}
use paperless_ai_ocr.Queue.Model.{processing, EnqueueInput, Job}
use paperless_ai_ocr.Queue.Transaction.{healthy}
use paperless_ai_ocr.Queue.Calls.{Call}
use paperless_ai_ocr.Finalize.World.{Document, Answer, accepted, Env}
use paperless_ai_ocr.Finalize.Process.{WorkerResult}
use paperless_ai_ocr.Finalize.Runs.{Run, processed, meanwhile}

abbrev input : EnqueueInput
input = record {
  document_id = 7;
  source_checksum = "abc";
  priority = 100;
  model = "vision";
  prompt_version = "1";
}

abbrev claimed_job : Job
claimed_job = record {
  id = 1;
  document_id = 7;
  source_checksum = "abc";
  priority = 100;
  state = processing;
  attempts = 1;
  available_at = 10;
  lease_owner = some "worker";
  lease_expires_at = some 80;
  model = "vision";
  prompt_version = "1";
  error_category = none;
  error_message = none;
  created_at = 10;
  updated_at = 20;
  completed_at = none;
}

abbrev document : Document
document = record { id = 7; checksum = "abc"; content = ""; tags = [] }

-- everything is carried out, and the dispatch is answered as given
abbrev answering : Answer → Env
answering a = record {
  conn = λ n. healthy;
  now = λ n. 30 + n;
  context = λ n. none;
  between = λ n. [];
  document = λ n. inr document;
  tag = λ n. inr 5;
  written = λ n. inr tt;
  dispatch = λ n. a;
  lease_lost = λ n. false;
}

abbrev result : WorkerResult
result = record { job_id = 1; document_id = 7; source_checksum = "abc"; content = "text" }

abbrev one_run : List Run
one_run =
    meanwhile (Call.enqueue healthy 10 input ∷ Call.claim healthy 20 "worker" 60 ∷ [])
    ∷ processed (answering accepted) 60 10 claimed_job (some "token") result
    ∷ processed (answering accepted) 60 10 claimed_job (some "token") result
    ∷ []
