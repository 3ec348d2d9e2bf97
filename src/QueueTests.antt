-- ===== src/QueueTests.antt =====
-- Concrete runs of DepthContext and beginImmediate of internal/queue/queue.go.
use paperless_ai_ocr.Prelude.{suc, refl, none, some, List, [], ◌∷◌, leb, if◌then◌else◌}
use paperless_ai_ocr.Saferr.{deadline_exceeded}
use paperless_ai_ocr.Queue.Transaction.{healthy}
use paperless_ai_ocr.Queue.Calls.{Call}
use paperless_ai_ocr.Queue.Begin.{busy, begun, Waiting, begin_immediate, Ends, begin_immediate-Ends}

abbrev calls : List Call
calls =
    Call.enqueue healthy 10 (record {
      document_id = 7;
      source_checksum = "abc";
      priority = 100;
      model = "vision";
      prompt_version = "1";
    })
    ∷ Call.claim healthy 20 "worker" 60
    ∷ []

-- busy twice, and the deadline of the wait at the fourth attempt
abbrev waiting : Waiting
waiting = record {
  pragma = none;
  begin = λ k. if leb k 1 then busy else begun;
  expired = λ k. if leb k 2 then none else some deadline_exceeded;
}

begin_immediate-Ends_example : Ends waiting 3 (begin_immediate waiting (suc 3))
begin_immediate-Ends_example = begin_immediate-Ends waiting 3 refl
