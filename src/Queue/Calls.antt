-- ===== src/Queue/Calls.antt =====
-- The calls that write to the queue, as an explicit sequence of steps: internal/queue/queue.go
-- serialises them by BEGIN IMMEDIATE, so any interleaving of callers is such a sequence. Each call
-- carries the instants that it reads from the clock, in any order, and what SQLite answers.
use paperless_ai_ocr.Prelude.{ℕ, String, List, [], ◌∷◌}
use paperless_ai_ocr.Queue.Model.{
  FinalizationStage, DispatchState, Priority, EnqueueInput, SafeDiagnostic, BatchRange, Db,
}
use paperless_ai_ocr.Queue.Transaction.{Conn}
use paperless_ai_ocr.Queue.Enqueue
use paperless_ai_ocr.Queue.Candidates
use paperless_ai_ocr.Queue.Leases
use paperless_ai_ocr.Queue.Transitions
use paperless_ai_ocr.Queue.Batches
use paperless_ai_ocr.Queue.Finalizing
use paperless_ai_ocr.Queue.Failures

-- the claim generation that a worker names in a call: the clock, the job, the attempt, the owner
pub record Key : Type 0 where
  pub now : ℕ
  pub id : ℕ
  pub attempt : ℕ
  pub owner : String

pub data Call : Type 0 where
  enqueue : Conn → ℕ → EnqueueInput → Call
  enqueue_candidate : Conn → ℕ → ℕ → Priority → Call
  discard_candidate : Conn → ℕ → ℕ → Call
  resolve_candidate : Conn → ℕ → ℕ → ℕ → EnqueueInput → Call
  claim : Conn → ℕ → String → ℕ → Call
  recover : Conn → ℕ → Call
  retry_failed : Conn → ℕ → ℕ → ℕ → ℕ → Call
  renew : Conn → Key → ℕ → Call
  release : Conn → Key → Call
  schedule_retry : Conn → Key → ℕ → SafeDiagnostic → Call
  complete : Conn → Key → Call
  fail : Conn → Key → SafeDiagnostic → Call
  ensure_batches : Conn → Key → ℕ → List BatchRange → ℕ → String → Call
  list_batches : Conn → Key → Call
  checkpoint_batch : Conn → Key → BatchRange → ℕ → String → String → Call
  acquire : Conn → Key → String → ℕ → Call
  finalization_state : Conn → Key → String → Call
  renew_finalization : Conn → Key → String → ℕ → Call
  advance : Conn → Key → String → FinalizationStage → FinalizationStage → Call
  set_dispatch : Conn → Key → String → DispatchState → DispatchState → Call
  record_failure : Conn → Key → SafeDiagnostic → Call
  success_started : Conn → Key → Call
  terminal_failure : Conn → Key → Call

-- the tables after a call
unfoldable pub run : Call → Db → Db
run (enqueue c now input) db = (Enqueue.enqueue_context c now input db).1
run (enqueue_candidate c now document_id priority) db =
    (Candidates.enqueue_candidate c now document_id priority db).1
run (discard_candidate c document_id generation) db =
    (Candidates.discard_candidate c document_id generation db).1
run (resolve_candidate c now document_id generation input) db =
    (Candidates.resolve_candidate c now document_id generation input db).1
run (claim c now owner duration) db = (Leases.claim c now owner duration db).1
run (recover c now) db = (Leases.recover_expired_leases c now db).1
run (retry_failed c checked_at now id available_at) db =
    (Transitions.retry_failed c checked_at now id available_at db).1
run (renew c k duration) db = (Leases.renew_lease c k.now k.id k.attempt k.owner duration db).1
run (release c k) db = (Leases.release c k.now k.id k.attempt k.owner db).1
run (schedule_retry c k available_at d) db =
    (Transitions.schedule_retry c k.now k.id k.attempt k.owner available_at d db).1
run (complete c k) db = (Transitions.complete c k.now k.id k.attempt k.owner db).1
run (fail c k d) db = (Transitions.fail c k.now k.id k.attempt k.owner d db).1
run (ensure_batches c k now ranges dpi format) db =
    (Batches.ensure_batches c k.now now k.id k.attempt k.owner ranges dpi format db).1
run (list_batches c k) db = (Batches.list_batches_context c k.now k.id k.attempt k.owner db).1
run (checkpoint_batch c k r dpi format text) db =
    (Batches.checkpoint_batch c k.now k.id k.attempt k.owner r dpi format text db).1
run (acquire c k token duration) db =
    (Finalizing.acquire_finalization c k.now k.id k.attempt k.owner token duration db).1
run (finalization_state c k token) db =
    (Finalizing.finalization_state c k.now k.id k.attempt k.owner token db).1
run (renew_finalization c k token duration) db =
    (Finalizing.renew_finalization c k.now k.id k.attempt k.owner token duration db).1
run (advance c k token from to) db =
    (Finalizing.advance_finalization c k.now k.id k.attempt k.owner token from to db).1
run (set_dispatch c k token from to) db =
    (Finalizing.set_dispatch_state c k.now k.id k.attempt k.owner token from to db).1
run (record_failure c k d) db =
    (Failures.record_terminal_failure c k.now k.id k.attempt k.owner d db).1
run (success_started c k) db =
    (Failures.success_finalization_started c k.now k.id k.attempt k.owner db).1
run (terminal_failure c k) db = (Failures.terminal_failure c k.now k.id k.attempt k.owner db).1

-- the tables after a sequence of calls
unfoldable pub run_all : List Call → Db → Db
run_all [] db = db
run_all (c ∷ cs) db = run_all cs (run c db)

-- the tables of a new database
abbrev pub empty : Db
empty = record { jobs = []; candidates = []; batches = []; finalizations = []; controls = [] }
