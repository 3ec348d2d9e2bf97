-- ===== src/Lib.antt =====
-- A model of paperless-ai-ocr, a service that finds documents in Paperless that have no text layer,
-- transcribes their pages with a vision model, and writes the text back.
--
-- The parts and how they interact. internal/queue keeps the jobs, the batches of a job and the
-- checkpoints of its finalization in SQLite; every other part changes them only by its methods.
-- internal/reconcile and the webhook enqueue documents; internal/worker claims the one active job,
-- plans page ranges, transcribes them and checkpoints each; internal/finalize writes the text and
-- the tags to Paperless and dispatches the document downstream, one durable stage after another.
--
-- Which file models what:
-- - Saferr: internal/saferr/saferr.go, errors with a category, and results as values.
-- - Text: the tests on strings of internal/queue/queue.go.
-- - Queue/Model: internal/queue/model.go and the tables of internal/database/migrations.
-- - Queue/Valid, Queue/Transaction, Queue/Enqueue, Queue/Candidates, Queue/Leases,
--   Queue/Transitions, Queue/Batches, Queue/Finalizing, Queue/Failures: internal/queue/queue.go,
--   one function for each method, under the name of the method in snake case without `Context`
--   where that is unambiguous: claim is Claim, renew_lease is RenewLeaseContext,
--   acquire_finalization is AcquireFinalizationContext. A function named after its method with
--   _body is the function that the method hands to writeContext.
-- - Queue/Depth, Queue/Begin: DepthContext, and the loop of beginImmediate.
-- - Queue/Calls: a call of any method that writes, and the tables after it. BEGIN IMMEDIATE
--   serialises the writers, so an interleaving of callers is a sequence of calls.
-- - Queue/Jobs: the invariant of the table of jobs, the abstract queue, and the life of one job;
--   Queue/Fence, Queue/ClaimOrder, Queue/Stages, Queue/Dispatches (with StageSteps and
--   DispatchSteps beside them), Queue/Errors: what the calls do to leases, the order, the
--   finalization and the tables; Queue/Columns: which tables they leave.
-- - Ocr/Bytes, Ocr/Utf8, Ocr/Decimal: Go strings as bytes, and what the standard library does to
--   them; Ocr/Draft: BoundDraft; Ocr/Model, Ocr/Valid, Ocr/Meta: the types, validBatch and
--   suspiciousNonTranscription of internal/ocr/validate.go; Ocr/Join: Join, with Join/Sizes (when it
--   succeeds) and Join/RoundTrip (its pages read back); Ocr/Escapes, Ocr/Keys, Ocr/Fields: the
--   checks of the raw JSON, with Ocr/Lexemes and Fields/Shape, which describe JSON without them;
--   Ocr/Validate, Ocr/Canonical: Validate and ValidateCanonical, with Canonical/Again (its result
--   validated again) and Canonical/TooLong (where that is refused).
-- - Worker/Plan, Worker/Backoff, Worker/Transcribe: planRanges, backoffDelay and the loop of
--   transcribe of internal/worker/worker.go; Worker/Attempts: how that loop asks and waits.
-- - Worker/World: what a run of the worker reads and changes; Worker/Steps, Worker/Process,
--   Worker/Run: the rest of internal/worker/worker.go, a function for each method, its name in snake
--   case, and Process as run; Worker/Aligned, Worker/Whole: which pages the content has, with the
--   rules of Worker/Delivers and Queue/Plans; Worker/Asked: which ranges the model is asked for;
--   Worker/Fallback: a run after one that fell back to page images.
-- - Finalize/World: what a run of the finalizer reads and changes, and its steps as a small monad;
--   Finalize/Steps, Finalize/Process, Finalize/Run: internal/finalize/finalize.go; Finalize/Runs:
--   runs one after another; Finalize/Hoare, Finalize/Steady, Finalize/Reserving, Finalize/Bodies,
--   Finalize/AtMostOnce, with Queue/Engaged and Queue/Reservation: how often a job is dispatched.
-- - Reconcile/World, Reconcile/Checkpoint, Reconcile/Passes: internal/reconcile/reconcile.go, with
--   RunOnce as run_once; Reconcile/Triples: rules for its steps; Reconcile/Visited,
--   Reconcile/Sound, Reconcile/Idle, Reconcile/Pages, Reconcile/Scan: which pages it asks for, and
--   the checkpoint that it leaves.
-- - Tests, QueueTests, OcrTests, FinalizeTests, WorkerTests, ReconcileTests: concrete runs.
--
-- A table is the list of its rows, and a statement of SQL is its effect on that list: what WHERE
-- selects, what SET writes, how ORDER BY … LIMIT 1 picks. What SQLite answers to a statement is a
-- parameter (Conn): it carries the statement out, or fails with a cause, and then writeContext
-- rolls back. A constraint of the schema is not raised by the model; those of the table of jobs are
-- part of the invariant in Queue/Jobs/Valid. An instant is a number of nanoseconds, and each call
-- carries the instants that it reads, in any order. A signed integer that the code rejects unless
-- it is positive is a natural number, with 0 for every rejected value; ids, attempts and pages are
-- not bounded by 2 ^ 63.
--
-- In Ocr a Go string is its bytes, and the UTF-8 of utf8.ValidString is the automaton of its table.
-- Parameters are the tables of the package unicode (Unicode) and what encoding/json reads of an
-- answer (JsonReader): its tokens, the decoded batch, and whether the end follows. The JSON that
-- json.Marshal writes of the canonical pages is defined.
--
-- A run of the finalizer is a sequence of steps on a World: the tables, and the requests sent so
-- far. Each step takes its answer from an Env by its number: the clock, SQLite, the context,
-- Paperless, the dispatcher, the heartbeat, and the calls that others make on the queue just before
-- it. Runs follow one another, as the guard of Finalizer makes them in one process.
--
-- A run of the worker is a sequence of steps on a World of its own: the tables, and the ranges that
-- the model was asked for. Paperless, the download, the inspection of the PDF, the renderer and the
-- workspace are answers of its Env; string(canonical), []byte(text), the two tests that make a run
-- fall back to page images and aigate.DirectPDFEligible are functions of Options. The draft, which
-- only the model reads, and the observers, which change nothing, are left out.
--
-- A pass of the reconciler has such a World too: the tables, its row of settings, its report, and
-- the documents and pages that it asked for. Its Options hold url.Parse, the hexadecimal SHA-256,
-- hex.DecodeString and the JSON of a checkpoint as functions; Codec is what the theorems rely on.
-- Its loops recur on the number of rounds that a pass has left.
--
-- Bounds and fuel. The loop of planRanges runs on fuel, one more than the number of pages, and
-- every step passes at least one page; the batch size is positive. The loop of transcribe recurs on
-- the attempts that are left. The loop of beginImmediate ends when the context of its wait is done;
-- it runs on fuel, one more than the number of that attempt. strings.ToValidUTF8 has the length of
-- the string as fuel, and decimal its number; each round of rejectDuplicateFields takes one of as
-- much fuel as there are tokens, and one more: Fields/Shape shows that a value needs no more than
-- its tokens. All other loops are structural.
--
-- Not modelled: the text of instants, the HTTP clients (internal/aigate, internal/paperless,
-- internal/paperlessai), PDF rendering (internal/pdf), configuration, logging, metrics and the
-- entry point, which are input and output; the prompts of internal/ocr; and of
-- internal/worker/worker.go the construction of a worker, the timer of the heartbeat and of a wait,
-- and the reading of the file.
pub mod Prelude
pub mod Text
pub mod Saferr
pub mod Queue
pub mod Ocr
pub mod Worker
pub mod Finalize
pub mod Reconcile
mod Tests
mod QueueTests
mod OcrTests
mod WorkerTests
mod FinalizeTests
mod ReconcileTests
