-- ===== src/Queue/Jobs/Refinement.antt =====
-- The calls of internal/queue/queue.go, seen from the abstract queue.
use paperless_ai_ocr.Prelude.{
  ℕ, ◌+◌, ◌≤◌, String, ◌≡◌, refl, sym, ap, subst, Bool, true, false, not, ◌&&◌, Option, none, some,
  List, [], ◌∷◌, ◌++◌, arith, ltb, ◌==◌, if◌then◌else◌, and_left, first_by-eq-none, count-le-count,
  count_where, select_where, update_where, delete_where, find_where, first_by, find_where-eq-none,
}
use paperless_ai_ocr.Saferr.{
  Cause, Error, Result, ok, err, ◌>>◌, Ensures, Ensures-ok, Ensures-err, Ensures-if, Ensures-bind,
  Ensures-of, Ensures-then, ok_inj,
}
use paperless_ai_ocr.Queue.Model.{
  EnqueueInput, Candidate, SafeDiagnostic, Job, Db, is_processing, is_waiting, is_failed,
}
use paperless_ai_ocr.Queue.Valid.{validation_error}
use paperless_ai_ocr.Queue.Transaction.{
  Conn, carried, write_context, update_one, Ensures-carried, update_one-eq-ok, write_context-keeps,
}
use paperless_ai_ocr.Queue.Enqueue
use paperless_ai_ocr.Queue.Enqueue.{
  new_job, next_id, enqueue, enqueue_found, enqueue_existing, enqueue_new, enqueue_before, jobs_of,
}
use paperless_ai_ocr.Queue.Candidates
use paperless_ai_ocr.Queue.Leases
use paperless_ai_ocr.Queue.Leases.{
  claimed, update_job, claim_before, is_due, claim_body, claim_selected, release_body, recover_body,
  holds_lease, shutting_down, retried,
}
use paperless_ai_ocr.Queue.Transitions
use paperless_ai_ocr.Queue.Jobs.Step.{JobsStep}
use paperless_ai_ocr.Queue.Candidates.{
  resolve_candidate_found, resolve_candidate_body, Resolution, of_generation,
}
use paperless_ai_ocr.Queue.Transitions.{retry_failed_body, conflict_count, requeued}
use paperless_ai_ocr.Queue.Calls.{run, Call}
use paperless_ai_ocr.Queue.Jobs.Untouched.{
  jobs-enqueue_candidate, jobs-discard_candidate, jobs-ensure_batches, jobs-list_batches,
  jobs-checkpoint_batch, jobs-acquire_finalization, jobs-finalization_state,
  jobs-renew_finalization, jobs-advance_finalization, jobs-set_dispatch_state,
  jobs-record_terminal_failure, jobs-success_finalization_started, jobs-terminal_failure,
}

-- the tables hold jobs that come of `js` by a step
abbrev From : List Job → Db → Type 0
From js d = JobsStep js d.jobs

-- `if input is wrong { return error }` before a transaction
guarded :
    {A : Type 0} (b : Bool) (e : Error) (db : Db) (conn : Conn) (fn : Db → Result (A × Db))
    → Ensures (λ x. From db.jobs x.1) (fn db)
    → From db.jobs (if b then (err e, db) else write_context conn fn db).1
guarded true e db conn fn h = JobsStep.same
guarded false e db conn fn h = write_context-keeps (From db.jobs) conn fn db JobsStep.same h

update_job-Step :
    (io : ℕ → Option Cause) (p : Job → Bool) (f : Job → Job) (db : Db) (js : List Job)
    → JobsStep js (update_where p f db.jobs)
    → Ensures (λ x. From js x.1) (update_job io p f db)
unfolding update_job
update_job-Step io p f db js h = Ensures-bind (update_one (io 0) (io 1) p f db.jobs) _ λ rows e.
    Ensures-ok (tt, record db { jobs = rows })
      (subst (JobsStep js) (sym (update_one-eq-ok (io 0) (io 1) p f db.jobs rows e).1) h)

module _ (io : ℕ → Option Cause) (now : ℕ) (owner : String) (duration : ℕ) (db : Db) where
  jobs-claim_selected :
      (job : Job) (x : Option Job × Db)
      → claim_selected io now owner duration db (some job) ≡ ok x
      → x.1.jobs
        ≡ update_where (λ r. r.id == job.id && is_due now r) (claimed now owner duration) db.jobs
  unfolding claim_selected
  jobs-claim_selected job x h = ground arith

  claim_selected-Step :
      (o : Option Job)
      → count_where (λ r. is_processing r.state) db.jobs ≡ 0
      → first_by claim_before (select_where (is_due now) db.jobs) ≡ o
      → Ensures (λ x. From db.jobs x.1) (claim_selected io now owner duration db o)
  claim_selected-Step none free e = Ensures-of _ λ x h.
      unfold claim_selected in
      subst (λ (d : Db). From db.jobs d) (ap (λ (y : Option Job × Db). y.1) (ok_inj h))
        JobsStep.same
  claim_selected-Step (some job) free e = Ensures-of _ λ x h.
      subst (JobsStep db.jobs) (sym (jobs-claim_selected job x h))
        (JobsStep.take now owner duration job free e)

  claim_body-Step : Ensures (λ x. From db.jobs x.1) (claim_body io now owner duration db)
  unfolding claim_body
  claim_body-Step = Ensures-carried (io 0) "cannot inspect active jobs" _ (
      Ensures-if (not (count_where (λ r. is_processing r.state) db.jobs == 0)) _ _
        (λ _. Ensures-ok (none, db) JobsStep.same)
        λ e.
          Ensures-carried (io 1) "cannot select queued job" _
            (claim_selected-Step _ (ground arith) refl))

module _ (io : ℕ → Option Cause) (now : ℕ) (input : EnqueueInput) (db : Db) where
  jobs-enqueue_new :
      (x : (Job × Bool) × Db)
      → enqueue_new io now input db ≡ ok x
      → x.1.jobs ≡ db.jobs ++ new_job (next_id db.jobs) now input ∷ []
  unfolding enqueue_new
  jobs-enqueue_new x h = ground arith

  enqueue_found-Step :
      (o : Option Job)
      → first_by enqueue_before (jobs_of input db.jobs) ≡ o
      → Ensures (λ x. From db.jobs x.1) (enqueue_found io now input db o)
  unfolding enqueue_existing
  enqueue_found-Step none e =
      unfold enqueue_found in
      Ensures-of (enqueue_new io now input db) λ x h.
        subst (JobsStep db.jobs) (sym (jobs-enqueue_new x h))
          (JobsStep.create now input (first_by-eq-none enqueue_before (jobs_of input db.jobs) e))
  enqueue_found-Step (some job) e =
      unfold enqueue_found in
      Ensures-if (is_waiting job.state && ltb job.priority input.priority) _ _
        (λ w. Ensures-carried (io 1) "cannot promote queued job" _ (
          Ensures-ok (_, record db { jobs = _ })
            (JobsStep.promote now input job e (and_left _ _ w) (ground arith))))
        λ _. Ensures-ok ((job, false), db) JobsStep.same

  enqueue-Step : Ensures (λ x. From db.jobs x.1) (enqueue io now input db)
  unfolding enqueue
  enqueue-Step = Ensures-carried (io 0) "cannot inspect queued jobs" _ (enqueue_found-Step _ refl)

-- the end of ResolveCandidate leaves the jobs as `enqueue` left them
resolved_rest :
    (io : ℕ → Option Cause) (p : Candidate → Bool) (r : (Job × Bool) × Db)
    → Result (Resolution × Db)
resolved_rest io p r = do
  carried (io 6) "cannot delete resolved candidate"
  carried (io 7) "cannot confirm resolved candidate"
  if count_where p r.1.candidates == 1
      then ok (
        record { job = some r.0.0; created = r.0.1; resolved = true },
        record r.1 { candidates = delete_where p r.1.candidates },
      )
      else err (validation_error "candidate changed during resolution")

jobs-resolved_rest :
    (io : ℕ → Option Cause) (p : Candidate → Bool) (r : (Job × Bool) × Db) (x : Resolution × Db)
    → resolved_rest io p r ≡ ok x
    → x.1.jobs ≡ r.1.jobs
unfolding resolved_rest
jobs-resolved_rest io p r x h = ground arith

module _ (io : ℕ → Option Cause) (now document_id generation : ℕ) (input : EnqueueInput)
    (db : Db) where
  resolve_candidate_found-Step :
      (o : Option Candidate)
      → Ensures
          (λ x. From db.jobs x.1)
          (resolve_candidate_found io now document_id generation input db o)
  unfolding resolve_candidate_found resolved_rest
  resolve_candidate_found-Step none =
      Ensures-ok (record { job = none; created = false; resolved = false }, db) JobsStep.same
  resolve_candidate_found-Step (some c) =
      Ensures-then (enqueue (λ k. io (k + 1)) now (record input { priority = c.priority }) db)
        (resolved_rest io (of_generation document_id generation))
        (enqueue-Step (λ k. io (k + 1)) now (record input { priority = c.priority }) db)
        λ r s.
          Ensures-of (resolved_rest io (of_generation document_id generation) r)
            λ x h. subst (JobsStep db.jobs) (sym (jobs-resolved_rest io _ r x h)) s

  resolve_candidate_body-Step :
      Ensures
        (λ x. From db.jobs x.1)
        (resolve_candidate_body io now document_id generation input db)
  unfolding resolve_candidate_body
  resolve_candidate_body-Step =
      Ensures-carried (io 0) "cannot inspect queued candidate" _ (resolve_candidate_found-Step _)

module _ (io : ℕ → Option Cause) (now id available_at : ℕ) (db : Db) where
  abbrev requeues : Job → Bool
  requeues r = r.id == id && is_failed r.state

  retry_failed_body-facts :
      (x : Unit {0} × Db)
      → retry_failed_body io now id available_at db ≡ ok x
      → (conflict_count db.jobs (find_where (λ r. r.id == id) db.jobs) ≡ 0)
        × (count_where requeues db.jobs ≡ 1)
        × (x.1.jobs ≡ update_where requeues (requeued now available_at) db.jobs)
  unfolding retry_failed_body
  retry_failed_body-facts x h = ground arith

  requeues-le : count_where requeues db.jobs ≤ count_where (λ r. r.id == id) db.jobs
  requeues-le = count-le-count requeues (λ r. r.id == id) db.jobs (λ r h. and_left _ _ h)

  retry_failed_body-Step :
      Ensures (λ x. From db.jobs x.1) (retry_failed_body io now id available_at db)
  retry_failed_body-Step = Ensures-of _ (λ x h. go x h _ refl)
    where
      go :
          (x : Unit {0} × Db)
          → retry_failed_body io now id available_at db ≡ ok x
          → (o : Option Job) → find_where (λ r. r.id == id) db.jobs ≡ o
          → From db.jobs x.1
      go x h none e = absurd (
          omega (
            arith,
            requeues-le,
            (retry_failed_body-facts x h).1,
            find_where-eq-none (λ r. r.id == id) db.jobs e,
          ))
      go x h (some f) e =
          subst (JobsStep db.jobs) (sym (retry_failed_body-facts x h).2)
            (JobsStep.requeue now id available_at f e (rw e at ((retry_failed_body-facts x h).0)))

release_body-Step :
    (io : ℕ → Option Cause) (now id attempt : ℕ) (owner : String) (db : Db)
    → Ensures (λ x. From db.jobs x.1) (release_body io now id attempt owner db)
unfolding release_body
release_body-Step io now id attempt owner db =
    Ensures-carried (io 0) "cannot release active job lease" _ (
      Ensures-carried (io 1) "cannot confirm active job lease release" _ (
        Ensures-ok (_, record db { jobs = _ })
          (JobsStep.give_back now id attempt owner now shutting_down)))

recover_body-Step :
    (io : ℕ → Option Cause) (now : ℕ) (db : Db)
    → Ensures (λ x. From db.jobs x.1) (recover_body io now db)
unfolding recover_body
recover_body-Step io now db = Ensures-carried (io 0) "cannot recover expired job leases" _ (
    Ensures-carried (io 1) "cannot count recovered job leases" _
      (Ensures-ok (_, record db { jobs = _ }) (JobsStep.recover now)))

schedule_retry_body-Step :
    (io : ℕ → Option Cause) (b : Bool) (now id attempt : ℕ) (owner : String) (available_at : ℕ)
    (d : SafeDiagnostic) (db : Db)
    → Ensures
        (λ x. From db.jobs x.1)
        (if b
          then err (validation_error "invalid retry input")
          else update_job io (holds_lease now id attempt owner) (retried now available_at d) db)
schedule_retry_body-Step io true now id attempt owner available_at d db = Ensures-err _
schedule_retry_body-Step io false now id attempt owner available_at d db =
    update_job-Step io (holds_lease now id attempt owner) (retried now available_at d) db db.jobs
      (JobsStep.give_back now id attempt owner available_at d)

untouched : {js js' : List Job} → js' ≡ js → JobsStep js js'
untouched {js} e = subst (JobsStep js) (sym e) JobsStep.same

-- Whatever call is made, at whatever instants and with whatever failures of SQLite, the table of
-- jobs changes by at most one step of the abstract queue.
pub run-JobsStep : (call : Call) (db : Db) → JobsStep db.jobs (run call db).jobs
unfolding run Enqueue.enqueue_context Candidates.resolve_candidate Leases.claim
    Leases.recover_expired_leases Transitions.retry_failed Leases.renew_lease Leases.release
    Transitions.schedule_retry Transitions.complete Transitions.fail
run-JobsStep (Call.enqueue c now input) db =
    guarded _ _ db c (enqueue c.statement now input) (enqueue-Step c.statement now input db)
run-JobsStep (Call.enqueue_candidate c now i p) db = untouched (jobs-enqueue_candidate c now i p db)
run-JobsStep (Call.discard_candidate c i g) db = untouched (jobs-discard_candidate c i g db)
run-JobsStep (Call.resolve_candidate c now i g input) db =
    guarded _ _ db c _ (resolve_candidate_body-Step c.statement now i g input db)
run-JobsStep (Call.claim c now owner duration) db =
    guarded _ _ db c _ (claim_body-Step c.statement now owner duration db)
run-JobsStep (Call.recover c now) db =
    write_context-keeps (From db.jobs) c (recover_body c.statement now) db JobsStep.same
      (recover_body-Step c.statement now db)
run-JobsStep (Call.retry_failed c checked_at now id available_at) db =
    guarded _ _ db c _ (retry_failed_body-Step c.statement now id available_at db)
run-JobsStep (Call.renew c k duration) db = guarded _ _ db c _ (
    update_job-Step c.statement _ _ db db.jobs
      (JobsStep.renew k.now k.id k.attempt k.owner duration))
run-JobsStep (Call.release c k) db =
    guarded _ _ db c _ (release_body-Step c.statement k.now k.id k.attempt k.owner db)
run-JobsStep (Call.schedule_retry c k available_at d) db = guarded _ _ db c _ (
    schedule_retry_body-Step c.statement (not (ltb k.now available_at)) k.now k.id k.attempt k.owner
      available_at d db)
run-JobsStep (Call.complete c k) db =
    guarded _ _ db c _
      (update_job-Step c.statement _ _ db db.jobs (JobsStep.complete k.now k.id k.attempt k.owner))
run-JobsStep (Call.fail c k d) db =
    guarded _ _ db c _
      (update_job-Step c.statement _ _ db db.jobs (JobsStep.fail k.now k.id k.attempt k.owner d))
run-JobsStep (Call.ensure_batches c k now ranges dpi format) db =
    untouched (jobs-ensure_batches c k.now k.id k.attempt k.owner db now ranges dpi format)
run-JobsStep (Call.list_batches c k) db =
    untouched (jobs-list_batches c k.now k.id k.attempt k.owner db)
run-JobsStep (Call.checkpoint_batch c k r dpi format text) db =
    untouched (jobs-checkpoint_batch c k.now k.id k.attempt k.owner db r dpi format text)
run-JobsStep (Call.acquire c k token duration) db =
    untouched (jobs-acquire_finalization c k.now k.id k.attempt k.owner db token duration)
run-JobsStep (Call.finalization_state c k token) db =
    untouched (jobs-finalization_state c k.now k.id k.attempt k.owner db token)
run-JobsStep (Call.renew_finalization c k token duration) db =
    untouched (jobs-renew_finalization c k.now k.id k.attempt k.owner db token duration)
run-JobsStep (Call.advance c k token from to) db =
    untouched (jobs-advance_finalization c k.now k.id k.attempt k.owner db token from to)
run-JobsStep (Call.set_dispatch c k token from to) db =
    untouched (jobs-set_dispatch_state c k.now k.id k.attempt k.owner db token from to)
run-JobsStep (Call.record_failure c k d) db =
    untouched (jobs-record_terminal_failure c k.now k.id k.attempt k.owner db d)
run-JobsStep (Call.success_started c k) db =
    untouched (jobs-success_finalization_started c k.now k.id k.attempt k.owner db)
run-JobsStep (Call.terminal_failure c k) db =
    untouched (jobs-terminal_failure c k.now k.id k.attempt k.owner db)
