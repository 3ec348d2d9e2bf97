-- ===== src/Queue/Fence.antt =====
-- The fence of internal/queue/queue.go: a worker names its claim generation in each call.
use paperless_ai_ocr.Prelude.{
  ℕ, ◌<◌, String, ◌≡◌, refl, sym, ap, subst, inl, inr, Bool, true, false, Option, none, some, List,
  arith, Bool-cases, All-map, update_none, count-none, count_where,
}
use paperless_ai_ocr.Queue.Model.{
  FinalizationStage, DispatchState, SafeDiagnostic, Job, BatchRange, Db,
}
use paperless_ai_ocr.Queue.Transaction.{Conn, write_context}
use paperless_ai_ocr.Queue.Leases
use paperless_ai_ocr.Queue.Calls.{Call, Key, run, run_all}
use paperless_ai_ocr.Queue.Jobs.Valid.{has_id, JobsValid, JobsValid-unique}
use paperless_ai_ocr.Queue.Jobs.Keeps.{run_all-keeps}
use paperless_ai_ocr.Queue.Jobs.Lifecycle.{job_at, attempts, run_all-attempts}
use paperless_ai_ocr.Queue.Leases.{holds_lease, retried, shutting_down}
use paperless_ai_ocr.Queue.Transitions
use paperless_ai_ocr.Queue.Batches
use paperless_ai_ocr.Queue.Finalizing
use paperless_ai_ocr.Queue.Failures

-- the claim generation that a call names, if it is one of a worker
abbrev pub key_of : Call → Option Key
key_of (Call.enqueue c now input) = none
key_of (Call.enqueue_candidate c now i p) = none
key_of (Call.discard_candidate c i g) = none
key_of (Call.resolve_candidate c now i g input) = none
key_of (Call.claim c now owner duration) = none
key_of (Call.recover c now) = none
key_of (Call.retry_failed c checked_at now id available_at) = none
key_of (Call.renew c k duration) = some k
key_of (Call.release c k) = some k
key_of (Call.schedule_retry c k available_at d) = some k
key_of (Call.complete c k) = some k
key_of (Call.fail c k d) = some k
key_of (Call.ensure_batches c k now ranges dpi format) = some k
key_of (Call.list_batches c k) = some k
key_of (Call.checkpoint_batch c k r dpi format text) = some k
key_of (Call.acquire c k token duration) = some k
key_of (Call.finalization_state c k token) = some k
key_of (Call.renew_finalization c k token duration) = some k
key_of (Call.advance c k token from to) = some k
key_of (Call.set_dispatch c k token from to) = some k
key_of (Call.record_failure c k d) = some k
key_of (Call.success_started c k) = some k
key_of (Call.terminal_failure c k) = some k

-- the job holds the lease of the generation at its instant
abbrev pub is_held : Key → Job → Bool
is_held k = holds_lease k.now k.id k.attempt k.owner

module _ (conn : Conn) (db : Db) (now id attempt : ℕ) (owner : String)
    (stale : count_where (holds_lease now id attempt owner) db.jobs ≡ 0) where
  renew_lease-stale :
      (duration : ℕ) → (Leases.renew_lease conn now id attempt owner duration db).1 ≡ db
  unfolding Leases.renew_lease write_context
  renew_lease-stale duration = ground arith

  release-stale : (Leases.release conn now id attempt owner db).1 ≡ db
  unfolding Leases.release write_context
  release-stale = ground (
    arith,
    update_none (holds_lease now id attempt owner) (retried now now shutting_down) db.jobs,
  )

  schedule_retry-stale :
      (available_at : ℕ) (d : SafeDiagnostic)
      → (Transitions.schedule_retry conn now id attempt owner available_at d db).1 ≡ db
  unfolding Transitions.schedule_retry write_context
  schedule_retry-stale available_at d = ground arith

  complete-stale : (Transitions.complete conn now id attempt owner db).1 ≡ db
  unfolding Transitions.complete write_context
  complete-stale = ground arith

  fail-stale : (d : SafeDiagnostic) → (Transitions.fail conn now id attempt owner d db).1 ≡ db
  unfolding Transitions.fail write_context
  fail-stale d = ground arith

  list_batches_context-stale : (Batches.list_batches_context conn now id attempt owner db).1 ≡ db
  unfolding Batches.list_batches_context write_context
  list_batches_context-stale = ground arith

  checkpoint_batch-stale :
      (r : BatchRange) (dpi : ℕ) (format text : String)
      → (Batches.checkpoint_batch conn now id attempt owner r dpi format text db).1 ≡ db
  unfolding Batches.checkpoint_batch Leases.require_active_lease write_context
  checkpoint_batch-stale r dpi format text = ground arith

  acquire_finalization-stale :
      (token : String) (duration : ℕ)
      → (Finalizing.acquire_finalization conn now id attempt owner token duration db).1 ≡ db
  unfolding Finalizing.acquire_finalization write_context
  acquire_finalization-stale token duration = ground arith

  finalization_state-stale :
      (token : String) → (Finalizing.finalization_state conn now id attempt owner token db).1 ≡ db
  unfolding Finalizing.finalization_state write_context
  finalization_state-stale token = ground arith

  renew_finalization-stale :
      (token : String) (duration : ℕ)
      → (Finalizing.renew_finalization conn now id attempt owner token duration db).1 ≡ db
  unfolding Finalizing.renew_finalization write_context
  renew_finalization-stale token duration = ground arith

  advance_finalization-stale :
      (token : String) (from to : FinalizationStage)
      → (Finalizing.advance_finalization conn now id attempt owner token from to db).1 ≡ db
  unfolding Finalizing.advance_finalization write_context
  advance_finalization-stale token from to = ground arith

  set_dispatch_state-stale :
      (token : String) (from to : DispatchState)
      → (Finalizing.set_dispatch_state conn now id attempt owner token from to db).1 ≡ db
  unfolding Finalizing.set_dispatch_state write_context
  set_dispatch_state-stale token from to = ground arith

  record_terminal_failure-stale :
      (d : SafeDiagnostic)
      → (Failures.record_terminal_failure conn now id attempt owner d db).1 ≡ db
  unfolding Failures.record_terminal_failure write_context
  record_terminal_failure-stale d = ground arith

  success_finalization_started-stale :
      (Failures.success_finalization_started conn now id attempt owner db).1 ≡ db
  unfolding Failures.success_finalization_started write_context
  success_finalization_started-stale = ground arith

  terminal_failure-stale : (Failures.terminal_failure conn now id attempt owner db).1 ≡ db
  unfolding Failures.terminal_failure write_context
  terminal_failure-stale = ground arith

  ensure_batches-stale :
      (now' : ℕ) (ranges : List BatchRange) (dpi : ℕ) (format : String)
      → (Batches.ensure_batches conn now now' id attempt owner ranges dpi format db).1 ≡ db
  unfolding Batches.ensure_batches Leases.require_active_lease write_context
  ensure_batches-stale now' ranges dpi format = ground arith

-- A worker call whose claim generation does not hold the lease at its instant, because the lease
-- expired, was released or was taken over, changes no table at all.
pub run-stale :
    (call : Call) (k : Key) (db : Db)
    → key_of call ≡ some k
    → count_where (is_held k) db.jobs ≡ 0
    → run call db ≡ db
unfolding run
run-stale call k db e h = go call (subst (λ o. Stale o) (sym e) h)
  where
    Stale : Option Key → Type 0
    Stale none = ⊥
    Stale (some key) = count_where (is_held key) db.jobs ≡ 0

    go : (c : Call) → Stale (key_of c) → run c db ≡ db
    go (Call.renew c k duration) h' =
        renew_lease-stale c db k.now k.id k.attempt k.owner h' duration
    go (Call.release c k) h' = release-stale c db k.now k.id k.attempt k.owner h'
    go (Call.schedule_retry c k available_at d) h' =
        schedule_retry-stale c db k.now k.id k.attempt k.owner h' available_at d
    go (Call.complete c k) h' = complete-stale c db k.now k.id k.attempt k.owner h'
    go (Call.fail c k d) h' = fail-stale c db k.now k.id k.attempt k.owner h' d
    go (Call.ensure_batches c k now ranges dpi format) h' =
        ensure_batches-stale c db k.now k.id k.attempt k.owner h' now ranges dpi format
    go (Call.list_batches c k) h' = list_batches_context-stale c db k.now k.id k.attempt k.owner h'
    go (Call.checkpoint_batch c k r dpi format text) h' =
        checkpoint_batch-stale c db k.now k.id k.attempt k.owner h' r dpi format text
    go (Call.acquire c k token duration) h' =
        acquire_finalization-stale c db k.now k.id k.attempt k.owner h' token duration
    go (Call.finalization_state c k token) h' =
        finalization_state-stale c db k.now k.id k.attempt k.owner h' token
    go (Call.renew_finalization c k token duration) h' =
        renew_finalization-stale c db k.now k.id k.attempt k.owner h' token duration
    go (Call.advance c k token from to) h' =
        advance_finalization-stale c db k.now k.id k.attempt k.owner h' token from to
    go (Call.set_dispatch c k token from to) h' =
        set_dispatch_state-stale c db k.now k.id k.attempt k.owner h' token from to
    go (Call.record_failure c k d) h' =
        record_terminal_failure-stale c db k.now k.id k.attempt k.owner h' d
    go (Call.success_started c k) h' =
        success_finalization_started-stale c db k.now k.id k.attempt k.owner h'
    go (Call.terminal_failure c k) h' = terminal_failure-stale c db k.now k.id k.attempt k.owner h'
    go (Call.enqueue c now input) h' = absurd h'
    go (Call.enqueue_candidate c now i p) h' = absurd h'
    go (Call.discard_candidate c i g) h' = absurd h'
    go (Call.resolve_candidate c now i g input) h' = absurd h'
    go (Call.claim c now owner duration) h' = absurd h'
    go (Call.recover c now) h' = absurd h'
    go (Call.retry_failed c checked_at now id available_at) h' = absurd h'

-- a generation that is not the job's latest holds no lease
superseded-stale :
    (db : Db) (k : Key)
    → JobsValid db.jobs
    → k.attempt < attempts (job_at k.id db.jobs)
    → count_where (is_held k) db.jobs ≡ 0
superseded-stale db k v lt = go (job_at k.id db.jobs) refl
  where
    go : (o : Option Job) → job_at k.id db.jobs ≡ o → count_where (is_held k) db.jobs ≡ 0
    go none e = absurd (ground (arith, e))
    go (some f) e =
        count-none (is_held k) db.jobs
          (All-map _ _ db.jobs (λ r same. not_held r f e same) (JobsValid-unique v k.id f e))
      where
        not_held :
            (r f : Job)
            → job_at k.id db.jobs ≡ some f
            → (has_id k.id r ≡ true → r ≡ f)
            → is_held k r ≡ false
        not_held r f e same = elim (Bool-cases (has_id k.id r)) [
          | inl t ↦ subst (λ x. is_held k x ≡ false) (sym (same t)) (ground (arith, ap attempts e))
          | inr t ↦ ground arith
        ]

-- On a valid table, where the attempts of a job have passed the attempt that a worker call names:
-- whatever calls come between, that call changes no table, so that an earlier claim generation is
-- fenced off for good.
pub superseded_forever :
    (db : Db) (calls : List Call) (call : Call) (k : Key)
    → JobsValid db.jobs
    → k.attempt < attempts (job_at k.id db.jobs)
    → key_of call ≡ some k
    → run call (run_all calls db) ≡ run_all calls db
superseded_forever db calls call k v lt e = run-stale call k (run_all calls db) e (
    superseded-stale (run_all calls db) k (run_all-keeps calls db v)
      (omega (arith, run_all-attempts calls db k.id v)))
