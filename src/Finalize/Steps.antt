-- ===== src/Finalize/Steps.antt =====
-- The requests of internal/finalize/finalize.go: renewLease, renew, mutateTag, and the requests of
-- process for each stage.
use paperless_ai_ocr.Prelude.{
  ℕ, suc, String, ◌⊎◌, inl, inr, Bool, true, false, not, ◌||◌, Option, none, some, List, [], ◌∷◌,
  str_eq, ◌==◌, if◌then◌else◌,
}
use paperless_ai_ocr.Saferr.{validation, Cause, Error, new}
use paperless_ai_ocr.Queue.Model.{
  FinalizationStage, content_updated, failed_tag_removed, metadata_dispatched, DispatchState,
  reserved, confirmed, FinalizationState, Job,
}
use paperless_ai_ocr.Queue.Leases
use paperless_ai_ocr.Queue.Finalizing
use paperless_ai_ocr.Queue.Finalizing.{same_stage, same_dispatch}
use paperless_ai_ocr.Finalize.World.{
  Foreign, safe, other, Failure, lost_lease, admission_error, ambiguous_dispatch_error, foreign,
  Outcome, halted, done, Document, Answer, accepted, retry_safe, uncertain, content_put,
  tag_ensured, tag_added, tag_removed, dispatched, Env, Exec, ◌>>=◌, ◌>>◌, give, stop, ask, send,
  stored,
}

-- LeaseOwner: a NULL column is read as the empty text.
abbrev pub owner_of : Option String → String
owner_of none = ""
owner_of (some owner) = owner

-- slices.Contains
abbrev pub contains : ℕ → List ℕ → Bool
contains x [] = false
contains x (y ∷ ys) = x == y || contains x ys

abbrev pub safe_error : Error → Failure
safe_error e = foreign (safe e)

abbrev pub complete_tag_name : String
complete_tag_name = "ai-ocr-complete"

abbrev pub failed_tag_name : String
failed_tag_name = "ai-ocr-failed"

-- `ctx.Err()`
abbrev pub context_error : Option Cause → Foreign ⊎ Unit {0}
context_error none = inr tt
context_error (some cause) = inl (other cause)

-- safeDocumentID, where an int has 64 bits
abbrev pub safe_document_id : ℕ → Exec ℕ
safe_document_id id =
    if id == 0
    then stop (safe_error (new validation "document ID is outside supported range"))
    else give id

-- whether a dispatch with this answer has or may have arrived
abbrev pub arrived : Answer → Bool
arrived accepted = true
arrived (retry_safe f) = false
arrived (uncertain f) = true

module _ (env : Env) (lease : ℕ) (job : Job) where
  -- renewLease
  unfoldable pub renew_lease : Exec (Unit {0})
  renew_lease = do
    ask (λ n. context_error (env.context n))
    stored env (λ e. lost_lease)
        λ conn now. Leases.renew_lease conn now job.id job.attempts (owner_of job.lease_owner) lease

  -- renew
  unfoldable pub renew : String → Exec (Unit {0})
  unfolding renew_lease
  renew token = do
    renew_lease
    stored env (λ e. lost_lease)
        λ conn now.
          Finalizing.renew_finalization conn now job.id job.attempts (owner_of job.lease_owner)
            token lease

  -- AcquireFinalizationContext, and its error as an admissionError
  unfoldable pub acquire : String → Exec FinalizationState
  acquire token = stored env admission_error λ conn now.
      Finalizing.acquire_finalization conn now job.id job.attempts (owner_of job.lease_owner) token
        lease

  -- AdvanceFinalizationContext
  unfoldable pub advance : String → FinalizationStage → FinalizationStage → Exec (Unit {0})
  advance token from to = stored env safe_error λ conn now.
      Finalizing.advance_finalization conn now job.id job.attempts (owner_of job.lease_owner) token
        from to

  -- SetDispatchStateContext
  unfoldable pub set_dispatch : String → DispatchState → DispatchState → Exec (Unit {0})
  set_dispatch token from to = stored env safe_error λ conn now.
      Finalizing.set_dispatch_state conn now job.id job.attempts (owner_of job.lease_owner) token
        from to

  -- the end of mutateTag, for a tag that the document has not, or has
  unfoldable pub update_tag : String → ℕ → ℕ → Bool → Bool → Exec (Unit {0})
  unfolding renew
  update_tag token document_id tag add present =
      if add
      then if present
        then give tt
        else (do renew token; send (tag_added document_id tag) env.written)
      else if present
      then (do renew token; send (tag_removed document_id tag) env.written)
      else give tt

  -- mutateTag
  unfoldable pub mutate_tag : String → ℕ → String → Bool → Exec (Unit {0})
  unfolding renew update_tag
  mutate_tag token document_id name add = do
    renew token
    tag ← send (tag_ensured name) env.tag
    renew token
    document ← ask env.document
    if not (document.id == document_id)
        then stop (safe_error (new validation "Paperless returned an unexpected document"))
        else update_tag token document_id tag add (contains tag document.tags)

  -- the content of the document, where it is another
  unfoldable pub put_content : String → ℕ → Document → String → Exec (Unit {0})
  unfolding renew
  put_content token document_id document content =
      if str_eq document.content content
      then give tt
      else (do renew token; send (content_put document_id content) env.written)

  -- the stage after the content, after the complete tag, and after the failed tag
  unfoldable pub content_stage :
      String → ℕ → Document → String → FinalizationStage → Exec FinalizationStage
  unfolding put_content advance
  content_stage token document_id document content stage =
      if same_stage stage FinalizationStage.pending
      then (do
        put_content token document_id document content
        advance token stage content_updated
        give content_updated)
      else give stage

  unfoldable pub tag_stage :
      String
      → ℕ
      → FinalizationStage
      → FinalizationStage
      → String
      → Bool
      → FinalizationStage
      → Exec FinalizationStage
  unfolding mutate_tag advance
  tag_stage token document_id from to name add stage =
      if same_stage stage from
      then (do mutate_tag token document_id name add; advance token stage to; give to)
      else give stage

  -- what follows the answer of the dispatcher
  unfoldable pub after_dispatch : String → Answer → Exec (Unit {0})
  unfolding set_dispatch
  after_dispatch token accepted = set_dispatch token reserved confirmed
  after_dispatch token (retry_safe f) = do
    set_dispatch token reserved DispatchState.none
    stop (foreign f)
  after_dispatch token (uncertain f) = stop ambiguous_dispatch_error

  -- Dispatch
  unfoldable pub dispatch : ℕ → Exec Answer
  dispatch document_id = λ w.
      let answer = env.dispatch w.step in
      (
        done answer,
        record w { step = suc w.step; effects = dispatched job.id (arrived answer) ∷ w.effects },
      )

  -- the dispatch, from its reservation
  unfoldable pub reserve_and_dispatch : String → ℕ → Exec (Unit {0})
  unfolding set_dispatch renew dispatch after_dispatch
  reserve_and_dispatch token document_id = do
    set_dispatch token DispatchState.none reserved
    renew token
    answer ← dispatch document_id
    after_dispatch token answer

  -- the stage after the dispatch
  unfoldable pub dispatch_stage :
      String → ℕ → DispatchState → FinalizationStage → Exec FinalizationStage
  unfolding reserve_and_dispatch advance
  dispatch_stage token document_id state stage =
      if same_stage stage failed_tag_removed
      then (do
        if same_dispatch state DispatchState.none
            then reserve_and_dispatch token document_id
            else give tt
        advance token stage metadata_dispatched
        give metadata_dispatched)
      else give stage

-- stopHeartbeat: it stops the heartbeat once, and returns that answer each time.
abbrev pub heartbeat_outcome : Bool → Outcome (Unit {0})
heartbeat_outcome true = halted lost_lease
heartbeat_outcome false = done tt

abbrev pub stopped_by : Env → ℕ → Option Bool → Bool
stopped_by env step none = env.lease_lost step
stopped_by env step (some lost) = lost

unfoldable pub stop_heartbeat : Env → Exec (Unit {0})
stop_heartbeat env = λ w.
    let lost = stopped_by env w.step w.stopped in
    (heartbeat_outcome lost, record w { step = suc w.step; stopped = some lost })
