-- ===== src/Finalize/Steady.antt =====
-- The steps of internal/finalize/finalize.go that send no dispatch.
use paperless_ai_ocr.Prelude.{ℕ, ◌+◌, String, refl, Bool, ◌==◌}
use paperless_ai_ocr.Queue.Model.{FinalizationStage, SafeDiagnostic, Job}
use paperless_ai_ocr.Queue.Calls.{Call, Key, run}
use paperless_ai_ocr.Queue.Engaged.{run-Kept}
use paperless_ai_ocr.Finalize.World.{Document, Env}
use paperless_ai_ocr.Finalize.Steps.{
  owner_of, renew_lease, renew, acquire, advance, update_tag, mutate_tag, put_content,
  content_stage, tag_stage, stop_heartbeat, safe_document_id, stopped_by, heartbeat_outcome,
}
use paperless_ai_ocr.Finalize.Process.{complete, fail, retry_later}
use paperless_ai_ocr.Finalize.Hoare.{
  Quiet, Steady, Steady-then, Steady-next, Post-outcome, Steady-if, Steady-give, Steady-stop,
  Steady-ask, Steady-send, Steady-stored,
}

abbrev key_at : Job → ℕ → Key
key_at job now = record {
  now = now;
  id = job.id;
  attempt = job.attempts;
  owner = owner_of job.lease_owner;
}

module _ (i : ℕ) (env : Env) (quiet : Quiet env) (job : Job) where
  pub complete-Steady : Steady i (complete env job)
  unfolding complete run
  complete-Steady =
      Steady-stored i env quiet _ _
        λ conn now db. run-Kept i (Call.complete conn (key_at job now)) db refl

  pub fail-Steady : (d : SafeDiagnostic) → Steady i (fail env job d)
  unfolding fail run
  fail-Steady d =
      Steady-stored i env quiet _ _
        λ conn now db. run-Kept i (Call.fail conn (key_at job now) d) db refl

  pub retry_later-Steady : (delay : ℕ) → Steady i (retry_later env job delay)
  unfolding retry_later run
  retry_later-Steady delay = Steady-then i (Steady-ask i _) λ instant.
      Steady-stored i env quiet _ _ λ conn now db.
        run-Kept i (Call.schedule_retry conn (key_at job now) (instant + delay) _) db refl

module _ (i : ℕ) (env : Env) (quiet : Quiet env) (lease : ℕ) (job : Job) where
  pub renew_lease-Steady : Steady i (renew_lease env lease job)
  unfolding renew_lease run
  renew_lease-Steady = Steady-next i (Steady-ask i _) (
      Steady-stored i env quiet _ _
        λ conn now db. run-Kept i (Call.renew conn (key_at job now) lease) db refl)

  pub renew-Steady : (token : String) → Steady i (renew env lease job token)
  unfolding renew run
  renew-Steady token = Steady-next i renew_lease-Steady (
      Steady-stored i env quiet _ _ λ conn now db.
        run-Kept i (Call.renew_finalization conn (key_at job now) token lease) db refl)

  pub acquire-Steady : (token : String) → Steady i (acquire env lease job token)
  unfolding acquire run
  acquire-Steady token =
      Steady-stored i env quiet _ _
        λ conn now db. run-Kept i (Call.acquire conn (key_at job now) token lease) db refl

  pub advance-Steady :
      (token : String) (from to : FinalizationStage)
      → Steady i (advance env lease job token from to)
  unfolding advance run
  advance-Steady token from to =
      Steady-stored i env quiet _ _
        λ conn now db. run-Kept i (Call.advance conn (key_at job now) token from to) db refl

  update_tag-Steady :
      (token : String) (document_id tag : ℕ) (add present : Bool)
      → Steady i (update_tag env lease job token document_id tag add present)
  unfolding update_tag
  update_tag-Steady token document_id tag add present =
      Steady-if i add
        (Steady-if i present (Steady-give i tt)
          (Steady-next i (renew-Steady token) (Steady-send i _ _ refl)))
        (Steady-if i present (Steady-next i (renew-Steady token) (Steady-send i _ _ refl))
          (Steady-give i tt))

  mutate_tag-Steady :
      (token : String) (document_id : ℕ) (name : String) (add : Bool)
      → Steady i (mutate_tag env lease job token document_id name add)
  unfolding mutate_tag
  mutate_tag-Steady token document_id name add = Steady-next i (renew-Steady token) (
      Steady-then i (Steady-send i _ _ refl) λ tag. Steady-next i (renew-Steady token) (
        Steady-then i (Steady-ask i _) λ document.
          Steady-if i _ (Steady-stop i _) (update_tag-Steady token document_id tag add _)))

  put_content-Steady :
      (token : String) (document_id : ℕ) (document : Document) (content : String)
      → Steady i (put_content env lease job token document_id document content)
  unfolding put_content
  put_content-Steady token document_id document content =
      Steady-if i _ (Steady-give i tt) (Steady-next i (renew-Steady token) (Steady-send i _ _ refl))

  pub content_stage-Steady :
      (token : String) (document_id : ℕ) (document : Document) (content : String)
      (stage : FinalizationStage)
      → Steady i (content_stage env lease job token document_id document content stage)
  unfolding content_stage
  content_stage-Steady token document_id document content stage =
      Steady-if i _
        (Steady-next i (put_content-Steady token document_id document content)
          (Steady-next i (advance-Steady token _ _) (Steady-give i _)))
        (Steady-give i _)

  pub tag_stage-Steady :
      (token : String) (document_id : ℕ) (from to : FinalizationStage) (name : String) (add : Bool)
      (stage : FinalizationStage)
      → Steady i (tag_stage env lease job token document_id from to name add stage)
  unfolding tag_stage
  tag_stage-Steady token document_id from to name add stage =
      Steady-if i _
        (Steady-next i (mutate_tag-Steady token document_id name add)
          (Steady-next i (advance-Steady token _ _) (Steady-give i _)))
        (Steady-give i _)

pub safe_document_id-Steady : (i id : ℕ) → Steady i (safe_document_id id)
safe_document_id-Steady i id = Steady-if i (id == 0) (Steady-stop i _) (Steady-give i id)

pub stop_heartbeat-Steady : (i : ℕ) (env : Env) → Steady i (stop_heartbeat env)
unfolding stop_heartbeat
stop_heartbeat-Steady i env = record {
  steady = λ n w c.
      Post-outcome i n (heartbeat_outcome (stopped_by env w.step w.stopped)) _
        (record { key = c.key; covered = c.covered });
}
