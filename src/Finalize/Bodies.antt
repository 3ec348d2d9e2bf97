-- ===== src/Finalize/Bodies.antt =====
-- process and failOCR of internal/finalize/finalize.go, and the dispatches that they send.
use paperless_ai_ocr.Prelude.{ℕ, String, true, false, Option, none, some}
use paperless_ai_ocr.Queue.Model.{
  FinalizationStage, content_updated, complete_tag_added, failed_tag_removed, failure_pending,
  failure_tag_added, DispatchState, FinalizationState, SafeDiagnostic, Job,
}
use paperless_ai_ocr.Finalize.World.{Document, Env}
use paperless_ai_ocr.Finalize.Steps.{complete_tag_name, failed_tag_name, dispatch_stage}
use paperless_ai_ocr.Finalize.Process.{
  WorkerResult, finalize_document, process, fail_with, fail_ocr,
}
use paperless_ai_ocr.Finalize.Hoare.{
  Quiet, Steady, Keeps, Keeps-then, Keeps-next, Keeps-if, Steady-then, Steady-next, Steady-if,
  Steady-give, Steady-stop, Steady-ask, Steady-Keeps,
}
use paperless_ai_ocr.Finalize.Steady.{
  renew_lease-Steady, renew-Steady, acquire-Steady, advance-Steady, content_stage-Steady,
  tag_stage-Steady, complete-Steady, fail-Steady, safe_document_id-Steady, stop_heartbeat-Steady,
}
use paperless_ai_ocr.Finalize.Reserving.{reserve_and_dispatch-Keeps}

module _ (i : ℕ) (env : Env) (quiet : Quiet env) (lease : ℕ) (job : Job) where
  dispatch_stage-Keeps :
      (token : String) (document_id : ℕ) (state : DispatchState) (stage : FinalizationStage)
      → Keeps i (dispatch_stage env lease job token document_id state stage)
  unfolding dispatch_stage
  dispatch_stage-Keeps token document_id state stage =
      Keeps-if i _
        (Keeps-next i
          (Keeps-if i _ (reserve_and_dispatch-Keeps i env quiet lease job token document_id)
            (Steady-Keeps i (Steady-give i tt)))
          (Steady-Keeps i
            (Steady-next i (advance-Steady i env quiet lease job token _ _) (Steady-give i _))))
        (Steady-Keeps i (Steady-give i _))

  finalize_document-Keeps :
      (token : String) (result : WorkerResult) (state : FinalizationState) (document_id : ℕ)
      (document : Document)
      → Keeps i (finalize_document env lease job token result state document_id document)
  unfolding finalize_document
  finalize_document-Keeps token result state document_id document =
      Keeps-if i _ (Steady-Keeps i (Steady-stop i _)) (
        Keeps-then i
          (Steady-Keeps i (
            content_stage-Steady i env quiet lease job token document_id document result.content
              state.stage))
          λ written.
            Keeps-then i
              (Steady-Keeps i (
                tag_stage-Steady i env quiet lease job token document_id content_updated
                  complete_tag_added complete_tag_name true written))
              λ tagged.
                Keeps-then i
                  (Steady-Keeps i (
                    tag_stage-Steady i env quiet lease job token document_id complete_tag_added
                      failed_tag_removed failed_tag_name false tagged))
                  λ cleared.
                    Keeps-then i (dispatch_stage-Keeps token document_id state.dispatch cleared)
                      λ sent. Steady-Keeps i (
                        Steady-if i _ (Steady-stop i _) (
                          Steady-next i (renew-Steady i env quiet lease job token) (
                            Steady-next i (stop_heartbeat-Steady i env)
                              (complete-Steady i env quiet job)))))

  pub process-Keeps :
      (token : String) (result : WorkerResult) → Keeps i (process env lease job token result)
  unfolding process
  process-Keeps token result =
      Keeps-next i (Steady-Keeps i (renew_lease-Steady i env quiet lease job)) (
        Keeps-then i (Steady-Keeps i (acquire-Steady i env quiet lease job token)) λ state.
          Keeps-if i _ (Steady-Keeps i (Steady-stop i _)) (
            Keeps-then i (Steady-Keeps i (safe_document_id-Steady i job.document_id)) λ document_id.
              Keeps-next i (Steady-Keeps i (renew-Steady i env quiet lease job token)) (
                Keeps-then i (Steady-Keeps i (Steady-ask i env.document))
                  λ document. finalize_document-Keeps token result state document_id document)))

  fail_with-Steady :
      (token : String) (stage : FinalizationStage) (o : Option SafeDiagnostic)
      → Steady i (fail_with env lease job token stage o)
  unfolding fail_with
  fail_with-Steady token stage none = Steady-stop i _
  fail_with-Steady token stage (some d) =
      Steady-then i (safe_document_id-Steady i job.document_id) λ document_id.
        Steady-then i
          (Steady-if i _
            (Steady-next i (advance-Steady i env quiet lease job token _ _) (Steady-give i _))
            (Steady-give i _))
          λ begun.
            Steady-then i
              (tag_stage-Steady i env quiet lease job token document_id failure_pending
                failure_tag_added failed_tag_name true begun)
              λ tagged. Steady-if i _ (Steady-stop i _) (
                Steady-next i (renew-Steady i env quiet lease job token)
                  (Steady-next i (stop_heartbeat-Steady i env) (fail-Steady i env quiet job d)))

  pub fail_ocr-Keeps : (token : String) → Keeps i (fail_ocr env lease job token)
  unfolding fail_ocr
  fail_ocr-Keeps token = Steady-Keeps i (
      Steady-next i (renew_lease-Steady i env quiet lease job) (
        Steady-then i (acquire-Steady i env quiet lease job token)
          λ state. fail_with-Steady token state.stage _))
