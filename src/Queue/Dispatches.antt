-- ===== src/Queue/Dispatches.antt =====
-- The dispatch downstream, as the rows of finalization_controls record it, under the calls of
-- internal/queue/queue.go.
use paperless_ai_ocr.Prelude.{ℕ, ◌≡◌, refl, sym, subst, Option, some, List, [], ◌∷◌, arith}
use paperless_ai_ocr.Saferr.{Ensures-of}
use paperless_ai_ocr.Queue.Model.{DispatchState, confirmed, Db}
use paperless_ai_ocr.Queue.Finalizing
use paperless_ai_ocr.Queue.Finalizing.{
  same_dispatch, dispatch_code, control_of, valid_dispatch_transition, may_admit, admitted,
  holds_admission, readmitted, dispatch_set, insert_control, new_control, acquire_body,
  renew_finalization_body, set_dispatch_body,
}
use paperless_ai_ocr.Queue.Failures
use paperless_ai_ocr.Queue.Failures.{diagnosed, upsert_failure, record_failure_body}
use paperless_ai_ocr.Queue.Calls.{Call, run, run_all}
use paperless_ai_ocr.Queue.Columns.{controls-run}
use paperless_ai_ocr.Queue.DispatchSteps.{
  stays, begins, moves, dispatch_at, DispatchStep, DispatchesStep, upsert-DispatchesStep, guarded,
  acquire_body-Steps, renew_finalization_body-Steps, set_dispatch_body-Steps,
  controls-record_failure_body, stays, moves,
}

-- Whatever call is made, the dispatch state of every job stays, begins as none, or moves by a
-- transition that the code validates: none to reserved, reserved to none or to confirmed.
pub run-DispatchStep :
    (call : Call) (db : Db) (i : ℕ)
    → DispatchStep (dispatch_at i db.controls) (dispatch_at i (run call db).controls)
unfolding run Finalizing.acquire_finalization Finalizing.renew_finalization
    Finalizing.set_dispatch_state Failures.record_terminal_failure
run-DispatchStep (Call.acquire c k token duration) db i =
    guarded _ _ db c _
      (λ _. acquire_body-Steps c.statement k.now k.id k.attempt k.owner token db duration) i
run-DispatchStep (Call.renew_finalization c k token duration) db i =
    guarded _ _ db c _
      (λ _.
        renew_finalization_body-Steps c.statement k.now k.id k.attempt k.owner token db duration)
      i
run-DispatchStep (Call.set_dispatch c k token from to) db i =
    guarded _ _ db c _
      (λ e.
        set_dispatch_body-Steps c.statement k.now k.id k.attempt k.owner token db from to
          (ground arith))
      i
run-DispatchStep (Call.record_failure c k d) db i =
    guarded _ _ db c _
      (λ _. Ensures-of _ λ x h.
        subst (DispatchesStep db.controls)
          (sym (controls-record_failure_body c.statement k.now k.id k.attempt k.owner d db x h))
          (upsert-DispatchesStep k.id k.now d db.controls))
      i
run-DispatchStep call db i =
    subst (λ cs. DispatchStep (dispatch_at i db.controls) (dispatch_at i cs))
      (sym (controls-run call db refl)) (stays _)

DispatchStep-confirmed :
    {o p : Option DispatchState} → DispatchStep o p → o ≡ some confirmed → p ≡ some confirmed
unfolding valid_dispatch_transition
DispatchStep-confirmed (stays o) e = e
DispatchStep-confirmed begins e = absurd (ground arith)
DispatchStep-confirmed (moves from to valid) e = absurd (ground arith)

-- A dispatch that is confirmed stays confirmed, over any sequence of calls.
pub run_all-confirmed :
    (calls : List Call) (db : Db) (i : ℕ)
    → dispatch_at i db.controls ≡ some confirmed
    → dispatch_at i (run_all calls db).controls ≡ some confirmed
unfolding run_all
run_all-confirmed [] db i e = e
run_all-confirmed (c ∷ cs) db i e =
    run_all-confirmed cs (run c db) i (DispatchStep-confirmed (run-DispatchStep c db i) e)
