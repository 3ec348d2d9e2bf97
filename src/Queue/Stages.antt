-- ===== src/Queue/Stages.antt =====
-- The finalization of a job as a state machine: its stage under the calls of
-- internal/queue/queue.go.
use paperless_ai_ocr.Prelude.{
  ℕ, ◌≤◌, ◌<◌, ◌≡◌, refl, sym, subst, Option, none, some, List, [], ◌∷◌, arith,
}
use paperless_ai_ocr.Queue.Model.{
  FinalizationStage, content_updated, complete_tag_added, failed_tag_removed, metadata_dispatched,
  failure_pending, failure_tag_added, Db,
}
use paperless_ai_ocr.Queue.Finalizing
use paperless_ai_ocr.Queue.Finalizing.{
  same_stage, same_dispatch, stage_code, finalization_of, control_of, valid_finalization_transition,
  valid_dispatch_transition, at_stage, moved_to, insert_finalization, advance_found, acquire_body,
  advance_body, require_finalization_admission, load_state,
}
use paperless_ai_ocr.Queue.Failures.{record_stage, record_failure_body}
use paperless_ai_ocr.Queue.Calls.{Call, run, run_all}
use paperless_ai_ocr.Queue.Columns.{finalizations-run}
use paperless_ai_ocr.Queue.Failures
use paperless_ai_ocr.Queue.StageSteps.{
  stays, begins, fails, moves, stage_at, StageStep, guarded, advance_body-StagesStep,
  acquire_body-StagesStep, record_failure_body-StagesStep, stays, moves,
}

-- Whatever call is made, the stage of every job stays, begins as pending or as failure_pending, or
-- moves by a transition that the code validates.
pub run-StageStep :
    (call : Call) (db : Db) (i : ℕ)
    → StageStep (stage_at i db.finalizations) (stage_at i (run call db).finalizations)
unfolding run Finalizing.acquire_finalization Finalizing.advance_finalization
    Failures.record_terminal_failure
run-StageStep (Call.acquire c k token duration) db i =
    guarded _ _ db c _
      (λ _. acquire_body-StagesStep c.statement k.now k.id k.attempt k.owner token db duration) i
run-StageStep (Call.advance c k token from to) db i =
    guarded _ _ db c _
      (λ e.
        advance_body-StagesStep c.statement k.now k.id k.attempt k.owner token db from to
          (ground arith))
      i
run-StageStep (Call.record_failure c k d) db i =
    guarded _ _ db c _
      (λ _. record_failure_body-StagesStep c.statement k.now k.id k.attempt k.owner d db) i
run-StageStep call db i =
    subst (λ fs. StageStep (stage_at i db.finalizations) (stage_at i fs))
      (sym (finalizations-run call db refl)) (stays _)

-- which outcome a stage belongs to: none yet, success, or failure
abbrev pub side : FinalizationStage → ℕ
side FinalizationStage.pending = 0
side content_updated = 1
side complete_tag_added = 1
side failed_tag_removed = 1
side metadata_dispatched = 1
side failure_pending = 2
side failure_tag_added = 2

-- a stage on the side of `s`, and no earlier than it
abbrev pub Committed : FinalizationStage → Option FinalizationStage → Type 0
Committed s none = ⊥
Committed s (some t) = (side t ≡ side s) × (stage_code s ≤ stage_code t)

StageStep-Committed :
    (s : FinalizationStage) {o p : Option FinalizationStage}
    → StageStep o p
    → 0 < side s
    → Committed s o
    → Committed s p
unfolding valid_finalization_transition
StageStep-Committed s (stays o) pos h = h
StageStep-Committed s begins pos h = absurd h
StageStep-Committed s fails pos h = absurd h
StageStep-Committed s (moves from to valid) pos h = ground arith

run_all-Committed :
    (calls : List Call) (db : Db) (i : ℕ) (s : FinalizationStage)
    → 0 < side s
    → Committed s (stage_at i db.finalizations)
    → Committed s (stage_at i (run_all calls db).finalizations)
unfolding run_all
run_all-Committed [] db i s pos h = h
run_all-Committed (c ∷ cs) db i s pos h =
    run_all-Committed cs (run c db) i s pos (StageStep-Committed s (run-StageStep c db i) pos h)

-- Once the finalization of a job has left the pending stage it is committed to its outcome: over
-- any sequence of calls its stage stays on the side of success or of failure, and never goes back.
pub run_all-side :
    (calls : List Call) (db : Db) (i : ℕ) (s : FinalizationStage)
    → stage_at i db.finalizations ≡ some s
    → 0 < side s
    → Committed s (stage_at i (run_all calls db).finalizations)
run_all-side calls db i s e pos =
    run_all-Committed calls db i s pos (subst (Committed s) (sym e) (refl, omega arith))
