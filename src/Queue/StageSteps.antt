-- ===== src/Queue/StageSteps.antt =====
-- How the bodies of internal/queue/queue.go change the stage of a job.
use paperless_ai_ocr.Prelude.{
  ℕ, String, ◌≡◌, refl, sym, subst, ◌∙◌, ◌⊎◌, inl, inr, Bool, true, false, not, Option, none, some,
  List, [], ◌∷◌, ◌++◌, arith, ◌==◌, if◌then◌else◌, and_right, updated, or_else, find-update,
  find-append, find-count, count_where, update_where, find_where,
}
use paperless_ai_ocr.Saferr.{
  Cause, Error, Result, ok, err, ok≢err, Ensures, returned, rejected, Ensures-ok, Ensures-err,
  Ensures-if, Ensures-of, ok_inj,
}
use paperless_ai_ocr.Queue.Model.{
  FinalizationStage, failure_pending, FinalizationState, SafeDiagnostic, Finalization, Db,
}
use paperless_ai_ocr.Queue.Transaction.{Conn, write_context, Ensures-carried, write_context-keeps}
use paperless_ai_ocr.Queue.Finalizing.{
  same_stage, finalization_of, valid_finalization_transition, at_stage, moved_to,
  insert_finalization, acquire_body, advance_body,
}
use paperless_ai_ocr.Queue.Failures.{record_stage, record_failure_body}

abbrev pub stage_of : Option Finalization → Option FinalizationStage
stage_of none = none
stage_of (some f) = some f.stage

-- the stage of a job, where its finalization has begun
abbrev pub stage_at : ℕ → List Finalization → Option FinalizationStage
stage_at id rows = stage_of (finalization_of id rows)

-- one step of the machine
pub data StageStep : Option FinalizationStage → Option FinalizationStage → Type 0 where
  stays : (o : Option FinalizationStage) → StageStep o o
  begins : StageStep none (some FinalizationStage.pending)
  fails : StageStep none (some failure_pending)
  moves :
      (from to : FinalizationStage)
      → valid_finalization_transition from to ≡ true
      → StageStep (some from) (some to)

abbrev pub StagesStep : List Finalization → List Finalization → Type 0
StagesStep fs fs' = (i : ℕ) → StageStep (stage_at i fs) (stage_at i fs')

pub same_stage-eq : (a b : FinalizationStage) → same_stage a b ≡ true → a ≡ b
same_stage-eq a b h = ground arith

pub has_job : ℕ → Finalization → Bool
has_job i f = f.job_id == i

pub moved-StagesStep :
    (fs : List Finalization) (id now : ℕ) (from to : FinalizationStage)
    → valid_finalization_transition from to ≡ true
    → StagesStep fs (update_where (at_stage id from) (moved_to to now) fs)
moved-StagesStep fs id now from to valid i =
    rw (find-update (λ f. f.job_id == i) (at_stage id from) (moved_to to now) fs (λ f _. refl))
      (go (finalization_of i fs))
  where
    choose :
        (f : Finalization) (b : Bool)
        → at_stage id from f ≡ b
        → StageStep (some f.stage) (stage_of (some (if b then moved_to to now f else f)))
    choose f true t = moves f.stage to (
        subst (λ s. valid_finalization_transition s to ≡ true)
          (sym (same_stage-eq f.stage from (and_right _ _ t))) valid)
    choose f false t = stays (some f.stage)

    go :
        (o : Option Finalization)
        → StageStep (stage_of o) (stage_of (updated (at_stage id from) (moved_to to now) o))
    go none = stays none
    go (some f) = choose f (at_stage id from f) refl

-- a new row for a job that has none
pub added-StagesStep :
    (fs : List Finalization) (f : Finalization)
    → finalization_of f.job_id fs ≡ none
    → StageStep none (some f.stage)
    → StagesStep fs (fs ++ f ∷ [])
unfolding find_where
added-StagesStep fs f absent step i =
    rw (find-append (λ g. g.job_id == i) fs (f ∷ [])) (go (finalization_of i fs) refl)
  where
    choose :
        (b : Bool) → (f.job_id == i) ≡ b → StageStep none (stage_of (if b then some f else none))
    choose true t = step
    choose false t = stays none

    go :
        (o : Option Finalization)
        → finalization_of i fs ≡ o
        → StageStep (stage_of o) (stage_of (or_else o (finalization_of i (f ∷ []))))
    go none e = choose (f.job_id == i) refl
    go (some g) e = stays (some g.stage)

-- the effect of one body on the stages
abbrev pub Steps : List Finalization → Db → Type 0
Steps fs d = StagesStep fs d.finalizations

pub guarded :
    {A : Type 0} (b : Bool) (e : Error) (db : Db) (conn : Conn) (fn : Db → Result (A × Db))
    → (b ≡ false → Ensures (λ x. Steps db.finalizations x.1) (fn db))
    → Steps db.finalizations (if b then (err e, db) else write_context conn fn db).1
guarded true e db conn fn h = λ i. stays _
guarded false e db conn fn h =
    write_context-keeps (Steps db.finalizations) conn fn db (λ i. stays _) (h refl)

module _ (io : ℕ → Option Cause) (now id attempt : ℕ) (owner token : String) (db : Db) where
  finalizations-advance_body :
      (from to : FinalizationStage) (x : Unit {0} × Db)
      → advance_body io now id attempt owner token from to db ≡ ok x
      → (x.1.finalizations ≡ db.finalizations)
        ⊎ (x.1.finalizations ≡ update_where (at_stage id from) (moved_to to now) db.finalizations)
  unfolding advance_body
  finalizations-advance_body from to x h = ground arith

  pub advance_body-StagesStep :
      (from to : FinalizationStage)
      → valid_finalization_transition from to ≡ true
      → Ensures
          (λ x. Steps db.finalizations x.1)
          (advance_body io now id attempt owner token from to db)
  advance_body-StagesStep from to valid = Ensures-of _ λ x h.
      elim (finalizations-advance_body from to x h) [
        | inl e ↦ subst (StagesStep db.finalizations) (sym e) (λ i. stays _)
        | inr e ↦
            subst (StagesStep db.finalizations) (sym e)
              (moved-StagesStep db.finalizations id now from to valid)
      ]

  insert-StagesStep : (fs : List Finalization) → StagesStep fs (insert_finalization id now fs)
  insert-StagesStep fs = choose (count_where (λ f. f.job_id == id) fs == 0) refl
    where
      row : Finalization
      row = record {
        job_id = id;
        stage = FinalizationStage.pending;
        created_at = now;
        updated_at = now;
      }

      choose :
          (b : Bool)
          → (count_where (λ f. f.job_id == id) fs == 0) ≡ b
          → StagesStep fs (if b then fs ++ row ∷ [] else fs)
      choose true t =
          added-StagesStep fs row (find-count (λ f. f.job_id == id) fs (ground arith)) begins
      choose false t = λ i. stays _

  finalizations-acquire_body :
      (duration : ℕ) (x : FinalizationState × Db)
      → acquire_body io now id attempt owner token duration db ≡ ok x
      → x.1.finalizations ≡ insert_finalization id now db.finalizations
  unfolding acquire_body
  finalizations-acquire_body duration x h = ground arith

  pub acquire_body-StagesStep :
      (duration : ℕ)
      → Ensures
          (λ x. Steps db.finalizations x.1)
          (acquire_body io now id attempt owner token duration db)
  acquire_body-StagesStep duration = Ensures-of _ λ x h.
      subst (StagesStep db.finalizations) (sym (finalizations-acquire_body duration x h))
        (insert-StagesStep db.finalizations)

module _ (io : ℕ → Option Cause) (now id : ℕ) (fs : List Finalization) where
  record_stage-StagesStep :
      (o : Option Finalization)
      → finalization_of id fs ≡ o
      → Ensures (StagesStep fs) (record_stage io now id fs o)
  unfolding record_stage
  record_stage-StagesStep none e =
      Ensures-carried (io 2) "cannot record terminal OCR failure" _
        (Ensures-ok _ (added-StagesStep fs _ e fails))
  record_stage-StagesStep (some f) e =
      Ensures-if (same_stage f.stage FinalizationStage.pending) _ _
        (λ _. Ensures-carried (io 2) "cannot record terminal OCR failure" _ (
          Ensures-ok _ (
            moved-StagesStep fs id now FinalizationStage.pending failure_pending
              (unfold valid_finalization_transition in refl))))
        λ _.
          Ensures-if (not (same_stage f.stage failure_pending)) _ _ (λ _. Ensures-err _)
            λ _. Ensures-ok fs (λ i. stays _)

pub finalizations-record_failure_body :
    (io : ℕ → Option Cause) (now id attempt : ℕ) (owner : String) (d : SafeDiagnostic) (db : Db)
    (x : Unit {0} × Db)
    → record_failure_body io now id attempt owner d db ≡ ok x
    → record_stage io now id db.finalizations (finalization_of id db.finalizations)
      ≡ ok x.1.finalizations
unfolding record_failure_body
finalizations-record_failure_body io now id attempt owner d db x h = ground arith

pub value_of : {A : Type 0} {Q : A → Type 0} {r : Result A} → Ensures Q r → (a : A) → r ≡ ok a → Q a
value_of {Q = P} (returned b e q) a h = subst P (ok_inj (sym e ∙ h)) q
value_of (rejected x e) a h = absurd (ok≢err (sym h ∙ e))

pub record_failure_body-StagesStep :
    (io : ℕ → Option Cause) (now id attempt : ℕ) (owner : String) (d : SafeDiagnostic) (db : Db)
    → Ensures (λ x. Steps db.finalizations x.1) (record_failure_body io now id attempt owner d db)
record_failure_body-StagesStep io now id attempt owner d db = Ensures-of _ λ x h.
    value_of (record_stage-StagesStep io now id db.finalizations _ refl) x.1.finalizations
      (finalizations-record_failure_body io now id attempt owner d db x h)
