-- ===== src/Worker/Whole.antt =====
-- What the worker (internal/worker/worker.go) hands over for finalization: a content of all pages.
use paperless_ai_ocr.Prelude.{
  str_eq, not, ◌||◌, ℕ, suc, ◌-◌, ◌≤◌, ◌<◌, ◌≡◌, refl, sym, ap, subst, ◌∙◌, ◌⊎◌, inl, inr, true,
  not, ◌||◌, Option, some, List, [], ◌∷◌, map, arith, str_eq, ltb, leb, ◌==◌, Bool-cases, length,
}
use paperless_ai_ocr.Saferr.{err, Result, Result, ok, err, ok_inj}
use mathlib.Core.List.{append-nil}
use paperless_ai_ocr.Saferr.{ok≢err}
use paperless_ai_ocr.Worker.Transcribe.{owner_of}
use paperless_ai_ocr.Worker.Plan.{
  Capability, direct_pdf, page_images, plan_ranges, plan_ranges_lem, plan_ranges-err, count_up,
  pages_of, max_document_pages,
}
use paperless_ai_ocr.Worker.World.{Failure, done, Env, World, ask, stored, safe_error, checked}
use paperless_ai_ocr.Worker.Steps.{Options, render_format}
use paperless_ai_ocr.Worker.Process.{
  claimed_job, resume, Produced, reconstruct_result, reconstructed, in_workspace, closing, fresh,
  process, Produced, reconstruct_result, reconstructed, planned, ensure, by_images, after_direct,
  directly, content_of, in_workspace, closing, fresh, process,
}
use paperless_ai_ocr.Worker.Delivers.{
  Delivers, Delivers-give, Delivers-stop, Delivers-if, Delivers-bind, Delivers-trivial,
  Delivers-then, Delivers-checked, Delivers-stored, Caught, Delivers-caught,
}
use paperless_ai_ocr.Worker.Aligned.{
  Fits, Aligned, Aligned-numbers, transcribe-Fits, process_batches-Aligned,
}
use paperless_ai_ocr.Queue.Model.{Job, BatchRange, Batch}
use paperless_ai_ocr.Queue.Valid.{same_batch_plan}
use paperless_ai_ocr.Queue.Batches
use paperless_ai_ocr.Queue.Plans.{ensure_batches-plan}
use paperless_ai_ocr.Ocr.Bytes.{Bytes}
use paperless_ai_ocr.Ocr.Meta.{Unicode}
use paperless_ai_ocr.Ocr.Model as Model
use paperless_ai_ocr.Ocr.Join.{join, all_pages}
use paperless_ai_ocr.Ocr.Join.RoundTrip.{read_content, join-read_content, join-numbers}

-- The content is read back as the pages from 1 to a number, each once and in order.
pub record Covers (count : ℕ) (content : Bytes) : Type 0 where
  pub pages : List Model.Page
  pub read : read_content content ≡ some pages
  pub numbered : map (λ page. page.number) pages ≡ count_up 1 count

Covers-join :
    (unicode : Unicode) (batches : List Model.Batch) (count : ℕ) (content : Bytes)
    → map (λ page. page.number) (all_pages batches) ≡ count_up 1 count
    → join unicode batches ≡ ok content
    → Covers count content
Covers-join unicode batches count content numbered h = record {
  pages = all_pages batches;
  read = join-read_content unicode batches content h;
  numbered = numbered;
}

Covers-checked :
    (unicode : Unicode) (count : ℕ) (ranges : List BatchRange) (batches : List Model.Batch)
    → pages_of ranges ≡ count_up 1 count
    → Aligned unicode ranges batches
    → Delivers (Covers count) (checked (join unicode batches))
Covers-checked unicode count ranges batches plan aligned =
    Delivers-checked (join unicode batches) λ content h.
      Covers-join unicode batches count content
        (Aligned-numbers unicode ranges batches aligned ∙ plan) h

-- the range of a whole document
abbrev all_of : ℕ → BatchRange
all_of pages = record { first_page = 1; last_page = pages }

less_one : (pages : ℕ) → suc pages - 1 ≡ pages
less_one pages = omega arith

all_of-pages : (pages : ℕ) → pages_of (all_of pages ∷ []) ≡ count_up 1 pages
all_of-pages pages = append-nil (count_up 1 (suc pages - 1)) ∙ ap (count_up 1) (less_one pages)

-- the ranges that planRanges returns
plan_ranges-pages :
    (pages size : ℕ) (plan : Option (List BatchRange))
    → 0 < size
    → size ≤ 5
    → plan_ranges pages size page_images ≡ ok plan
    → Delivers (λ ranges. pages_of ranges ≡ count_up 1 pages) (planned plan)
plan_ranges-pages pages size plan pos small h =
    elim (Bool-cases (pages == 0 || ltb max_document_pages pages)) [
      | inl t ↦ absurd (ok≢err (sym h ∙ plan_ranges-err pages size page_images (outside t)))
      | inr f ↦
          let (rs, e, _, covers) =
            plan_ranges_lem pages size (ground arith) (ground arith) pos small in
          subst (λ p. Delivers (λ ranges. pages_of ranges ≡ count_up 1 pages) (planned p))
            (ok_inj (sym e ∙ h)) (Delivers-give rs covers)
    ]
  where
    outside :
        (pages == 0 || ltb max_document_pages pages) ≡ true
        → (pages ≡ 0) ⊎ (max_document_pages < pages)
    outside t = elim (Bool-cases (pages == 0)) [
      | inl e ↦ inl (ground arith)
      | inr n ↦ inr (ground arith)
    ]

module _ (o : Options) (env : Env) (job : Job) where
  abbrev HasPlan : List BatchRange → List Batch → Type 0
  HasPlan ranges checkpoints = same_batch_plan checkpoints ranges o.render_dpi render_format ≡ true

  ensure-HasPlan : (ranges : List BatchRange) → Delivers (HasPlan ranges) (ensure o env job ranges)
  unfolding ensure stored
  ensure-HasPlan ranges = record {
    delivered = λ w w' cs h.
        (Delivers-stored {Q = HasPlan ranges} env safe_error
            (λ conn now db.
              Batches.ensure_batches conn now (env.worker_now w.step) job.id job.attempts
                (owner_of job.lease_owner) ranges o.render_dpi render_format db)
            (λ conn now db cs e.
              (ensure_batches-plan conn now (env.worker_now w.step) job.id job.attempts
                (owner_of job.lease_owner) ranges o.render_dpi render_format db cs e).1)).delivered
          w w' cs h;
  }

  -- The content is whole: for some number of pages.
  abbrev pub Complete : Produced → Type 0
  Complete result = (count : ℕ) × Covers count result.content

  reconstruct_result-Complete : Delivers Complete (reconstruct_result o env job)
  unfolding reconstruct_result
  reconstruct_result-Complete = Delivers-bind _ _ (Delivers-trivial _) λ checkpoints _.
      Delivers-if (length checkpoints == 0) _ _ (λ _. Delivers-stop _)
        λ _.
          Delivers-bind _ _ (Delivers-trivial _)
            λ batches _. joined batches (join o.unicode batches) refl
    where
      joined :
          (batches : List Model.Batch) (r : Result Bytes)
          → join o.unicode batches ≡ r
          → Delivers Complete (reconstructed o env job r)
      joined batches (err e) h = Delivers-stop _
      joined batches (ok content) h = Delivers-give _ (
        length (all_pages batches),
        Covers-join o.unicode batches (length (all_pages batches)) content
            (join-numbers o.unicode batches content h) h,
      )

  module _ (pos : 0 < o.batch_size) (small : o.batch_size ≤ 5) where
    by_images-Covers : (pages : ℕ) → Delivers (Covers pages) (by_images o env job pages)
    unfolding by_images
    by_images-Covers pages =
        Delivers-bind _ _
          (Delivers-checked (plan_ranges pages o.batch_size page_images) λ plan e. e)
          λ plan e.
            Delivers-bind _ _ (plan_ranges-pages pages o.batch_size plan pos small e)
              λ ranges covers. Delivers-bind _ _ (ensure-HasPlan ranges) λ checkpoints same.
                Delivers-bind _ _
                  (process_batches-Aligned o env job checkpoints ranges o.render_dpi render_format
                    same)
                  λ batches aligned.
                    Delivers-bind _ _ (Covers-checked o.unicode pages ranges batches covers aligned)
                      λ content whole. Delivers-then _ _ (Delivers-give content whole)

    after_direct-Covers :
        (pages : ℕ) (result : Failure ⊎ (Model.Batch × Bytes))
        → Caught (λ answer. Fits o.unicode (all_of pages) answer.0) result
        → Delivers (Covers pages) (after_direct o env job pages (all_of pages) result)
    unfolding after_direct
    after_direct-Covers pages (inl f) fits =
        Delivers-if (o.falls_back f) _ _ (λ _. by_images-Covers pages) (λ _. Delivers-stop f)
    after_direct-Covers pages (inr answer) fits =
        Delivers-bind _ _ (Delivers-trivial _) λ checkpoints _. Delivers-then _ _ (
          Covers-checked o.unicode pages (all_of pages ∷ []) (answer.0 ∷ []) (all_of-pages pages)
            (fits, tt))

    directly-Covers : (pages : ℕ) → Delivers (Covers pages) (directly o env job pages)
    unfolding directly
    directly-Covers pages =
        Delivers-bind _ _ (Delivers-caught _ (transcribe-Fits o env job (all_of pages) true))
          λ result fits. after_direct-Covers pages result fits

    content_of-Covers :
        (capability : Capability) (pages : ℕ)
        → Delivers (Covers pages) (content_of o env job capability pages)
    unfolding content_of
    content_of-Covers page_images pages = by_images-Covers pages
    content_of-Covers direct_pdf pages =
        Delivers-if (leb pages 5) _ _
          (λ _. Delivers-bind _ _ (Delivers-trivial (ask env.source)) λ pdf _.
            Delivers-if (o.eligible pages pdf) _ _ (λ _. directly-Covers pages)
              (λ _. by_images-Covers pages))
          (λ _. by_images-Covers pages)

    in_workspace-Complete :
        (document_id : ℕ) → Delivers Complete (in_workspace o env job document_id)
    unfolding in_workspace
    in_workspace-Complete document_id = Delivers-then _ _ (
        Delivers-bind _ _ (Delivers-trivial _) λ digest _. Delivers-then _ _ (
          Delivers-then _ _ (
            Delivers-bind _ _ (Delivers-trivial _) λ pages _.
              Delivers-bind _ _ (Delivers-then _ _ (content_of-Covers o.capability pages))
                λ content covers. Delivers-give _ (pages, covers))))

    fresh-Complete : Delivers Complete (fresh o env job)
    unfolding fresh closing
    fresh-Complete = Delivers-bind _ _ (Delivers-trivial _) λ document_id _. Delivers-then _ _ (
        Delivers-bind _ _ (Delivers-trivial _) λ document _. Delivers-then _ _ (
          Delivers-then _ _ (
            Delivers-then _ _ (
              Delivers-bind _ _ (in_workspace-Complete document_id)
                λ result complete. Delivers-then _ _ (Delivers-give result complete)))))

    resume-Complete : Delivers Complete (resume o env job)
    unfolding resume
    resume-Complete = Delivers-bind _ _ (Delivers-trivial _) λ diagnostic _. Delivers-then _ _ (
        Delivers-bind _ _ (Delivers-trivial _) λ started _.
          Delivers-if started _ _ (λ _. reconstruct_result-Complete) (λ _. fresh-Complete))

    -- Whatever path process takes.
    process-Delivers : Delivers Complete (process o env job)
    unfolding process
    process-Delivers =
        Delivers-if (not (claimed_job job)) _ _ (λ _. Delivers-stop _)
          (λ _.
            Delivers-if
              (not (str_eq job.model o.model) || not (str_eq job.prompt_version o.prompt_version)) _
              _ (λ _. Delivers-stop _) (λ _. resume-Complete))

    pub process-Covers :
        (w w' : World) (result : Produced)
        → process o env job w ≡ (done result, w')
        → (count : ℕ) × Covers count result.content
    process-Covers w w' result h = process-Delivers.delivered w w' result h

    -- With a batch size of one to five and whatever the answers are: the content that process makes
    -- of a document with a given number of pages, whether in one request, by page images or by page
    -- images after that request failed, holds exactly the pages from 1 to that number, each once.
    pub content_of-all :
        (capability : Capability) (pages : ℕ) (w w' : World) (content : Bytes)
        → content_of o env job capability pages w ≡ (done content, w')
        → Covers pages content
    content_of-all capability pages w w' content h =
        (content_of-Covers capability pages).delivered w w' content h
