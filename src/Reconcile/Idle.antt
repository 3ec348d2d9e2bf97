-- ===== src/Reconcile/Idle.antt =====
-- The steps of internal/reconcile/reconcile.go that neither read a page of the archive nor write the
-- row of settings.
use paperless_ai_ocr.Prelude.{ℕ, zero, suc, String, refl, Option, none, some, List, [], ◌∷◌}
use paperless_ai_ocr.Text.{blank}
use paperless_ai_ocr.Queue.Model.{Candidate}
use paperless_ai_ocr.Finalize.World.{Document}
use paperless_ai_ocr.Reconcile.World.{Fetched, found, missing, unavailable, Env, Exec}
use paperless_ai_ocr.Reconcile.Checkpoint.{Options}
use paperless_ai_ocr.Reconcile.Passes.{
  next_candidate, fetch, discard, resolve, after_fetch, candidate_round, resolve_candidates,
  enqueue_documents,
}
use paperless_ai_ocr.Reconcile.Triples.{
  Still, Still-give, Still-stop, Still-stored, Still-if, Still-tally, Still-guard, Still-bind,
  Still-then,
}

module _ (o : Options) (env : Env) where
  pub Still-next_candidate : (message : String) → Still (next_candidate o env message)
  unfolding next_candidate
  Still-next_candidate message = record { same_setting = λ w. refl; same_listed = λ w. refl }

  Still-fetch : (document_id : ℕ) → Still (fetch o env document_id)
  unfolding fetch
  Still-fetch document_id = record { same_setting = λ w. refl; same_listed = λ w. refl }

  Still-discard : (message : String) (c : Candidate) → Still (discard o env message c)
  unfolding discard
  Still-discard message c = Still-bind _ _ (Still-stored env message _) λ discarded. Still-tally _

  Still-after_fetch : (c : Candidate) (answer : Fetched) → Still (after_fetch o env c answer)
  unfolding after_fetch resolve
  Still-after_fetch c missing = Still-discard _ c
  Still-after_fetch c (unavailable f) = Still-stop _
  Still-after_fetch c (found document) =
      Still-if (blank document.checksum) _ _ (Still-discard _ c)
        (Still-bind _ _ (Still-stored env _ _) λ resolution. Still-tally _)

  Still-candidate_round :
      (rest : Exec (Unit {0})) (next : Option Candidate)
      → Still rest
      → Still (candidate_round o env rest next)
  unfolding candidate_round
  Still-candidate_round rest none h = Still-give tt
  Still-candidate_round rest (some c) h =
      Still-then _ _
        (Still-then _ _ (Still-guard _ _)
          (Still-bind _ _ (Still-fetch c.document_id) (Still-after_fetch c)))
        h

  pub Still-resolve_candidates : (n : ℕ) → Still (resolve_candidates o env n)
  unfolding resolve_candidates
  Still-resolve_candidates zero = Still-give tt
  Still-resolve_candidates (suc n) =
      let ih = Still-resolve_candidates n in
      Still-bind _ _ (Still-next_candidate _) λ next. Still-candidate_round _ next ih

  pub Still-enqueue_documents :
      (documents : List Document) → Still (enqueue_documents o env documents)
  unfolding enqueue_documents
  Still-enqueue_documents [] = Still-give tt
  Still-enqueue_documents (document ∷ documents) =
      let ih = Still-enqueue_documents documents in
      Still-then _ _
        (Still-then _ _ (Still-then _ _ (Still-tally _) (Still-guard _ _))
          (Still-bind _ _ (Still-stored env _ _) λ answer. Still-tally _))
        ih
