-- ===== src/Worker/Fallback.antt =====
-- process of internal/worker/worker.go where an earlier run of the job left checkpoints of another
-- plan, as one that fell back to page images does.
use paperless_ai_ocr.Prelude.{
  ℕ, String, ◌≡◌, refl, sym, ◌∙◌, inl, inr, false, Option, none, List, [], ◌∷◌, arith, not, ◌||◌,
  ◌==◌, Bool-cases, subst,
}
use paperless_ai_ocr.Text.{blank}
use paperless_ai_ocr.Saferr.{
  Cause, Error, Result, ok, err, ok≢err, is_ok, Ensures, Ensures-err, Ensures-bind,
}
use paperless_ai_ocr.Queue.Model.{Job, BatchRange, Batch, Db}
use paperless_ai_ocr.Queue.Valid.{valid_batch_ranges, same_batch_plan}
use paperless_ai_ocr.Queue.Transaction.{Conn, write_context-eq-ok}
use paperless_ai_ocr.Queue.Leases.{invalid_claim_key}
use paperless_ai_ocr.Queue.Batches.{
  list_batches, ensure_listed, ensure_batches_body, ensure_batches,
}
use paperless_ai_ocr.Queue.Plans.{Ensures-next, list_batches-eq-ok, Ensures-value}
use paperless_ai_ocr.Queue.Calls.{run_all}
use paperless_ai_ocr.Ocr.Bytes.{Bytes}
use paperless_ai_ocr.Ocr.Model as Model
use paperless_ai_ocr.Worker.Transcribe.{owner_of}
use paperless_ai_ocr.Worker.World.{
  Failure, Outcome, halted, done, Env, World, Exec, and_then, ◌>>=◌, stored, settled, safe_error,
}
use paperless_ai_ocr.Worker.Steps.{Options, render_format}
use paperless_ai_ocr.Worker.Process.{ensure, after_direct}
use paperless_ai_ocr.Worker.Asked.{is_done}

-- The checkpoints of a job are of another plan.
abbrev pub OtherPlan : ℕ → List BatchRange → ℕ → String → Db → Type 0
OtherPlan id ranges dpi format db =
    (b : Batch) × ((bs : List Batch) × ((list_batches none id db ≡ ok (b ∷ bs))
        × (same_batch_plan (b ∷ bs) ranges dpi format ≡ false)))

refused-of {ℓ} : {A : Type ℓ} (r : Result A) → ((a : A) → r ≡ ok a → ⊥) → is_ok r ≡ false
refused-of (ok a) h = absurd (h a refl)
refused-of (err e) h = refl

module _ (ranges : List BatchRange) (dpi id : ℕ) (format : String) (db : Db)
    (other : OtherPlan id ranges dpi format db) where
  ensure_listed-refused :
      (io : ℕ → Option Cause) (now : ℕ) (c : Option Cause) (listed : List Batch)
      → list_batches c id db ≡ ok listed
      → Ensures (λ _. ⊥) (ensure_listed io now id ranges dpi format db listed)
  unfolding ensure_listed
  ensure_listed-refused io now c listed h =
      let (b, (bs, (first, different))) = other in
      let same : b ∷ bs ≡ listed =
        sym (list_batches-eq-ok none id db (b ∷ bs) first) ∙ list_batches-eq-ok c id db listed h in
      subst (λ l. Ensures (λ _. ⊥) (ensure_listed io now id ranges dpi format db l)) same
        (rw different (Ensures-err _))

  ensure_batches-refused :
      (conn : Conn) (leased_at now attempt : ℕ) (owner : String)
      → is_ok (ensure_batches conn leased_at now id attempt owner ranges dpi format db).0 ≡ false
  unfolding ensure_batches ensure_batches_body
  ensure_batches-refused conn leased_at now attempt owner = refused-of _ λ listed h.
      elim (Bool-cases (
        invalid_claim_key id attempt owner
        || not (valid_batch_ranges ranges)
        || dpi == 0
        || blank format)) [
          | inl t ↦ ok≢err (sym (rw t at h))
          | inr f ↦
              Ensures-value {Q = λ _. ⊥} _ _
                (Ensures-next _ _ (
                  Ensures-bind _ _ λ rows loaded.
                    ensure_listed-refused conn.statement now (conn.statement 1) rows loaded))
                (write_context-eq-ok conn
                  (ensure_batches_body conn.statement leased_at now id attempt owner ranges dpi
                    format)
                  db listed (rw f at h))
        ]

module _ {ℓ} {A : Type ℓ} where
  ended-settled :
      (f : Error → Failure) (r : Result A) → is_ok r ≡ false → is_done (settled f r) ≡ false
  ended-settled f (ok a) h = h
  ended-settled f (err e) h = refl

module _ {ℓ κ} {A : Type ℓ} {B : Type κ} where
  ended-bind :
      (m : Exec A) (rest : A → Exec B) (w : World)
      → is_done (m w).0 ≡ false
      → is_done ((m >>= rest) w).0 ≡ false
  unfolding ◌>>=◌
  ended-bind m rest w h = go (m w) h
    where
      go : (p : Outcome A × World) → is_done p.0 ≡ false → is_done (and_then rest p).0 ≡ false
      go (halted f, w') e = refl
      go (done a, w') e = absurd (ground (arith, e))

-- Where the job has checkpoints of another plan than the whole document in one range, as an earlier
-- run leaves that fell back to page images: after a request for the whole document that the model
-- answered, process ends with an error, whatever the other answers are.
pub after_direct-OtherPlan :
    (o : Options) (env : Env) (job : Job) (pages : ℕ) (r : BatchRange)
    (answer : Model.Batch × Bytes) (w : World)
    → OtherPlan job.id (r ∷ []) o.render_dpi render_format (run_all (env.between w.step) w.db)
    → is_done (after_direct o env job pages r (inr answer) w).0 ≡ false
unfolding after_direct ensure stored
after_direct-OtherPlan o env job pages r answer w other =
    ended-bind (ensure o env job (r ∷ [])) _ w (
      ended-settled safe_error _ (
        ensure_batches-refused (r ∷ []) o.render_dpi job.id render_format _ other (env.conn w.step)
          (env.now w.step) (env.worker_now w.step) job.attempts (owner_of job.lease_owner)))
