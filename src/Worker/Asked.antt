-- ===== src/Worker/Asked.antt =====
-- Which ranges of pages the loop of process of internal/worker/worker.go asks the model for.
use paperless_ai_ocr.Prelude.{
  subst, sym, ◌≡◌, sym, subst, ◌⊎◌, Bool, true, false, List, [], ◌∷◌, arith, if◌then◌else◌,
}
use paperless_ai_ocr.Queue.Model.{Job, BatchRange, Batch, is_completed}
use paperless_ai_ocr.Ocr.Bytes.{Bytes}
use paperless_ai_ocr.Worker.World.{Outcome, halted, done, Env, World, Exec, ◌>>=◌, give}
use paperless_ai_ocr.Worker.Steps.{Options, process_batches}
use paperless_ai_ocr.Ocr.Model as Model

-- Nothing is asked.
pub record Quiet {ℓ} {A : Type ℓ} (m : Exec A) : Type ℓ where
  pub same : (w : World) → (m w).1.asked ≡ w.asked

abbrev pub is_done {ℓ} : {A : Type ℓ} → Outcome A → Bool
is_done (halted f) = false
is_done (done a) = true

-- The range is asked for once, or the run has ended with an error before it.
pub record Loud {ℓ} {A : Type ℓ} (r : BatchRange) (m : Exec A) : Type ℓ where
  pub once :
      (w : World)
      → ((m w).1.asked ≡ r ∷ w.asked) ⊎ (((m w).1.asked ≡ w.asked) × (is_done (m w).0 ≡ false))

pub not_both : true ≡ false → ⊥
not_both e = ground arith

-- the ranges whose checkpoint is not completed
abbrev pub open_ranges : List Batch → List BatchRange → List BatchRange
open_ranges [] rs = []
open_ranges (c ∷ cs) [] = open_ranges cs []
open_ranges (c ∷ cs) (r ∷ rs) =
    let rest = open_ranges cs rs in if is_completed c.state then rest else r ∷ rest

-- From what was asked before to what was asked after: the first of some ranges, in order, each once.
pub data InOrder : List BatchRange → List BatchRange → List BatchRange → Type 0 where
  rest : {rs before : List BatchRange} → InOrder rs before before
  next :
      {r : BatchRange} {rs before after : List BatchRange}
      → InOrder rs (r ∷ before) after
      → InOrder (r ∷ rs) before after

module _ (o : Options) (env : Env) (job : Job) where
  -- the rounds that follow, and the batches that they add to
  abbrev remaining : List Batch → List BatchRange → Model.Batch → Exec (List Model.Batch)
  remaining cs rs batch = process_batches o env job cs rs >>= λ batches. give (batch ∷ batches)
