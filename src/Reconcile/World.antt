-- ===== src/Reconcile/World.antt =====
-- What a pass of the reconciler (internal/reconcile/reconcile.go) reads and changes: the tables of
-- the queue, its row of settings, its report, and the requests that it sends to Paperless.
-- Everything outside the program is an answer of Env, one for each step of a pass.
use paperless_ai_ocr.Prelude.{
  ℕ, suc, String, ◌⊎◌, inl, inr, Bool, false, Option, List, if◌then◌else◌,
}
use paperless_ai_ocr.Saferr.{paperless, internal, Cause, Error, new, wrap, Result, ok, err}
use paperless_ai_ocr.Queue.Model.{Db}
use paperless_ai_ocr.Queue.Transaction.{Conn}
use paperless_ai_ocr.Queue.Calls.{Call, run_all}
use paperless_ai_ocr.Finalize.World.{Foreign, safe, other, Document}

-- Report
pub record Report : Type 0 where
  pub candidates_resolved : ℕ
  pub candidates_discarded : ℕ
  pub documents_seen : ℕ
  pub jobs_created : ℕ
  pub pages_processed : ℕ
  pub scan_complete : Bool

abbrev pub no_report : Report
no_report = record {
  candidates_resolved = 0;
  candidates_discarded = 0;
  documents_seen = 0;
  jobs_created = 0;
  pages_processed = 0;
  scan_complete = false;
}

-- what GetDocument answers: a document, a status error with code 404, or any other error
pub data Fetched : Type 0 where
  found : Document → Fetched
  missing : Fetched
  unavailable : Foreign → Fetched

-- paperless.DocumentPage
pub record DocumentPage : Type 0 where
  pub documents : List Document
  pub next : String

-- The answers, each by the number of the step that asks; `statement` is that of a statement outside
-- a transaction of the queue, and `between` the calls that others make on the queue before the step.
pub record Env : Type 0 where
  pub conn : ℕ → Conn
  pub statement : ℕ → Option Cause
  pub now : ℕ → ℕ
  pub between : ℕ → List Call
  pub document : ℕ → Fetched
  pub page : ℕ → Foreign ⊎ DocumentPage
  pub yield : ℕ → Foreign ⊎ Unit {0}

-- `setting` is the row of settings, `listed` are the cursors of the pages that were asked for, and
-- `fetched` the documents, both the last one first.
pub record World : Type 0 where
  pub step : ℕ
  pub db : Db
  pub setting : Option String
  pub report : Report
  pub listed : List String
  pub fetched : List ℕ

abbrev pub Exec {ℓ} : Type ℓ → Type ℓ
Exec A = World → Result A × World

abbrev pub and_then {ℓ κ} :
    {A : Type ℓ} {B : Type κ} → (A → Exec B) → Result A × World → Result B × World
and_then rest (err e, w) = (err e, w)
and_then rest (ok a, w) = rest a w

infixl 5 ◌>>=◌ ◌>>◌
unfoldable pub ◌>>=◌ {ℓ κ} : {A : Type ℓ} {B : Type κ} → Exec A → (A → Exec B) → Exec B
m >>= rest = λ w. and_then rest (m w)

unfoldable pub ◌>>◌ {κ} : {B : Type κ} → Exec (Unit {0}) → Exec B → Exec B
m >> rest = λ w. and_then (λ _. rest) (m w)

unfoldable pub give {ℓ} : {A : Type ℓ} → A → Exec A
give a w = (ok a, w)

unfoldable pub stop {ℓ} : {A : Type ℓ} → Error → Exec A
stop e w = (err e, w)

-- an early return of an error
unfoldable pub guard : Bool → Error → Exec (Unit {0})
guard test e w = (if test then err e else ok tt, w)

-- reconcileError: the category of a safe error is kept
abbrev pub reconcile_error : String → Foreign → Error
reconcile_error message (safe e) = record {
  category = e.category;
  message = message;
  cause = e.cause;
}
reconcile_error message (other cause) = wrap internal message cause

-- paginationError
abbrev pub pagination_error : String → Error
pagination_error message = new paperless message

abbrev pub answered {ℓ} : {A : Type ℓ} → String → Foreign ⊎ A → Result A
answered message (inl f) = err (reconcile_error message f)
answered message (inr a) = ok a

unfoldable pub ask {ℓ} : {A : Type ℓ} → String → (ℕ → Foreign ⊎ A) → Exec A
ask message answer w = (answered message (answer w.step), record w { step = suc w.step })

abbrev pub settled {ℓ} : {A : Type ℓ} → String → Result A → Result A
settled message (ok a) = ok a
settled message (err e) = err (reconcile_error message (safe e))

-- a call on the queue, after the calls of others
unfoldable pub stored {ℓ} : {A : Type ℓ} → Env → String → (Conn → ℕ → Db → Result A × Db) → Exec A
stored env message op w =
    let r = op (env.conn w.step) (env.now w.step) (run_all (env.between w.step) w.db) in
    (settled message r.0, record w { step = suc w.step; db = r.1 })

-- an addition to the report
unfoldable pub tally : (Report → Report) → Exec (Unit {0})
tally f w = (ok tt, record w { report = f w.report })
