-- ===== src/Worker/World.antt =====
-- What a run of the worker (internal/worker/worker.go) reads and changes: the tables of the queue,
-- and the page ranges that it asks the model for. Everything outside the program is an answer of
-- Env, one for each step of a run.
use paperless_ai_ocr.Prelude.{◌⊎◌, inl, inr, ℕ, suc, Bool, Option, none, some, List, String}
use paperless_ai_ocr.Saferr.{Cause, Error, Result, ok, err}
use paperless_ai_ocr.Queue.Model.{Db, BatchRange}
use paperless_ai_ocr.Queue.Transaction.{Conn}
use paperless_ai_ocr.Queue.Calls.{Call, run_all}
use paperless_ai_ocr.Finalize.World.{Foreign, safe, other, Document}
use paperless_ai_ocr.Ocr.Bytes.{Bytes}
use paperless_ai_ocr.Worker.Transcribe as Transcribe

-- The errors that the worker tells apart: lostLeaseError, reconstructionError, and the rest; and an
-- index out of range, which ends the process.
pub data Failure : Type 0 where
  lost_lease panicked : Failure
  reconstruction : Error → Failure
  foreign : Foreign → Failure

pub data Outcome {ℓ} (A : Type ℓ) : Type ℓ where
  halted : Failure → Outcome A
  done : A → Outcome A

-- pdf.Page: its number and size, and whether its file is read back whole and fits into a request
pub record RenderedPage : Type 0 where
  pub number : ℕ
  pub size : ℕ
  pub readable : Bool

-- The answers from outside, each by the number of the step that asks. `attempts` is what the loop
-- of transcribe is answered, `download` the digest of what was downloaded, and `worker_now` the second
-- reading of a clock in a step.
pub record Env : Type 0 where
  pub conn : ℕ → Conn
  pub now : ℕ → ℕ
  pub worker_now : ℕ → ℕ
  pub context : ℕ → Option Cause
  pub between : ℕ → List Call
  pub document : ℕ → Foreign ⊎ Document
  pub workspace : ℕ → Foreign ⊎ Unit {0}
  pub download : ℕ → Foreign ⊎ String
  pub pages : ℕ → Foreign ⊎ ℕ
  pub source : ℕ → Foreign ⊎ Bytes
  pub rendered : ℕ → Foreign ⊎ List RenderedPage
  pub attempts : ℕ → Transcribe.Env

-- `asked` are the ranges that the model was asked for, the last one first.
pub record World : Type 0 where
  pub step : ℕ
  pub db : Db
  pub asked : List BatchRange

abbrev pub Exec {ℓ} : Type ℓ → Type ℓ
Exec A = World → Outcome A × World

abbrev pub and_then {ℓ κ} :
    {A : Type ℓ} {B : Type κ} → (A → Exec B) → Outcome A × World → Outcome B × World
and_then rest (halted f, w) = (halted f, w)
and_then rest (done a, w) = rest a w

infixl 5 ◌>>=◌ ◌>>◌
unfoldable pub ◌>>=◌ {ℓ κ} : {A : Type ℓ} {B : Type κ} → Exec A → (A → Exec B) → Exec B
m >>= rest = λ w. and_then rest (m w)

unfoldable pub ◌>>◌ {κ} : {B : Type κ} → Exec (Unit {0}) → Exec B → Exec B
m >> rest = λ w. and_then (λ _. rest) (m w)

unfoldable pub give {ℓ} : {A : Type ℓ} → A → Exec A
give a w = (done a, w)

unfoldable pub stop {ℓ} : {A : Type ℓ} → Failure → Exec A
stop f w = (halted f, w)

abbrev pub answered {ℓ} : {A : Type ℓ} → Foreign ⊎ A → Outcome A
answered (inl f) = halted (foreign f)
answered (inr a) = done a

-- the error of a call as a value, for a caller that looks at it
abbrev pub result_of {ℓ} : {A : Type ℓ} → Outcome A → Failure ⊎ A
result_of (halted f) = inl f
result_of (done a) = inr a

unfoldable pub caught {ℓ} : {A : Type ℓ} → Exec A → Exec (Failure ⊎ A)
caught m w = let r = m w in (done (result_of r.0), r.1)

unfoldable pub ask {ℓ} : {A : Type ℓ} → (ℕ → Foreign ⊎ A) → Exec A
ask answer w = (answered (answer w.step), record w { step = suc w.step })

-- `ctx.Err()`
abbrev pub still : Option Cause → Foreign ⊎ Unit {0}
still none = inr tt
still (some cause) = inl (other cause)

unfoldable pub check_context : Env → Exec (Unit {0})
check_context env = ask (λ n. still (env.context n))

abbrev pub settled {ℓ} : {A : Type ℓ} → (Error → Failure) → Result A → Outcome A
settled f (ok a) = done a
settled f (err e) = halted (f e)

-- a call on the queue, after the calls of others
unfoldable pub stored {ℓ} :
    {A : Type ℓ} → Env → (Error → Failure) → (Conn → ℕ → Db → Result A × Db) → Exec A
stored env f op w =
    let r = op (env.conn w.step) (env.now w.step) (run_all (env.between w.step) w.db) in
    (settled f r.0, record w { step = suc w.step; db = r.1 })

-- a result of the program's own
abbrev pub safe_error : Error → Failure
safe_error e = foreign (safe e)

unfoldable pub checked {ℓ} : {A : Type ℓ} → Result A → Exec A
checked r w = (settled safe_error r, w)
