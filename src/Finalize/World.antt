-- ===== src/Finalize/World.antt =====
-- What a run of the finalizer (internal/finalize/finalize.go) reads and changes: the tables of the
-- queue, and the requests that it sends. Everything outside the program is an answer of Env, one
-- for each step of a run: the clock, SQLite, the context, Paperless and the dispatcher, and the
-- calls that the heartbeat, the worker and the server make on the queue in between.
use paperless_ai_ocr.Prelude.{◌⊎◌, inl, inr, ℕ, suc, String, Bool, Option, List, ◌∷◌}
use paperless_ai_ocr.Saferr.{Cause, Error, Result, ok, err}
use paperless_ai_ocr.Queue.Model.{Db}
use paperless_ai_ocr.Queue.Transaction.{Conn}
use paperless_ai_ocr.Queue.Calls.{Call, run_all}

-- an error from outside the program: a safe one, or any other, as that of a context
pub data Foreign : Type 0 where
  safe : Error → Foreign
  other : Cause → Foreign

-- The errors that the finalizer tells apart: lostLeaseError, admissionError, ambiguousDispatchError,
-- errSourceChanged, and the rest.
pub data Failure : Type 0 where
  lost_lease : Failure
  admission_error : Error → Failure
  ambiguous_dispatch_error : Failure
  source_changed : Error → Failure
  foreign : Foreign → Failure

pub data Outcome {ℓ} (A : Type ℓ) : Type ℓ where
  halted : Failure → Outcome A
  done : A → Outcome A

-- paperless.Document, as far as the finalizer reads it
pub record Document : Type 0 where
  pub id : ℕ
  pub checksum : String
  pub content : String
  pub tags : List ℕ

-- what the dispatcher answers: accepted, refused before anything was sent (retrySafe), or an error
-- after which it is not known whether the request arrived
pub data Answer : Type 0 where
  accepted : Answer
  retry_safe : Foreign → Answer
  uncertain : Foreign → Answer

-- the requests that change something outside
pub data Effect : Type 0 where
  content_put : ℕ → String → Effect
  tag_ensured : String → Effect
  tag_added : ℕ → ℕ → Effect
  tag_removed : ℕ → ℕ → Effect
  -- a dispatch for a job: true where it has or may have arrived
  dispatched : ℕ → Bool → Effect

-- the answers from outside, each by the number of the step that asks
pub record Env : Type 0 where
  pub conn : ℕ → Conn
  pub now : ℕ → ℕ
  pub context : ℕ → Option Cause
  pub between : ℕ → List Call
  pub document : ℕ → Foreign ⊎ Document
  pub tag : ℕ → Foreign ⊎ ℕ
  pub written : ℕ → Foreign ⊎ Unit {0}
  pub dispatch : ℕ → Answer
  pub lease_lost : ℕ → Bool

-- `stopped` is what stopping the heartbeat has returned, and `active` the guard of Finalizer.
pub record World : Type 0 where
  pub step : ℕ
  pub db : Db
  pub effects : List Effect
  pub stopped : Option Bool
  pub active : Bool

abbrev pub Exec {ℓ} : Type ℓ → Type ℓ
Exec A = World → Outcome A × World

abbrev pub and_then {ℓ κ} :
    {A : Type ℓ} {B : Type κ} → (A → Exec B) → Outcome A × World → Outcome B × World
and_then rest (halted f, w) = (halted f, w)
and_then rest (done a, w) = rest a w

infixl 5 ◌>>=◌ ◌>>◌
unfoldable pub ◌>>=◌ {ℓ κ} : {A : Type ℓ} {B : Type κ} → Exec A → (A → Exec B) → Exec B
m >>= rest = λ w. and_then rest (m w)

unfoldable pub ◌>>◌ {κ} : {B : Type κ} → Exec (Unit {0}) → Exec B → Exec B
m >> rest = λ w. and_then (λ _. rest) (m w)

unfoldable pub give {ℓ} : {A : Type ℓ} → A → Exec A
give a w = (done a, w)

unfoldable pub stop {ℓ} : {A : Type ℓ} → Failure → Exec A
stop f w = (halted f, w)

abbrev pub answered {ℓ} : {A : Type ℓ} → Foreign ⊎ A → Outcome A
answered (inl f) = halted (foreign f)
answered (inr a) = done a

-- a step that only reads an answer
unfoldable pub ask {ℓ} : {A : Type ℓ} → (ℕ → Foreign ⊎ A) → Exec A
ask answer w = (answered (answer w.step), record w { step = suc w.step })

-- a request, which is recorded whatever its answer
unfoldable pub send {ℓ} : {A : Type ℓ} → Effect → (ℕ → Foreign ⊎ A) → Exec A
send e answer w =
    (answered (answer w.step), record w { step = suc w.step; effects = e ∷ w.effects })

-- the error of a call on the queue, as the caller hands it on
abbrev pub settled {ℓ} : {A : Type ℓ} → (Error → Failure) → Result A → Outcome A
settled f (ok a) = done a
settled f (err e) = halted (f e)

-- a call on the queue, after the calls of others
unfoldable pub stored {ℓ} :
    {A : Type ℓ} → Env → (Error → Failure) → (Conn → ℕ → Db → Result A × Db) → Exec A
stored env f op w =
    let r = op (env.conn w.step) (env.now w.step) (run_all (env.between w.step) w.db) in
    (settled f r.0, record w { step = suc w.step; db = r.1 })
