-- ===== src/Worker/Transcribe.antt =====
-- The loop of transcribe of internal/worker/worker.go, with renew: how often the model is asked for
-- a range of pages, and how long the worker waits between. The transcriber and the classification
-- of its errors are injected functions, and so is what SQLite, the clock and the context answer.
use paperless_ai_ocr.Prelude.{
  zero, suc, ℕ, String, Bool, not, ◌&&◌, ◌||◌, Option, none, some, List, ◌==◌, if◌then◌else◌, ◌∷◌,
  suc,
}
use paperless_ai_ocr.Saferr.{provider, Cause, Error, new, Result, err, ok}
use paperless_ai_ocr.Queue.Model.{Job, Db}
use paperless_ai_ocr.Queue.Transaction.{Conn}
use paperless_ai_ocr.Queue.Calls.{Call, run_all}
use paperless_ai_ocr.Queue.Leases
use paperless_ai_ocr.Worker.Backoff.{backoff_delay}

-- an error of the transcriber, as Unsupported, ProviderTimeout, Retry and errors.Is classify it
pub record Fault : Type 0 where
  pub unsupported : Bool
  pub provider_timeout : Bool
  pub deadline_exceeded : Bool
  pub retry_after : ℕ
  pub retryable : Bool
  pub error : Error

pub data Reply : Type 0 where
  transcribed : String → Reply
  faulted : Fault → Reply

-- the answers from outside, each by the number of the attempt
pub record Env : Type 0 where
  pub conn : ℕ → Conn
  pub now : ℕ → ℕ
  pub between : ℕ → List Call
  pub context_before : ℕ → Option Cause
  pub context_after : ℕ → Option Cause
  pub reply : ℕ → Reply
  pub sleep : ℕ → Option Cause
  pub jitter : ℕ → ℕ

-- how the loop ends: with a transcription, a lost lease, the error of a context, or an error
pub data Ending : Type 0 where
  raw : String → Ending
  lost_lease : Ending
  interrupted : Cause → Ending
  refused : Error → Ending

-- a request to the model: the instant and the tables of the renewal before it
pub record Request : Type 0 where
  pub at : ℕ
  pub db : Db

pub record Session : Type 0 where
  pub db : Db
  pub requests : List Request
  pub waits : List ℕ

abbrev pub owner_of : Option String → String
owner_of none = ""
owner_of (some owner) = owner

abbrev pub unavailable : Error
unavailable = new provider "transcription service unavailable"

-- whether a fault may be tried again, and after which delay
abbrev pub may_retry : Fault → Bool
may_retry f = f.deadline_exceeded || f.retryable

abbrev pub delay_after : Env → ℕ → Fault → ℕ
delay_after env attempt f =
    if f.deadline_exceeded || f.retry_after == 0
    then backoff_delay attempt env.jitter
    else f.retry_after

-- `ctx.Err()` comes before what follows.
abbrev pub interrupted_or : Option Cause → Option Ending → Option Ending
interrupted_or (some cause) rest = some (interrupted cause)
interrupted_or none rest = rest

module _ (env : Env) (lease : ℕ) (job : Job) (stop_on_timeout : Bool) where
  -- the error that a fault ends the loop with, or `none` where it goes on
  unfoldable pub judged : ℕ → Bool → Fault → Option Ending
  judged attempt last f = interrupted_or (env.context_after attempt) (
      if f.unsupported || stop_on_timeout && f.provider_timeout
      then some (refused f.error)
      else if not (may_retry f) || last
      then some (refused (if f.deadline_exceeded then unavailable else f.error))
      else none)

  -- the wait before the next attempt
  unfoldable pub after_sleep :
      (Session → Ending × Session) → Option Cause → Session → Ending × Session
  after_sleep next (some cause) s = (interrupted cause, s)
  after_sleep next none s = next s

  unfoldable pub after_fault :
      (Session → Ending × Session) → ℕ → Fault → Option Ending → Session → Ending × Session
  unfolding after_sleep
  after_fault next attempt f (some ending) s = (ending, s)
  after_fault next attempt f none s =
      after_sleep next (env.sleep attempt)
        (record s { waits = delay_after env attempt f ∷ s.waits })

  unfoldable pub after_reply :
      (Session → Ending × Session) → ℕ → Bool → Reply → Session → Ending × Session
  unfolding judged after_fault
  after_reply next attempt last (transcribed text) s = (raw text, s)
  after_reply next attempt last (faulted f) s = after_fault next attempt f (judged attempt last f) s

  -- a request is sent where the lease was renewed
  unfoldable pub after_renewal :
      (Session → Ending × Session) → ℕ → Bool → Result (Unit {0}) → Session → Ending × Session
  unfolding after_reply
  after_renewal next attempt last (err e) s = (lost_lease, s)
  after_renewal next attempt last (ok u) s =
      after_reply next attempt last (env.reply attempt)
        (record s { requests = record { at = env.now attempt; db = s.db } ∷ s.requests })

  -- renew
  unfoldable pub renewal : ℕ → Db → Result (Unit {0}) × Db
  renewal attempt db =
      Leases.renew_lease (env.conn attempt) (env.now attempt) job.id job.attempts
        (owner_of job.lease_owner) lease (run_all (env.between attempt) db)

  unfoldable pub attempt_once :
      (Session → Ending × Session) → ℕ → Bool → Option Cause → Session → Ending × Session
  unfolding after_renewal renewal
  attempt_once next attempt last (some cause) s = (interrupted cause, s)
  attempt_once next attempt last none s =
      let r = renewal attempt s.db in after_renewal next attempt last r.0 (record s { db = r.1 })

  -- the loop, with the attempts that are left
  unfoldable pub request_transcription : ℕ → ℕ → Session → Ending × Session
  unfolding attempt_once
  request_transcription zero attempt s = (raw "", s)
  request_transcription (suc rest) attempt s =
      attempt_once (request_transcription rest (suc attempt)) attempt (rest == 0)
        (env.context_before attempt) s
