-- ===== src/Worker/Attempts.antt =====
-- How the loop of transcribe (internal/worker/worker.go) asks and waits.
use paperless_ai_ocr.Prelude.{
  zero, suc, [], ◌∷◌, ◌-◌, refl, subst, ℕ, ◌+◌, ◌≤◌, ◌<◌, String, ◌≡◌, inl, inr, Bool, true, ◌&&◌,
  ◌||◌, none, List, arith, ◌==◌, Bool-cases, length, All, count-update, count-le-count, count_where,
  update_where, Option, some,
}
use paperless_ai_ocr.Saferr.{is_ok, Result, err, ok, Cause}
use paperless_ai_ocr.Queue.Model.{Job, Db}
use paperless_ai_ocr.Queue.Transaction.{Conn, write_context}
use paperless_ai_ocr.Queue.Leases
use paperless_ai_ocr.Queue.Leases.{holds_lease, renewed, update_job}
use paperless_ai_ocr.Worker.Backoff.{backoff_delay_bounds}
use paperless_ai_ocr.Worker.Transcribe.{
  Fault, Env, Request, Session, owner_of, delay_after, judged, Ending, request_transcription,
  after_fault, after_reply, after_renewal, attempt_once, after_sleep, Reply, renewal, transcribed,
  faulted,
}
use paperless_ai_ocr.Queue.Calls.{run_all}

-- the holders of the lease after it is renewed
renewed-count :
    (now id attempt : ℕ) (owner : String) (duration : ℕ) (js : List Job)
    → 0 < duration
    → count_where (holds_lease now id attempt owner) js
      ≤ count_where
          (holds_lease now id attempt owner)
          (update_where (holds_lease now id attempt owner) (renewed now duration) js)
renewed-count now id attempt owner duration js pos = omega (
  arith,
  count-update (holds_lease now id attempt owner) (holds_lease now id attempt owner)
      (renewed now duration) js,
  count-le-count (λ r. holds_lease now id attempt owner r && holds_lease now id attempt owner r)
      (λ r.
        holds_lease now id attempt owner r
        && holds_lease now id attempt owner (renewed now duration r))
      js (λ r h. ground arith),
)

-- After a renewal the generation holds the lease.
pub renew_lease-held :
    (conn : Conn) (now id attempt : ℕ) (owner : String) (duration : ℕ) (db : Db)
    → is_ok (Leases.renew_lease conn now id attempt owner duration db).0 ≡ true
    → 0
      < count_where
          (holds_lease now id attempt owner)
          (Leases.renew_lease conn now id attempt owner duration db).1.jobs
unfolding Leases.renew_lease write_context
renew_lease-held conn now id attempt owner duration db h =
    ground (arith, renewed-count now id attempt owner duration db.jobs)

-- the lease is held at the renewal before a request
abbrev pub Held : Job → Request → Type 0
Held job r =
    0 < count_where (holds_lease r.at job.id job.attempts (owner_of job.lease_owner)) r.db.jobs

-- From one session to a later one: at most `n` more requests and `m` more waits, no wait without a
-- pause, and no request without the lease.
pub record Fair (job : Job) (n m : ℕ) (s s' : Session) : Type 0 where
  pub few : length s'.requests ≤ n + length s.requests
  pub between : length s'.waits ≤ m + length s.waits
  pub paused : All (λ w. 0 < w) s.waits → All (λ w. 0 < w) s'.waits
  pub held : All (Held job) s.requests → All (Held job) s'.requests

delay_after-pos : (env : Env) (attempt : ℕ) (f : Fault) → 0 < delay_after env attempt f
delay_after-pos env attempt f = elim (Bool-cases (f.deadline_exceeded || f.retry_after == 0)) [
  | inl t ↦ rw t (omega (arith, backoff_delay_bounds attempt env.jitter))
  | inr t ↦ rw t (ground arith)
]

Fair-refl : (job : Job) (n m : ℕ) (s : Session) → Fair job n m s s
Fair-refl job n m s = record {
  few = omega arith;
  between = omega arith;
  paused = λ h. h;
  held = λ h. h;
}

-- the same requests and waits, over other tables
Fair-db :
    (job : Job) (n m : ℕ) (s s' : Session) (db : Db)
    → Fair job n m (record s { db = db }) s'
    → Fair job n m s s'
Fair-db job n m s s' db f = record {
  few = f.few;
  between = f.between;
  paused = f.paused;
  held = f.held;
}

Fair-request :
    (job : Job) (n m : ℕ) (s s' : Session) (r : Request)
    → Held job r
    → Fair job n m (record s { requests = r ∷ s.requests }) s'
    → Fair job (suc n) m s s'
Fair-request job n m s s' r h f = record {
  few = omega (arith, f.few);
  between = f.between;
  paused = f.paused;
  held = λ hs. f.held (h, hs);
}

Fair-wait :
    (job : Job) (n m : ℕ) (s s' : Session) (w : ℕ)
    → 0 < w
    → Fair job n m (record s { waits = w ∷ s.waits }) s'
    → Fair job n (suc m) s s'
Fair-wait job n m s s' w h f = record {
  few = f.few;
  between = omega (arith, f.between);
  paused = λ hs. f.paused (h, hs);
  held = f.held;
}

module _ (env : Env) (lease : ℕ) (job : Job) (stop_on_timeout : Bool) where
  -- the last attempt ends the loop
  judged_last :
      (attempt : ℕ) (f : Fault) → judged env lease job stop_on_timeout attempt true f ≡ none → ⊥
  unfolding judged
  judged_last attempt f h = ground arith

  module _ (next : Session → Ending × Session) (rest : ℕ)
      (ih : (s : Session) → Fair job rest (rest - 1) s (next s).1) (attempt : ℕ) where
    after_fault-Fair :
        (f : Fault) (o : Option Ending) (s : Session)
        → (o ≡ none → 0 < rest)
        → Fair job rest rest s (after_fault env lease job stop_on_timeout next attempt f o s).1
    unfolding after_fault after_sleep
    after_fault-Fair f (some ending) s going = Fair-refl job rest rest s
    after_fault-Fair f none s going = go (env.sleep attempt)
      where
        waiting : Session
        waiting = record s { waits = delay_after env attempt f ∷ s.waits }

        one_more : (s' : Session) → Fair job rest (rest - 1) waiting s' → Fair job rest rest s s'
        one_more s' h =
            let e : suc (rest - 1) ≡ rest = omega (arith, going refl) in
            subst (λ m. Fair job rest m s s') e
              (Fair-wait job rest (rest - 1) s s' (delay_after env attempt f)
                (delay_after-pos env attempt f) h)

        go :
            (o : Option Cause)
            → Fair job rest rest s (after_sleep env lease job stop_on_timeout next o waiting).1
        go (some cause) = one_more waiting (Fair-refl job rest (rest - 1) waiting)
        go none = one_more (next waiting).1 (ih waiting)

    judged_going :
        (f : Fault) → judged env lease job stop_on_timeout attempt (rest == 0) f ≡ none → 0 < rest
    judged_going f h = elim (Bool-cases (rest == 0)) [
      | inl t ↦ absurd (
          judged_last attempt f
            (subst (λ b. judged env lease job stop_on_timeout attempt b f ≡ none) t h))
      | inr t ↦ ground arith
    ]

    after_reply-Fair :
        (reply : Reply) (s : Session)
        → Fair job rest rest s
            (after_reply env lease job stop_on_timeout next attempt (rest == 0) reply s).1
    unfolding after_reply
    after_reply-Fair (transcribed text) s = Fair-refl job rest rest s
    after_reply-Fair (faulted f) s = after_fault-Fair f _ s (judged_going f)

    after_renewal-Fair :
        (r : Result (Unit {0})) (s : Session)
        → (is_ok r ≡ true → Held job (record { at = env.now attempt; db = s.db }))
        → Fair job
            (suc rest)
            rest
            s
            (after_renewal env lease job stop_on_timeout next attempt (rest == 0) r s).1
    unfolding after_renewal
    after_renewal-Fair (err e) s held = Fair-refl job (suc rest) rest s
    after_renewal-Fair (ok u) s held =
        Fair-request job rest rest s _ _ (held refl) (after_reply-Fair (env.reply attempt) _)

    attempt_once-Fair :
        (o : Option Cause) (s : Session)
        → Fair job
            (suc rest)
            rest
            s
            (attempt_once env lease job stop_on_timeout next attempt (rest == 0) o s).1
    unfolding attempt_once renewal
    attempt_once-Fair (some cause) s = Fair-refl job (suc rest) rest s
    attempt_once-Fair none s = Fair-db job (suc rest) rest s _ _ (
        after_renewal-Fair _ _ (
          renew_lease-held (env.conn attempt) (env.now attempt) job.id job.attempts
            (owner_of job.lease_owner) lease (run_all (env.between attempt) s.db)))

  request_transcription-Fair :
      (n attempt : ℕ) (s : Session)
      → Fair job n (n - 1) s (request_transcription env lease job stop_on_timeout n attempt s).1
  unfolding request_transcription
  request_transcription-Fair zero attempt s = Fair-refl job zero (zero - 1) s
  request_transcription-Fair (suc rest) attempt s =
      let e : rest ≡ suc rest - 1 = omega arith in
      subst
        (λ m.
          Fair job (suc rest) m s
            (request_transcription env lease job stop_on_timeout (suc rest) attempt s).1)
        e
        (attempt_once-Fair (request_transcription env lease job stop_on_timeout rest (suc attempt))
          rest (request_transcription-Fair rest (suc attempt)) attempt (env.context_before attempt)
          s)

  -- the session after the loop, from one without requests
  abbrev pub asked : ℕ → Db → Session
  asked n db =
      (request_transcription env lease job stop_on_timeout n 1
        (record { db = db; requests = []; waits = [] })).1

  -- From a session without requests, whatever the model, SQLite, the clock and the context answer,
  -- and whatever others call on the queue in between: the loop of transcribe ends with at most as
  -- many requests to the model as there are model attempts, with at most one wait less than that,
  -- with no wait of length zero, and each request is sent right after a renewal after which the
  -- claim generation holds the lease.
  pub request_transcription_bounds :
      (n : ℕ) (db : Db)
      → (length (asked n db).requests ≤ n)
        × (length (asked n db).waits ≤ n - 1)
        × All (λ w. 0 < w) (asked n db).waits
        × All (Held job) (asked n db).requests
  request_transcription_bounds n db =
      let f = request_transcription-Fair n 1 (record { db = db; requests = []; waits = [] }) in
      (omega (arith, f.few), omega (arith, f.between), f.paused tt, f.held tt)
