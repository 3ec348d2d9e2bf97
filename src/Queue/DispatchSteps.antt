-- ===== src/Queue/DispatchSteps.antt =====
-- How the bodies of internal/queue/queue.go change the dispatch state of a job.
use paperless_ai_ocr.Prelude.{
  ℕ, String, ◌≡◌, refl, sym, ap, subst, Bool, true, false, ◌&&◌, Option, none, some, List, [], ◌∷◌,
  ◌++◌, arith, ◌==◌, if◌then◌else◌, and_right, updated, or_else, find-update, find-append,
  find-count, count_where, update_where, find_where,
}
use paperless_ai_ocr.Saferr.{Cause, Error, Result, ok, err, Ensures, Ensures-of}
use paperless_ai_ocr.Queue.Model.{DispatchState, FinalizationState, SafeDiagnostic, Control, Db}
use paperless_ai_ocr.Queue.Transaction.{Conn, write_context, write_context-keeps}
use paperless_ai_ocr.Queue.Finalizing.{
  same_dispatch, control_of, valid_dispatch_transition, may_admit, admitted, holds_admission,
  readmitted, dispatch_set, insert_control, new_control, acquire_body, renew_finalization_body,
  set_dispatch_body,
}
use paperless_ai_ocr.Queue.Failures.{diagnosed, upsert_failure, record_failure_body}

abbrev pub dispatch_of : Option Control → Option DispatchState
dispatch_of none = none
dispatch_of (some c) = some c.dispatch_state

abbrev pub dispatch_at : ℕ → List Control → Option DispatchState
dispatch_at id rows = dispatch_of (control_of id rows)

pub data DispatchStep : Option DispatchState → Option DispatchState → Type 0 where
  stays : (o : Option DispatchState) → DispatchStep o o
  begins : DispatchStep none (some DispatchState.none)
  moves :
      (from to : DispatchState)
      → valid_dispatch_transition from to ≡ true
      → DispatchStep (some from) (some to)

abbrev pub DispatchesStep : List Control → List Control → Type 0
DispatchesStep cs cs' = (i : ℕ) → DispatchStep (dispatch_at i cs) (dispatch_at i cs')

pub same_dispatch-eq : (a b : DispatchState) → same_dispatch a b ≡ true → a ≡ b
same_dispatch-eq a b h = ground arith

-- an update that leaves the job alone and takes each dispatch state by a step
pub updated-DispatchesStep :
    (cs : List Control) (q : Control → Bool) (f : Control → Control)
    → ((i : ℕ) (c : Control) → (f c).job_id ≡ c.job_id)
    → ((c : Control)
        → q c ≡ true
        → DispatchStep (some c.dispatch_state) (some (f c).dispatch_state))
    → DispatchesStep cs (update_where q f cs)
updated-DispatchesStep cs q f same step i =
    rw (find-update (λ c. c.job_id == i) q f cs (λ c _. ap (λ (j : ℕ). j == i) (same i c)))
      (go (control_of i cs))
  where
    choose :
        (c : Control) (b : Bool)
        → q c ≡ b
        → DispatchStep (some c.dispatch_state) (dispatch_of (some (if b then f c else c)))
    choose c true t = step c t
    choose c false t = stays _

    go : (o : Option Control) → DispatchStep (dispatch_of o) (dispatch_of (updated q f o))
    go none = stays none
    go (some c) = choose c (q c) refl

pub added-DispatchesStep :
    (cs : List Control) (c : Control)
    → control_of c.job_id cs ≡ none
    → c.dispatch_state ≡ DispatchState.none
    → DispatchesStep cs (cs ++ c ∷ [])
unfolding find_where
added-DispatchesStep cs c absent fresh i =
    rw (find-append (λ g. g.job_id == i) cs (c ∷ [])) (go (control_of i cs))
  where
    choose : (b : Bool) → DispatchStep none (dispatch_of (if b then some c else none))
    choose true = subst (λ d. DispatchStep none (some d)) (sym fresh) begins
    choose false = stays none

    go :
        (o : Option Control)
        → DispatchStep (dispatch_of o) (dispatch_of (or_else o (control_of i (c ∷ []))))
    go none = choose (c.job_id == i)
    go (some g) = stays (some g.dispatch_state)

pub DispatchStep-trans_stays :
    (cs cs' cs'' : List Control)
    → DispatchesStep cs cs'
    → ((i : ℕ) → dispatch_at i cs'' ≡ dispatch_at i cs')
    → DispatchesStep cs cs''
DispatchStep-trans_stays cs cs' cs'' h e i =
    subst (DispatchStep (dispatch_at i cs)) (sym (e i)) (h i)

-- an update that leaves the dispatch alone
pub dispatch_at-update :
    (cs : List Control) (q : Control → Bool) (f : Control → Control) (i : ℕ)
    → ((c : Control) → (f c).job_id ≡ c.job_id)
    → ((c : Control) → (f c).dispatch_state ≡ c.dispatch_state)
    → dispatch_at i (update_where q f cs) ≡ dispatch_at i cs
dispatch_at-update cs q f i same keep =
    rw (find-update (λ c. c.job_id == i) q f cs (λ c _. ap (λ (j : ℕ). j == i) (same c)))
      (go (control_of i cs))
  where
    go : (o : Option Control) → dispatch_of (updated q f o) ≡ dispatch_of o
    go none = refl
    go (some c) = ground (arith, keep c)

pub insert-DispatchesStep :
    (id now : ℕ) (cs : List Control) → DispatchesStep cs (insert_control id now cs)
insert-DispatchesStep id now cs = choose (count_where (λ c. c.job_id == id) cs == 0) refl
  where
    choose :
        (b : Bool)
        → (count_where (λ c. c.job_id == id) cs == 0) ≡ b
        → DispatchesStep cs (if b then cs ++ new_control id now ∷ [] else cs)
    choose true t =
        added-DispatchesStep cs (new_control id now)
          (find-count (λ c. c.job_id == id) cs (ground arith)) refl
    choose false t = λ i. stays _

pub upsert-DispatchesStep :
    (id now : ℕ) (d : SafeDiagnostic) (cs : List Control)
    → DispatchesStep cs (upsert_failure id now d cs)
upsert-DispatchesStep id now d cs = choose (count_where (λ c. c.job_id == id) cs == 0) refl
  where
    choose :
        (b : Bool)
        → (count_where (λ c. c.job_id == id) cs == 0) ≡ b
        → DispatchesStep cs (
            if b
            then cs ++ diagnosed now d (new_control id now) ∷ []
            else update_where (λ c. c.job_id == id) (diagnosed now d) cs)
    choose true t =
        added-DispatchesStep cs (diagnosed now d (new_control id now))
          (find-count (λ c. c.job_id == id) cs (ground arith)) refl
    choose false t = updated-DispatchesStep cs _ _ (λ i c. refl) (λ c h. stays _)

abbrev pub Steps : List Control → Db → Type 0
Steps cs d = DispatchesStep cs d.controls

pub guarded :
    {A : Type 0} (b : Bool) (e : Error) (db : Db) (conn : Conn) (fn : Db → Result (A × Db))
    → (b ≡ false → Ensures (λ x. Steps db.controls x.1) (fn db))
    → Steps db.controls (if b then (err e, db) else write_context conn fn db).1
guarded true e db conn fn h = λ i. stays _
guarded false e db conn fn h =
    write_context-keeps (Steps db.controls) conn fn db (λ i. stays _) (h refl)

module _ (io : ℕ → Option Cause) (now id attempt : ℕ) (owner token : String) (db : Db) where
  pub controls-acquire_body :
      (duration : ℕ) (x : FinalizationState × Db)
      → acquire_body io now id attempt owner token duration db ≡ ok x
      → x.1.controls
        ≡ update_where
            (may_admit now id attempt owner token)
            (admitted now attempt owner token duration)
            (insert_control id now db.controls)
  unfolding acquire_body
  controls-acquire_body duration x h = ground arith

  pub acquire_body-Steps :
      (duration : ℕ)
      → Ensures
          (λ x. Steps db.controls x.1)
          (acquire_body io now id attempt owner token duration db)
  acquire_body-Steps duration = Ensures-of _ λ x h.
      subst (DispatchesStep db.controls) (sym (controls-acquire_body duration x h)) (
        DispatchStep-trans_stays db.controls _ _ (insert-DispatchesStep id now db.controls)
          (λ i. dispatch_at-update _ _ _ i (λ c. refl) (λ c. refl)))

  pub controls-renew_finalization_body :
      (duration : ℕ) (x : Unit {0} × Db)
      → renew_finalization_body io now id attempt owner token duration db ≡ ok x
      → x.1.controls
        ≡ update_where
            (holds_admission now id attempt owner token)
            (readmitted now duration)
            db.controls
  unfolding renew_finalization_body
  controls-renew_finalization_body duration x h = ground arith

  pub renew_finalization_body-Steps :
      (duration : ℕ)
      → Ensures
          (λ x. Steps db.controls x.1)
          (renew_finalization_body io now id attempt owner token duration db)
  renew_finalization_body-Steps duration = Ensures-of _ λ x h.
      subst (DispatchesStep db.controls) (sym (controls-renew_finalization_body duration x h))
        (updated-DispatchesStep db.controls _ _ (λ i c. refl) (λ c h. stays _))

  pub controls-set_dispatch_body :
      (from to : DispatchState) (x : Unit {0} × Db)
      → set_dispatch_body io now id attempt owner token from to db ≡ ok x
      → x.1.controls
        ≡ update_where
            (λ c. c.job_id == id && same_dispatch c.dispatch_state from)
            (dispatch_set to now)
            db.controls
  unfolding set_dispatch_body
  controls-set_dispatch_body from to x h = ground arith

  pub set_dispatch_body-Steps :
      (from to : DispatchState)
      → valid_dispatch_transition from to ≡ true
      → Ensures
          (λ x. Steps db.controls x.1)
          (set_dispatch_body io now id attempt owner token from to db)
  set_dispatch_body-Steps from to valid = Ensures-of _ λ x h.
      subst (DispatchesStep db.controls) (sym (controls-set_dispatch_body from to x h)) (
        updated-DispatchesStep db.controls _ _ (λ i c. refl)
          λ c t. moves c.dispatch_state to (
            subst (λ s. valid_dispatch_transition s to ≡ true)
              (sym (same_dispatch-eq c.dispatch_state from (and_right _ _ t))) valid))

pub controls-record_failure_body :
    (io : ℕ → Option Cause) (now id attempt : ℕ) (owner : String) (d : SafeDiagnostic) (db : Db)
    (x : Unit {0} × Db)
    → record_failure_body io now id attempt owner d db ≡ ok x
    → x.1.controls ≡ upsert_failure id now d db.controls
unfolding record_failure_body
controls-record_failure_body io now id attempt owner d db x h = ground arith
