-- ===== src/Queue/Reservation.antt =====
-- What SetDispatchStateContext of internal/queue/queue.go does to how often a dispatch is engaged.
use paperless_ai_ocr.Prelude.{
  ℕ, ◌≤◌, String, ◌≡◌, refl, sym, ap, subst, ◌∙◌, Bool, true, false, not, ◌&&◌, ◌||◌, Option, List,
  [], arith, ◌==◌, if◌then◌else◌, count-update-le, count_where, update_where, ◌∷◌, ◌+◌,
  count-update,
}
use paperless_ai_ocr.Text.{blank}
use paperless_ai_ocr.Saferr.{Cause, Error, Result, ok, err}
use paperless_ai_ocr.Queue.Model.{DispatchState, Control, Db}
use paperless_ai_ocr.Queue.Valid.{validation_error}
use paperless_ai_ocr.Queue.Transaction.{
  Conn, write_context, write_context-eq-ok, write_context-eq-err,
}
use paperless_ai_ocr.Queue.Finalizing.{
  same_dispatch, valid_dispatch_transition, dispatch_set, set_dispatch_body, set_dispatch_state,
}
use paperless_ai_ocr.Queue.Engaged.{is_engaged, of_job, keyed, engaged}
use paperless_ai_ocr.Queue.DispatchSteps.{controls-set_dispatch_body}
use paperless_ai_ocr.Queue.Leases.{invalid_claim_key}

-- 1 where the two jobs are one
abbrev pub one_for : ℕ → ℕ → ℕ
one_for i id = if i == id then 1 else 0

abbrev in_state : ℕ → DispatchState → Control → Bool
in_state id from c = c.job_id == id && same_dispatch c.dispatch_state from

-- what a call returns and leaves: the one row that it moves, or an error and the tables as they were
pub data Setting (id : ℕ) (from to : DispatchState) (db : Db)
    : Result (Unit {0}) × Db → Type 0 where
  set :
      (now : ℕ) (db' : Db)
      → count_where (in_state id from) db.controls ≡ 1
      → db'.controls ≡ update_where (in_state id from) (dispatch_set to now) db.controls
      → Setting id from to db (ok tt, db')
  refused : (e : Error) → Setting id from to db (err e, db)

module _ (io : ℕ → Option Cause) (now id attempt : ℕ) (owner token : String)
    (from to : DispatchState) (db : Db) where
  one-set_dispatch_body :
      (x : Unit {0} × Db)
      → set_dispatch_body io now id attempt owner token from to db ≡ ok x
      → count_where (in_state id from) db.controls ≡ 1
  unfolding set_dispatch_body
  one-set_dispatch_body x h = ground arith

write_context-Setting :
    (conn : Conn) (now id attempt : ℕ) (owner token : String) (from to : DispatchState) (db : Db)
    → Setting id from to db (
        write_context conn (set_dispatch_body conn.statement now id attempt owner token from to) db)
write_context-Setting conn now id attempt owner token from to db =
    go (write_context conn body db) refl
  where
    body : Db → Result (Unit {0} × Db)
    body = set_dispatch_body conn.statement now id attempt owner token from to

    go : (x : Result (Unit {0}) × Db) → write_context conn body db ≡ x → Setting id from to db x
    go (ok u, db') e =
        let r : body db ≡ ok (u, db') =
          write_context-eq-ok conn body db u (ap (λ y. y.0) e)
          ∙ ap (λ (y : Result (Unit {0}) × Db). ok (u, y.1)) e in
        set now db'
          (one-set_dispatch_body conn.statement now id attempt owner token from to db (u, db') r)
          (controls-set_dispatch_body conn.statement now id attempt owner token db from to (u, db')
            r)
    go (err x, db') e =
        subst (λ d. Setting id from to db (err x, d))
          (sym (write_context-eq-err conn body db x (ap (λ y. y.0) e)) ∙ ap (λ y. y.1) e)
          (refused x)

pub set_dispatch_state-Setting :
    (conn : Conn) (now id attempt : ℕ) (owner token : String) (from to : DispatchState) (db : Db)
    → Setting id from to db (set_dispatch_state conn now id attempt owner token from to db)
unfolding set_dispatch_state
set_dispatch_state-Setting conn now id attempt owner token from to db = choose _ refl
  where
    choose :
        (b : Bool)
        → (invalid_claim_key id attempt owner
            || blank token
            || not (valid_dispatch_transition from to))
          ≡ b
        → Setting id from to db (
            if b
            then (err (validation_error "invalid dispatch state transition"), db)
            else write_context conn
                (set_dispatch_body conn.statement now id attempt owner token from to)
                db)
    choose true e = refused _
    choose false e = write_context-Setting conn now id attempt owner token from to db

count-scaled :
    (b : Bool) (p q : Control → Bool) (cs : List Control)
    → ((c : Control) → q c ≡ (p c && b))
    → count_where q cs ≡ (if b then count_where p cs else 0)
unfolding count_where
count-scaled b p q [] h = ground arith
count-scaled b p q (c ∷ cs) h = ground (arith, h c, count-scaled b p q cs h)

-- a state other than none
abbrev pub engages : DispatchState → Bool
engages s = not (same_dispatch s DispatchState.none)

module _ (i id now : ℕ) (from to : DispatchState) (cs : List Control) where
  pub keyed-set :
      keyed i cs ≤ 1 → keyed i (update_where (in_state id from) (dispatch_set to now) cs) ≤ 1
  keyed-set h = omega (
    arith,
    h,
    count-update-le (of_job i) (in_state id from) (dispatch_set to now) cs (λ c t. ground arith),
  )

  engaged_before :
      count_where (λ c. in_state id from c && is_engaged i c) cs
      ≡ (if i == id && engages from then count_where (in_state id from) cs else 0)
  engaged_before =
      count-scaled (i == id && engages from) (in_state id from) _ cs (λ c. ground arith)

  engaged_after :
      count_where (λ c. in_state id from c && is_engaged i (dispatch_set to now c)) cs
      ≡ (if i == id && engages to then count_where (in_state id from) cs else 0)
  engaged_after = count-scaled (i == id && engages to) (in_state id from) _ cs (λ c. ground arith)

  pub engaged-set :
      count_where (in_state id from) cs ≡ 1
      → engaged i (update_where (in_state id from) (dispatch_set to now) cs)
          + (if i == id && engages from then 1 else 0)
        ≡ engaged i cs + (if i == id && engages to then 1 else 0)
  engaged-set one = ground (
    arith,
    one,
    engaged_before,
    engaged_after,
    count-update (is_engaged i) (in_state id from) (dispatch_set to now) cs,
  )
