-- ===== src/Queue/Transaction.antt =====
-- writeContext of internal/queue/queue.go: a transaction runs on one connection, and what its body
-- returns is committed, or rolled back on an error. SQLite is not part of the repository: whether
-- it can carry a statement out is the argument `Conn`, and a statement that it carries out does
-- what its SQL text says.
use paperless_ai_ocr.Prelude.{
  ℕ, ◌≡◌, String, Bool, false, Option, none, some, List, ◌==◌, if◌then◌else◌, count_where,
  update_where, arith,
}
use paperless_ai_ocr.Saferr.{
  Cause, Error, Result, ok, err, is_ok, ◌>>=◌, ◌>>◌, Ensures, returned, rejected, Ensures-ok,
  Ensures-err,
}
use paperless_ai_ocr.Queue.Model.{Db}
use paperless_ai_ocr.Queue.Valid.{validation_error, internal_error}

-- What SQLite answers: `none` where it carries the step out, else the cause of its error. The
-- statements of a body are numbered in the order of the source.
pub record Conn : Type 0 where
  pub acquire : Option Cause
  pub begin : Option Cause
  pub statement : ℕ → Option Cause
  pub commit : Option Cause

-- every step is carried out
abbrev pub healthy : Conn
healthy = record { acquire = none; begin = none; statement = λ _. none; commit = none }

-- `if err != nil { return internalError(message, err) }`
abbrev pub carried : Option Cause → String → Result (Unit {0})
carried none message = ok tt
carried (some cause) message = err (internal_error message cause)

-- the value that a transaction returns, with the tables after COMMIT or ROLLBACK
abbrev pub settle {ℓ} : {A : Type ℓ} → Db → Result (A × Db) → Result A × Db
settle db (ok (a, db')) = (ok a, db')
settle db (err e) = (err e, db)

transaction {ℓ} : {A : Type ℓ} → Conn → Result A → Result A
transaction conn body = do
  carried conn.acquire "cannot acquire database connection"
  carried conn.begin "cannot begin queue transaction"
  r ← body
  carried conn.commit "cannot commit queue transaction"
  ok r

-- writeContext
unfoldable pub write_context {ℓ} : {A : Type ℓ} → Conn → (Db → Result (A × Db)) → Db → Result A × Db
unfolding transaction
write_context conn fn db = settle db (transaction conn (fn db))

-- updateOneContext: the two steps of the statement, and the rows after it.
unfoldable pub update_one {ℓ} :
    {A : Type ℓ} → Option Cause → Option Cause → (A → Bool) → (A → A) → List A → Result (List A)
update_one exec affected p f rows = do
  carried exec "cannot transition queued job"
  carried affected "cannot confirm queued job transition"
  if count_where p rows == 1
      then ok (update_where p f rows)
      else err (validation_error "illegal job transition or stale lease owner")

-- A single-row update that is accepted has met one row.
pub update_one-eq-ok {ℓ} :
    {A : Type ℓ} (exec affected : Option Cause) (p : A → Bool) (f : A → A) (rows rows' : List A)
    → update_one exec affected p f rows ≡ ok rows'
    → (count_where p rows ≡ 1) × (rows' ≡ update_where p f rows)
unfolding update_one
update_one-eq-ok exec affected p f rows rows' h = ground arith

module _ {ℓ κ} {A : Type ℓ} {Q : A → Type κ} where
  pub Ensures-carried :
      (o : Option Cause) (message : String) (r : Result A)
      → Ensures Q r
      → Ensures Q (carried o message >> r)
  Ensures-carried none message r h = h
  Ensures-carried (some cause) message r h = Ensures-err (internal_error message cause)

  transaction-Ensures : (conn : Conn) (r : Result A) → Ensures Q r → Ensures Q (transaction conn r)
  unfolding transaction
  transaction-Ensures conn r (returned a e q) = rw e (
      Ensures-carried conn.acquire _ _
        (Ensures-carried conn.begin _ _ (Ensures-carried conn.commit _ _ (Ensures-ok a q))))
  transaction-Ensures conn r (rejected x e) =
      rw e (Ensures-carried conn.acquire _ _ (Ensures-carried conn.begin _ _ (Ensures-err x)))

module _ {ℓ κ} {A : Type ℓ} (P : Db → Type κ) where
  settle-keeps : (db : Db) (r : Result (A × Db)) → P db → Ensures (λ x. P x.1) r → P (settle db r).1
  settle-keeps db r h (returned (a, db') e q) = rw e q
  settle-keeps db r h (rejected x e) = rw e h

  -- What a body keeps, its transaction keeps, however the statements fail.
  pub write_context-keeps :
      (conn : Conn) (fn : Db → Result (A × Db)) (db : Db)
      → P db
      → Ensures (λ x. P x.1) (fn db)
      → P (write_context conn fn db).1
  unfolding write_context
  write_context-keeps conn fn db h k =
      settle-keeps db (transaction conn (fn db)) h (transaction-Ensures conn (fn db) k)

module _ {ℓ} {A : Type ℓ} (conn : Conn) (fn : Db → Result (A × Db)) (db : Db) where
  -- A transaction that returns a value has committed what its body returned.
  pub write_context-eq-ok :
      (a : A) → (write_context conn fn db).0 ≡ ok a → fn db ≡ ok (a, (write_context conn fn db).1)
  unfolding write_context
  write_context-eq-ok a h = ground arith

  -- A transaction that returns an error has changed no row.
  pub write_context-eq-err :
      (e : Error) → (write_context conn fn db).0 ≡ err e → (write_context conn fn db).1 ≡ db
  unfolding write_context
  write_context-eq-err e h = ground arith

  -- What a body rejects, its transaction rejects.
  pub write_context-rejects :
      (e : Error) → fn db ≡ err e → is_ok (write_context conn fn db).0 ≡ false
  unfolding write_context
  write_context-rejects e h = ground arith
