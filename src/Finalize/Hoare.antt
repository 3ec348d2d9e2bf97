-- ===== src/Finalize/Hoare.antt =====
-- What the steps of the finalizer (internal/finalize/finalize.go) keep of the tables and of the
-- requests that were sent, where no other call sets the dispatch state.
use paperless_ai_ocr.Prelude.{
  ℕ, ◌+◌, ◌≤◌, ◌≡◌, refl, ◌⊎◌, Bool, true, false, ◌&&◌, List, [], ◌∷◌, arith, ◌==◌, if◌then◌else◌,
  All, count_where,
}
use paperless_ai_ocr.Saferr.{Error, Result}
use paperless_ai_ocr.Queue.Model.{Db}
use paperless_ai_ocr.Queue.Transaction.{Conn}
use paperless_ai_ocr.Queue.Calls.{Call, run, run_all}
use paperless_ai_ocr.Queue.Engaged.{
  Kept, Kept-refl, Kept-trans, engaged, keyed, run-Kept, sets_dispatch,
}
use paperless_ai_ocr.Finalize.World.{
  Foreign, Failure, Outcome, halted, done, Effect, dispatched, Env, World, Exec, and_then, ◌>>=◌,
  give, stop, ask, answered, settled, send, stored, ◌>>◌,
}

-- a dispatch for a job that has or may have arrived
abbrev pub is_sent : ℕ → Effect → Bool
is_sent i (dispatched id arrived) = i == id && arrived
is_sent i _ = false

-- how many such dispatches
abbrev pub sent : ℕ → List Effect → ℕ
sent i es = count_where (is_sent i) es

-- No job has two rows, and each dispatch that may have arrived, with `n` more, is engaged.
pub record Covered (i n : ℕ) (w : World) : Type 0 where
  pub key : keyed i w.db.controls ≤ 1
  pub covered : sent i w.effects + n ≤ engaged i w.db.controls

-- the calls of others leave the dispatch state alone
abbrev pub Quiet : Env → Type 0
Quiet env = (n : ℕ) → All (λ c. sets_dispatch c ≡ false) (env.between n)

abbrev pub Post {ℓ} :
    {A : Type ℓ} → (World → Type 0) → (World → Type 0) → Outcome A × World → Type 0
Post failed_in done_in (halted f, w) = failed_in w
Post failed_in done_in (done a, w) = done_in w

-- a step that keeps the cover, however many more are engaged
pub record Steady {ℓ} {A : Type ℓ} (i : ℕ) (m : Exec A) : Type 0 where
  pub steady : (n : ℕ) (w : World) → Covered i n w → Post (Covered i 0) (Covered i n) (m w)

-- a run that keeps it at its end
pub record Keeps {ℓ} {A : Type ℓ} (i : ℕ) (m : Exec A) : Type 0 where
  pub keeps : (w : World) → Covered i 0 w → Post (Covered i 0) (Covered i 0) (m w)

pub Covered-weaken : (i n : ℕ) (w : World) → Covered i n w → Covered i 0 w
Covered-weaken i n w h = record { key = h.key; covered = omega (arith, h.covered) }

-- the same tables and dispatches, at another step
pub Covered-moved :
    (i n : ℕ) (w v : World)
    → Kept i w.db.controls v.db.controls
    → sent i v.effects ≡ sent i w.effects
    → Covered i n w
    → Covered i n v
Covered-moved i n w v k e h = record {
  key = k.key h.key;
  covered = omega (arith, h.covered, k.same, e);
}

pub Post-and_then {ℓ κ} :
    {A : Type ℓ} {B : Type κ} (P Q R : World → Type 0) (x : Outcome A × World) (rest : A → Exec B)
    → Post P Q x
    → ((a : A) (w : World) → Q w → Post P R (rest a w))
    → Post P R (and_then rest x)
Post-and_then P Q R (halted f, w) rest h k = h
Post-and_then P Q R (done a, w) rest h k = k a w h

module _ {ℓ κ} {A : Type ℓ} {B : Type κ} (i : ℕ) {m : Exec A} {rest : A → Exec B} where
  pub Steady-then : Steady i m → ((a : A) → Steady i (rest a)) → Steady i (m >>= rest)
  unfolding ◌>>=◌
  Steady-then h k = record {
    steady = λ n w c.
        Post-and_then (Covered i 0) (Covered i n) (Covered i n) (m w) rest (h.steady n w c)
          (λ a v. (k a).steady n v);
  }

  pub Keeps-then : Keeps i m → ((a : A) → Keeps i (rest a)) → Keeps i (m >>= rest)
  unfolding ◌>>=◌
  Keeps-then h k = record {
    keeps = λ w c.
        Post-and_then (Covered i 0) (Covered i 0) (Covered i 0) (m w) rest (h.keeps w c)
          (λ a v. (k a).keeps v);
  }

module _ {κ} {B : Type κ} (i : ℕ) {m : Exec (Unit {0})} {rest : Exec B} where
  pub Steady-next : Steady i m → Steady i rest → Steady i (m >> rest)
  unfolding ◌>>◌
  Steady-next h k = record {
    steady = λ n w c.
        Post-and_then (Covered i 0) (Covered i n) (Covered i n) (m w) (λ _. rest) (h.steady n w c)
          (λ _ v. k.steady n v);
  }

  pub Keeps-next : Keeps i m → Keeps i rest → Keeps i (m >> rest)
  unfolding ◌>>◌
  Keeps-next h k = record {
    keeps = λ w c.
        Post-and_then (Covered i 0) (Covered i 0) (Covered i 0) (m w) (λ _. rest) (h.keeps w c)
          (λ _ v. k.keeps v);
  }

pub Steady-stop {ℓ} : {A : Type ℓ} (i : ℕ) (f : Failure) → Steady i (stop {A = A} f)
unfolding stop
Steady-stop i f = record { steady = λ n w c. Covered-weaken i n w c }

module _ {ℓ} {A : Type ℓ} (i : ℕ) where
  pub Steady-Keeps : {m : Exec A} → Steady i m → Keeps i m
  Steady-Keeps h = record { keeps = λ w c. h.steady 0 w c }

  pub Steady-give : (a : A) → Steady i (give a)
  unfolding give
  Steady-give a = record { steady = λ n w c. c }

  pub Steady-if :
      (b : Bool) {x y : Exec A} → Steady i x → Steady i y → Steady i (if b then x else y)
  Steady-if true h k = h
  Steady-if false h k = k

  pub Keeps-if : (b : Bool) {x y : Exec A} → Keeps i x → Keeps i y → Keeps i (if b then x else y)
  Keeps-if true h k = h
  Keeps-if false h k = k

  -- an outcome in a world that is covered
  pub Post-outcome :
      (n : ℕ) (o : Outcome A) (w : World) → Covered i n w → Post (Covered i 0) (Covered i n) (o, w)
  Post-outcome n (halted f) w c = Covered-weaken i n w c
  Post-outcome n (done a) w c = c

  pub Steady-ask : (answer : ℕ → Foreign ⊎ A) → Steady i (ask answer)
  unfolding ask
  Steady-ask answer = record {
    steady = λ n w c.
        Post-outcome n (answered (answer w.step)) _
          (Covered-moved i n w _ (Kept-refl i w.db.controls) refl c);
  }

  pub Steady-send :
      (e : Effect) (answer : ℕ → Foreign ⊎ A) → is_sent i e ≡ false → Steady i (send e answer)
  unfolding send count_where
  Steady-send e answer q = record {
    steady = λ n w c.
        Post-outcome n (answered (answer w.step)) _
          (Covered-moved i n w _ (Kept-refl i w.db.controls) (ground (arith, q)) c);
  }

pub run_all-Kept :
    (i : ℕ) (calls : List Call) (db : Db)
    → All (λ c. sets_dispatch c ≡ false) calls
    → Kept i db.controls (run_all calls db).controls
unfolding run_all
run_all-Kept i [] db q = Kept-refl i db.controls
run_all-Kept i (c ∷ cs) db q =
    Kept-trans i _ _ _ (run-Kept i c db q.0) (run_all-Kept i cs (run c db) q.1)

module _ {ℓ} {A : Type ℓ} (i : ℕ) (env : Env) (quiet : Quiet env) where
  pub Steady-stored :
      (f : Error → Failure) (op : Conn → ℕ → Db → Result A × Db)
      → ((conn : Conn) (now : ℕ) (db : Db) → Kept i db.controls (op conn now db).1.controls)
      → Steady i (stored env f op)
  unfolding stored
  Steady-stored f op keep = record {
    steady = λ n w c.
        let before = run_all (env.between w.step) w.db in
        Post-outcome i n (settled f (op (env.conn w.step) (env.now w.step) before).0) _ (
          Covered-moved i n w _
            (Kept-trans i _ _ _ (run_all-Kept i (env.between w.step) w.db (quiet w.step))
              (keep (env.conn w.step) (env.now w.step) before))
            refl c);
  }
