-- ===== src/Worker/Delivers.antt =====
-- What holds of the value of a run that ends without an error, step by step.
use paperless_ai_ocr.Prelude.{
  ℕ, ◌≡◌, refl, ap, subst, ◌⊎◌, inl, inr, Bool, true, false, if◌then◌else◌,
}
use paperless_ai_ocr.Saferr.{Error, Result, ok, err}
use paperless_ai_ocr.Queue.Model.{Db}
use paperless_ai_ocr.Queue.Transaction.{Conn}
use paperless_ai_ocr.Finalize.World.{safe}
use paperless_ai_ocr.Worker.World.{
  Failure, foreign, Outcome, halted, done, Env, World, Exec, and_then, ◌>>=◌, ◌>>◌, give, stop,
  stored, settled, caught, result_of, checked,
}

-- Whatever the answers from outside are: where the run returns a value, Q holds of it.
pub record Delivers {ℓ κ} {A : Type ℓ} (Q : A → Type κ) (m : Exec A) : Type (ℓ ⊔ κ) where
  pub delivered : (w w' : World) (a : A) → m w ≡ (done a, w') → Q a

-- a value and the tables after it
abbrev returned {ℓ} : {A : Type ℓ} → A → World → Outcome A × World
returned a w = (done a, w)

abbrev stopped {ℓ} : {A : Type ℓ} → Failure → World → Outcome A × World
stopped f w = (halted f, w)

done_inj {ℓ} : {A : Type ℓ} {a b : A} {w w' : World} → returned a w ≡ returned b w' → a ≡ b
done_inj e = cc

module _ {ℓ κ} {A : Type ℓ} {Q : A → Type κ} where
  pub Delivers-give : (a : A) → Q a → Delivers Q (give a)
  unfolding give
  Delivers-give a q = record { delivered = λ w w' b e. subst Q (done_inj e) q }

  pub Delivers-stop : (f : Failure) → Delivers Q (stop f)
  unfolding stop
  Delivers-stop f = record { delivered = λ w w' b e. absurd (impossible e) }
    where
      impossible : {b : A} {w w' : World} → stopped f w ≡ returned b w' → ⊥
      impossible e = cc

  pub Delivers-if :
      (b : Bool) (m n : Exec A)
      → (b ≡ true → Delivers Q m)
      → (b ≡ false → Delivers Q n)
      → Delivers Q (if b then m else n)
  Delivers-if true m n hm hn = hm refl
  Delivers-if false m n hm hn = hn refl

module _ {ℓ κ μ ν} {A : Type ℓ} {B : Type κ} {P : A → Type μ} {Q : B → Type ν} where
  pub Delivers-bind :
      (m : Exec A) (f : A → Exec B)
      → Delivers P m
      → ((a : A) → P a → Delivers Q (f a))
      → Delivers Q (m >>= f)
  unfolding ◌>>=◌
  Delivers-bind m f hm hf = record { delivered = λ w w' b e. go (m w) refl e }
    where
      go :
          (r : Outcome A × World)
          → {w w' : World} {b : B} → m w ≡ r
          → and_then f r ≡ (done b, w')
          → Q b
      go (halted x, w1) e h = absurd (cc)
      go (done a, w1) {w} {w'} {b} e h = (hf a (hm.delivered w w1 a e)).delivered w1 w' b h

module _ {ℓ} {A : Type ℓ} where
  -- nothing is asked of the value
  abbrev pub Any : A → Type 0
  Any a = Unit

  pub Delivers-trivial : (m : Exec A) → Delivers Any m
  Delivers-trivial m = record { delivered = λ w w' a e. tt }

module _ {κ ν} {B : Type κ} {Q : B → Type ν} where
  pub Delivers-then : (m : Exec (Unit {0})) (n : Exec B) → Delivers Q n → Delivers Q (m >> n)
  unfolding ◌>>◌
  Delivers-then m n hn = record { delivered = λ w w' b e. go (m w) e }
    where
      go :
          (r : Outcome (Unit {0}) × World)
          → {w' : World} {b : B} → and_then (λ _. n) r ≡ (done b, w')
          → Q b
      go (halted x, w1) h = absurd (cc)
      go (done a, w1) {w'} {b} h = hn.delivered w1 w' b h

settled_inj {ℓ} :
    {A : Type ℓ} (f : Error → Failure) (r : Result A) (a : A) → settled f r ≡ done a → r ≡ ok a
settled_inj {A = A} f (ok b) a h = ap ok (value h)
  where
    value : {b : A} → done b ≡ done a → b ≡ a
    value e = cc
settled_inj f (err e) a h = absurd (cc)

-- what holds of a value, where there is one
abbrev pub Caught {ℓ κ} : {A : Type ℓ} → (A → Type κ) → Failure ⊎ A → Type κ
Caught Q (inl f) = Unit
Caught Q (inr a) = Q a

module _ {ℓ κ} {A : Type ℓ} {Q : A → Type κ} where
  -- a value that the program computed itself
  pub Delivers-checked : (r : Result A) → ((a : A) → r ≡ ok a → Q a) → Delivers Q (checked r)
  unfolding checked
  Delivers-checked (ok a) h = record { delivered = λ w w' b e. subst Q (done_inj e) (h a refl) }
  Delivers-checked (err x) h = record { delivered = λ w w' b e. absurd (impossible e) }
    where
      impossible : {b : A} {w w' : World} → stopped (foreign (safe x)) w ≡ returned b w' → ⊥
      impossible e = cc

  -- a value that the queue returned
  pub Delivers-stored :
      (env : Env) (f : Error → Failure) (op : Conn → ℕ → Db → Result A × Db)
      → ((conn : Conn) (now : ℕ) (db : Db) (a : A) → (op conn now db).0 ≡ ok a → Q a)
      → Delivers Q (stored env f op)
  unfolding stored
  Delivers-stored env f op h = record {
    delivered = λ w w' a e. h _ _ _ a (settled_inj f _ a (ap (λ p. p.0) e));
  }

  pub Delivers-caught : (m : Exec A) → Delivers Q m → Delivers (Caught Q) (caught m)
  unfolding caught
  Delivers-caught m h = record {
    delivered = λ w w' r e. subst (Caught Q) (done_inj e) (go (m w) refl);
  }
    where
      go : (p : Outcome A × World) → {w : World} → m w ≡ p → Caught Q (result_of p.0)
      go (halted f, w') e = tt
      go (done a, w') {w} e = h.delivered w w' a e
