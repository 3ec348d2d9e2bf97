-- ===== src/Reconcile/Triples.antt =====
-- Rules for the steps of internal/reconcile/reconcile.go: what a step says of the row of settings and
-- of the pages that were asked for, whether it ends with an error or without.
use paperless_ai_ocr.Prelude.{
  ℕ, String, ◌≡◌, refl, sym, subst, ◌∙◌, ◌⊎◌, Bool, true, false, Option, List, if◌then◌else◌,
}
use paperless_ai_ocr.Saferr.{Error, Result, ok, err}
use paperless_ai_ocr.Queue.Model.{Db}
use paperless_ai_ocr.Queue.Transaction.{Conn}
use paperless_ai_ocr.Reconcile.World.{
  Report, Env, World, Exec, and_then, ◌>>=◌, ◌>>◌, give, stop, guard, ask, stored, tally,
}
use paperless_ai_ocr.Finalize.World.{Foreign}

abbrev pub View : Type 1
View = Option String → List String → Type 0

abbrev pub Judged {ℓ} : {A : Type ℓ} → View → (A → View) → Result A × World → Type 0
Judged E Q (err e, w) = E w.setting w.listed
Judged E Q (ok a, w) = Q a w.setting w.listed

-- From P, without an error to Q of the value, with one to E.
pub record Triple {ℓ} {A : Type ℓ} (P : View) (m : Exec A) (Q : A → View) (E : View) : Type 0 where
  pub holds : (w : World) → P w.setting w.listed → Judged E Q (m w)

-- Neither is changed.
pub record Still {ℓ} {A : Type ℓ} (m : Exec A) : Type 0 where
  pub same_setting : (w : World) → (m w).1.setting ≡ w.setting
  pub same_listed : (w : World) → (m w).1.listed ≡ w.listed

module _ {ℓ} {A : Type ℓ} where
  pub Still-give : (a : A) → Still (give a)
  unfolding give
  Still-give a = record { same_setting = λ w. refl; same_listed = λ w. refl }

  pub Still-stop : (e : Error) → Still {A = A} (stop e)
  unfolding stop
  Still-stop e = record { same_setting = λ w. refl; same_listed = λ w. refl }

  pub Still-ask : (message : String) (answer : ℕ → Foreign ⊎ A) → Still (ask message answer)
  unfolding ask
  Still-ask message answer = record { same_setting = λ w. refl; same_listed = λ w. refl }

  pub Still-stored :
      (env : Env) (message : String) (op : Conn → ℕ → Db → Result A × Db)
      → Still (stored env message op)
  unfolding stored
  Still-stored env message op = record { same_setting = λ w. refl; same_listed = λ w. refl }

  pub Still-if : (b : Bool) (m n : Exec A) → Still m → Still n → Still (if b then m else n)
  Still-if true m n hm hn = hm
  Still-if false m n hm hn = hn

pub Still-tally : (f : Report → Report) → Still (tally f)
unfolding tally
Still-tally f = record { same_setting = λ w. refl; same_listed = λ w. refl }

pub Still-guard : (test : Bool) (e : Error) → Still (guard test e)
unfolding guard
Still-guard test e = record { same_setting = λ w. refl; same_listed = λ w. refl }

module _ {ℓ κ} {A : Type ℓ} {B : Type κ} where
  pub Still-bind :
      (m : Exec A) (f : A → Exec B) → Still m → ((a : A) → Still (f a)) → Still (m >>= f)
  unfolding ◌>>=◌
  Still-bind m f hm hf = record {
    same_setting = λ w. setting_of (m w) ∙ hm.same_setting w;
    same_listed = λ w. listed_of (m w) ∙ hm.same_listed w;
  }
    where
      setting_of : (p : Result A × World) → (and_then f p).1.setting ≡ p.1.setting
      setting_of (err e, w) = refl
      setting_of (ok a, w) = (hf a).same_setting w

      listed_of : (p : Result A × World) → (and_then f p).1.listed ≡ p.1.listed
      listed_of (err e, w) = refl
      listed_of (ok a, w) = (hf a).same_listed w

module _ {κ} {B : Type κ} where
  pub Still-then : (m : Exec (Unit {0})) (n : Exec B) → Still m → Still n → Still (m >> n)
  unfolding ◌>>◌ ◌>>=◌
  Still-then m n hm hn = Still-bind m (λ _. n) hm (λ _. hn)

module _ {ℓ} {A : Type ℓ} {P E : View}
    (imp : (s : Option String) (l : List String) → P s l → E s l) where
  pub Triple-Still : (m : Exec A) → Still m → Triple P m (λ _. P) E
  Triple-Still m h = record { holds = λ w p. judged w (m w) (h.same_setting w) (h.same_listed w) p }
    where
      judged :
          (w : World) (r : Result A × World)
          → r.1.setting ≡ w.setting
          → r.1.listed ≡ w.listed
          → P w.setting w.listed
          → Judged E (λ _. P) r
      judged w (err e, w') hs hl p =
          imp w'.setting w'.listed
            (subst (λ s. P s w'.listed) (sym hs) (subst (λ l. P w.setting l) (sym hl) p))
      judged w (ok a, w') hs hl p =
          subst (λ s. P s w'.listed) (sym hs) (subst (λ l. P w.setting l) (sym hl) p)

module _ {ℓ κ} {A : Type ℓ} {B : Type κ} {P E : View} {R : A → View} {Q : B → View} where
  pub Triple-bind :
      (m : Exec A) (f : A → Exec B)
      → Triple P m R E
      → ((a : A) → Triple (R a) (f a) Q E)
      → Triple P (m >>= f) Q E
  unfolding ◌>>=◌
  Triple-bind m f hm hf = record { holds = λ w p. judged (m w) (hm.holds w p) }
    where
      judged : (r : Result A × World) → Judged E R r → Judged E Q (and_then f r)
      judged (err e, w) h = h
      judged (ok a, w) h = (hf a).holds w h

module _ {κ} {B : Type κ} {P E : View} {R : View} {Q : B → View} where
  pub Triple-then :
      (m : Exec (Unit {0})) (n : Exec B)
      → Triple P m (λ _. R) E
      → Triple R n Q E
      → Triple P (m >> n) Q E
  unfolding ◌>>◌ ◌>>=◌
  Triple-then m n hm hn = Triple-bind m (λ _. n) hm (λ _. hn)

module _ {κ} {B : Type κ} {P E : View} {Q : B → View} where
  -- Past a guard its test failed.
  pub Triple-guard :
      (test : Bool) (e : Error) (n : Exec B)
      → ((s : Option String) (l : List String) → P s l → E s l)
      → (test ≡ false → Triple P n Q E)
      → Triple P (guard test e >> n) Q E
  unfolding guard ◌>>◌
  Triple-guard true e n imp h = record { holds = λ w p. imp w.setting w.listed p }
  Triple-guard false e n imp h = record { holds = λ w p. (h refl).holds w p }

  pub Triple-if :
      (b : Bool) (m n : Exec B)
      → (b ≡ true → Triple P m Q E)
      → (b ≡ false → Triple P n Q E)
      → Triple P (if b then m else n) Q E
  Triple-if true m n hm hn = hm refl
  Triple-if false m n hm hn = hn refl

  -- What holds whatever the world is serves for the rest.
  pub Triple-fact :
      {F : Type 0} (m : Exec B) → (F → Triple P m Q E) → Triple (λ s l. F × P s l) m Q E
  Triple-fact m h = record { holds = λ w p. (h p.0).holds w p.1 }

  pub Triple-weaken :
      {R : View} (m : Exec B)
      → ((s : Option String) (l : List String) → R s l → P s l)
      → Triple P m Q E
      → Triple R m Q E
  Triple-weaken m imp h = record { holds = λ w r. h.holds w (imp w.setting w.listed r) }
