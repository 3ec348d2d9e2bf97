-- ===== src/Queue/Plans.antt =====
-- What EnsureBatchesContext of internal/queue/queue.go returns: checkpoints of the plan it was given.
use mathlib.Core.List.{append_assoc, append-nil}
use paperless_ai_ocr.Prelude.{
  none, some, ℕ, suc, String, ◌≡◌, refl, sym, ap, ◌∙◌, inl, inr, true, false, Option, List, [], ◌∷◌,
  ◌++◌, arith, str_eq_iff, ◌==◌, Bool-cases, Option-cases, All, select_where, some, subst, not,
  ◌||◌,
}
use paperless_ai_ocr.Saferr.{
  ◌>>◌, ok≢err, returned, rejected, Ensures, Ensures-ok, Ensures-err, Ensures-if, Ensures-bind,
  Cause, Error, ok, err, ok_inj, Result,
}
use paperless_ai_ocr.Queue.Model.{BatchRange, Batch, Db}
use paperless_ai_ocr.Queue.Valid.{
  valid_batch_range, valid_following, same_batch_plan, valid_batch_ranges,
}
use paperless_ai_ocr.Queue.Batches.{
  page_before, insert_by_page, order_by_page, new_batch, max_batch_id, insert_batches, list_batches,
  ensure_batches, ensure_listed, ensure_batches_body,
}
use paperless_ai_ocr.Queue.Transaction.{Conn, write_context-eq-ok}
use paperless_ai_ocr.Queue.Leases.{invalid_claim_key}
use paperless_ai_ocr.Text.{blank}

-- rows that were appended for a plan
record Inserted (job_id dpi : ℕ) (format : String) (ranges : List BatchRange)
    (batches result : List Batch) : Type 0 where
  rows : List Batch
  appended : result ≡ batches ++ rows
  planned : same_batch_plan rows ranges dpi format ≡ true
  own : All (λ b. (b.job_id == job_id) ≡ true) rows

insert_batches-Inserted :
    (io : ℕ → Option Cause) (k now job_id dpi : ℕ) (format : String) (ranges : List BatchRange)
    (batches result : List Batch)
    → insert_batches io k now job_id dpi format ranges batches ≡ ok result
    → Inserted job_id dpi format ranges batches result
unfolding insert_batches same_batch_plan
insert_batches-Inserted io k now job_id dpi format [] batches result h = record {
  rows = [];
  appended = sym (ok_inj h) ∙ sym (append-nil batches);
  planned = refl;
  own = tt;
}
insert_batches-Inserted io k now job_id dpi format (r ∷ rs) batches result h =
    elim (Option-cases (io k)) [
      | inr (cause, e) ↦ absurd (err≢ok (rw e at h))
      | inl e ↦
          let row = new_batch (suc (max_batch_id batches)) now job_id dpi format r in
          let p =
            insert_batches-Inserted io (suc k) now job_id dpi format rs (batches ++ row ∷ []) result
              (rw e at h) in
          record {
            rows = row ∷ p.rows;
            appended = p.appended ∙ append_assoc batches (row ∷ []) p.rows;
            planned = ground (arith, p.planned, (str_eq_iff format format).1 refl);
            own = (ground arith, p.own);
          }
    ]
  where
    err≢ok : {e : Error} → err e ≡ ok result → ⊥
    err≢ok e = cc

select-appended :
    (job_id : ℕ) (batches rows : List Batch)
    → select_where (λ b. b.job_id == job_id) batches ≡ []
    → All (λ b. (b.job_id == job_id) ≡ true) rows
    → select_where (λ b. b.job_id == job_id) (batches ++ rows) ≡ rows
unfolding select_where
select-appended job_id [] [] none_before own = refl
select-appended job_id [] (b ∷ rows) none_before own =
    rw own.0 (ap (λ bs. b ∷ bs) (select-appended job_id [] rows refl own.1))
select-appended job_id (b ∷ batches) rows none_before own = elim (Bool-cases (b.job_id == job_id)) [
  | inl t ↦ absurd (cons≢nil (rw t at none_before))
  | inr f ↦ rw f (select-appended job_id batches rows (rw f at none_before) own)
]
  where
    cons≢nil : {b : Batch} {bs : List Batch} → b ∷ bs ≡ [] → ⊥
    cons≢nil e = cc

-- Rows of a valid plan are in order.
order_by_page-planned :
    (previous_last dpi : ℕ) (format : String) (rows : List Batch) (ranges : List BatchRange)
    → same_batch_plan rows ranges dpi format ≡ true
    → valid_following previous_last ranges ≡ true
    → order_by_page rows ≡ rows
unfolding order_by_page insert_by_page same_batch_plan valid_following valid_batch_range
order_by_page-planned previous_last dpi format [] ranges same valid = refl
order_by_page-planned previous_last dpi format (b ∷ bs) [] same valid = absurd (ground arith)
order_by_page-planned previous_last dpi format (b ∷ []) (r ∷ rs) same valid = refl
order_by_page-planned previous_last dpi format (b ∷ c ∷ cs) (r ∷ []) same valid =
    absurd (ground arith)
order_by_page-planned previous_last dpi format (b ∷ c ∷ cs) (r ∷ s ∷ rs) same valid =
    let rest =
      order_by_page-planned r.last_page dpi format (c ∷ cs) (s ∷ rs) (ground arith)
        (ground arith) in
    let later : page_before c b ≡ false = ground arith in ap (insert_by_page b) rest ∙ rw later

order_by_page-nil : (batches : List Batch) → order_by_page batches ≡ [] → batches ≡ []
unfolding order_by_page
order_by_page-nil [] h = refl
order_by_page-nil (b ∷ bs) h = absurd (inserted (order_by_page bs) h)
  where
    inserted : (bs : List Batch) → insert_by_page b bs ≡ [] → ⊥
    inserted [] e = unfold insert_by_page in cc
    inserted (c ∷ cs) e = elim (Bool-cases (page_before c b)) [
      | inl t ↦ unfold insert_by_page in ground (arith, e)
      | inr f ↦ unfold insert_by_page in ground (arith, e)
    ]

pub Ensures-next {ℓ κ} :
    {A : Type ℓ} {Q : A → Type κ} (r : Result (Unit {0})) (s : Result A)
    → Ensures Q s
    → Ensures Q (r >> s)
Ensures-next (ok _) s h = h
Ensures-next (err e) s h = Ensures-err e

pub list_batches-eq-ok :
    (io : Option Cause) (job_id : ℕ) (db : Db) (listed : List Batch)
    → list_batches io job_id db ≡ ok listed
    → order_by_page (select_where (λ b. b.job_id == job_id) db.batches) ≡ listed
unfolding list_batches
list_batches-eq-ok none job_id db listed h = ok_inj h
list_batches-eq-ok (some cause) job_id db listed h = absurd (cc)

valid_following-of_ranges :
    (ranges : List BatchRange) → valid_batch_ranges ranges ≡ true → valid_following 0 ranges ≡ true
unfolding valid_batch_ranges valid_following
valid_following-of_ranges [] h = refl
valid_following-of_ranges (r ∷ rs) h = ground arith

module _ (io : ℕ → Option Cause) (now job_id : ℕ) (ranges : List BatchRange) (dpi : ℕ)
    (format : String) (db : Db) (valid : valid_batch_ranges ranges ≡ true) where
  abbrev Planned : List Batch × Db → Type 0
  Planned x = same_batch_plan x.0 ranges dpi format ≡ true

  ensure_listed-Planned :
      (listed : List Batch)
      → list_batches (io 1) job_id db ≡ ok listed
      → Ensures Planned (ensure_listed io now job_id ranges dpi format db listed)
  unfolding ensure_listed
  ensure_listed-Planned (b ∷ bs) h =
      Ensures-if (not (same_batch_plan (b ∷ bs) ranges dpi format)) _ _ (λ _. Ensures-err _)
        (λ same. Ensures-ok (b ∷ bs, db) (ground arith))
  ensure_listed-Planned [] h = Ensures-bind _ _ λ batches inserted. Ensures-bind _ _ λ listed again.
      let p =
        insert_batches-Inserted io 3 now job_id dpi format ranges db.batches batches inserted in
      let before =
        order_by_page-nil (select_where (λ b. b.job_id == job_id) db.batches)
          (list_batches-eq-ok (io 1) job_id db [] h) in
      let after = record db { batches = batches } in
      Ensures-ok (listed, after)
        (subst (λ bs. same_batch_plan bs ranges dpi format ≡ true)
          (sym (
              order_by_page-planned 0 dpi format p.rows ranges p.planned
                (valid_following-of_ranges ranges valid))
            ∙ ap order_by_page (sym (select-appended job_id db.batches p.rows before p.own))
            ∙ ap (λ bs. order_by_page (select_where (λ b. b.job_id == job_id) bs)) (sym p.appended)
            ∙ list_batches-eq-ok (io 2) job_id after listed again)
          p.planned)

  ensure_batches_body-Planned :
      (leased_at attempt : ℕ) (owner : String)
      → Ensures Planned
          (ensure_batches_body io leased_at now job_id attempt owner ranges dpi format db)
  unfolding ensure_batches_body
  ensure_batches_body-Planned leased_at attempt owner =
      Ensures-next _ _ (Ensures-bind _ _ λ listed h. ensure_listed-Planned listed h)

pub Ensures-value {ℓ κ} :
    {A : Type ℓ} {Q : A → Type κ} (r : Result A) (a : A) → Ensures Q r → r ≡ ok a → Q a
Ensures-value {Q = Q} r a (returned a' e q) h = subst Q (ok_inj (sym e ∙ h)) q
Ensures-value r a (rejected x e) h = absurd (ok≢err (sym h ∙ e))

-- Where EnsureBatchesContext returns no error, the ranges are a valid plan of batches, and the
-- checkpoints that it returns, old or new, are those of the plan, place by place.
pub ensure_batches-plan :
    (conn : Conn) (leased_at now id attempt : ℕ) (owner : String) (ranges : List BatchRange)
    (dpi : ℕ) (format : String) (db : Db) (listed : List Batch)
    → (ensure_batches conn leased_at now id attempt owner ranges dpi format db).0 ≡ ok listed
    → (valid_batch_ranges ranges ≡ true) × (same_batch_plan listed ranges dpi format ≡ true)
unfolding ensure_batches
ensure_batches-plan conn leased_at now id attempt owner ranges dpi format db listed h =
    elim (Bool-cases (
      invalid_claim_key id attempt owner
      || not (valid_batch_ranges ranges)
      || dpi == 0
      || blank format)) [
        | inl t ↦ absurd (ok≢err (sym (rw t at h)))
        | inr f ↦
            let valid : valid_batch_ranges ranges ≡ true = ground arith in
            (
              valid,
              Ensures-value _ _
                  (ensure_batches_body-Planned conn.statement now id ranges dpi format db valid
                    leased_at attempt owner)
                  (write_context-eq-ok conn
                    (ensure_batches_body conn.statement leased_at now id attempt owner ranges dpi
                      format)
                    db listed (rw f at h)),
            )
      ]
