-- ===== src/Queue/ClaimOrder.antt =====
-- Claim of internal/queue/queue.go, and the order of the queue.
use paperless_ai_ocr.Prelude.{
  ℕ, ◌<◌, String, ◌≡◌, refl, sym, subst, inl, inr, true, false, ◌&&◌, Option, none, some, List,
  arith, str_eq_iff, ◌==◌, if◌then◌else◌, Bool-cases, and_left, find-update, All-found, All-first,
  All-select, All-select_self, count-le-count, some_inj, count-of_find, count_where, select_where,
  update_where, first_by,
}
use paperless_ai_ocr.Text.{blank}
use paperless_ai_ocr.Saferr.{Result, ok, ok_inj}
use paperless_ai_ocr.Queue.Model.{Job, Db}
use paperless_ai_ocr.Queue.Transaction.{healthy, settle, write_context}
use paperless_ai_ocr.Queue.Leases.{
  claim, claim_body, claim_selected, is_due, claim_before, claimed, holds_lease,
}
use paperless_ai_ocr.Queue.Calls.{Call, run}
use paperless_ai_ocr.Queue.Jobs.Valid.{has_id, is_active, JobsValid}
use paperless_ai_ocr.Queue.Jobs.Refinement.{run-JobsStep}
use paperless_ai_ocr.Queue.Jobs.Keeps.{JobsStep-JobsValid}
use paperless_ai_ocr.Queue.Calls.{Call, run}
use paperless_ai_ocr.Queue.Jobs.Lifecycle.{job_at}

-- the jobs that are due, the first of them, and what leasing it comes to
abbrev pub first_due : ℕ → List Job → Option Job
first_due now js = first_by claim_before (select_where (is_due now) js)

abbrev pub take_row : ℕ → String → ℕ → Job → List Job → List Job
take_row now owner duration c =
    update_where (λ r. r.id == c.id && is_due now r) (claimed now owner duration)

abbrev pub claim_outcome : ℕ → String → ℕ → Db → Option Job → Result (Option Job) × Db
claim_outcome now owner duration db none = (ok none, db)
claim_outcome now owner duration db (some c) = (
  ok (some (claimed now owner duration c)),
  record db { jobs = take_row now owner duration c db.jobs },
)

module _ (now : ℕ) (db : Db) (v : JobsValid db.jobs) (c : Job)
    (first : first_due now db.jobs ≡ some c) where
  first_due-at : job_at c.id db.jobs ≡ some c
  first_due-at =
      All-first (λ x. job_at x.id db.jobs ≡ some x) claim_before (select_where (is_due now) db.jobs)
        c first
        (All-select (λ x. job_at x.id db.jobs ≡ some x) (is_due now) db.jobs
          (All-found (λ (x : Job). x.id) db.jobs v.ids))

  first_due-is_due : is_due now c ≡ true
  first_due-is_due =
      All-first (λ x. is_due now x ≡ true) claim_before (select_where (is_due now) db.jobs) c first
        (All-select_self (is_due now) db.jobs)

  one_taken : count_where (λ r. r.id == c.id && is_due now r) db.jobs ≡ 1
  one_taken = omega (
    arith,
    v.ids c.id,
    count-le-count (λ r. r.id == c.id && is_due now r) (has_id c.id) db.jobs
        (λ r h. and_left _ _ h),
    count-of_find (has_id c.id) (λ r. r.id == c.id && is_due now r) db.jobs c first_due-at
        (ground (arith, first_due-is_due)),
  )

  taken_at :
      (owner : String) (duration : ℕ)
      → job_at c.id (take_row now owner duration c db.jobs) ≡ some (claimed now owner duration c)
  taken_at owner duration =
      rw
        (find-update (has_id c.id) (λ r. r.id == c.id && is_due now r) (claimed now owner duration)
          db.jobs (λ r _. refl))
        (ground (arith, first_due-at, first_due-is_due))

  claim_selected_lem :
      (owner : String) (duration : ℕ)
      → claim_selected healthy.statement now owner duration db (some c)
        ≡ ok (
          some (claimed now owner duration c),
          record db { jobs = take_row now owner duration c db.jobs },
        )
  unfolding claim_selected
  claim_selected_lem owner duration = ground (arith, one_taken, taken_at owner duration)

claim_body_lem :
    (now : ℕ) (owner : String) (duration : ℕ) (db : Db)
    → JobsValid db.jobs
    → settle db (claim_body healthy.statement now owner duration db)
      ≡ claim_outcome now owner duration db
          (if count_where is_active db.jobs == 0 then first_due now db.jobs else none)
unfolding claim_body
claim_body_lem now owner duration db v = elim (Bool-cases (count_where is_active db.jobs == 0)) [
  | inr busy ↦ rw busy
  | inl free ↦ rw free (go (first_due now db.jobs) refl)
]
  where
    go :
        (o : Option Job)
        → first_due now db.jobs ≡ o
        → settle db (claim_selected healthy.statement now owner duration db o)
          ≡ claim_outcome now owner duration db o
    go none e = unfold claim_selected in refl
    go (some c) e = rw (claim_selected_lem now db v c e owner duration)

pub claim_lem :
    (now : ℕ) (owner : String) (duration : ℕ) (db : Db)
    → JobsValid db.jobs
    → blank owner ≡ false
    → 0 < duration
    → claim healthy now owner duration db
      ≡ claim_outcome now owner duration db
          (if count_where is_active db.jobs == 0 then first_due now db.jobs else none)
unfolding claim write_context
claim_lem now owner duration db v b pos = ground (arith, claim_body_lem now owner duration db v)

-- the generation of a job holds the lease at an instant, and is the only active job
abbrev pub HoldsAlone : ℕ → String → Job → List Job → Type 0
HoldsAlone now owner job js =
    (count_where (holds_lease now job.id job.attempts owner) js ≡ 1)
    × (count_where is_active js ≡ 1)

module _ (now : ℕ) (owner : String) (duration : ℕ) (db : Db) (v : JobsValid db.jobs)
    (pos : 0 < duration) where
  taken-HoldsAlone :
      (c : Job)
      → first_due now db.jobs ≡ some c
      → JobsValid (take_row now owner duration c db.jobs)
      → HoldsAlone now owner (claimed now owner duration c) (take_row now owner duration c db.jobs)
  taken-HoldsAlone c first v' =
      let job = claimed now owner duration c in
      let js = take_row now owner duration c db.jobs in
      let held : holds_lease now job.id job.attempts owner job ≡ true =
        ground (arith, str_eq_iff owner owner) in
      (
        omega (
          arith,
          count-of_find (has_id c.id) (holds_lease now job.id job.attempts owner) js job
              (taken_at now db v c first owner duration) held,
          v'.ids c.id,
          count-le-count (holds_lease now job.id job.attempts owner) (has_id c.id) js
              (λ r h. ground arith),
        ),
        omega (
          arith,
          count-of_find (has_id c.id) is_active js job (taken_at now db v c first owner duration)
              refl,
          v'.one_active,
        ),
      )

  -- the outcome of a claim that returned a job
  outcome-HoldsAlone :
      (o : Option Job) (job : Job)
      → (if count_where is_active db.jobs == 0 then first_due now db.jobs else none) ≡ o
      → JobsValid (claim_outcome now owner duration db o).1.jobs
      → (claim_outcome now owner duration db o).0 ≡ ok (some job)
      → HoldsAlone now owner job (claim_outcome now owner duration db o).1.jobs
  outcome-HoldsAlone none job e v' h = absurd (ground arith)
  outcome-HoldsAlone (some c) job e v' h =
      subst (λ j. HoldsAlone now owner j (take_row now owner duration c db.jobs))
        (some_inj (claimed now owner duration c) job (ok_inj h))
        (taken-HoldsAlone c (ground arith) v')

  -- On a valid table and where SQLite carries out every statement, the generation that Claim
  -- returns holds the lease at the instant of the claim, in the table that it leaves, and no other
  -- job is processing there.
  pub claim-HoldsAlone :
      (job : Job)
      → blank owner ≡ false
      → (claim healthy now owner duration db).0 ≡ ok (some job)
      → HoldsAlone now owner job (claim healthy now owner duration db).1.jobs
  claim-HoldsAlone job b h =
      subst
        (λ (x : Result (Option Job) × Db).
          JobsValid x.1.jobs → x.0 ≡ ok (some job) → HoldsAlone now owner job x.1.jobs)
        (sym (claim_lem now owner duration db v b pos)) (outcome-HoldsAlone _ job refl)
        (unfold run in
          JobsStep-JobsValid (run-JobsStep (Call.claim healthy now owner duration) db) v)
        h
