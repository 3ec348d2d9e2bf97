-- ===== src/Queue/Jobs/Keeps.antt =====
-- The steps of the abstract queue (internal/queue/queue.go) and the invariant of the table of jobs.
use paperless_ai_ocr.Prelude.{
  ℕ, ◌≤◌, String, ◌≡◌, refl, sym, ap, subst, inl, inr, Bool, true, false, ◌&&◌, some, List, [], ◌∷◌,
  ◌++◌, arith, str_eq_iff, Bool-cases, and_left, and_right, All, All-map, All-update, All-append,
  count-update, count-update-le, count-le-count, count_where-append, count_le_rows, count-none,
  count-select, count_where, update_where, find_where, find_where-eq-some,
}
use paperless_ai_ocr.Queue.Model.{EnqueueInput, SafeDiagnostic, Job, Db, is_current, is_failed}
use paperless_ai_ocr.Queue.Enqueue.{same_source, jobs_of, new_job, next_id, max_id, promoted}
use paperless_ai_ocr.Queue.Leases.{
  is_due, claimed, holds_lease, renewed, retried, has_expired, lease_expired,
}
use paperless_ai_ocr.Queue.Transitions.{completed_at_now, failed_at_now, requeued, conflicts}
use paperless_ai_ocr.Queue.Calls.{Call, run, run_all, empty}
use paperless_ai_ocr.Queue.Jobs.Step.{JobsStep}
use paperless_ai_ocr.Queue.Jobs.Refinement.{run-JobsStep}
use paperless_ai_ocr.Queue.Jobs.Valid.{
  has_id, is_current_of, is_active, JobValid, JobsValid, JobsValid-unique,
}

-- an update that takes the rows that it meets to valid ones
abbrev Preserves : (Job → Bool) → (Job → Job) → Type 0
Preserves q f = (r : Job) → q r ≡ true → JobValid r → JobValid (f r)

-- The two promises over the whole table are shown apart.
module _ (js : List Job) (q : Job → Bool) (f : Job → Job) (v : JobsValid js) where
  update-JobsValid :
      ((i : ℕ) (r : Job) → has_id i (f r) ≡ has_id i r)
      → ((d : ℕ) (s : String) → count_where (is_current_of d s) (update_where q f js) ≤ 1)
      → count_where is_active (update_where q f js) ≤ 1
      → Preserves q f
      → JobsValid (update_where q f js)
  update-JobsValid same_id current active keeps = record {
    ids = λ i. omega (
      arith,
      v.ids i,
      count-update-le (has_id i) q f js (λ r h. subst (λ b. (q r && b) ≡ true) (same_id i r) h),
    );
    one_current = current;
    one_active = active;
    rows = All-update JobValid q f js (λ r h t. keeps r t h) v.rows;
  }

  -- where no row becomes current that was not
  current-update :
      ((r : Job) → q r ≡ true → is_current (f r).state ≡ true → is_current r.state ≡ true)
      → ((d : ℕ) (s : String) (r : Job) → same_source d s (f r) ≡ same_source d s r)
      → (d : ℕ) (s : String) → count_where (is_current_of d s) (update_where q f js) ≤ 1
  current-update still source d s = omega (
    arith,
    v.one_current d s,
    count-update-le (is_current_of d s) q f js (λ r h. ground (arith, still r, source d s r)),
  )

  -- where no row becomes active that was not
  active-update :
      ((r : Job) → q r ≡ true → is_active (f r) ≡ true → is_active r ≡ true)
      → count_where is_active (update_where q f js) ≤ 1
  active-update still =
      omega (arith, v.one_active, count-update-le is_active q f js (λ r h. ground (arith, still r)))

promote-keeps :
    (js : List Job) (i now p : ℕ)
    → JobsValid js
    → JobsValid (update_where (has_id i) (promoted p now) js)
promote-keeps js i now p v =
    update-JobsValid js _ _ v (λ i r. refl) (current-update js _ _ v (λ r h c. c) (λ d s r. refl))
      (active-update js _ _ v (λ r h a. a)) (λ r h j. ground arith)

module _ (js : List Job) (now id attempt : ℕ) (owner : String) (v : JobsValid js) where
  renew-keeps :
      (duration : ℕ)
      → JobsValid (update_where (holds_lease now id attempt owner) (renewed now duration) js)
  renew-keeps duration =
      update-JobsValid js _ _ v (λ i r. refl) (current-update js _ _ v (λ r h c. c) (λ d s r. refl))
        (active-update js _ _ v (λ r h a. a)) (λ r h j. ground arith)

  give_back-keeps :
      (available_at : ℕ) (d : SafeDiagnostic)
      → JobsValid (update_where (holds_lease now id attempt owner) (retried now available_at d) js)
  give_back-keeps available_at d =
      update-JobsValid js _ _ v (λ i r. refl)
        (current-update js _ _ v (λ r h c. ground arith) (λ d s r. refl))
        (active-update js _ _ v (λ r h a. ground arith)) (λ r h j. ground arith)

  complete-keeps :
      JobsValid (update_where (holds_lease now id attempt owner) (completed_at_now now) js)
  complete-keeps =
      update-JobsValid js _ _ v (λ i r. refl)
        (current-update js _ _ v (λ r h c. ground arith) (λ d s r. refl))
        (active-update js _ _ v (λ r h a. ground arith)) (λ r h j. ground arith)

  fail-keeps :
      (d : SafeDiagnostic)
      → JobsValid (update_where (holds_lease now id attempt owner) (failed_at_now now d) js)
  fail-keeps d =
      update-JobsValid js _ _ v (λ i r. refl)
        (current-update js _ _ v (λ r h c. ground arith) (λ d s r. refl))
        (active-update js _ _ v (λ r h a. ground arith)) (λ r h j. ground arith)

recover-keeps :
    (js : List Job) (now : ℕ)
    → JobsValid js
    → JobsValid (update_where (has_expired now) (retried now now lease_expired) js)
recover-keeps js now v =
    update-JobsValid js _ _ v (λ i r. refl)
      (current-update js _ _ v (λ r h c. ground arith) (λ d s r. refl))
      (active-update js _ _ v (λ r h a. ground arith)) (λ r h j. ground arith)

module _ (js : List Job) (now i : ℕ) (owner : String) (duration : ℕ) (v : JobsValid js) where
  abbrev takes : Job → Bool
  takes r = has_id i r && is_due now r

  taken-le : (f : Job → Job) → count_where (λ r. takes r && is_active (f r)) js ≤ 1
  taken-le f = omega (
    arith,
    v.ids i,
    count-le-count (λ r. takes r && is_active (f r)) (has_id i) js (λ r h. ground arith),
  )

  take-keeps :
      count_where is_active js ≡ 0 → JobsValid (update_where takes (claimed now owner duration) js)
  take-keeps free =
      update-JobsValid js takes (claimed now owner duration) v (λ i r. refl)
        (current-update js _ _ v (λ r h c. ground arith) (λ d s r. refl))
        (omega (
          arith,
          free,
          count-update is_active takes (claimed now owner duration) js,
          taken-le (claimed now owner duration),
        ))
        (λ r h j. ground arith)

module _ (js : List Job) (now i available_at : ℕ) (f : Job) (v : JobsValid js)
    (found : find_where (has_id i) js ≡ some f) (free : count_where (conflicts f) js ≡ 0) where
  abbrev requeues : Job → Bool
  requeues r = has_id i r && is_failed r.state

  -- rows that become current for a source
  abbrev newly : ℕ → String → Job → Bool
  newly d s r = requeues r && is_current_of d s (requeued now available_at r)

  newly-le : (d : ℕ) (s : String) → count_where (newly d s) js ≤ 1
  newly-le d s =
      omega (arith, v.ids i, count-le-count (newly d s) (has_id i) js (λ r h. ground arith))

  other-conflicts :
      (d : ℕ) (s : String) (r : Job)
      → is_failed f.state ≡ true
      → same_source d s f ≡ true
      → (has_id i r ≡ true → r ≡ f)
      → is_current_of d s r ≡ true
      → conflicts f r ≡ true
  other-conflicts d s r failing source same h = elim (Bool-cases (has_id i r)) [
    | inl t ↦ absurd (ground (arith, ap (λ (x : Job). is_current x.state) (same t)))
    | inr t ↦ ground (
      arith,
      find_where-eq-some (has_id i) js f found,
      str_eq_iff r.source_checksum s,
      str_eq_iff f.source_checksum s,
      str_eq_iff r.source_checksum f.source_checksum,
    )
  ]

  -- where `f` is a failed job of the source, no job of the source is current
  others :
      (d : ℕ) (s : String)
      → is_failed f.state ≡ true
      → same_source d s f ≡ true
      → count_where (is_current_of d s) js ≡ 0
  others d s failing source = omega (
    arith,
    free,
    count_le_rows (is_current_of d s) (conflicts f) js
        (All-map _ _ js (λ r. other-conflicts d s r failing source) (JobsValid-unique v i f found)),
  )

  not-newly :
      (d : ℕ) (s : String) (r : Job)
      → (is_failed f.state && same_source d s f) ≡ false
      → (has_id i r ≡ true → r ≡ f)
      → newly d s r ≡ false
  not-newly d s r not_failing same = elim (Bool-cases (has_id i r)) [
    | inl t ↦ subst (λ x. newly d s x ≡ false) (sym (same t)) (ground arith)
    | inr t ↦ ground arith
  ]

  -- where it is not, none becomes current
  none_newly :
      (d : ℕ) (s : String)
      → (is_failed f.state && same_source d s f) ≡ false
      → count_where (newly d s) js ≡ 0
  none_newly d s not_failing =
      count-none (newly d s) js
        (All-map _ _ js (λ r. not-newly d s r not_failing) (JobsValid-unique v i f found))

  requeued-current :
      (d : ℕ) (s : String)
      → count_where (is_current_of d s) (update_where requeues (requeued now available_at) js) ≤ 1
  requeued-current d s = elim (Bool-cases (is_failed f.state && same_source d s f)) [
    | inl t ↦ omega (
      arith,
      others d s (and_left _ _ t) (and_right _ _ t),
      count-update (is_current_of d s) requeues (requeued now available_at) js,
      newly-le d s,
    )
    | inr t ↦ omega (
      arith,
      v.one_current d s,
      none_newly d s t,
      count-update (is_current_of d s) requeues (requeued now available_at) js,
    )
  ]

  requeue-keeps : JobsValid (update_where requeues (requeued now available_at) js)
  requeue-keeps =
      update-JobsValid js requeues (requeued now available_at) v (λ i r. refl) requeued-current
        (active-update js _ _ v (λ r h a. ground arith)) (λ r h j. ground arith)

max_id-le : (js : List Job) → All (λ r. r.id ≤ max_id js) js
unfolding max_id
max_id-le [] = tt
max_id-le (r ∷ rs) = (omega arith, All-map _ _ rs (λ x h. omega arith) (max_id-le rs))

module _ (js : List Job) (now : ℕ) (input : EnqueueInput) (v : JobsValid js) where
  abbrev created : Job
  created = new_job (next_id js) now input

  unused : (i : ℕ) → has_id i created ≡ true → count_where (has_id i) js ≡ 0
  unused i h = count-none (has_id i) js (All-map _ _ js (λ r le. ground arith) (max_id-le js))

  one_more :
      (p : Job → Bool)
      → (p created ≡ true → count_where p js ≡ 0)
      → count_where p js ≤ 1
      → count_where p (js ++ created ∷ []) ≤ 1
  unfolding count_where
  one_more p h le = ground (arith, count_where-append p js (created ∷ []), h)

  no_source :
      (d : ℕ) (s : String)
      → jobs_of input js ≡ []
      → is_current_of d s created ≡ true
      → count_where (is_current_of d s) js ≡ 0
  no_source d s none_there h = omega (
    arith,
    count-select (same_source input.document_id input.source_checksum) js none_there,
    count-le-count (is_current_of d s) (same_source input.document_id input.source_checksum) js
        (λ r t. ground (
          arith,
          str_eq_iff r.source_checksum s,
          str_eq_iff input.source_checksum s,
          str_eq_iff r.source_checksum input.source_checksum,
        )),
  )

  create-keeps : jobs_of input js ≡ [] → JobsValid (js ++ created ∷ [])
  create-keeps none_there = record {
    ids = λ i. one_more (has_id i) (unused i) (v.ids i);
    one_current =
        λ d s. one_more (is_current_of d s) (no_source d s none_there) (v.one_current d s);
    one_active = one_more is_active (λ h. ground arith) v.one_active;
    rows = All-append JobValid js (created ∷ []) v.rows (ground arith, tt);
  }

pub JobsStep-JobsValid : {js js' : List Job} → JobsStep js js' → JobsValid js → JobsValid js'
JobsStep-JobsValid JobsStep.same v = v
JobsStep-JobsValid {js} (JobsStep.create now input e) v = create-keeps js now input v e
JobsStep-JobsValid {js} (JobsStep.promote now input job e w lt) v =
    promote-keeps js job.id now input.priority v
JobsStep-JobsValid {js} (JobsStep.take now owner duration job free e) v =
    take-keeps js now job.id owner duration v free
JobsStep-JobsValid {js} (JobsStep.renew now id attempt owner duration) v =
    renew-keeps js now id attempt owner v duration
JobsStep-JobsValid {js} (JobsStep.give_back now id attempt owner available_at d) v =
    give_back-keeps js now id attempt owner v available_at d
JobsStep-JobsValid {js} (JobsStep.complete now id attempt owner) v =
    complete-keeps js now id attempt owner v
JobsStep-JobsValid {js} (JobsStep.fail now id attempt owner d) v =
    fail-keeps js now id attempt owner v d
JobsStep-JobsValid {js} (JobsStep.recover now) v = recover-keeps js now v
JobsStep-JobsValid {js} (JobsStep.requeue now id available_at f found free) v =
    requeue-keeps js now id available_at f v found free

pub run_all-keeps :
    (calls : List Call) (db : Db) → JobsValid db.jobs → JobsValid (run_all calls db).jobs
unfolding run_all
run_all-keeps [] db v = v
run_all-keeps (c ∷ cs) db v = run_all-keeps cs (run c db) (JobsStep-JobsValid (run-JobsStep c db) v)

-- Whatever calls are made on a new database, in any order, at any instants and with whatever
-- failures of SQLite: no two jobs have one id, no two current jobs have one document and checksum,
-- at most one job is processing, and each row has a lease exactly while it is processing, an
-- attempt by then, both columns of a diagnostic or none, and a completion time exactly when it is
-- completed or failed.
pub run_all-JobsValid : (calls : List Call) → JobsValid (run_all calls empty).jobs
unfolding count_where
run_all-JobsValid calls = run_all-keeps calls empty (record {
  ids = λ i. omega arith;
  one_current = λ d s. omega arith;
  one_active = omega arith;
  rows = tt;
})
