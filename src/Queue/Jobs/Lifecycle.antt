-- ===== src/Queue/Jobs/Lifecycle.antt =====
-- The life of one job of internal/queue/queue.go, as each step of the abstract queue shows it.
use paperless_ai_ocr.Prelude.{
  ℕ, suc, ◌≤◌, ◌<◌, ◌≡◌, refl, sym, subst, ◌∙◌, Bool, true, false, Option, none, some, List, [],
  ◌∷◌, ◌++◌, arith, if◌then◌else◌, ==_iff, updated, or_else, find-update, find-append, All-found,
  All-first, All-select, some_inj, select_where, update_where, find_where, find_where-eq-some,
  first_by,
}
use paperless_ai_ocr.Queue.Model.{
  pending, processing, retry, completed, failed, Job, Db, is_waiting,
}
use paperless_ai_ocr.Queue.Enqueue.{enqueue_before}
use paperless_ai_ocr.Queue.Calls.{Call, run, run_all}
use paperless_ai_ocr.Queue.Jobs.Step.{JobsStep}
use paperless_ai_ocr.Queue.Jobs.Refinement.{run-JobsStep}
use paperless_ai_ocr.Queue.Jobs.Valid.{has_id, JobsValid}
use paperless_ai_ocr.Queue.Jobs.Keeps.{JobsStep-JobsValid}

-- the job of an id
abbrev pub job_at : ℕ → List Job → Option Job
job_at i = find_where (has_id i)

-- the attempts of a job, or 0 where there is none
abbrev pub attempts : Option Job → ℕ
attempts none = 0
attempts (some r) = r.attempts

-- How one row may change: `r` before, `s` after.
pub data RowStep (r s : Job) : Type 0 where
  unchanged : s ≡ r → RowStep r s
  -- a waiting job may rise in priority
  raised :
      is_waiting r.state ≡ true
      → r.priority < s.priority
      → s.state ≡ r.state
      → s.attempts ≡ r.attempts
      → RowStep r s
  -- a waiting job is leased, and this is one more attempt
  leased :
      is_waiting r.state ≡ true → s.state ≡ processing → s.attempts ≡ suc r.attempts → RowStep r s
  -- a job that is processing goes on, or waits again, or ends
  left : r.state ≡ processing → (s.state ≡ pending → ⊥) → s.attempts ≡ r.attempts → RowStep r s
  -- a failed job waits again
  returned_to_queue : r.state ≡ failed → s.state ≡ retry → s.attempts ≡ r.attempts → RowStep r s

-- the same of what an id finds: a job is created, and none is ever removed.
pub data SlotStep : Option Job → Option Job → Type 0 where
  absent : SlotStep none none
  created : (s : Job) → s.state ≡ pending → s.attempts ≡ 0 → SlotStep none (some s)
  kept : (r s : Job) → RowStep r s → SlotStep (some r) (some s)

SlotStep-refl : (o : Option Job) → SlotStep o o
SlotStep-refl none = absent
SlotStep-refl (some r) = kept r r (RowStep.unchanged refl)

SlotStep-update :
    (i : ℕ) (js : List Job) (q : Job → Bool) (f : Job → Job)
    → ((r : Job) → has_id i (f r) ≡ has_id i r)
    → ((r : Job) → q r ≡ true → job_at i js ≡ some r → RowStep r (f r))
    → SlotStep (job_at i js) (job_at i (update_where q f js))
SlotStep-update i js q f same_id steps =
    rw (find-update (has_id i) q f js (λ r _. same_id r)) (go (job_at i js) refl)
  where
    go : (o : Option Job) → job_at i js ≡ o → SlotStep o (updated q f o)
    go none e = absent
    go (some r) e = kept r _ (choose (q r) refl)
      where
        choose : (b : Bool) → q r ≡ b → RowStep r (if b then f r else r)
        choose true t = steps r t e
        choose false t = RowStep.unchanged refl

slot-some :
    (i : ℕ) (s : Job) (b : Bool)
    → s.state ≡ pending
    → s.attempts ≡ 0
    → SlotStep none (if b then some s else none)
slot-some i s true p a = created s p a
slot-some i s false p a = absent

SlotStep-append :
    (i : ℕ) (js : List Job) (s : Job)
    → s.state ≡ pending
    → s.attempts ≡ 0
    → SlotStep (job_at i js) (job_at i (js ++ s ∷ []))
unfolding find_where
SlotStep-append i js s p a = rw (find-append (has_id i) js (s ∷ [])) (go (job_at i js))
  where
    go : (o : Option Job) → SlotStep o (or_else o (job_at i (s ∷ [])))
    go none = slot-some i s (has_id i s) p a
    go (some r) = kept r r (RowStep.unchanged refl)

-- the job that enqueue promotes is the job of its id
selected_unique :
    (js : List Job) (p : Job → Bool) (before : Job → Job → Bool) (job r : Job)
    → JobsValid js
    → first_by before (select_where p js) ≡ some job
    → job_at job.id js ≡ some r
    → r ≡ job
selected_unique js p before job r v e found = some_inj r job (
    sym found
    ∙ All-first (λ x. job_at x.id js ≡ some x) before (select_where p js) job e
        (All-select (λ x. job_at x.id js ≡ some x) p js (All-found (λ (x : Job). x.id) js v.ids)))

same_key :
    (i : ℕ) (job : Job) (js : List Job) (r : Job)
    → job_at i js ≡ some r
    → has_id job.id r ≡ true
    → job_at job.id js ≡ some r
same_key i job js r found h =
    subst (λ k. job_at k js ≡ some r)
      (sym ((==_iff r.id i).0 (find_where-eq-some (has_id i) js r found))
        ∙ (==_iff r.id job.id).0 h)
      found

-- Every step of the abstract queue, seen at one id.
pub JobsStep-SlotStep :
    {js js' : List Job}
    → JobsStep js js'
    → JobsValid js
    → (i : ℕ) → SlotStep (job_at i js) (job_at i js')
JobsStep-SlotStep {js} JobsStep.same v i = SlotStep-refl (job_at i js)
JobsStep-SlotStep {js} (JobsStep.create now input e) v i = SlotStep-append i js _ refl refl
JobsStep-SlotStep {js} (JobsStep.promote now input job e w lt) v i =
    SlotStep-update i js _ _ (λ r. refl)
      λ r h found.
        let same_job =
          selected_unique js _ enqueue_before job r v e (same_key i job js r found h) in
        RowStep.raised (subst (λ (x : Job). is_waiting x.state ≡ true) (sym same_job) w)
          (subst (λ (x : Job). x.priority < input.priority) (sym same_job) lt) refl refl
JobsStep-SlotStep {js} (JobsStep.take now owner duration job free e) v i =
    SlotStep-update i js _ _ (λ r. refl)
      λ r h found. RowStep.leased (ground arith) refl (omega arith)
JobsStep-SlotStep {js} (JobsStep.renew now id attempt owner duration) v i =
    SlotStep-update i js _ _ (λ r. refl)
      λ r h found. RowStep.left (ground arith) (λ e. ground arith) refl
JobsStep-SlotStep {js} (JobsStep.give_back now id attempt owner available_at d) v i =
    SlotStep-update i js _ _ (λ r. refl)
      λ r h found. RowStep.left (ground arith) (λ e. ground arith) refl
JobsStep-SlotStep {js} (JobsStep.complete now id attempt owner) v i =
    SlotStep-update i js _ _ (λ r. refl)
      λ r h found. RowStep.left (ground arith) (λ e. ground arith) refl
JobsStep-SlotStep {js} (JobsStep.fail now id attempt owner d) v i =
    SlotStep-update i js _ _ (λ r. refl)
      λ r h found. RowStep.left (ground arith) (λ e. ground arith) refl
JobsStep-SlotStep {js} (JobsStep.recover now) v i =
    SlotStep-update i js _ _ (λ r. refl)
      λ r h found. RowStep.left (ground arith) (λ e. ground arith) refl
JobsStep-SlotStep {js} (JobsStep.requeue now id available_at f found' free) v i =
    SlotStep-update i js _ _ (λ r. refl)
      λ r h found. RowStep.returned_to_queue (ground arith) refl refl

-- On a valid table and whatever call is made, the job of an id changes along its life: it is
-- created pending, a waiting job is raised or leased with one more attempt, a processing job goes
-- on, waits or ends, a failed job returns to the queue, and no job is removed.
pub run-SlotStep :
    (call : Call) (db : Db) (i : ℕ)
    → JobsValid db.jobs
    → SlotStep (job_at i db.jobs) (job_at i (run call db).jobs)
run-SlotStep call db i v = JobsStep-SlotStep (run-JobsStep call db) v i

SlotStep-attempts : {o p : Option Job} → SlotStep o p → attempts o ≤ attempts p
SlotStep-attempts absent = omega arith
SlotStep-attempts (created s p a) = omega arith
SlotStep-attempts (kept r s (RowStep.unchanged e)) = ground arith
SlotStep-attempts (kept r s (RowStep.raised w lt e a)) = omega arith
SlotStep-attempts (kept r s (RowStep.leased w e a)) = omega arith
SlotStep-attempts (kept r s (RowStep.left w e a)) = omega arith
SlotStep-attempts (kept r s (RowStep.returned_to_queue w e a)) = omega arith

SlotStep-completed :
    (r : Job) {o p : Option Job} → SlotStep o p → o ≡ some r → r.state ≡ completed → p ≡ some r
SlotStep-completed r absent e c = absurd (ground arith)
SlotStep-completed r (created s p a) e c = absurd (ground arith)
SlotStep-completed r (kept r' s (RowStep.unchanged e')) e c = ground arith
SlotStep-completed r (kept r' s (RowStep.raised w lt e' a)) e c = absurd (ground arith)
SlotStep-completed r (kept r' s (RowStep.leased w e' a)) e c = absurd (ground arith)
SlotStep-completed r (kept r' s (RowStep.left w e' a)) e c = absurd (ground arith)
SlotStep-completed r (kept r' s (RowStep.returned_to_queue w e' a)) e c = absurd (ground arith)

-- On a valid table the attempts of a job never decrease, over any sequence of calls.
pub run_all-attempts :
    (calls : List Call) (db : Db) (i : ℕ)
    → JobsValid db.jobs
    → attempts (job_at i db.jobs) ≤ attempts (job_at i (run_all calls db).jobs)
unfolding run_all
run_all-attempts [] db i v = omega arith
run_all-attempts (c ∷ cs) db i v = omega (
  arith,
  SlotStep-attempts (run-SlotStep c db i v),
  run_all-attempts cs (run c db) i (JobsStep-JobsValid (run-JobsStep c db) v),
)

-- On a valid table a completed job is never changed again, by any sequence of calls.
pub run_all-completed :
    (calls : List Call) (db : Db) (i : ℕ) (r : Job)
    → JobsValid db.jobs
    → job_at i db.jobs ≡ some r
    → r.state ≡ completed
    → job_at i (run_all calls db).jobs ≡ some r
unfolding run_all
run_all-completed [] db i r v found c = found
run_all-completed (call ∷ cs) db i r v found c =
    run_all-completed cs (run call db) i r (JobsStep-JobsValid (run-JobsStep call db) v)
      (SlotStep-completed r (run-SlotStep call db i v) found c) c
