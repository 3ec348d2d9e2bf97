-- ===== src/Queue/Engaged.antt =====
-- How often the dispatch of a job is engaged, that is reserved or confirmed, in the rows of
-- finalization_controls, under the calls of internal/queue/queue.go.
use paperless_ai_ocr.Prelude.{
  ℕ, ◌≤◌, ◌≡◌, refl, sym, subst, ◌∙◌, inl, inr, Bool, true, false, not, ◌&&◌, List, [], ◌∷◌, ◌++◌,
  arith, ◌==◌, if◌then◌else◌, Bool-cases, count-update, count-update-le, count-le-count,
  count_where-append, count_where, update_where,
}
use paperless_ai_ocr.Saferr.{Error, Result, err, Ensures, Ensures-of}
use paperless_ai_ocr.Queue.Model.{DispatchState, SafeDiagnostic, Control, Db}
use paperless_ai_ocr.Queue.Transaction.{Conn, write_context, write_context-keeps}
use paperless_ai_ocr.Queue.Finalizing
use paperless_ai_ocr.Queue.Finalizing.{
  same_dispatch, dispatch_code, may_admit, admitted, holds_admission, readmitted, dispatch_set,
  insert_control, new_control, acquire_body, set_dispatch_body,
}
use paperless_ai_ocr.Queue.Failures
use paperless_ai_ocr.Queue.Failures.{diagnosed, upsert_failure}
use paperless_ai_ocr.Queue.Calls.{Call, run}
use paperless_ai_ocr.Queue.Columns.{controls-run}
use paperless_ai_ocr.Queue.DispatchSteps.{
  controls-acquire_body, controls-renew_finalization_body, controls-record_failure_body,
}

abbrev pub of_job : ℕ → Control → Bool
of_job id c = c.job_id == id

abbrev pub is_engaged : ℕ → Control → Bool
is_engaged id c = c.job_id == id && not (same_dispatch c.dispatch_state DispatchState.none)

abbrev pub engaged : ℕ → List Control → ℕ
engaged id cs = count_where (is_engaged id) cs

abbrev pub keyed : ℕ → List Control → ℕ
keyed id cs = count_where (of_job id) cs

-- the primary key still holds, and the dispatch is engaged as often as before
pub record Kept (id : ℕ) (cs cs' : List Control) : Type 0 where
  pub key : keyed id cs ≤ 1 → keyed id cs' ≤ 1
  pub same : engaged id cs' ≡ engaged id cs

pub Kept-refl : (id : ℕ) (cs : List Control) → Kept id cs cs
Kept-refl id cs = record { key = λ h. h; same = refl }

pub Kept-trans : (id : ℕ) (a b c : List Control) → Kept id a b → Kept id b c → Kept id a c
Kept-trans id a b c h k = record { key = λ x. k.key (h.key x); same = k.same ∙ h.same }

update-Kept :
    (id : ℕ) (cs : List Control) (q : Control → Bool) (f : Control → Control)
    → ((c : Control) → (f c).job_id ≡ c.job_id)
    → ((c : Control) → (f c).dispatch_state ≡ c.dispatch_state)
    → Kept id cs (update_where q f cs)
update-Kept id cs q f job dispatch = record {
  key = λ h. omega (arith, count-update-le (of_job id) q f cs (λ c t. ground (arith, job c)));
  same = omega (
    arith,
    count-update (is_engaged id) q f cs,
    count-le-count (λ c. q c && is_engaged id c) (λ c. q c && is_engaged id (f c)) cs
        (λ c t. ground (arith, job c, dispatch c)),
    count-le-count (λ c. q c && is_engaged id (f c)) (λ c. q c && is_engaged id c) cs
        (λ c t. ground (arith, job c, dispatch c)),
  );
}

-- a row for a job that has none, with no dispatch
append-Kept :
    (id : ℕ) (cs : List Control) (c : Control)
    → count_where (of_job c.job_id) cs ≡ 0
    → c.dispatch_state ≡ DispatchState.none
    → Kept id cs (cs ++ c ∷ [])
unfolding count_where
append-Kept id cs c absent fresh = record {
  key = λ h. elim (Bool-cases (of_job id c)) [
    | inl t ↦
        rw (count_where-append (of_job id) cs (c ∷ []), t)
          (omega
            (arith, absent, count-le-count (of_job id) (of_job c.job_id) cs (λ x h. ground arith)))
    | inr t ↦ rw (count_where-append (of_job id) cs (c ∷ []), t) (omega arith)
  ];
  same = rw (count_where-append (is_engaged id) cs (c ∷ []), fresh) (ground arith);
}

insert-Kept : (id j now : ℕ) (cs : List Control) → Kept id cs (insert_control j now cs)
insert-Kept id j now cs = elim (Bool-cases (count_where (of_job j) cs == 0)) [
  | inl t ↦ rw t (append-Kept id cs (new_control j now) (ground arith) refl)
  | inr t ↦ rw t (Kept-refl id cs)
]

upsert-Kept :
    (id j now : ℕ) (d : SafeDiagnostic) (cs : List Control) → Kept id cs (upsert_failure j now d cs)
upsert-Kept id j now d cs = elim (Bool-cases (count_where (of_job j) cs == 0)) [
  | inl t ↦ rw t (append-Kept id cs (diagnosed now d (new_control j now)) (ground arith) refl)
  | inr t ↦ rw t (update-Kept id cs _ _ (λ c. refl) (λ c. refl))
]

abbrev Keeps : ℕ → List Control → Db → Type 0
Keeps id cs d = Kept id cs d.controls

guarded :
    {A : Type 0} (id : ℕ) (b : Bool) (e : Error) (db : Db) (conn : Conn) (fn : Db → Result (A × Db))
    → Ensures (λ x. Keeps id db.controls x.1) (fn db)
    → Keeps id db.controls (if b then (err e, db) else write_context conn fn db).1
guarded id true e db conn fn h = Kept-refl id db.controls
guarded id false e db conn fn h =
    write_context-keeps (Keeps id db.controls) conn fn db (Kept-refl id db.controls) h

abbrev pub sets_dispatch : Call → Bool
sets_dispatch (Call.set_dispatch c k token from to) = true
sets_dispatch _ = false

-- Every call but one that sets the dispatch state keeps what is engaged.
pub run-Kept :
    (id : ℕ) (call : Call) (db : Db)
    → sets_dispatch call ≡ false
    → Kept id db.controls (run call db).controls
unfolding run Finalizing.acquire_finalization Finalizing.renew_finalization
    Failures.record_terminal_failure
run-Kept id (Call.acquire c k token duration) db q = guarded id _ _ db c _ (
    Ensures-of _ λ x h.
      subst (Kept id db.controls)
        (sym (controls-acquire_body c.statement k.now k.id k.attempt k.owner token db duration x h))
        (Kept-trans id _ _ _ (insert-Kept id k.id k.now db.controls)
          (update-Kept id _ _ _ (λ c. refl) (λ c. refl))))
run-Kept id (Call.renew_finalization c k token duration) db q = guarded id _ _ db c _ (
    Ensures-of _ λ x h.
      subst (Kept id db.controls)
        (sym (
          controls-renew_finalization_body c.statement k.now k.id k.attempt k.owner token db
            duration x h))
        (update-Kept id _ _ _ (λ c. refl) (λ c. refl)))
run-Kept id (Call.record_failure c k d) db q = guarded id _ _ db c _ (
    Ensures-of _ λ x h.
      subst (Kept id db.controls)
        (sym (controls-record_failure_body c.statement k.now k.id k.attempt k.owner d db x h))
        (upsert-Kept id k.id k.now d db.controls))
run-Kept id (Call.set_dispatch c k token from to) db q = absurd (ground arith)
run-Kept id call db q =
    subst (Kept id db.controls) (sym (controls-run call db refl)) (Kept-refl id db.controls)
