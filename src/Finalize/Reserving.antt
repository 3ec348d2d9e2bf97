-- ===== src/Finalize/Reserving.antt =====
-- The reservation of a dispatch, the dispatch, and what follows its answer (process of
-- internal/finalize/finalize.go).
use paperless_ai_ocr.Prelude.{
  ℕ, suc, ◌+◌, ◌≤◌, String, ◌≡◌, refl, sym, subst, ◌&&◌, ◌∷◌, arith, ◌==◌, if◌then◌else◌,
  count_where,
}
use paperless_ai_ocr.Saferr.{Result}
use paperless_ai_ocr.Queue.Model.{DispatchState, reserved, confirmed, Job, Db}
use paperless_ai_ocr.Queue.Calls.{run_all}
use paperless_ai_ocr.Queue.Engaged.{engaged, keyed}
use paperless_ai_ocr.Queue.Reservation.{
  Setting, set, refused, set_dispatch_state-Setting, one_for, engages, keyed-set, engaged-set,
}
use paperless_ai_ocr.Finalize.World.{
  Answer, accepted, retry_safe, uncertain, dispatched, Env, World, ◌>>=◌, ◌>>◌, stop, settled,
  stored,
}
use paperless_ai_ocr.Finalize.Steps.{
  owner_of, safe_error, arrived, set_dispatch, dispatch, after_dispatch, reserve_and_dispatch,
}
use paperless_ai_ocr.Finalize.Hoare.{
  Covered, Quiet, Post, Keeps, Post-and_then, Covered-moved, run_all-Kept, sent,
}
use paperless_ai_ocr.Finalize.Steady.{renew-Steady}

module _ (i : ℕ) (env : Env) (quiet : Quiet env) (lease : ℕ) (job : Job) (token : String) where
  settled-Covered :
      (from to : DispatchState) (n m : ℕ)
      → m + (if i == job.id && engages from then 1 else 0)
        ≡ n + (if i == job.id && engages to then 1 else 0)
      → (w : World) (r : Result (Unit {0}) × Db) → Covered i n w
      → Setting job.id from to w.db r
      → Post
          (Covered i 0)
          (Covered i m)
          (settled safe_error r.0, record w { step = suc w.step; db = r.1 })
  settled-Covered from to n m balance w _ c (set now db' one moved) = record {
    key =
        subst (λ cs. keyed i cs ≤ 1) (sym moved)
          (keyed-set i job.id now from to w.db.controls c.key);
    covered =
        subst (λ cs. sent i w.effects + m ≤ engaged i cs) (sym moved)
          (omega (arith, c.covered, balance, engaged-set i job.id now from to w.db.controls one));
  }
  settled-Covered from to n m balance w _ c (refused e) = record {
    key = c.key;
    covered = omega (arith, c.covered);
  }

  -- from `n` more engaged to `m` more
  set_dispatch-Post :
      (from to : DispatchState) (n m : ℕ)
      → m + (if i == job.id && engages from then 1 else 0)
        ≡ n + (if i == job.id && engages to then 1 else 0)
      → (w : World) → Covered i n w
      → Post (Covered i 0) (Covered i m) (set_dispatch env lease job token from to w)
  unfolding set_dispatch stored
  set_dispatch-Post from to n m balance w c =
      let before = run_all (env.between w.step) w.db in
      settled-Covered from to n m balance (record w { db = before }) _
        (Covered-moved i n w (record w { db = before })
          (run_all-Kept i (env.between w.step) w.db (quiet w.step)) refl c)
        (set_dispatch_state-Setting (env.conn w.step) (env.now w.step) job.id job.attempts
          (owner_of job.lease_owner) token from to before)

  -- how many more are engaged after an answer
  abbrev left_over : Answer → ℕ
  left_over a = if arrived a then 0 else one_for i job.id

  dispatch-Post :
      (document_id : ℕ) (w : World)
      → Covered i (one_for i job.id) w
      → (a : Answer)
      → Covered i
          (left_over a)
          (record w { step = suc w.step; effects = dispatched job.id (arrived a) ∷ w.effects })
  unfolding count_where
  dispatch-Post document_id w c accepted = record {
    key = c.key;
    covered = ground (arith, c.covered);
  }
  dispatch-Post document_id w c (retry_safe f) = record {
    key = c.key;
    covered = ground (arith, c.covered);
  }
  dispatch-Post document_id w c (uncertain f) = record {
    key = c.key;
    covered = ground (arith, c.covered);
  }

  after_dispatch-Post :
      (a : Answer) (w : World)
      → Covered i (left_over a) w
      → Post (Covered i 0) (Covered i 0) (after_dispatch env lease job token a w)
  unfolding after_dispatch ◌>>◌ stop
  after_dispatch-Post accepted w c = set_dispatch-Post reserved confirmed 0 0 refl w c
  after_dispatch-Post (retry_safe f) w c =
      Post-and_then (Covered i 0) (Covered i 0) (Covered i 0) _ _
        (set_dispatch-Post reserved DispatchState.none (one_for i job.id) 0 (ground arith) w c)
        (λ _ v k. k)
  after_dispatch-Post (uncertain f) w c = c

  pub reserve_and_dispatch-Keeps :
      (document_id : ℕ) → Keeps i (reserve_and_dispatch env lease job token document_id)
  unfolding reserve_and_dispatch ◌>>◌ ◌>>=◌ dispatch
  reserve_and_dispatch-Keeps document_id = record {
    keeps = λ w c.
        Post-and_then (Covered i 0) (Covered i (one_for i job.id)) (Covered i 0) _ _
          (set_dispatch-Post DispatchState.none reserved 0 (one_for i job.id) (ground arith) w c)
          λ _ w' c'.
            Post-and_then (Covered i 0) (Covered i (one_for i job.id)) (Covered i 0) _ _
              ((renew-Steady i env quiet lease job token).steady (one_for i job.id) w' c')
              λ _ v c''.
                after_dispatch-Post (env.dispatch v.step) _
                  (dispatch-Post document_id v c'' (env.dispatch v.step));
  }
