-- ===== src/Queue/Jobs/Valid.antt =====
-- The invariant of the table of jobs: the constraints of internal/database/migrations, and what
-- internal/queue/queue.go promises on top of them.
use paperless_ai_ocr.Prelude.{
  ℕ, ◌≤◌, ◌<◌, String, ◌≡◌, sym, subst, ◌∙◌, Bool, true, ◌&&◌, ◌||◌, some, List, ◌==◌, is_some,
  ==_iff, All, All-found, All-map, some_inj, count_where, find_where,
}
use paperless_ai_ocr.Queue.Model.{Job, is_processing, is_current, is_completed, is_failed}
use paperless_ai_ocr.Queue.Enqueue.{same_source}

abbrev pub has_id : ℕ → Job → Bool
has_id i r = r.id == i

abbrev pub is_current_of : ℕ → String → Job → Bool
is_current_of document_id source_checksum r =
    is_current r.state && same_source document_id source_checksum r

abbrev pub is_active : Job → Bool
is_active r = is_processing r.state

-- one row: the CHECK constraints, and when a row has a lease, an attempt and a completion time
pub record JobValid (r : Job) : Type 0 where
  pub positive : 0 < r.id
  pub leased : is_some r.lease_owner ≡ is_processing r.state
  pub expires : is_some r.lease_expires_at ≡ is_processing r.state
  pub diagnosed : is_some r.error_category ≡ is_some r.error_message
  pub attempted : is_processing r.state ≡ true → 0 < r.attempts
  pub finished : is_some r.completed_at ≡ (is_completed r.state || is_failed r.state)

-- the table
pub record JobsValid (js : List Job) : Type 0 where
  -- id is a primary key
  pub ids : (i : ℕ) → count_where (has_id i) js ≤ 1
  -- the unique index jobs_one_current_document_source
  pub one_current : (d : ℕ) (s : String) → count_where (is_current_of d s) js ≤ 1
  -- at most one job is processing
  pub one_active : count_where is_active js ≤ 1
  pub rows : All JobValid js

-- The row of an id is the one that is found by it.
pub JobsValid-unique :
    {js : List Job}
    → JobsValid js
    → (i : ℕ) (f : Job) → find_where (has_id i) js ≡ some f
    → All (λ r. has_id i r ≡ true → r ≡ f) js
JobsValid-unique {js} v i f e =
    All-map _ _ js
      (λ r found same. some_inj r f (
        sym found
        ∙ subst (λ k. find_where (has_id k) js ≡ some f) (sym ((==_iff r.id i).0 same)) e))
      (All-found (λ (r : Job). r.id) js v.ids)
