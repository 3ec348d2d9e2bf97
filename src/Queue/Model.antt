-- ===== src/Queue/Model.antt =====
-- internal/queue/model.go and the tables of internal/database/migrations: the rows that the queue
-- keeps, with a NULL column as `none`, and an instant as its nanoseconds: the fixed-width UTC text
-- that formatTime writes sorts like the instants.
use paperless_ai_ocr.Prelude.{ℕ, String, Bool, true, false, Option, List}
use paperless_ai_ocr.Saferr.{Category}

-- State
pub data State : Type 0 where
  pending processing retry completed failed : State

-- FinalizationStage
pub data FinalizationStage : Type 0 where
  pending content_updated complete_tag_added failed_tag_removed metadata_dispatched :
      FinalizationStage
  failure_pending failure_tag_added : FinalizationStage

-- DispatchState
pub data DispatchState : Type 0 where
  none reserved confirmed : DispatchState

-- FinalizationState: a text column that is NULL is read as the empty text.
pub record FinalizationState : Type 0 where
  pub stage : FinalizationStage
  pub dispatch : DispatchState
  pub failure_category : Option Category
  pub failure_message : Option String

-- Priority, a Go int
abbrev pub Priority : Type 0
Priority = ℕ

abbrev pub priority_backfill : Priority
priority_backfill = 0

abbrev pub priority_webhook : Priority
priority_webhook = 100

-- EnqueueInput
pub record EnqueueInput : Type 0 where
  pub document_id : ℕ
  pub source_checksum : String
  pub priority : Priority
  pub model : String
  pub prompt_version : String

-- Candidate
pub record Candidate : Type 0 where
  pub document_id : ℕ
  pub priority : Priority
  pub generation : ℕ
  pub created_at : ℕ
  pub updated_at : ℕ

-- SafeDiagnostic
pub record SafeDiagnostic : Type 0 where
  pub category : Category
  pub message : String

-- Job
pub record Job : Type 0 where
  pub id : ℕ
  pub document_id : ℕ
  pub source_checksum : String
  pub priority : Priority
  pub state : State
  pub attempts : ℕ
  pub available_at : ℕ
  pub lease_owner : Option String
  pub lease_expires_at : Option ℕ
  pub model : String
  pub prompt_version : String
  pub error_category : Option Category
  pub error_message : Option String
  pub created_at : ℕ
  pub updated_at : ℕ
  pub completed_at : Option ℕ

-- BatchRange
pub record BatchRange : Type 0 where
  pub first_page : ℕ
  pub last_page : ℕ

-- Batch
pub record Batch : Type 0 where
  pub id : ℕ
  pub job_id : ℕ
  pub first_page : ℕ
  pub last_page : ℕ
  pub render_dpi : ℕ
  pub render_format : String
  pub state : State
  pub result_text : Option String
  pub created_at : ℕ
  pub updated_at : ℕ
  pub completed_at : Option ℕ

-- a row of the table finalizations
pub record Finalization : Type 0 where
  pub job_id : ℕ
  pub stage : FinalizationStage
  pub created_at : ℕ
  pub updated_at : ℕ

-- a row of the table finalization_controls
pub record Control : Type 0 where
  pub job_id : ℕ
  pub admission_token : Option String
  pub admission_attempt : Option ℕ
  pub admission_owner : Option String
  pub admission_expires_at : Option ℕ
  pub dispatch_state : DispatchState
  pub failure_category : Option Category
  pub failure_message : Option String
  pub created_at : ℕ
  pub updated_at : ℕ

-- the tables
pub record Db : Type 0 where
  pub jobs : List Job
  pub candidates : List Candidate
  pub batches : List Batch
  pub finalizations : List Finalization
  pub controls : List Control

abbrev pub is_processing : State → Bool
is_processing processing = true
is_processing _ = false

-- state IN ('pending', 'retry')
abbrev pub is_waiting : State → Bool
is_waiting pending = true
is_waiting retry = true
is_waiting _ = false

-- state IN ('pending', 'processing', 'retry'), the condition of the unique index
abbrev pub is_current : State → Bool
is_current pending = true
is_current processing = true
is_current retry = true
is_current _ = false

abbrev pub is_completed : State → Bool
is_completed completed = true
is_completed _ = false

abbrev pub is_failed : State → Bool
is_failed failed = true
is_failed _ = false

abbrev pub is_pending : State → Bool
is_pending pending = true
is_pending _ = false
