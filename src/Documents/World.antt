-- ===== src/Documents/World.antt =====
-- The tables that the document pipeline reads and writes, its settings, and the session of one task:
-- app/models, app/infrastructure/db_sync.py. Identifiers and times are numbers.
use pr_killer.Prelude.{ℕ, Bool, false, Option, none, some, List, [], ◌∷◌, ◌==◌, if◌then◌else◌}
use pr_killer.Text.{Text}

pub data Strategy : Type 0 where
  fixed openai : Strategy

-- The keys of `pipeline_state_json` that the code reads or writes.
pub record Extraction : Type 0 where
  pub status : Text
  pub reason : Option Text
  pub entities_created : ℕ
  pub chunk_count_at_extract : Option ℕ

pub record LastError : Type 0 where
  pub step : Text
  pub message : Text

pub record PipelineState : Type 0 where
  pub phase : Option Text
  pub progress_percent : Option ℕ
  pub updated_at : Option Text
  pub extraction : Option Extraction
  pub last_error : Option LastError

pub record Document : Type 0 where
  pub id : ℕ
  pub project_id : ℕ
  pub filename : Text
  pub raw_text : Option Text
  pub pipeline_state_json : PipelineState
  -- the flag in the metadata of a batch, where it is there
  pub single_file_multi_interview_mode : Option Bool

pub record AudioFile : Type 0 where
  pub id : ℕ
  pub project_id : ℕ
  pub filename : Text
  pub original_path : Option Text
  pub mime_type : Option Text
  pub language : Option Text

pub record TranscriptRow : Type 0 where
  pub id : ℕ
  pub source_audio_id : ℕ
  pub full_text : Text
  pub language : Option Text
  pub provider_name : Text

-- `start` and `end` are in milliseconds, the column's unit.
pub record TranscriptSegment : Type 0 where
  pub transcript_id : ℕ
  pub start : ℕ
  pub end : ℕ
  pub text : Text

pub record Chunk : Type 0 where
  pub id : ℕ
  pub project_id : ℕ
  pub source_document_id : Option ℕ
  pub source_audio_id : Option ℕ
  pub transcript_id : Option ℕ
  pub chunk_index : ℕ
  pub text : Text
  pub chunking_strategy : Strategy
  pub semantic_model : Option Text

pub record Candidate : Type 0 where
  pub entity_type : Text
  pub title : Text
  pub content : Text
  pub rule : Text
  pub source_file : Text
  pub quote : Text
  pub provider : Text
  pub span_start : ℕ
  pub span_end : ℕ

pub record Entity : Type 0 where
  pub project_id : ℕ
  pub source_document_id : Option ℕ
  pub source_audio_id : Option ℕ
  pub transcript_id : Option ℕ
  pub chunk_id : ℕ
  pub candidate : Candidate

-- app/models/interview_unit.py, without the confidence of the language.
pub record UnitDraft : Type 0 where
  pub unit_index : ℕ
  pub speaker : Option Text
  pub language : Text
  pub split_method : Text
  pub raw_text : Text
  pub marker_rank : Option ℕ

pub record InterviewUnit : Type 0 where
  pub project_id : ℕ
  pub source_document_id : ℕ
  pub draft : UnitDraft

pub record Tables : Type 0 where
  pub documents : List Document
  pub audios : List AudioFile
  pub transcripts : List TranscriptRow
  pub transcript_segments : List TranscriptSegment
  pub chunks : List Chunk
  pub entities : List Entity
  pub interview_units : List InterviewUnit
  pub next_id : ℕ

-- What a call returns, or the text of the exception that it raises.
pub data Result {ℓ} (A : Type ℓ) : Type ℓ where
  returned : A → Result A
  failed : Text → Result A

abbrev pub Step : Type 0 → Type 0
Step A = Tables → Result A × Tables

-- `sync_session_scope`: commit on return, rollback on an exception.
abbrev pub settle : {A : Type 0} → Tables → Result A × Tables → Result A × Tables
settle before (returned a, w) = (returned a, w)
settle before (failed message, w) = (failed message, before)

abbrev pub sync_session_scope : {A : Type 0} → Step A → Step A
sync_session_scope body w = settle w (body w)

unfoldable pub get_source_document : ℕ → List Document → Option Document
get_source_document k [] = none
get_source_document k (d ∷ ds) = if d.id == k then some d else get_source_document k ds

unfoldable pub modify_document : ℕ → (Document → Document) → List Document → List Document
modify_document k f [] = []
modify_document k f (d ∷ ds) = (if d.id == k then f d else d) ∷ modify_document k f ds

unfoldable pub get_audio_file : ℕ → List AudioFile → Option AudioFile
get_audio_file k [] = none
get_audio_file k (a ∷ more) = if a.id == k then some a else get_audio_file k more

unfoldable pub get_transcript_row : ℕ → List TranscriptRow → Option TranscriptRow
get_transcript_row k [] = none
get_transcript_row k (t ∷ ts) = if t.id == k then some t else get_transcript_row k ts

-- `column == k`, which no NULL satisfies.
abbrev pub is_id : ℕ → Option ℕ → Bool
is_id k none = false
is_id k (some j) = j == k

-- The rows that pass a test, and those that do not: a SELECT and a DELETE with this condition.
module _ {ℓ} {A : Type ℓ} (test : A → Bool) where
  unfoldable pub select_where : List A → List A
  select_where [] = []
  select_where (x ∷ xs) = let rest = select_where xs in if test x then x ∷ rest else rest

  unfoldable pub delete_where : List A → List A
  delete_where [] = []
  delete_where (x ∷ xs) = let rest = delete_where xs in if test x then rest else x ∷ rest

abbrev pub in_document : ℕ → Chunk → Bool
in_document k c = is_id k c.source_document_id

abbrev pub in_transcript : ℕ → Chunk → Bool
in_transcript k c = is_id k c.transcript_id
