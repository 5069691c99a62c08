-- ===== src/Documents/Pipeline.antt =====
-- app/workers/tasks/research_source_full_pipeline.py and app/services/research_document_pipeline_sync.py:
-- one run of `pipeline_document_analysis`, up to the payload that it hands to both queues.
pub mod Frames
pub mod Phases
pub mod Failures
pub mod Whole
use pr_killer.Prelude.{
  ℕ, Bool, true, false, not, ◌&&◌, ◌||◌, Option, none, some, List, [], ◌∷◌, take, ltb, length,
  if◌then◌else◌,
}
use pr_killer.Text.{Text, codes, strip, lower, or_text, text_eq}
use pr_killer.Queue.Finalize.{ResultStatus, missing, already_processing, finished, other}
use pr_killer.Documents.World.{
  Extraction, PipelineState, Document, Tables, Result, returned, failed, get_source_document,
  modify_document,
}
use pr_killer.Documents.Chunks.{
  Config, existing_chunks, ChunkReply, openai_not_configured, noop_already_chunked, chunked,
  chunk_source_document,
}
use pr_killer.Documents.Extract.{Extractor}
use pr_killer.Documents.Entities.{ExtractReply, extract_entities_for_document}
use pr_killer.Documents.Units.{Splitter, sync_interview_units}

-- What one run uses: the services, the clock's text, and `repr(exc)` of an exception's text.
pub record Worker : Type 0 where
  pub config : Config
  pub extractor : Extractor
  pub splitter : Splitter
  pub now : Text
  pub repr : Text → Text

-- `str(value or "").strip().lower()`
unfoldable pub word_of : Option Text → Text
unfolding strip lower or_text
word_of t = lower (strip (or_text t []))

abbrev pub status_word : Option Extraction → Text
status_word none = []
status_word (some e) = word_of (some e.status)

abbrev pub entities_count : Option Extraction → ℕ
entities_count none = 0
entities_count (some e) = e.entities_created

-- The session of `merge_document_pipeline_state`; a missing document is only logged.
unfoldable pub merge_document_pipeline_state : ℕ → (PipelineState → PipelineState) → Tables → Tables
unfolding modify_document
merge_document_pipeline_state k patch w = record w {
  documents =
      modify_document k (λ d. record d { pipeline_state_json = patch d.pipeline_state_json })
        w.documents;
}

abbrev pub outcome_patch : Text → Option Text → ℕ → Option ℕ → PipelineState → PipelineState
outcome_patch status reason created hint p = record p {
  extraction = some (record {
    status = status;
    reason = reason;
    entities_created = created;
    chunk_count_at_extract = hint;
  });
}

unfoldable pub record_extraction_outcome : ℕ → Text → Option Text → ℕ → Option ℕ → Tables → Tables
unfolding merge_document_pipeline_state
record_extraction_outcome k status reason created hint =
    merge_document_pipeline_state k (outcome_patch status reason created hint)

abbrev pub failure_patch : Text → Text → Text → PipelineState → PipelineState
failure_patch now step message p = record {
  phase = some (codes "failed");
  progress_percent = some 0;
  updated_at = some now;
  extraction = some (record {
    status = step;
    reason = some (take 2000 message);
    entities_created = 0;
    chunk_count_at_extract = none;
  });
  last_error = some (record { step = step; message = take 2000 message });
}

unfoldable pub record_pipeline_failure : Text → ℕ → Text → Text → Tables → Tables
unfolding merge_document_pipeline_state
record_pipeline_failure now k step message =
    merge_document_pipeline_state k (failure_patch now step message)

pub record Peek : Type 0 where
  pub phase : Text
  pub n_chunks : ℕ
  pub extraction_status : Text
  pub entities_created : ℕ

abbrev pub peek_found : ℕ → Tables → Option Document → Option Peek
peek_found k w none = none
peek_found k w (some d) =
    let pipe = d.pipeline_state_json in
    some (record {
      phase = word_of pipe.phase;
      n_chunks = existing_chunks k w;
      extraction_status = status_word pipe.extraction;
      entities_created = entities_count pipe.extraction;
    })

unfoldable pub peek_document_pipeline_state : ℕ → Tables → Option Peek
unfolding word_of existing_chunks get_source_document
peek_document_pipeline_state k w = peek_found k w (get_source_document k w.documents)

-- `r1`: made up without a run of the task, or its answer.
pub data FirstStep : Type 0 where
  skipped_chunk : ℕ → FirstStep
  ran : ChunkReply → FirstStep

abbrev pub is_busy : FirstStep → Bool
is_busy (ran ChunkReply.already_processing) = true
is_busy _ = false

abbrev pub chunk_count : FirstStep → ℕ
chunk_count (skipped_chunk n) = n
chunk_count (ran (chunked n s)) = n
chunk_count (ran (noop_already_chunked n s)) = n
chunk_count (ran openai_not_configured) = 0
chunk_count (ran ChunkReply.already_processing) = 0

pub data Payload : Type 0 where
  source_missing : Payload
  already_complete : ℕ → ℕ → Payload
  chunk_failed : Text → Payload
  chunk_busy zero_chunks : FirstStep → Payload
  extraction_failed : FirstStep → Text → Payload
  analysed : FirstStep → ExtractReply → Payload

abbrev pub extract_or_fail :
    Worker → ℕ → FirstStep → Result ExtractReply × Tables → Payload × Tables
extract_or_fail v k r1 (returned r2, w) = (analysed r1 r2, w)
extract_or_fail v k r1 (failed e, w) = (
  extraction_failed r1 (v.repr e),
  record_pipeline_failure v.now k (codes "extraction_failed") (v.repr e) w,
)

-- From the check of `r1` on.
unfoldable pub after_chunk : Worker → ℕ → FirstStep → Tables → Payload × Tables
unfolding extract_entities_for_document record_pipeline_failure record_extraction_outcome
    sync_interview_units
after_chunk v k r1 w =
    let synced = sync_interview_units v.splitter k w in
    if is_busy r1
    then (chunk_busy r1, w)
    else if ltb (chunk_count r1) 1
    then (
      zero_chunks r1,
      record_extraction_outcome k (codes "skipped_no_chunks")
          (some (codes "chunking_produced_zero_chunks")) 0 (some 0) synced,
    )
    else extract_or_fail v k r1 (extract_entities_for_document v.config v.extractor k synced)

abbrev pub chunk_or_fail : Worker → ℕ → Result ChunkReply × Tables → Payload × Tables
chunk_or_fail v k (returned r, w) = after_chunk v k (ran r) w
chunk_or_fail v k (failed e, w) =
    (chunk_failed (v.repr e), record_pipeline_failure v.now k (codes "chunk_failed") (v.repr e) w)

abbrev pub is_complete : Peek → Bool
is_complete p =
    text_eq p.phase (codes "extracted")
    && text_eq p.extraction_status (codes "ok")
    && ltb 0 p.entities_created

abbrev pub skips_chunk : Peek → Bool
skips_chunk p =
    ltb 0 p.n_chunks
    && (text_eq p.phase (codes "chunked") || text_eq p.phase (codes "extracted"))
    && not (
        text_eq p.extraction_status (codes "chunk_failed")
        || text_eq p.extraction_status (codes "extraction_failed"))

abbrev pub analyse_peeked : Worker → ℕ → Option Peek → Tables → Payload × Tables
analyse_peeked v k none w = (source_missing, w)
analyse_peeked v k (some p) w =
    if is_complete p
    then (already_complete p.n_chunks p.entities_created, sync_interview_units v.splitter k w)
    else if skips_chunk p
    then after_chunk v k (skipped_chunk p.n_chunks) w
    else chunk_or_fail v k (chunk_source_document v.config k (codes "auto") w)

unfoldable pub pipeline_document_analysis : Worker → ℕ → Tables → Payload × Tables
unfolding after_chunk peek_document_pipeline_state chunk_source_document sync_interview_units
    record_pipeline_failure text_eq
pipeline_document_analysis v k w = analyse_peeked v k (peek_document_pipeline_state k w) w

-- The `status` of the payload, and its `error`.
abbrev pub result_status : Payload → ResultStatus
result_status source_missing = missing
result_status (already_complete n m) = finished
result_status (chunk_failed e) = other (codes "chunk_failed")
result_status (chunk_busy r) = already_processing
result_status (zero_chunks r) = finished
result_status (extraction_failed r e) = other (codes "extraction_failed")
result_status (analysed r s) = finished

abbrev pub result_error : Payload → Option Text
result_error (chunk_failed e) = some e
result_error (extraction_failed r e) = some e
result_error _ = none
