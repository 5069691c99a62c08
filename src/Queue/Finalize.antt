-- ===== src/Queue/Finalize.antt =====
-- How a source leaves the queue: the callbacks of the pipelines.
pub mod Idle
use pr_killer.Prelude.{
  ℕ, suc, ◌+◌, ◌<◌, Bool, true, false, Option, none, some, List, [], ◌∷◌, ◌++◌, take, if◌then◌else◌,
}
use pr_killer.Text.{Text, codes, or_text}
use pr_killer.Queue.Status.{
  Status, pending, processing, completed, failed, Kind, document, audio, is_active, is_processing,
}
use pr_killer.Queue.Rows.{Source, get, modify}
use pr_killer.Queue.Summary.{project_queue_has_active_work, fetch_project_queue_summary}
use pr_killer.Queue.World.{
  World, Env, Transcript, M, pure, change, ◌>>=◌, ◌>>◌, rows, map_rows, schedule_project_processing,
  get_transcript, without_project,
}

-- The assignments on success and on failure; the caller commits.
unfoldable pub complete_row : ℕ → Source → Source
complete_row now r = record r {
  processing_status = completed;
  processing_completed_at = some now;
  processing_last_error = none;
}

unfoldable pub fail_row : ℕ → Text → Source → Source
fail_row now message r = record r {
  processing_status = failed;
  processing_last_error = some (take 8000 message);
  processing_completed_at = some now;
}

unfoldable pub finish_row : Bool → ℕ → Text → Source → Source
unfolding complete_row fail_row
finish_row pipeline_ok now message r =
    if pipeline_ok then complete_row now r else fail_row now message r

-- `_aggregate_project_after_source`
unfoldable pub aggregate_project_after_source : ℕ → M (Unit {0})
aggregate_project_after_source p = change (λ w. record w { aggregated = w.aggregated ++ p ∷ [] })

unfoldable pub invalidate_project_llm_cache : ℕ → World → World
unfolding without_project
invalidate_project_llm_cache p w = record w { llm_cache = without_project p w.llm_cache }

-- `_maybe_finalize_project_queue_idle`
unfoldable pub maybe_finalize_project_queue_idle : ℕ → M (Unit {0})
unfolding invalidate_project_llm_cache
maybe_finalize_project_queue_idle p = change λ w.
    if project_queue_has_active_work (fetch_project_queue_summary p w.documents w.audios)
    then w
    else invalidate_project_llm_cache p w

-- What follows the commit of a finished source.
unfoldable pub after_finish : Env → Bool → ℕ → M (Unit {0})
unfolding aggregate_project_after_source maybe_finalize_project_queue_idle
    schedule_project_processing
after_finish e pipeline_ok p = do
  if pipeline_ok then aggregate_project_after_source p else pure tt
  maybe_finalize_project_queue_idle p
  schedule_project_processing e p none

-- The row is left alone unless it is pending or processing.
unfoldable pub finish_found : Env → Kind → ℕ → Bool → Text → Option Source → M (Unit {0})
unfolding finish_row after_finish
finish_found e kind k pipeline_ok message none = pure tt
finish_found e kind k pipeline_ok message (some r) =
    if is_active r.processing_status
    then (do
      change (map_rows kind (modify k (finish_row pipeline_ok e.now message)))
      after_finish e pipeline_ok r.project_id)
    else pure tt

unfoldable pub maybe_finalize_project_after_document_pipeline :
    Env → ℕ → Bool → Option Text → M (Unit {0})
unfolding finish_found
maybe_finalize_project_after_document_pipeline e k pipeline_ok error_message w =
    if e.project_queue_enabled
    then finish_found e document k pipeline_ok (or_text error_message (codes "pipeline_failed"))
        (get k w.documents) w
    else pure tt w

unfoldable pub maybe_finalize_project_after_audio_failure : Env → ℕ → Text → M (Unit {0})
unfolding finish_found
maybe_finalize_project_after_audio_failure e k error_message w =
    if e.project_queue_enabled
    then finish_found e audio k false (or_text (some error_message) (codes "audio_pipeline_failed"))
        (get k w.audios) w
    else pure tt w

-- The audio of a transcript, where both are there.
abbrev pub audio_of : Option Transcript → Option ℕ
audio_of none = none
audio_of (some t) = t.source_audio_id

abbrev pub finish_audio : Env → Bool → Text → Option ℕ → M (Unit {0})
finish_audio e pipeline_ok message none w = pure tt w
finish_audio e pipeline_ok message (some a) w =
    finish_found e audio a pipeline_ok message (get a w.audios) w

unfoldable pub maybe_finalize_project_after_audio_extract_outcome :
    Env → ℕ → Bool → Option Text → M (Unit {0})
unfolding finish_found get_transcript
maybe_finalize_project_after_audio_extract_outcome e k pipeline_ok error_message w =
    if e.project_queue_enabled
    then finish_audio e pipeline_ok (or_text error_message (codes "transcript_extraction_failed"))
        (audio_of (get_transcript k w.transcripts)) w
    else pure tt w

unfoldable pub requeue_row : Text → Source → Source
requeue_row message r = record r {
  processing_status = pending;
  processing_last_error = some (take 8000 message);
  processing_started_at = none;
}

unfoldable pub requeue_found : Env → ℕ → Text → ℕ → Option Source → M (Unit {0})
unfolding requeue_row schedule_project_processing
requeue_found e k message countdown none = pure tt
requeue_found e k message countdown (some r) =
    if is_processing r.processing_status
    then (do
      change (map_rows document (modify k (requeue_row message)))
      schedule_project_processing e r.project_id (some countdown))
    else pure tt

unfoldable pub requeue_project_document_pipeline : Env → ℕ → Text → ℕ → M (Unit {0})
unfolding requeue_found
requeue_project_document_pipeline e k reason countdown w =
    if e.project_queue_enabled
    then requeue_found e k (or_text (some reason) (codes "document_pipeline_busy")) countdown
        (get k w.documents) w
    else pure tt w

-- The `status` of the payload that `pipeline_document_analysis` returns.
pub data ResultStatus : Type 0 where
  missing already_processing finished : ResultStatus
  other : Text → ResultStatus

unfoldable pub finalize_project_document_pipeline_task_result :
    Env → ℕ → ResultStatus → Option Text → M (Unit {0})
unfolding maybe_finalize_project_after_document_pipeline requeue_project_document_pipeline
finalize_project_document_pipeline_task_result e k missing error =
    maybe_finalize_project_after_document_pipeline e k false
      (some (codes "source_document_missing"))
finalize_project_document_pipeline_task_result e k already_processing error =
    requeue_project_document_pipeline e k
      (codes "document pipeline is already running; queued retry") 30
finalize_project_document_pipeline_task_result e k finished error =
    maybe_finalize_project_after_document_pipeline e k true error
finalize_project_document_pipeline_task_result e k (other t) error =
    maybe_finalize_project_after_document_pipeline e k false error
