-- ===== src/Queue/Callbacks.antt =====
-- The pipelines' callbacks of app/services/project_queue_service.py, as reports that arrive in any
-- order.
pub mod Frames
pub mod Keeps
pub mod Once
pub mod Terminal
use mathlib.Core.Option
use pr_killer.Prelude.{
  ℕ, ◌≡◌, refl, sym, ◌∙◌, ap, Bool, true, false, Option, none, some, List, [], ◌∷◌, ◌++◌, arith,
  if◌then◌else◌, ◌==◌, Bool-cases, Option-cases, inl, inr, ==_refl, ==_iff,
}
use pr_killer.Text.{Text, codes, or_text}
use pr_killer.Queue.Status.{
  Status, completed, failed, pending, Kind, document, audio, is_active, is_processing,
}
use pr_killer.Queue.Rows.{Source, get, modify, get-modify}
use pr_killer.Queue.Summary.{project_queue_has_active_work, fetch_project_queue_summary}
use pr_killer.Queue.World.{
  raised, continue, delay_of, Message, drain_project, World, Env, Transcript, Outcome, ok, M, pure,
  change, ◌>>=◌, ◌>>◌, rows, map_rows, send, schedule_project_processing, get_transcript,
}
use pr_killer.Queue.Finalize.{
  complete_row, fail_row, finish_row, after_finish, finish_found, requeue_row, requeue_found,
  audio_of, finish_audio, maybe_finalize_project_after_document_pipeline,
  maybe_finalize_project_after_audio_failure, maybe_finalize_project_after_audio_extract_outcome,
  requeue_project_document_pipeline, ResultStatus, missing, already_processing, finished, other,
  finalize_project_document_pipeline_task_result, aggregate_project_after_source,
  maybe_finalize_project_queue_idle, invalidate_project_llm_cache,
}

-- A report that a pipeline sends about a source.
pub data Report : Type 0 where
  document_done : ℕ → Bool → Option Text → Report
  audio_failed : ℕ → Text → Report
  transcript_done : ℕ → Bool → Option Text → Report
  document_busy : ℕ → Text → ℕ → Report
  task_result : ℕ → ResultStatus → Option Text → Report

unfoldable pub callback : Env → Report → M (Unit {0})
unfolding maybe_finalize_project_after_document_pipeline maybe_finalize_project_after_audio_failure
    maybe_finalize_project_after_audio_extract_outcome requeue_project_document_pipeline
    finalize_project_document_pipeline_task_result
callback e (document_done k b error) = maybe_finalize_project_after_document_pipeline e k b error
callback e (audio_failed k message) = maybe_finalize_project_after_audio_failure e k message
callback e (transcript_done k b error) =
    maybe_finalize_project_after_audio_extract_outcome e k b error
callback e (document_busy k reason countdown) =
    requeue_project_document_pipeline e k reason countdown
callback e (task_result k s error) = finalize_project_document_pipeline_task_result e k s error
