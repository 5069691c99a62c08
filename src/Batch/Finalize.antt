-- ===== src/Batch/Finalize.antt =====
-- The reports of the pipelines about a batch's rows, in app/services/batch_queue_service.py.
use pr_killer.Prelude.{ℕ, Bool, true, false, Option, none, some, take}
use pr_killer.Text.{Text, codes, or_text}
use pr_killer.Queue.Status.{pending, completed, failed, Kind, document, audio}
use pr_killer.Queue.World.{
  World, Transcript, Outcome, ok, raised, Env, get_transcript, without_project,
}
use pr_killer.Queue.Finalize.{
  ResultStatus, missing, already_processing, finished, other,
  finalize_project_document_pipeline_task_result,
}
use pr_killer.Batch.World.{
  BatchRow, RawId, uuid, BatchAnalysis, Owner, BatchWorld, B, get_row, modify_row, get_owner,
  schedule_batch_queue,
}
use pr_killer.Batch.Resolve.{resolve_batch_row, row_of_batch}

unfoldable pub finish_batch_row : Bool → ℕ → Text → BatchRow → BatchRow
finish_batch_row true now message r = record r {
  processing_status = completed;
  completed_at = some now;
  last_error = none;
}
finish_batch_row false now message r = record r {
  processing_status = failed;
  last_error = some (take 8000 message);
  completed_at = some now;
}

unfoldable pub invalidate_batch_llm_cache : ℕ → BatchWorld → BatchWorld
unfolding without_project
invalidate_batch_llm_cache b w = record w { llm_cache = without_project b w.llm_cache }

-- From the resolved row on. The session commits before the next run is scheduled.
unfoldable pub finish_resolved : Env → Bool → Text → Option (BatchRow × ℕ) → B (Unit {0})
unfolding finish_batch_row invalidate_batch_llm_cache schedule_batch_queue modify_row
finish_resolved e pipeline_ok message none w = (ok tt, w)
finish_resolved e pipeline_ok message (some (r, b)) w = schedule_batch_queue e b none (
    invalidate_batch_llm_cache b (record w {
      batch_rows = modify_row r.id (finish_batch_row pipeline_ok e.now message) w.batch_rows;
    }))

abbrev pub finish_owner : Env → Kind → Bool → Text → Option Owner → B (Unit {0})
finish_owner e kind pipeline_ok message none w = (ok tt, w)
finish_owner e kind pipeline_ok message (some o) w =
    finish_resolved e pipeline_ok message (resolve_batch_row kind o.id o.metadata_json w.batch_rows)
      w

unfoldable pub maybe_finalize_batch_after_document_pipeline :
    Env → ℕ → Bool → Option Text → B (Unit {0})
unfolding finish_resolved resolve_batch_row get_owner or_text
maybe_finalize_batch_after_document_pipeline e k pipeline_ok error w =
    finish_owner e document pipeline_ok (or_text error (codes "pipeline_failed"))
      (get_owner k w.documents) w

unfoldable pub maybe_finalize_batch_after_audio_failure : Env → ℕ → Text → B (Unit {0})
unfolding finish_resolved resolve_batch_row get_owner or_text
maybe_finalize_batch_after_audio_failure e k message w =
    finish_owner e audio false (or_text (some message) (codes "audio_pipeline_failed"))
      (get_owner k w.audios) w

abbrev pub owner_of : BatchWorld → Option Transcript → Option Owner
owner_of w none = none
owner_of w (some t) = elim t.source_audio_id [ none ↦ none | some k ↦ get_owner k w.audios ]

unfoldable pub maybe_finalize_batch_after_audio_extract_outcome :
    Env → ℕ → Bool → Option Text → B (Unit {0})
unfolding finish_resolved resolve_batch_row get_owner get_transcript or_text
maybe_finalize_batch_after_audio_extract_outcome e k pipeline_ok error w =
    finish_owner e audio pipeline_ok (or_text error (codes "transcript_extraction_failed"))
      (owner_of w (get_transcript k w.transcripts)) w

abbrev pub maybe_finalize_batch_after_audio_extract : Env → ℕ → B (Unit {0})
maybe_finalize_batch_after_audio_extract e k =
    maybe_finalize_batch_after_audio_extract_outcome e k true none

-- The row goes back whatever its status is.
unfoldable pub requeue_batch_row : Text → BatchRow → BatchRow
unfolding or_text
requeue_batch_row reason r = record r {
  processing_status = pending;
  last_error = some (take 8000 (or_text (some reason) (codes "document_pipeline_busy")));
  started_at = none;
}

abbrev pub requeue_row_of_batch : Env → Text → ℕ → Option (BatchRow × ℕ) → B (Unit {0})
requeue_row_of_batch e reason countdown none w = (ok tt, w)
requeue_row_of_batch e reason countdown (some (r, b)) w =
    schedule_batch_queue e b (some countdown)
      (record w { batch_rows = modify_row r.id (requeue_batch_row reason) w.batch_rows })

abbrev pub requeue_ids : Env → Text → ℕ → RawId → RawId → B (Unit {0})
requeue_ids e reason countdown (uuid row) (uuid b) w =
    requeue_row_of_batch e reason countdown (row_of_batch b (get_row row w.batch_rows)) w
requeue_ids e reason countdown _ _ w = (ok tt, w)

abbrev pub requeue_analysis : Env → Text → ℕ → Option BatchAnalysis → B (Unit {0})
requeue_analysis e reason countdown none w = (ok tt, w)
requeue_analysis e reason countdown (some a) w =
    requeue_ids e reason countdown a.batch_source_row_id a.batch_id w

abbrev pub batch_analysis_from : Option Owner → Option BatchAnalysis
batch_analysis_from none = none
batch_analysis_from (some o) = o.metadata_json.batch_analysis

unfoldable pub requeue_batch_document_pipeline : Env → ℕ → Text → ℕ → B (Unit {0})
unfolding requeue_batch_row schedule_batch_queue modify_row get_row get_owner
requeue_batch_document_pipeline e k reason countdown w =
    requeue_analysis e reason countdown (batch_analysis_from (get_owner k w.documents)) w

abbrev pub batch_task_result : Env → ℕ → ResultStatus → Option Text → B (Unit {0})
batch_task_result e k missing error =
    maybe_finalize_batch_after_document_pipeline e k false (some (codes "source_document_missing"))
batch_task_result e k already_processing error =
    requeue_batch_document_pipeline e k (codes "document pipeline is already running; queued retry")
      30
batch_task_result e k finished error = maybe_finalize_batch_after_document_pipeline e k true error
batch_task_result e k (other t) error = maybe_finalize_batch_after_document_pipeline e k false error

abbrev pub beside :
    World → Outcome (Unit {0}) × BatchWorld → Outcome (Unit {0}) × (World × BatchWorld)
beside p (o, w) = (o, (p, w))

abbrev pub after_project :
    Env
    → ℕ
    → ResultStatus
    → Option Text
    → Outcome (Unit {0}) × World
    → BatchWorld
    → Outcome (Unit {0}) × (World × BatchWorld)
after_project e k s error (raised, p) w = (raised, (p, w))
after_project e k s error (ok u, p) w = beside p (batch_task_result e k s error w)

-- The project queue's part comes first, and an exception there skips the batch's. The two parts
-- touch different tables; the first environment counts the project's messages, the second the batch's.
unfoldable pub finalize_document_pipeline_task_result :
    Env
    → Env
    → ℕ
    → ResultStatus
    → Option Text
    → World
    → BatchWorld
    → Outcome (Unit {0}) × (World × BatchWorld)
unfolding finalize_project_document_pipeline_task_result
    maybe_finalize_batch_after_document_pipeline requeue_batch_document_pipeline
finalize_document_pipeline_task_result ep eb k s error p w =
    after_project eb k s error (finalize_project_document_pipeline_task_result ep k s error p) w
