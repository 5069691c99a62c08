-- ===== src/Queue/Callbacks/Keeps.antt =====
-- A rule for what every callback keeps.
use pr_killer.Prelude.{ℕ, ◌≡◌, refl, Bool, true, false, Option, none, some, Bool-cases, inl, inr}
use pr_killer.Text.{Text, codes, or_text}
use pr_killer.Queue.Status.{Kind, document, audio, is_active, is_processing}
use pr_killer.Queue.Rows.{Source, get, modify}
use pr_killer.Queue.World.{World, Env, rows, map_rows, schedule_project_processing, get_transcript}
use pr_killer.Queue.Finalize.{
  finish_row, after_finish, finish_found, requeue_row, requeue_found, audio_of, finish_audio,
  maybe_finalize_project_after_document_pipeline, maybe_finalize_project_after_audio_failure,
  maybe_finalize_project_after_audio_extract_outcome, requeue_project_document_pipeline,
  ResultStatus, missing, already_processing, finished, other,
  finalize_project_document_pipeline_task_result,
}
use pr_killer.Queue.Callbacks.{
  Report, document_done, audio_failed, transcript_done, document_busy, task_result, callback,
}
use pr_killer.Queue.Callbacks.Frames.{SameRows, schedule-Frames, after_finish-Frames}

-- A property of worlds that looks at rows only, and that the two assignments of a callback keep, is
-- kept by every callback.
module _ (P : World → Type 0) (of_rows : (w v : World) → SameRows w v → P v → P w)
    (on_finish : (kind : Kind) (k : ℕ) (b : Bool) (now : ℕ) (message : Text) (w : World)
        (r : Source)
      → get k (rows kind w) ≡ some r
      → is_active r.processing_status ≡ true
      → P w
      → P (map_rows kind (modify k (finish_row b now message)) w))
    (on_requeue : (k : ℕ) (message : Text) (w : World) (r : Source)
      → get k w.documents ≡ some r
      → is_processing r.processing_status ≡ true
      → P w
      → P (map_rows document (modify k (requeue_row message)) w)) where
  finish_found-keeps :
      (e : Env) (kind : Kind) (k : ℕ) (b : Bool) (message : Text) (found : Option Source)
      (w : World)
      → get k (rows kind w) ≡ found
      → P w
      → P (finish_found e kind k b message found w).1
  unfolding finish_found
  finish_found-keeps e kind k b message none w at h = h
  finish_found-keeps e kind k b message (some r) w at h =
      elim (Bool-cases (is_active r.processing_status)) [
        | inl a ↦
            let w' = map_rows kind (modify k (finish_row b e.now message)) w in
            rw a (
              of_rows (after_finish e b r.project_id w').1 w'
                (after_finish-Frames e b r.project_id w')
                (on_finish kind k b e.now message w r at a h))
        | inr a ↦ rw a h
      ]

  requeue_found-keeps :
      (e : Env) (k : ℕ) (message : Text) (c : ℕ) (found : Option Source) (w : World)
      → get k w.documents ≡ found
      → P w
      → P (requeue_found e k message c found w).1
  unfolding requeue_found
  requeue_found-keeps e k message c none w at h = h
  requeue_found-keeps e k message c (some r) w at h =
      elim (Bool-cases (is_processing r.processing_status)) [
        | inl a ↦
            let w' = map_rows document (modify k (requeue_row message)) w in
            rw a (
              of_rows (schedule_project_processing e r.project_id (some c) w').1 w'
                (schedule-Frames e r.project_id (some c) w') (on_requeue k message w r at a h))
        | inr a ↦ rw a h
      ]

  pub document_done-keeps :
      (e : Env) (k : ℕ) (b : Bool) (error : Option Text) (w : World)
      → P w
      → P (maybe_finalize_project_after_document_pipeline e k b error w).1
  unfolding maybe_finalize_project_after_document_pipeline
  document_done-keeps e k b error w h = elim (Bool-cases e.project_queue_enabled) [
    | inl on ↦ rw on (
        finish_found-keeps e document k b (or_text error (codes "pipeline_failed"))
          (get k w.documents) w refl h)
    | inr off ↦ rw off h
  ]

  pub audio_failed-keeps :
      (e : Env) (k : ℕ) (message : Text) (w : World)
      → P w
      → P (maybe_finalize_project_after_audio_failure e k message w).1
  unfolding maybe_finalize_project_after_audio_failure
  audio_failed-keeps e k message w h = elim (Bool-cases e.project_queue_enabled) [
    | inl on ↦ rw on (
        finish_found-keeps e audio k false (or_text (some message) (codes "audio_pipeline_failed"))
          (get k w.audios) w refl h)
    | inr off ↦ rw off h
  ]

  finish_audio-keeps :
      (e : Env) (b : Bool) (message : Text) (a : Option ℕ) (w : World)
      → P w
      → P (finish_audio e b message a w).1
  finish_audio-keeps e b message none w h = h
  finish_audio-keeps e b message (some a) w h =
      finish_found-keeps e audio a b message (get a w.audios) w refl h

  transcript_done-keeps :
      (e : Env) (k : ℕ) (b : Bool) (error : Option Text) (w : World)
      → P w
      → P (maybe_finalize_project_after_audio_extract_outcome e k b error w).1
  unfolding maybe_finalize_project_after_audio_extract_outcome
  transcript_done-keeps e k b error w h = elim (Bool-cases e.project_queue_enabled) [
    | inl on ↦ rw on (
        finish_audio-keeps e b (or_text error (codes "transcript_extraction_failed"))
          (audio_of (get_transcript k w.transcripts)) w h)
    | inr off ↦ rw off h
  ]

  document_busy-keeps :
      (e : Env) (k : ℕ) (reason : Text) (c : ℕ) (w : World)
      → P w
      → P (requeue_project_document_pipeline e k reason c w).1
  unfolding requeue_project_document_pipeline
  document_busy-keeps e k reason c w h = elim (Bool-cases e.project_queue_enabled) [
    | inl on ↦ rw on (
        requeue_found-keeps e k (or_text (some reason) (codes "document_pipeline_busy")) c
          (get k w.documents) w refl h)
    | inr off ↦ rw off h
  ]

  task_result-keeps :
      (e : Env) (k : ℕ) (s : ResultStatus) (error : Option Text) (w : World)
      → P w
      → P (finalize_project_document_pipeline_task_result e k s error w).1
  unfolding finalize_project_document_pipeline_task_result
  task_result-keeps e k missing error w h =
      document_done-keeps e k false (some (codes "source_document_missing")) w h
  task_result-keeps e k already_processing error w h =
      document_busy-keeps e k (codes "document pipeline is already running; queued retry") 30 w h
  task_result-keeps e k finished error w h = document_done-keeps e k true error w h
  task_result-keeps e k (other t) error w h = document_done-keeps e k false error w h

  pub callback-keeps : (e : Env) (report : Report) (w : World) → P w → P (callback e report w).1
  unfolding callback
  callback-keeps e (document_done k b error) w h = document_done-keeps e k b error w h
  callback-keeps e (audio_failed k message) w h = audio_failed-keeps e k message w h
  callback-keeps e (transcript_done k b error) w h = transcript_done-keeps e k b error w h
  callback-keeps e (document_busy k reason c) w h = document_busy-keeps e k reason c w h
  callback-keeps e (task_result k s error) w h = task_result-keeps e k s error w h
