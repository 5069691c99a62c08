-- ===== src/Batch/Invariant.antt =====
-- The columns of the batch's rows through any history of reports and runs.
use pr_killer.Prelude.{ℕ, Bool, true, false, Option, some, List, [], ◌∷◌, Bool-cases, inl, inr}
use pr_killer.Text.{Text}
use pr_killer.Queue.World.{Env}
use pr_killer.Queue.Lock.{Redis, Reachable, LockResult, try_acquire_project_queue_lock}
use pr_killer.Batch.World.{BatchWorld, schedule_batch_queue}
use pr_killer.Batch.Finalize.{
  maybe_finalize_batch_after_document_pipeline, maybe_finalize_batch_after_audio_failure,
  maybe_finalize_batch_after_audio_extract_outcome, requeue_batch_document_pipeline,
}
use pr_killer.Batch.Worker.{locked_out, under_batch_lock, process_batch_processing_queue}
use pr_killer.Batch.Keeps.{
  Inv, schedule-Inv, document-Inv, audio-Inv, extract-Inv, requeue-Inv, after-Inv, drain-Inv,
}

-- What may happen to a batch.
pub data Op : Type 0 where
  document_report : Env → ℕ → Bool → Option Text → Op
  audio_report : Env → ℕ → Text → Op
  transcript_report : Env → ℕ → Bool → Option Text → Op
  busy_report : Env → ℕ → Text → ℕ → Op
  run : Env → Reachable → Reachable → ℕ → ℕ → Op

module _ (R : Redis) where
  unfoldable pub step : Op → BatchWorld × R.State → BatchWorld × R.State
  unfolding maybe_finalize_batch_after_document_pipeline maybe_finalize_batch_after_audio_failure
      maybe_finalize_batch_after_audio_extract_outcome requeue_batch_document_pipeline
      process_batch_processing_queue
  step (document_report e k b error) (w, s) =
      ((maybe_finalize_batch_after_document_pipeline e k b error w).1, s)
  step (audio_report e k m) (w, s) = ((maybe_finalize_batch_after_audio_failure e k m w).1, s)
  step (transcript_report e k b error) (w, s) =
      ((maybe_finalize_batch_after_audio_extract_outcome e k b error w).1, s)
  step (busy_report e k reason countdown) (w, s) =
      ((requeue_batch_document_pipeline e k reason countdown w).1, s)
  step (run e now later token b) (w, s) =
      let ((reply, w'), s') = process_batch_processing_queue R e now later token b s w in (w', s')

  unfoldable pub steps : List Op → BatchWorld × R.State → BatchWorld × R.State
  unfolding step
  steps [] w = w
  steps (op ∷ ops) w = steps ops (step op w)

  process-Inv :
      (e : Env) (now later : Reachable) (token b : ℕ) (s : R.State) (w : BatchWorld)
      → Inv w
      → Inv (process_batch_processing_queue R e now later token b s w).0.1
  unfolding process_batch_processing_queue
  process-Inv e now later token b s w h = go (try_acquire_project_queue_lock R now b token s)
    where
      out : (busy : Bool) → Inv (locked_out R e b busy w).1
      out true =
          after-Inv (schedule_batch_queue e b (some 5) w) _ (schedule-Inv e b (some 5) w h)
            (λ a v hv. hv)
      out false = h

      go : (l : R.State × LockResult) → Inv (under_batch_lock R e later b l w).0.1
      go (s', lock) = elim (Bool-cases lock.acquired) [
        | inl a ↦ rw a (drain-Inv e b w h)
        | inr a ↦ rw a (out lock.busy)
      ]

  step-Inv : (op : Op) (w : BatchWorld) (s : R.State) → Inv w → Inv (step op (w, s)).0
  unfolding step
  step-Inv (document_report e k b error) w s h = document-Inv e k b error w h
  step-Inv (audio_report e k m) w s h = audio-Inv e k m w h
  step-Inv (transcript_report e k b error) w s h = extract-Inv e k b error w h
  step-Inv (busy_report e k reason countdown) w s h = requeue-Inv e k reason countdown w h
  step-Inv (run e now later token b) w s h = process-Inv e now later token b s w h

  -- If the columns of every batch row fit its status at first, they still do after any history of
  -- reports and runs, whatever fails: a pending row has no start time, a processing one has, a
  -- completed one has a completion time and no error, and a failed one has a completion time and an
  -- error.
  pub batch_steps-Inv :
      (ops : List Op) (w : BatchWorld) (s : R.State) → Inv w → Inv (steps ops (w, s)).0
  unfolding steps
  batch_steps-Inv [] w s h = h
  batch_steps-Inv (op ∷ ops) w s h =
      let (w', s') = step op (w, s) in batch_steps-Inv ops w' s' (step-Inv op w s h)
