-- ===== src/Analysis/Settles.antt =====
-- What the report of a run makes of the document's row in the project's queue.
use pr_killer.Prelude.{ℕ, ◌≡◌, refl, ap, ◌∙◌, Bool, true, false, Option, none, some, List, ==_refl}
use pr_killer.Text.{Text, codes, or_text}
use pr_killer.Queue.Status.{
  Status, pending, processing, completed, document, is_active, is_processing,
}
use pr_killer.Queue.Rows.{Source, get, modify, get-modify}
use pr_killer.Queue.World.{World, Env, Outcome, ok, raised, map_rows}
use pr_killer.Queue.Finalize.{
  ResultStatus, complete_row, fail_row, finish_row, finish_found, requeue_row, requeue_found,
  maybe_finalize_project_after_document_pipeline, requeue_project_document_pipeline,
  finalize_project_document_pipeline_task_result,
}
use pr_killer.Queue.Callbacks.Frames.{after_finish-Frames, schedule-Frames}
use pr_killer.Queue.Callbacks.Once.{finish_row-id}
use pr_killer.Batch.World.{BatchWorld}
use pr_killer.Batch.Finalize.{after_project, finalize_document_pipeline_task_result}
use pr_killer.Documents.World.{Tables}
use pr_killer.Documents.Pipeline.{
  Worker, Payload, source_missing, already_complete, chunk_failed, chunk_busy, zero_chunks,
  extraction_failed, analysed, result_status, result_error, pipeline_document_analysis,
}
use pr_killer.Analysis.{System, with_report, analyse_and_report}

active_of_processing : (s : Status) → is_processing s ≡ true → is_active s ≡ true
active_of_processing pending h = refl
active_of_processing processing h = refl
active_of_processing Status.idle h = absurd (cc)
active_of_processing completed h = absurd (cc)
active_of_processing Status.failed h = absurd (cc)
active_of_processing (Status.unknown t) h = absurd (cc)

module _ (e : Env) (k : ℕ) (r : Source) (w : World) (on : e.project_queue_enabled ≡ true)
    (at : get k w.documents ≡ some r) (running : is_processing r.processing_status ≡ true) where
  get-changed :
      (f : Source → Source)
      → ((q : Source) → (f q).id ≡ q.id)
      → get k (modify k f w.documents) ≡ some (f r)
  get-changed f same = get-modify k f same k w.documents ∙ rw (==_refl k, at) refl

  finished_row :
      (b : Bool) (error : Option Text)
      → get k (maybe_finalize_project_after_document_pipeline e k b error w).1.documents
        ≡ some (finish_row b e.now (or_text error (codes "pipeline_failed")) r)
  unfolding maybe_finalize_project_after_document_pipeline finish_found
  finished_row b error =
      let m = or_text error (codes "pipeline_failed") in
      let w' = map_rows document (modify k (finish_row b e.now m)) w in
      rw (on, at)
        (rw (active_of_processing r.processing_status running) (
          ap (get k) (after_finish-Frames e b r.project_id w').documents
          ∙ get-changed (finish_row b e.now m) (finish_row-id b e.now m)))

  requeued_row :
      (reason : Text) (countdown : ℕ)
      → get k (requeue_project_document_pipeline e k reason countdown w).1.documents
        ≡ some (requeue_row (or_text (some reason) (codes "document_pipeline_busy")) r)
  unfolding requeue_project_document_pipeline requeue_found requeue_row
  requeued_row reason countdown =
      let m = or_text (some reason) (codes "document_pipeline_busy") in
      let w' = map_rows document (modify k (requeue_row m)) w in
      rw (on, at)
        (rw running (
          ap (get k) (schedule-Frames e r.project_id (some countdown) w').documents
          ∙ get-changed (requeue_row m) (λ q. refl)))

-- The row by the payload of the run.
abbrev pub reported : ℕ → Payload → Source → Source
reported now source_missing r = fail_row now (codes "source_document_missing") r
reported now (already_complete n m) r = complete_row now r
reported now (chunk_failed e) r = fail_row now (or_text (some e) (codes "pipeline_failed")) r
reported now (chunk_busy r1) r =
    requeue_row (codes "document pipeline is already running; queued retry") r
reported now (zero_chunks r1) r = complete_row now r
reported now (extraction_failed r1 e) r =
    fail_row now (or_text (some e) (codes "pipeline_failed")) r
reported now (analysed r1 r2) r = complete_row now r

project_part :
    (e : Env) (k : ℕ) (r : Source) (w : World) (p : Payload)
    → e.project_queue_enabled ≡ true
    → get k w.documents ≡ some r
    → is_processing r.processing_status ≡ true
    → get k
        (finalize_project_document_pipeline_task_result e k
          (result_status p)
          (result_error p)
          w).1.documents
      ≡ some (reported e.now p r)
unfolding finalize_project_document_pipeline_task_result finish_row or_text
project_part e k r w source_missing on at run =
    finished_row e k r w on at run false (some (codes "source_document_missing"))
project_part e k r w (already_complete n m) on at run = finished_row e k r w on at run true none
project_part e k r w (chunk_failed x) on at run = finished_row e k r w on at run false (some x)
project_part e k r w (chunk_busy r1) on at run =
    requeued_row e k r w on at run (codes "document pipeline is already running; queued retry") 30
project_part e k r w (zero_chunks r1) on at run = finished_row e k r w on at run true none
project_part e k r w (extraction_failed r1 x) on at run =
    finished_row e k r w on at run false (some x)
project_part e k r w (analysed r1 r2) on at run = finished_row e k r w on at run true none

-- The batch's part and the tables leave the project's queue alone.
after_project-queue :
    (e : Env) (k : ℕ) (s : ResultStatus) (error : Option Text) (out : Outcome (Unit {0}) × World)
    (b : BatchWorld)
    → (after_project e k s error out b).1.0 ≡ out.1
after_project-queue e k s error (raised, q) b = refl
after_project-queue e k s error (ok u, q) b = refl

with_report-queue :
    (p : Payload) (t : Tables) (out : Outcome (Unit {0}) × (World × BatchWorld))
    → (with_report (p, t) out).1.queue ≡ out.1.0
with_report-queue p t (ok u, (q, b)) = refl
with_report-queue p t (raised, (q, b)) = refl

-- If the project's queue is switched on and the document's row in it is processing, then whatever
-- the run of the pipeline comes to, and whether or not the broker takes the messages, the row gets
-- the state that goes with the payload: completed, failed with the payload's error, or pending again
-- if the document was busy.
pub analysis_reported :
    (ep eb : Env) (v : Worker) (k : ℕ) (s : System) (r : Source)
    → ep.project_queue_enabled ≡ true
    → get k s.queue.documents ≡ some r
    → is_processing r.processing_status ≡ true
    → get k (analyse_and_report ep eb v k s).1.queue.documents
      ≡ some (reported ep.now (pipeline_document_analysis v k s.tables).0 r)
unfolding analyse_and_report finalize_document_pipeline_task_result
analysis_reported ep eb v k s r on at run =
    let p = (pipeline_document_analysis v k s.tables).0 in
    let t = (pipeline_document_analysis v k s.tables).1 in
    let q =
      finalize_project_document_pipeline_task_result ep k (result_status p) (result_error p)
        s.queue in
    let out = after_project eb k (result_status p) (result_error p) q s.batch in
    ap (λ (x : World). get k x.documents)
      (with_report-queue p t out
        ∙ after_project-queue eb k (result_status p) (result_error p) q s.batch)
    ∙ project_part ep k r s.queue p on at run

-- The row of a key has the status "completed", the time of its completion, and no error.
abbrev pub IsCompleted : ℕ → ℕ → List Source → Type 0
IsCompleted now k rs =
    (q : Source) × (get k rs ≡ some q)
    × (q.processing_status ≡ completed)
    × (q.processing_completed_at ≡ some now)
    × (q.processing_last_error ≡ none)
