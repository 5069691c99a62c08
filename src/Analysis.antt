-- ===== src/Analysis.antt =====
-- The task pipeline_document_analysis of app/workers/tasks/research_source_full_pipeline.py with its
-- `done`: the run of the pipeline, and the report to both queues. It joins Documents, Queue and Batch.
pub mod Settles
mod Tests
use pr_killer.Prelude.{ℕ}
use pr_killer.Queue.World.{World, Env, Outcome, ok, raised}
use pr_killer.Batch.World.{BatchWorld}
use pr_killer.Batch.Finalize.{finalize_document_pipeline_task_result}
use pr_killer.Documents.World.{Tables}
use pr_killer.Documents.Pipeline.{
  Worker, Payload, result_status, result_error, pipeline_document_analysis,
}

-- The tables of the three models, which share the identifiers of the documents.
pub record System : Type 0 where
  pub tables : Tables
  pub queue : World
  pub batch : BatchWorld

abbrev pub with_report :
    Payload × Tables → Outcome (Unit {0}) × (World × BatchWorld) → Outcome Payload × System
with_report (p, t) (ok u, (q, b)) = (ok p, record { tables = t; queue = q; batch = b })
with_report (p, t) (raised, (q, b)) = (raised, record { tables = t; queue = q; batch = b })

-- The two environments count the messages of the project's queue and of the batch's.
unfoldable pub analyse_and_report : Env → Env → Worker → ℕ → System → Outcome Payload × System
unfolding pipeline_document_analysis finalize_document_pipeline_task_result
analyse_and_report ep eb v k s =
    let (p, t) = pipeline_document_analysis v k s.tables in
    with_report (p, t)
      (finalize_document_pipeline_task_result ep eb k (result_status p) (result_error p) s.queue
        s.batch)
