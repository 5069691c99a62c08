-- ===== src/Analysis/Tests.antt =====
-- A run over a new document whose row is in work.
use pr_killer.Prelude.{◌≡◌, refl, true, false, none, some, [], ◌∷◌}
use pr_killer.Text.{codes}
use pr_killer.Queue.Status.{processing}
use pr_killer.Queue.Rows.{Source, get}
use pr_killer.Queue.World.{Env}
use pr_killer.Documents.Samples.{worker, one_document}
use pr_killer.Documents.Pipeline.{pipeline_document_analysis}
use pr_killer.Analysis.{System, analyse_and_report}
use pr_killer.Analysis.Settles.{reported, analysis_reported}

abbrev env : Env
env = record {
  project_queue_enabled = true;
  project_queue_concurrency = 2;
  now = 50;
  free = λ _ _. true;
  accepts = λ _. false;
  refusal = codes "broker down";
}

abbrev row : Source
row = record {
  id = 7;
  project_id = 1;
  processing_status = processing;
  processing_sort_order = 1;
  processing_started_at = some 40;
  processing_completed_at = none;
  processing_last_error = none;
  created_at = 1;
}

abbrev system : System
system = record {
  tables = one_document;
  queue = record {
    documents = row ∷ [];
    audios = [];
    transcripts = [];
    llm_cache = [];
    outbox = [];
    sends = 0;
    aggregated = [];
  };
  batch = record {
    batch_rows = [];
    documents = [];
    audios = [];
    transcripts = [];
    llm_cache = [];
    outbox = [];
    sends = 0;
  };
}

analysis_reported_example :
    get 7 (analyse_and_report env env worker 7 system).1.queue.documents
    ≡ some (reported 50 (pipeline_document_analysis worker 7 system.tables).0 row)
unfolding get
analysis_reported_example = analysis_reported env env worker 7 system row refl refl refl
