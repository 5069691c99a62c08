-- ===== src/Batch/Tests.antt =====
-- Runs of the batch queue on a batch of three rows.
use pr_killer.Prelude.{ℕ, ◌≡◌, refl, true, Option, none, some, List, [], ◌∷◌, ◌++◌}
use pr_killer.Sort.{sort}
use pr_killer.Text.{codes}
use pr_killer.Queue.Status.{Status, pending, processing, completed, document, audio}
use pr_killer.Queue.World.{Env, ok}
use pr_killer.Queue.Lock.Table.{table_redis, reached, no_keys}
use pr_killer.Batch.World.{
  BatchRow, uuid, Metadata, analyse_document, transcribe_audio, BatchWorld, get_row, get_owner,
  drain_batch, merge_batch_analysis_metadata,
}
use pr_killer.Batch.Resolve.{resolve_batch_row, merge-resolve}
use pr_killer.Batch.Advances.{OwnBatch, report_advances_own}
use pr_killer.Batch.Finalize.{finish_owner, requeue_batch_document_pipeline}
use pr_killer.Batch.Pick.{batch_row_le}
use pr_killer.Batch.Worker.{drain_batch_rows, fan_out}
use pr_killer.Batch.Keeps.{Inv}
use pr_killer.Batch.Invariant.{Op, document_report, busy_report, run, steps, batch_steps-Inv}
use pr_killer.Queue.Summary.{Row}
use pr_killer.Batch.Reopen.{IsReopened, requeue_reopens}

abbrev env : Env
env = record {
  project_queue_enabled = true;
  project_queue_concurrency = 2;
  now = 50;
  free = λ _ _. true;
  accepts = λ _. true;
  refusal = codes "broker down";
}

abbrev batch_row : ℕ → Option ℕ → Option ℕ → Status → ℕ → BatchRow
batch_row k doc rec status order = record {
  id = k;
  batch_id = 4;
  source_document_id = doc;
  source_audio_id = rec;
  processing_status = status;
  sort_order = order;
  started_at = none;
  completed_at = none;
  last_error = none;
  created_at = 10;
}

abbrev done_row : BatchRow
done_row = record (batch_row 23 (some 3) none completed 0) { completed_at = some 30 }

abbrev bare : Metadata
bare = record { batch_analysis = none; others = [] }

abbrev linked : Metadata
linked = record {
  batch_analysis = some (record {
    batch_id = uuid 4;
    batch_source_row_id = uuid 23;
    single_file_multi_interview_mode = true;
  });
  others = [];
}

abbrev batch : BatchWorld
batch = record {
  batch_rows =
      batch_row 21 (some 1) none pending 2 ∷ batch_row 22 none (some 7) pending 1 ∷ done_row ∷ [];
  documents =
      record { id = 1; metadata_json = bare } ∷ record { id = 3; metadata_json = linked } ∷ [];
  audios = record { id = 7; metadata_json = bare } ∷ [];
  transcripts = [];
  llm_cache = [];
  outbox = [];
  sends = 0;
}

run_fans_out : (drain_batch_rows env 4 batch).0 ≡ ok (fan_out 2 1 1)
unfolding drain_batch_rows sort batch_row_le
run_fans_out = refl

run_hands_out :
    (drain_batch_rows env 4 batch).1.outbox ≡ transcribe_audio 7 ∷ analyse_document 1 ∷ []
unfolding drain_batch_rows sort batch_row_le
run_hands_out = refl

report_advances_own_example :
    OwnBatch
      (resolve_batch_row document 3 linked batch.batch_rows)
      batch
      (finish_owner env document true [] (some (record { id = 3; metadata_json = linked })) batch).1
report_advances_own_example =
    report_advances_own env document true [] (record { id = 3; metadata_json = linked }) batch

merge-resolve_example :
    resolve_batch_row document 1 (merge_batch_analysis_metadata bare 4 21 true) batch.batch_rows
    ≡ some (batch_row 21 (some 1) none pending 2, 4)
unfolding get_row
merge-resolve_example =
    merge-resolve document 1 4 21 true bare batch.batch_rows (batch_row 21 (some 1) none pending 2)
      refl refl

requeue_reopens_example :
    let v = (requeue_batch_document_pipeline env 3 (codes "busy") 30 batch).1 in
    IsReopened 23 done_row v.batch_rows × (v.outbox ≡ batch.outbox ++ drain_batch 4 30 ∷ [])
unfolding get_row get_owner
requeue_reopens_example =
    requeue_reopens env 3 (codes "busy") 30 batch (record { id = 3; metadata_json = linked }) 23 4
      true done_row refl refl refl refl refl

abbrev history : List Op
history =
    run env reached reached 5 4
    ∷ document_report env 1 true none
    ∷ busy_report env 3 (codes "busy") 30
    ∷ []

batch-Inv : Inv batch
batch-Inv = (refl, (refl, ((refl, refl), tt)))

batch_steps-Inv_example : Inv (steps table_redis history (batch, no_keys)).0
batch_steps-Inv_example = batch_steps-Inv table_redis history batch no_keys batch-Inv

abbrev counted : List Row
counted =
    record { kind = document; id = some 21; status = pending }
    ∷ record { kind = audio; id = some 22; status = processing }
    ∷ []
