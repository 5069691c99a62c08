-- ===== src/Batch/World.antt =====
-- The rows, metadata and messages of the batch queue.
use pr_killer.Prelude.{ℕ, ◌+◌, Bool, Option, none, some, List, [], ◌∷◌, ◌++◌, ◌==◌, if◌then◌else◌}
use pr_killer.Text.{Text}
use pr_killer.Queue.Status.{Status}
use pr_killer.Queue.World.{Transcript, Outcome, ok, raised, Env, delay_of}

-- app/models/research_batch_source.py
pub record BatchRow : Type 0 where
  pub id : ℕ
  pub batch_id : ℕ
  pub source_document_id : Option ℕ
  pub source_audio_id : Option ℕ
  pub processing_status : Status
  pub sort_order : ℕ
  pub started_at : Option ℕ
  pub completed_at : Option ℕ
  pub last_error : Option Text
  pub created_at : ℕ

-- A value that should be the text of a UUID: missing or empty, not a UUID, or one.
pub data RawId : Type 0 where
  absent malformed : RawId
  uuid : ℕ → RawId

pub record BatchAnalysis : Type 0 where
  pub batch_id : RawId
  pub batch_source_row_id : RawId
  pub single_file_multi_interview_mode : Bool

-- `metadata_json`: the entry under `_batch_analysis`, if it is a dictionary, and the other entries.
pub record Metadata : Type 0 where
  pub batch_analysis : Option BatchAnalysis
  pub others : List (Text × Text)

-- A row of source_documents or of source_audios.
pub record Owner : Type 0 where
  pub id : ℕ
  pub metadata_json : Metadata

pub data BatchMessage : Type 0 where
  analyse_document : ℕ → BatchMessage
  transcribe_audio : ℕ → BatchMessage
  drain_batch : ℕ → ℕ → BatchMessage

pub record BatchWorld : Type 0 where
  pub batch_rows : List BatchRow
  pub documents : List Owner
  pub audios : List Owner
  pub transcripts : List Transcript
  pub llm_cache : List ℕ
  pub outbox : List BatchMessage
  pub sends : ℕ

abbrev pub B : Type 0 → Type 0
B A = BatchWorld → Outcome A × BatchWorld

abbrev pub after : {A C : Type 0} → Outcome A × BatchWorld → (A → B C) → Outcome C × BatchWorld
after (ok a, w) f = f a w
after (raised, w) f = (raised, w)

-- `session.get` of a row, and the assignments to the row it returned.
unfoldable pub get_row : ℕ → List BatchRow → Option BatchRow
get_row k [] = none
get_row k (r ∷ rs) = if r.id == k then some r else get_row k rs

unfoldable pub modify_row : ℕ → (BatchRow → BatchRow) → List BatchRow → List BatchRow
modify_row k f [] = []
modify_row k f (r ∷ rs) = (if r.id == k then f r else r) ∷ modify_row k f rs

unfoldable pub get_owner : ℕ → List Owner → Option Owner
get_owner k [] = none
get_owner k (o ∷ os) = if o.id == k then some o else get_owner k os

unfoldable pub send_batch : Env → BatchMessage → B (Unit {0})
send_batch e m w =
    if e.accepts w.sends
    then (ok tt, record w { sends = w.sends + 1; outbox = w.outbox ++ m ∷ [] })
    else (raised, record w { sends = w.sends + 1 })

unfoldable pub schedule_batch_queue : Env → ℕ → Option ℕ → B (Unit {0})
unfolding send_batch
schedule_batch_queue e b countdown = send_batch e (drain_batch b (delay_of countdown))

-- `merge_batch_analysis_metadata`
unfoldable pub merge_batch_analysis_metadata : Metadata → ℕ → ℕ → Bool → Metadata
merge_batch_analysis_metadata m batch row multi = record m {
  batch_analysis = some (record {
    batch_id = uuid batch;
    batch_source_row_id = uuid row;
    single_file_multi_interview_mode = multi;
  });
}
