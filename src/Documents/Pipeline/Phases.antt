-- ===== src/Documents/Pipeline/Phases.antt =====
-- The phases that a document can be in, and what a failed run leaves.
use mathlib.Core.Path.{subst}
use pr_killer.Prelude.{
  ℕ, ◌≡◌, refl, sym, ◌⊎◌, Bool, true, false, Option, none, some, List, [], ◌∷◌, ltb, ◌==◌, if_both,
  inl, inr,
}
use pr_killer.Text.{Text, codes, strip, is_empty, or_text, text_eq, lower, is_space}
use pr_killer.Queue.Pick.Sound.{All}
use pr_killer.Documents.World.{
  PipelineState, Document, Tables, Result, returned, failed, modify_document,
}
use pr_killer.Documents.Chunks.{ChunkReply, chunk_source_document}
use pr_killer.Documents.Entities.{ExtractReply, extract_entities_for_document}
use pr_killer.Documents.Units.{sync_interview_units}
use pr_killer.Documents.Pipeline.{
  Worker, word_of, status_word, outcome_patch, failure_patch, merge_document_pipeline_state,
  record_extraction_outcome, record_pipeline_failure, Peek, peek_document_pipeline_state, FirstStep,
  skipped_chunk, ran, is_busy, chunk_count, Payload, chunk_busy, extract_or_fail, after_chunk,
  chunk_or_fail, is_complete, skips_chunk, analyse_peeked, pipeline_document_analysis,
}
use pr_killer.Documents.Pipeline.Frames.{
  SameDocuments, chunk-OnlyChunks, extract-documents, units-OnlyUnits,
}
use pr_killer.Documents.Recovery.{
  Clock, is_one_of, document_pipeline_actively_running, document_pipeline_needs_recovery,
}

-- No phase has been recorded, or "failed".
abbrev pub IsOpen : Document → Type 0
IsOpen d =
    (d.pipeline_state_json.phase ≡ none) ⊎ (d.pipeline_state_json.phase ≡ some (codes "failed"))

abbrev patched : (PipelineState → PipelineState) → Document → Document
patched patch d = record d { pipeline_state_json = patch d.pipeline_state_json }

module _ (k : ℕ) (patch : PipelineState → PipelineState)
    (open_patch : (d : Document) → IsOpen d → IsOpen (patched patch d)) where
  modify-IsOpen :
      (ds : List Document) → All IsOpen ds → All IsOpen (modify_document k (patched patch) ds)
  unfolding modify_document
  modify-IsOpen [] h = tt
  modify-IsOpen (d ∷ ds) h =
      (if_both IsOpen (d.id == k) (patched patch d) d (open_patch d h.0) h.0, modify-IsOpen ds h.1)

abbrev AllOpen : Tables → Type 0
AllOpen w = All IsOpen w.documents

failure-AllOpen :
    (now : Text) (k : ℕ) (step message : Text) (w : Tables)
    → AllOpen w
    → AllOpen (record_pipeline_failure now k step message w)
unfolding record_pipeline_failure merge_document_pipeline_state
failure-AllOpen now k step message w h =
    modify-IsOpen k (failure_patch now step message) (λ d o. inr refl) w.documents h

outcome-AllOpen :
    (k : ℕ) (status : Text) (reason : Option Text) (n : ℕ) (hint : Option ℕ) (w : Tables)
    → AllOpen w
    → AllOpen (record_extraction_outcome k status reason n hint w)
unfolding record_extraction_outcome merge_document_pipeline_state
outcome-AllOpen k status reason n hint w h =
    modify-IsOpen k (outcome_patch status reason n hint) (λ d o. o) w.documents h

same-AllOpen : (w v : Tables) → v.documents ≡ w.documents → AllOpen w → AllOpen v
same-AllOpen w v e h = subst (λ (l : List Document). All IsOpen l) (sym e) h

module _ (v : Worker) (k : ℕ) where
  extract-AllOpen :
      (r1 : FirstStep) (w : Tables) (out : Result ExtractReply × Tables)
      → SameDocuments w out
      → AllOpen w
      → AllOpen (extract_or_fail v k r1 out).1
  extract-AllOpen r1 w (returned r2, u) e h = same-AllOpen w u e h
  extract-AllOpen r1 w (failed m, u) e h =
      failure-AllOpen v.now k (codes "extraction_failed") (v.repr m) u (same-AllOpen w u e h)

  units-AllOpen : (w : Tables) → AllOpen w → AllOpen (sync_interview_units v.splitter k w)
  units-AllOpen w h =
      same-AllOpen w (sync_interview_units v.splitter k w) (units-OnlyUnits v.splitter k w).0 h

  after_chunk-AllOpen : (r1 : FirstStep) (w : Tables) → AllOpen w → AllOpen (after_chunk v k r1 w).1
  unfolding after_chunk
  after_chunk-AllOpen r1 w h =
      let synced = sync_interview_units v.splitter k w in
      let h' = units-AllOpen w h in
      let Q = λ (o : Payload × Tables). AllOpen o.1 in
      if_both Q (is_busy r1) (chunk_busy r1, w) _ h
        (if_both Q (ltb (chunk_count r1) 1) _ _
          (outcome-AllOpen k (codes "skipped_no_chunks")
            (some (codes "chunking_produced_zero_chunks")) 0 (some 0) synced h')
          (extract-AllOpen r1 synced (extract_entities_for_document v.config v.extractor k synced)
            (extract-documents v.config v.extractor k synced) h'))

  chunk-AllOpen :
      (w : Tables) (out : Result ChunkReply × Tables)
      → SameDocuments w out
      → AllOpen w
      → AllOpen (chunk_or_fail v k out).1
  chunk-AllOpen w (returned r, u) e h = after_chunk-AllOpen (ran r) u (same-AllOpen w u e h)
  chunk-AllOpen w (failed m, u) e h =
      failure-AllOpen v.now k (codes "chunk_failed") (v.repr m) u (same-AllOpen w u e h)

  peeked-AllOpen : (o : Option Peek) (w : Tables) → AllOpen w → AllOpen (analyse_peeked v k o w).1
  peeked-AllOpen none w h = h
  peeked-AllOpen (some p) w h =
      let Q = λ (o : Payload × Tables). AllOpen o.1 in
      if_both Q (is_complete p) _ _ (units-AllOpen w h) (
        if_both Q (skips_chunk p) _ _ (after_chunk-AllOpen (skipped_chunk p.n_chunks) w h) (
          chunk-AllOpen w (chunk_source_document v.config k (codes "auto") w)
            (chunk-OnlyChunks v.config k (codes "auto") w).0 h))

  run-AllOpen : (w : Tables) → AllOpen w → AllOpen (pipeline_document_analysis v k w).1
  unfolding pipeline_document_analysis
  run-AllOpen w h = peeked-AllOpen (peek_document_pipeline_state k w) w h

-- Runs of the task, one after the other.
unfoldable pub runs : List (Worker × ℕ) → Tables → Tables
unfolding pipeline_document_analysis
runs [] w = w
runs ((v, k) ∷ rest) w = runs rest (pipeline_document_analysis v k w).1

runs-AllOpen : (rs : List (Worker × ℕ)) (w : Tables) → AllOpen w → AllOpen (runs rs w)
unfolding runs
runs-AllOpen [] w h = h
runs-AllOpen ((v, k) ∷ rest) w h =
    runs-AllOpen rest (pipeline_document_analysis v k w).1 (run-AllOpen v k w h)

-- A document with a text that is picked up for recovery.
abbrev pub IsRecovered : Clock → Document → Type 0
IsRecovered c d =
    is_empty (strip (or_text d.raw_text [])) ≡ false → document_pipeline_needs_recovery c d ≡ true

open-IsRecovered : (c : Clock) (d : Document) → IsOpen d → IsRecovered c d
unfolding document_pipeline_needs_recovery document_pipeline_actively_running word_of strip lower
    is_space or_text text_eq
open-IsRecovered c d (inl e) full =
    let ext =
      is_one_of (status_word d.pipeline_state_json.extraction)
        (codes "chunk_failed" ∷ codes "extraction_failed" ∷ []) in
    rw e (rw full (if_both (λ (b : Bool). b ≡ true) ext true true refl refl))
open-IsRecovered c d (inr e) full =
    let ext =
      is_one_of (status_word d.pipeline_state_json.extraction)
        (codes "chunk_failed" ∷ codes "extraction_failed" ∷ []) in
    rw e (if_both (λ (b : Bool). b ≡ true) ext true true refl refl)

All-IsOpen :
    (c : Clock) (ds : List Document) → All IsOpen ds → All (λ d. IsOpen d × IsRecovered c d) ds
All-IsOpen c [] h = tt
All-IsOpen c (d ∷ ds) h = ((h.0, open-IsRecovered c d h.0), All-IsOpen c ds h.1)

-- Where no document has a recorded phase other than "failed", as when it is created, this is so
-- after any runs of the pipeline, successful or not; and every document with a text then needs
-- recovery, at any time and under any setting.
pub recovery_never_ends :
    (c : Clock) (rs : List (Worker × ℕ)) (w : Tables)
    → All IsOpen w.documents
    → All (λ d. IsOpen d × IsRecovered c d) (runs rs w).documents
recovery_never_ends c rs w h = All-IsOpen c (runs rs w).documents (runs-AllOpen rs w h)
