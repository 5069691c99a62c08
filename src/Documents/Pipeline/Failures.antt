-- ===== src/Documents/Pipeline/Failures.antt =====
-- What a run leaves when it stops early.
use pr_killer.Prelude.{
  ℕ, ◌≡◌, refl, ap, ◌∙◌, true, Option, none, some, List, [], ◌∷◌, ltb, ◌==◌, if_both, Bool-cases,
  inl, inr,
}
use pr_killer.Text.{Text, codes}
use pr_killer.Queue.Pick.Sound.{All}
use pr_killer.Documents.World.{Document, Tables, Result, returned, failed, modify_document}
use pr_killer.Documents.Chunks.{ChunkReply, chunk_source_document}
use pr_killer.Documents.Entities.{ExtractReply, missing, extracted, extract_entities_for_document}
use pr_killer.Documents.Units.{sync_interview_units}
use pr_killer.Documents.Pipeline.{
  Worker, failure_patch, merge_document_pipeline_state, record_extraction_outcome,
  record_pipeline_failure, Peek, peek_document_pipeline_state, FirstStep, skipped_chunk, ran,
  is_busy, chunk_count, Payload, source_missing, already_complete, chunk_failed, chunk_busy,
  zero_chunks, extraction_failed, analysed, extract_or_fail, after_chunk, chunk_or_fail,
  is_complete, skips_chunk, analyse_peeked, pipeline_document_analysis,
}
use pr_killer.Documents.Pipeline.Frames.{
  RolledBack, OnlyChunks, chunk-OnlyChunks, chunk-RolledBack, Kept, extract-Kept, units-OnlyUnits,
}

-- The document has the phase "failed".
abbrev pub IsMarked : ℕ → Document → Type 0
IsMarked k d = d.id == k ≡ true → d.pipeline_state_json.phase ≡ some (codes "failed")

-- The chunks, the entities and the interview units are those of `w`; or the entities are.
abbrev pub RowsKept : Tables → Tables → Type 0
RowsKept w v =
    (v.chunks ≡ w.chunks) × (v.entities ≡ w.entities) × (v.interview_units ≡ w.interview_units)

-- By the payload of the run.
abbrev pub Leaves : ℕ → Tables → Payload × Tables → Type 0
Leaves k w (source_missing, v) = v ≡ w
Leaves k w (already_complete n m, v) = (v.chunks ≡ w.chunks) × (v.entities ≡ w.entities)
Leaves k w (chunk_failed e, v) = RowsKept w v × All (IsMarked k) v.documents
Leaves k w (chunk_busy r, v) = v.entities ≡ w.entities
Leaves k w (zero_chunks r, v) = v.entities ≡ w.entities
Leaves k w (extraction_failed r e, v) = (v.entities ≡ w.entities) × All (IsMarked k) v.documents
Leaves k w (analysed r missing, v) = v.entities ≡ w.entities
Leaves k w (analysed r (extracted n), v) = Unit {0}

mark-IsMarked :
    (now : Text) (k : ℕ) (step message : Text) (ds : List Document)
    → All (IsMarked k) (
        modify_document k
          (λ d. record d {
            pipeline_state_json = failure_patch now step message d.pipeline_state_json;
          })
          ds)
unfolding modify_document
mark-IsMarked now k step message [] = tt
mark-IsMarked now k step message (d ∷ ds) = elim (Bool-cases (d.id == k)) [
  | inl e ↦ rw e ((λ h. refl), mark-IsMarked now k step message ds)
  | inr e ↦ rw e ((λ h. absurd (cc)), mark-IsMarked now k step message ds)
]

failure-IsMarked :
    (now : Text) (k : ℕ) (step message : Text) (w : Tables)
    → All (IsMarked k) (record_pipeline_failure now k step message w).documents
unfolding record_pipeline_failure merge_document_pipeline_state
failure-IsMarked now k step message w = mark-IsMarked now k step message w.documents

failure-RowsKept :
    (now : Text) (k : ℕ) (step message : Text) (w : Tables)
    → RowsKept w (record_pipeline_failure now k step message w)
unfolding record_pipeline_failure merge_document_pipeline_state
failure-RowsKept now k step message w = (refl, refl, refl)

outcome-entities :
    (k : ℕ) (status : Text) (reason : Option Text) (n : ℕ) (hint : Option ℕ) (w : Tables)
    → (record_extraction_outcome k status reason n hint w).entities ≡ w.entities
unfolding record_extraction_outcome merge_document_pipeline_state
outcome-entities k status reason n hint w = refl

module _ (v : Worker) (k : ℕ) where
  extract-Leaves :
      (r1 : FirstStep) (w u : Tables) (out : Result ExtractReply × Tables)
      → u.entities ≡ w.entities
      → Kept u out
      → Leaves k w (extract_or_fail v k r1 out)
  extract-Leaves r1 w u (returned (extracted n), t) e h = tt
  extract-Leaves r1 w u (returned missing, t) e h = ap (λ (x : Tables). x.entities) h ∙ e
  extract-Leaves r1 w u (failed m, t) e h = (
    (failure-RowsKept v.now k (codes "extraction_failed") (v.repr m) t).1
        ∙ ap (λ (x : Tables). x.entities) h
        ∙ e,
    failure-IsMarked v.now k (codes "extraction_failed") (v.repr m) t,
  )

  busy-Leaves :
      (r1 : FirstStep) (w u : Tables) → u.entities ≡ w.entities → Leaves k w (after_chunk v k r1 u)
  unfolding after_chunk
  busy-Leaves r1 w u e =
      let synced = sync_interview_units v.splitter k u in
      let e' = (units-OnlyUnits v.splitter k u).2 ∙ e in
      if_both (Leaves k w) (is_busy r1) (chunk_busy r1, u) _ e
        (if_both (Leaves k w) (ltb (chunk_count r1) 1) (zero_chunks r1, _) _
          (outcome-entities k (codes "skipped_no_chunks")
              (some (codes "chunking_produced_zero_chunks")) 0 (some 0) synced
            ∙ e')
          (extract-Leaves r1 w synced (extract_entities_for_document v.config v.extractor k synced)
            e' (extract-Kept v.config v.extractor k synced)))

  chunk-Leaves :
      (w : Tables) (out : Result ChunkReply × Tables)
      → OnlyChunks w out
      → RolledBack w out
      → Leaves k w (chunk_or_fail v k out)
  chunk-Leaves w (returned r, u) h b = busy-Leaves (ran r) w u h.1
  chunk-Leaves w (failed m, u) h b =
      let (c, e, i) = failure-RowsKept v.now k (codes "chunk_failed") (v.repr m) u in
      (
        (
          c ∙ ap (λ (x : Tables). x.chunks) b,
          e ∙ ap (λ (x : Tables). x.entities) b,
          i ∙ ap (λ (x : Tables). x.interview_units) b,
        ),
        failure-IsMarked v.now k (codes "chunk_failed") (v.repr m) u,
      )

  peeked-Leaves : (o : Option Peek) (w : Tables) → Leaves k w (analyse_peeked v k o w)
  peeked-Leaves none w = refl
  peeked-Leaves (some p) w =
      if_both (Leaves k w) (is_complete p) (already_complete p.n_chunks p.entities_created, _) _
        ((units-OnlyUnits v.splitter k w).1, (units-OnlyUnits v.splitter k w).2)
        (if_both (Leaves k w) (skips_chunk p) _ _ (busy-Leaves (skipped_chunk p.n_chunks) w w refl)
          (chunk-Leaves w (chunk_source_document v.config k (codes "auto") w)
            (chunk-OnlyChunks v.config k (codes "auto") w)
            (chunk-RolledBack v.config k (codes "auto") w)))

-- What a run of the pipeline leaves, by the payload that it reports: after a failed chunking, the
-- chunks, the entities and the interview units are as before, and after any other run that did not
-- extract, the entities are; after a failure, the document has the phase "failed"; and a document
-- that is not there leaves everything as before.
pub run-Leaves : (v : Worker) (k : ℕ) (w : Tables) → Leaves k w (pipeline_document_analysis v k w)
unfolding pipeline_document_analysis
run-Leaves v k w = peeked-Leaves v k (peek_document_pipeline_state k w) w
