-- ===== src/Documents/Recovery.antt =====
-- app/services/batch_document_pipeline_recovery_service.py: which documents are queued again.
use pr_killer.Prelude.{
  ℕ, ◌+◌, Bool, true, false, not, ◌&&◌, ◌||◌, Option, none, some, List, [], ◌∷◌, ltb, ◌==◌,
  if◌then◌else◌,
}
use pr_killer.Text.{Text, codes, strip, is_empty, or_text, text_eq}
use pr_killer.Documents.World.{Document, Tables, get_source_document, select_where}
use pr_killer.Documents.Pipeline.{word_of, status_word}

-- The clock in seconds, the setting, and `datetime.fromisoformat`, `none` for a ValueError.
pub record Clock : Type 0 where
  pub now : ℕ
  pub active_ttl : ℕ
  pub fromisoformat : Text → Option ℕ

abbrev pub is_one_of : Text → List Text → Bool
is_one_of t [] = false
is_one_of t (u ∷ us) = text_eq t u || is_one_of t us

-- `now - ts < ttl`, also where the time lies ahead.
abbrev pub is_recent : Clock → Option ℕ → Bool
is_recent c none = false
is_recent c (some ts) = ltb c.now (ts + c.active_ttl)

abbrev pub is_fresh : Clock → Option Text → Bool
is_fresh c none = false
is_fresh c (some t) = if is_empty t then false else is_recent c (c.fromisoformat t)

unfoldable pub document_pipeline_actively_running : Clock → Document → Bool
unfolding word_of text_eq
document_pipeline_actively_running c d =
    let pipe = d.pipeline_state_json in
    let phase = word_of pipe.phase in
    if is_one_of phase (codes "chunking" ∷ codes "extracting" ∷ [])
    then is_fresh c pipe.updated_at
    else false

unfoldable pub document_pipeline_needs_recovery : Clock → Document → Bool
unfolding document_pipeline_actively_running word_of text_eq strip or_text
document_pipeline_needs_recovery c d =
    let pipe = d.pipeline_state_json in
    let phase = word_of pipe.phase in
    let ext_status = status_word pipe.extraction in
    if document_pipeline_actively_running c d
    then false
    else if is_one_of ext_status (codes "chunk_failed" ∷ codes "extraction_failed" ∷ [])
    then true
    else if text_eq phase (codes "failed")
    then true
    else if is_one_of phase
        (codes "uploaded" ∷ codes "parsed" ∷ codes "chunking" ∷ codes "extracting" ∷ [])
    then true
    else if text_eq phase (codes "chunked")
    then not (
        is_one_of ext_status
          (codes "ok" ∷ codes "completed_zero_entities" ∷ codes "skipped_no_chunks" ∷ []))
    else is_empty phase && not (is_empty (strip (or_text d.raw_text [])))

-- The queued identifiers and the skipped ones.
abbrev pub sort_document : Clock → Document → List ℕ × List ℕ → List ℕ × List ℕ
sort_document c d (queued, skipped) =
    if document_pipeline_actively_running c d
    then (queued, d.id ∷ skipped)
    else if document_pipeline_needs_recovery c d
    then (d.id ∷ queued, skipped)
    else (queued, d.id ∷ skipped)

unfoldable pub sort_documents : Clock → List Document → List ℕ × List ℕ
unfolding document_pipeline_needs_recovery
sort_documents c [] = ([], [])
sort_documents c (d ∷ ds) = sort_document c d (sort_documents c ds)

unfoldable pub list_project_documents_needing_recovery : Clock → ℕ → Tables → List ℕ × List ℕ
unfolding sort_documents select_where
list_project_documents_needing_recovery c p w =
    sort_documents c (select_where (λ d. d.project_id == p) w.documents)

-- The rows of the batch, each with its document, if it has one that is there.
abbrev pub sort_source : Clock → Tables → Option ℕ → List ℕ × List ℕ → List ℕ × List ℕ
sort_source c w none lists = lists
sort_source c w (some k) lists = elim (get_source_document k w.documents) [
  | none ↦ lists
  | some d ↦ sort_document c d lists
]

-- The document of each row of the batch; `none` stands for a batch that is not there.
unfoldable pub sort_sources : Clock → Tables → List (Option ℕ) → List ℕ × List ℕ
unfolding document_pipeline_needs_recovery get_source_document
sort_sources c w [] = ([], [])
sort_sources c w (s ∷ ss) = sort_source c w s (sort_sources c w ss)

unfoldable pub list_batch_documents_needing_recovery :
    Clock → Option (List (Option ℕ)) → Tables → List ℕ × List ℕ
unfolding sort_sources
list_batch_documents_needing_recovery c none w = ([], [])
list_batch_documents_needing_recovery c (some sources) w = sort_sources c w sources
