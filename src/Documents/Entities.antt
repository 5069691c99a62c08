-- ===== src/Documents/Entities.antt =====
-- The database side of app/services/research_extraction_service.py, and the tasks of
-- app/workers/tasks/research_extraction.py.
pub mod Counts
use pr_killer.Prelude.{
  ℕ, ◌+◌, Bool, false, not, ◌&&◌, ◌||◌, Option, none, some, List, [], ◌∷◌, ◌++◌, ltb, ◌==◌, length,
  if◌then◌else◌,
}
use pr_killer.Sort.{sort}
use pr_killer.Text.{Text, codes, strip, is_empty, or_text, text_eq}
use pr_killer.Documents.World.{
  fixed, Document, AudioFile, TranscriptRow, Chunk, Candidate, Entity, Tables, Result, returned,
  failed, Step, sync_session_scope, get_source_document, get_audio_file, get_transcript_row, is_id,
  select_where, delete_where, in_document, in_transcript,
}
use pr_killer.Documents.Chunks.{Config, chunk_source_document_sync, chunk_transcript_sync}
use pr_killer.Documents.Extract.{Extractor, finalize_chunk_entities}

unfoldable pub persist : Chunk → List Candidate → List Entity
persist c [] = []
persist c (x ∷ xs) =
    record {
      project_id = c.project_id;
      source_document_id = c.source_document_id;
      source_audio_id = c.source_audio_id;
      transcript_id = c.transcript_id;
      chunk_id = c.id;
      candidate = x;
    }
    ∷ persist c xs

abbrev pub add_total : ℕ → Result ℕ × Tables → Result ℕ × Tables
add_total n (returned m, w) = (returned (n + m), w)
add_total n (failed e, w) = (failed e, w)

-- A provider that fails ends the loop.
abbrev pub with_raw :
    Result (List Candidate) → Tables → (List Candidate → Result ℕ × Tables) → Result ℕ × Tables
with_raw (failed e) w rest = (failed e, w)
with_raw (returned raw) w rest = rest raw

abbrev pub add_entities : Chunk → List Candidate → Tables → Tables
add_entities c cs w = record w { entities = w.entities ++ persist c cs }

unfoldable pub extract_for_chunks : Extractor → Option Text → List Chunk → Step ℕ
unfolding persist finalize_chunk_entities
extract_for_chunks x filename [] w = (returned 0, w)
extract_for_chunks x filename (c ∷ cs) w =
    with_raw (x.extract_from_chunk c.text c.chunk_index filename) w λ raw.
      let found = finalize_chunk_entities x c.text raw filename in
      add_total (length found) (extract_for_chunks x filename cs (add_entities c found w))

-- `.order_by(chunk_index, id)`
abbrev pub by_chunk_index : Chunk → Chunk → Bool
by_chunk_index a b =
    ltb a.chunk_index b.chunk_index || (a.chunk_index == b.chunk_index && not (ltb b.id a.id))

unfoldable pub ordered_chunks : (Chunk → Bool) → Tables → List Chunk
unfolding select_where sort
ordered_chunks test w = sort by_chunk_index (select_where test w.chunks)

abbrev pub of_document : ℕ → Entity → Bool
of_document k e = is_id k e.source_document_id

abbrev pub of_transcript : ℕ → Entity → Bool
of_transcript k e = is_id k e.transcript_id

-- The old entities go before the loop; without chunks, nothing is extracted.
unfoldable pub extract_again : Extractor → (Entity → Bool) → Option Text → List Chunk → Step ℕ
unfolding extract_for_chunks delete_where
extract_again x old filename cs w =
    extract_for_chunks x filename cs (record w { entities = delete_where old w.entities })

-- What follows `chunk_..._sync`, whose exception is not caught.
abbrev pub after_chunking : Result ℕ × Tables → Step ℕ → Result ℕ × Tables
after_chunking (failed e, w) rest = (failed e, w)
after_chunking (returned n, w) rest = rest w

abbrev pub extract_document_chunks : Extractor → Document → Step ℕ
extract_document_chunks x d w =
    extract_again x (of_document d.id) (some d.filename) (ordered_chunks (in_document d.id) w) w

abbrev pub no_chunks : List Chunk → Bool
no_chunks [] = Bool.true
no_chunks (c ∷ cs) = false

abbrev pub extract_document_found : Config → Extractor → Option Document → Step ℕ
extract_document_found c x none w = (failed (codes "source_document_not_found"), w)
extract_document_found c x (some d) w =
    if no_chunks (ordered_chunks (in_document d.id) w)
      && not (is_empty (strip (or_text d.raw_text [])))
    then after_chunking (chunk_source_document_sync c fixed d.id w) (extract_document_chunks x d)
    else extract_document_chunks x d w

unfoldable pub extract_for_document_sync : Config → Extractor → ℕ → Step ℕ
unfolding extract_again ordered_chunks chunk_source_document_sync get_source_document strip or_text
extract_for_document_sync c x k w = extract_document_found c x (get_source_document k w.documents) w

abbrev pub filename_of : Option AudioFile → Option Text
filename_of none = none
filename_of (some a) = some a.filename

-- Without chunks, the old entities of a transcript stay.
abbrev pub extract_transcript_chunks : Extractor → ℕ → Option Text → Step ℕ
extract_transcript_chunks x k filename w =
    let cs = ordered_chunks (in_transcript k) w in
    if no_chunks cs then (returned 0, w) else extract_again x (of_transcript k) filename cs w

abbrev pub extract_transcript_found : Config → Extractor → Option TranscriptRow → Step ℕ
extract_transcript_found c x none w = (failed (codes "transcript_not_found"), w)
extract_transcript_found c x (some t) w =
    let filename = filename_of (get_audio_file t.source_audio_id w.audios) in
    if no_chunks (ordered_chunks (in_transcript t.id) w)
    then after_chunking (chunk_transcript_sync c fixed t.id w)
        (extract_transcript_chunks x t.id filename)
    else extract_transcript_chunks x t.id filename w

unfoldable pub extract_for_transcript_sync : Config → Extractor → ℕ → Step ℕ
unfolding extract_again ordered_chunks chunk_transcript_sync get_transcript_row get_audio_file
extract_for_transcript_sync c x k w =
    extract_transcript_found c x (get_transcript_row k w.transcripts) w

-- What `extract_entities_for_document` answers.
pub data ExtractReply : Type 0 where
  missing : ExtractReply
  extracted : ℕ → ExtractReply

abbrev pub reply_or : Text → Result ℕ × Tables → Result ExtractReply × Tables
reply_or absent (returned n, w) = (returned (extracted n), w)
reply_or absent (failed e, w) = if text_eq e absent then (returned missing, w) else (failed e, w)

-- The `except` stands outside the session, which is rolled back by then.
unfoldable pub extract_entities_for_document : Config → Extractor → ℕ → Step ExtractReply
unfolding extract_for_document_sync text_eq
extract_entities_for_document c x k w =
    reply_or (codes "source_document_not_found")
      (sync_session_scope (extract_for_document_sync c x k) w)

-- What both queues are told of a transcript.
pub data Outcome : Type 0 where
  not_told pipeline_ok : Outcome
  pipeline_error : Text → Outcome

abbrev pub transcript_reply : Result ℕ × Tables → Result ExtractReply × Outcome × Tables
transcript_reply (returned n, w) = (returned (extracted n), pipeline_ok, w)
transcript_reply (failed e, w) =
    if text_eq e (codes "transcript_not_found")
    then (returned missing, not_told, w)
    else (failed e, pipeline_error e, w)

unfoldable pub extract_entities_for_transcript :
    Config → Extractor → ℕ → Tables → Result ExtractReply × Outcome × Tables
unfolding extract_for_transcript_sync text_eq
extract_entities_for_transcript c x k w =
    transcript_reply (sync_session_scope (extract_for_transcript_sync c x k) w)
