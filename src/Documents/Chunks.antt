-- ===== src/Documents/Chunks.antt =====
-- app/services/processing_orchestrator_service.py and app/workers/tasks/research_processing.py: the
-- text of a document or of a transcript becomes numbered rows of text_chunks.
pub mod Merged
pub mod Rows
use pr_killer.Prelude.{
  ℕ, suc, ◌+◌, Bool, true, false, not, ◌&&◌, ◌||◌, Option, none, some, List, [], ◌∷◌, ◌++◌, ltb,
  leb, ◌==◌, length, if◌then◌else◌,
}
use pr_killer.Sort.{sort}
use pr_killer.Text.{Text, codes, strip, is_empty, or_text, text_eq}
use pr_killer.Chunking.{chunk_text, new_chunker}
use pr_killer.Documents.World.{
  Strategy, fixed, openai, Document, AudioFile, TranscriptRow, TranscriptSegment, Chunk, Entity,
  Tables, Result, returned, failed, Step, sync_session_scope, get_source_document, get_audio_file,
  get_transcript_row, select_where, delete_where, in_document, in_transcript, is_id,
}
use pr_killer.Documents.Semantic.{Semantic, semantic_chunks}

-- The answer of the transcription service.
pub record SpokenSegment : Type 0 where
  pub start : ℕ
  pub end : ℕ
  pub text : Text

pub record Structured : Type 0 where
  pub full_text : Text
  pub language : Option Text
  pub provider_name : Text
  pub segments : List SpokenSegment

-- Settings, the services behind the network, the file store, and the locks of other workers.
pub record Config : Type 0 where
  pub chunk_max_chars : ℕ
  pub chunk_overlap_chars : ℕ
  pub semantic : Semantic
  -- `path.read_bytes()` if `path.is_file()`, with the path below the upload directory
  pub file_bytes : Text → Option Text
  -- whether there is a file, its bytes, and the row that gives the hints
  pub transcribe : Bool → Text → AudioFile → Result Structured
  -- `pg_try_advisory_lock`; always true on another database
  pub advisory_lock_free : ℕ → Bool

-- `chunk_text` with its fuel; that the fuel runs out is excluded by Documents/Chunks/Rows.
abbrev pub fixed_chunks : Option (List Text) → Result (List Text)
fixed_chunks none = failed (codes "fuel")
fixed_chunks (some parts) = returned parts

unfoldable pub parts_of_text : Config → Strategy → Text → Result (List Text)
unfolding chunk_text new_chunker semantic_chunks
parts_of_text c openai text = semantic_chunks c.semantic text
parts_of_text c fixed text =
    fixed_chunks (chunk_text (new_chunker c.chunk_max_chars c.chunk_overlap_chars) text)

abbrev pub model_of : Config → Strategy → Option Text
model_of c openai = some c.semantic.model
model_of c fixed = none

abbrev pub count_chunks : List Chunk → ℕ
count_chunks [] = 0
count_chunks (c ∷ cs) = suc (count_chunks cs)

-- The rows of `for i, text in enumerate(parts)`, for a document or for a transcript.
unfoldable pub rows_from :
    Config → Strategy → ℕ → Option ℕ → Option ℕ → ℕ → ℕ → List Text → List Chunk
rows_from c strategy project document transcript i next [] = []
rows_from c strategy project document transcript i next (t ∷ ts) =
    record {
      id = next;
      project_id = project;
      source_document_id = document;
      source_audio_id = none;
      transcript_id = transcript;
      chunk_index = i;
      text = t;
      chunking_strategy = strategy;
      semantic_model = model_of c strategy;
    }
    ∷ rows_from c strategy project document transcript (i + 1) (next + 1) ts

-- Both functions replace the chunks of their source, after the parts have been computed.
unfoldable pub store_document_chunks : Config → Strategy → Document → Result (List Text) → Step ℕ
unfolding rows_from delete_where
store_document_chunks c strategy d (failed e) w =
    (failed e, record w { chunks = delete_where (in_document d.id) w.chunks })
store_document_chunks c strategy d (returned parts) w = (
  returned (length parts),
  record w {
    chunks =
        delete_where (in_document d.id) w.chunks
        ++ rows_from c strategy d.project_id (some d.id) none 0 w.next_id parts;
    next_id = w.next_id + length parts;
  },
)

unfoldable pub existing_chunks : ℕ → Tables → ℕ
unfolding select_where
existing_chunks k w = count_chunks (select_where (in_document k) w.chunks)

abbrev pub chunk_document_found : Config → Strategy → Option Document → Step ℕ
chunk_document_found c strategy none w = (failed (codes "source_document_not_found"), w)
chunk_document_found c strategy (some d) w =
    let raw = strip (or_text d.raw_text []) in
    if is_empty raw
    then (failed (codes "source_document_no_text"), w)
    else if ltb 0 (existing_chunks d.id w)
    then (returned (existing_chunks d.id w), w)
    else store_document_chunks c strategy d (parts_of_text c strategy raw) w

unfoldable pub chunk_source_document_sync : Config → Strategy → ℕ → Step ℕ
unfolding get_source_document store_document_chunks parts_of_text existing_chunks strip or_text
chunk_source_document_sync c strategy k w =
    chunk_document_found c strategy (get_source_document k w.documents) w

unfoldable pub segments_of_transcript : ℕ → List TranscriptSegment → List TranscriptSegment
segments_of_transcript k [] = []
segments_of_transcript k (s ∷ ss) =
    let rest = segments_of_transcript k ss in if s.transcript_id == k then s ∷ rest else rest

abbrev pub by_start : TranscriptSegment → TranscriptSegment → Bool
by_start a b = leb a.start b.start

-- " ".join(s.text for s in ordered)
unfoldable pub join_texts : List TranscriptSegment → Text
join_texts [] = []
join_texts (s ∷ []) = s.text
join_texts (s ∷ t ∷ rest) = s.text ++ 32 ∷ join_texts (t ∷ rest)

-- `base`: the segments' texts where there are any, and the full text otherwise.
unfoldable pub transcript_base : List TranscriptSegment → Text → Text
unfolding join_texts strip
transcript_base [] full = strip full
transcript_base (s ∷ ss) full = strip (join_texts (s ∷ ss))

unfoldable pub store_transcript_chunks : Config → Strategy → ℕ → ℕ → Result (List Text) → Step ℕ
unfolding rows_from
store_transcript_chunks c strategy project k (failed e) w = (failed e, w)
store_transcript_chunks c strategy project k (returned parts) w = (
  returned (length parts),
  record w {
    chunks = w.chunks ++ rows_from c strategy project none (some k) 0 w.next_id parts;
    next_id = w.next_id + length parts;
  },
)

-- Entities go with their chunk: ON DELETE CASCADE.
unfoldable pub has_chunk : List Chunk → Entity → Bool
has_chunk [] e = false
has_chunk (c ∷ cs) e = c.id == e.chunk_id || has_chunk cs e

-- DELETE of the chunks that pass a test.
unfoldable pub delete_chunks : (Chunk → Bool) → Tables → Tables
unfolding select_where delete_where has_chunk
delete_chunks test w = record w {
  chunks = delete_where test w.chunks;
  entities = delete_where (has_chunk (select_where test w.chunks)) w.entities;
}

abbrev pub chunk_base : Config → Strategy → ℕ → ℕ → Text → Step ℕ
chunk_base c strategy project k base w =
    let cleared = delete_chunks (in_transcript k) w in
    if is_empty base
    then (failed (codes "transcript_no_text"), cleared)
    else store_transcript_chunks c strategy project k (parts_of_text c strategy base) cleared

abbrev pub chunk_transcript_audio : Config → Strategy → TranscriptRow → Option AudioFile → Step ℕ
chunk_transcript_audio c strategy t none w = (failed (codes "source_audio_not_found"), w)
chunk_transcript_audio c strategy t (some a) w =
    chunk_base c strategy a.project_id t.id
      (transcript_base (sort by_start (segments_of_transcript t.id w.transcript_segments))
        t.full_text)
      w

abbrev pub chunk_transcript_found : Config → Strategy → Option TranscriptRow → Step ℕ
chunk_transcript_found c strategy none w = (failed (codes "transcript_not_found"), w)
chunk_transcript_found c strategy (some t) w =
    chunk_transcript_audio c strategy t (get_audio_file t.source_audio_id w.audios) w

unfoldable pub chunk_transcript_sync : Config → Strategy → ℕ → Step ℕ
unfolding get_transcript_row get_audio_file transcript_base segments_of_transcript
    store_transcript_chunks parts_of_text delete_chunks
chunk_transcript_sync c strategy k w =
    chunk_transcript_found c strategy (get_transcript_row k w.transcripts) w

-- What the tasks answer: the fields of their dictionaries besides the identifier.
pub data ChunkReply : Type 0 where
  openai_not_configured already_processing : ChunkReply
  noop_already_chunked chunked : ℕ → Strategy → ChunkReply

abbrev pub strategy_of : Text → Strategy
strategy_of t = if text_eq t (codes "openai") then openai else fixed

abbrev pub lacks_key : Config → Strategy → Bool
lacks_key c fixed = false
lacks_key c openai = is_empty (strip (or_text c.semantic.api_key []))

abbrev pub as_chunked : Strategy → Result ℕ × Tables → Result ChunkReply × Tables
as_chunked s (returned n, w) = (returned (chunked n s), w)
as_chunked s (failed e, w) = (failed e, w)

-- The body of the session of `chunk_source_document`; the advisory lock is released at its end.
unfoldable pub chunk_document_body : Config → Strategy → ℕ → Step ChunkReply
unfolding chunk_source_document_sync existing_chunks
chunk_document_body c s k w =
    if not (c.advisory_lock_free k)
    then (returned already_processing, w)
    else if ltb 0 (existing_chunks k w)
    then (returned (noop_already_chunked (existing_chunks k w) s), w)
    else as_chunked s (chunk_source_document_sync c s k w)

unfoldable pub chunk_source_document : Config → ℕ → Text → Step ChunkReply
unfolding chunk_document_body text_eq strip or_text
chunk_source_document c k strategy w =
    let s = strategy_of strategy in
    if lacks_key c s
    then (returned openai_not_configured, w)
    else sync_session_scope (chunk_document_body c s k) w

abbrev pub chunk_transcript_body : Config → Strategy → ℕ → Step ChunkReply
chunk_transcript_body c s k w = as_chunked s (chunk_transcript_sync c s k w)

unfoldable pub chunk_transcript : Config → ℕ → Text → Step ChunkReply
unfolding chunk_transcript_sync text_eq strip or_text
chunk_transcript c k strategy w =
    let s = strategy_of strategy in
    if lacks_key c s
    then (returned openai_not_configured, w)
    else sync_session_scope (chunk_transcript_body c s k) w
