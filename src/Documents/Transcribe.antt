-- ===== src/Documents/Transcribe.antt =====
-- `transcribe_audio_source_sync` of app/services/processing_orchestrator_service.py, its task, and the
-- extraction from a recording in app/services/research_extraction_service.py.
use pr_killer.Prelude.{
  ℕ, ◌+◌, Bool, true, false, ◌||◌, Option, none, some, List, [], ◌∷◌, ◌++◌, ◌==◌, if◌then◌else◌,
}
use pr_killer.Text.{Text, codes, is_empty, text_eq}
use pr_killer.Documents.World.{
  fixed, AudioFile, TranscriptRow, TranscriptSegment, Chunk, Entity, Tables, Result, returned,
  failed, Step, sync_session_scope, get_audio_file, is_id, in_transcript, select_where,
  delete_where,
}
use pr_killer.Documents.Chunks.{
  Config, SpokenSegment, Structured, delete_chunks, chunk_transcript_sync,
}
use pr_killer.Documents.Extract.{Extractor}
use pr_killer.Documents.Entities.{
  ordered_chunks, extract_again, after_chunking, no_chunks, ExtractReply, reply_or, of_transcript,
}

abbrev pub from_audio : ℕ → TranscriptRow → Bool
from_audio k t = t.source_audio_id == k

unfoldable pub any_id : (ℕ → Bool) → List TranscriptRow → Bool
any_id test [] = false
any_id test (t ∷ ts) = test t.id || any_id test ts

-- DELETE of the transcripts of a recording, with what hangs on them: ON DELETE CASCADE.
unfoldable pub delete_transcripts : ℕ → Tables → Tables
unfolding select_where delete_where delete_chunks any_id
delete_transcripts k w =
    let gone = select_where (from_audio k) w.transcripts in
    let v = delete_chunks (λ c. any_id (λ i. in_transcript i c) gone) w in
    record v {
      transcripts = delete_where (from_audio k) w.transcripts;
      transcript_segments =
          delete_where (λ s. any_id (λ i. s.transcript_id == i) gone) w.transcript_segments;
      entities = delete_where (λ e. any_id (λ i. of_transcript i e) gone) v.entities;
    }

abbrev pub path_of : Option Text → Option Text
path_of none = none
path_of (some p) = if is_empty p then none else some p

-- Whether there is a file, and its bytes; a missing file is only logged.
abbrev pub bytes_or : Option Text → Bool × Text
bytes_or none = (false, [])
bytes_or (some bytes) = (true, bytes)

abbrev pub read_audio : Config → Option Text → Bool × Text
read_audio c none = (false, [])
read_audio c (some p) = bytes_or (c.file_bytes p)

abbrev pub or_language : Option Text → Option Text → Option Text
or_language none other = other
or_language (some t) other = if is_empty t then other else some t

unfoldable pub segment_rows : ℕ → List SpokenSegment → List TranscriptSegment
segment_rows k [] = []
segment_rows k (s ∷ ss) =
    record { transcript_id = k; start = s.start; end = s.end; text = s.text } ∷ segment_rows k ss

unfoldable pub store_structured : AudioFile → Result Structured → Step ℕ
unfolding segment_rows
store_structured a (failed e) w = (failed e, w)
store_structured a (returned t) w = (
  returned w.next_id,
  record w {
    transcripts =
        w.transcripts
        ++ record {
          id = w.next_id;
          source_audio_id = a.id;
          full_text = t.full_text;
          language = or_language t.language a.language;
          provider_name = t.provider_name;
        }
          ∷ [];
    transcript_segments = w.transcript_segments ++ segment_rows w.next_id t.segments;
    next_id = w.next_id + 1;
  },
)

abbrev pub of_recording : ℕ → Chunk → Bool
of_recording k c = is_id k c.source_audio_id

abbrev pub transcribe_found : Config → Option AudioFile → Step ℕ
transcribe_found c none w = (failed (codes "source_audio_not_found"), w)
transcribe_found c (some a) w =
    let (found, bytes) = read_audio c (path_of a.original_path) in
    store_structured a (c.transcribe found bytes a)
      (delete_chunks (of_recording a.id) (delete_transcripts a.id w))

unfoldable pub transcribe_audio_source_sync : Config → ℕ → Step ℕ
unfolding store_structured delete_transcripts delete_chunks get_audio_file
transcribe_audio_source_sync c k w = transcribe_found c (get_audio_file k w.audios) w

-- The transcript and the number of its chunks; both happen in one session.
abbrev pub with_transcript : ℕ → Result ℕ × Tables → Result (ℕ × ℕ) × Tables
with_transcript t (returned n, w) = (returned (t, n), w)
with_transcript t (failed e, w) = (failed e, w)

abbrev pub then_chunk : Config → Result ℕ × Tables → Result (ℕ × ℕ) × Tables
then_chunk c (failed e, w) = (failed e, w)
then_chunk c (returned t, w) = with_transcript t (chunk_transcript_sync c fixed t w)

abbrev pub transcribe_body : Config → ℕ → Step (ℕ × ℕ)
transcribe_body c k w = then_chunk c (transcribe_audio_source_sync c k w)

unfoldable pub transcribe_audio_source : Config → ℕ → Step (ℕ × ℕ)
unfolding transcribe_audio_source_sync chunk_transcript_sync
transcribe_audio_source c k w = sync_session_scope (transcribe_body c k) w

-- The chunks and the entities of a recording and of its transcripts.
abbrev pub chunk_in_scope : ℕ → Tables → Chunk → Bool
chunk_in_scope k w c =
    is_id k c.source_audio_id
    || any_id (λ i. in_transcript i c) (select_where (from_audio k) w.transcripts)

abbrev pub entity_in_scope : ℕ → Tables → Entity → Bool
entity_in_scope k w e =
    is_id k e.source_audio_id
    || any_id (λ i. of_transcript i e) (select_where (from_audio k) w.transcripts)

abbrev pub extract_audio_chunks : Extractor → AudioFile → Step ℕ
extract_audio_chunks x a w =
    extract_again x (entity_in_scope a.id w) (some a.filename)
      (ordered_chunks (chunk_in_scope a.id w) w) w

-- The newest transcript stands last; every stored one is completed.
unfoldable pub last_transcript : List TranscriptRow → Option ℕ
last_transcript [] = none
last_transcript (t ∷ []) = some t.id
last_transcript (t ∷ u ∷ ts) = last_transcript (u ∷ ts)

abbrev pub chunk_newest : Config → Option ℕ → Step ℕ
chunk_newest c none w = (returned 0, w)
chunk_newest c (some t) w = chunk_transcript_sync c fixed t w

abbrev pub extract_audio_found : Config → Extractor → Option AudioFile → Step ℕ
extract_audio_found c x none w = (failed (codes "source_audio_not_found"), w)
extract_audio_found c x (some a) w =
    if no_chunks (ordered_chunks (chunk_in_scope a.id w) w)
    then after_chunking
        (chunk_newest c (last_transcript (select_where (from_audio a.id) w.transcripts)) w)
        (extract_audio_chunks x a)
    else extract_audio_chunks x a w

unfoldable pub extract_for_audio_sync : Config → Extractor → ℕ → Step ℕ
unfolding extract_again ordered_chunks chunk_transcript_sync any_id get_audio_file select_where
    last_transcript
extract_for_audio_sync c x k w = extract_audio_found c x (get_audio_file k w.audios) w

unfoldable pub extract_entities_for_audio : Config → Extractor → ℕ → Step ExtractReply
unfolding extract_for_audio_sync text_eq
extract_entities_for_audio c x k w =
    reply_or (codes "source_audio_not_found") (sync_session_scope (extract_for_audio_sync c x k) w)
