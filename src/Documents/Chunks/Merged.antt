-- ===== src/Documents/Chunks/Merged.antt =====
-- What is cut into chunks after the segments of a recording have been merged by `_try_merge_audio`.
use pr_killer.Prelude.{
  ℕ, ◌+◌, ◌≡◌, refl, ap, ◌∙◌, false, none, some, List, [], ◌∷◌, ◌++◌, map, take, ◌==◌, length,
  ==_refl,
}
use pr_killer.Sort.{sort, insert}
use pr_killer.Text.{Text, strip, is_empty}
use pr_killer.Chunking.{chunk_text, new_chunker}
use pr_killer.Chunking.Loop.{chunk_text_total}
use pr_killer.AudioMerge.{
  Recording, AsrSegment, AsrWorld, MergedTranscript, store_transcript, without_transcripts,
  provider_from,
}
use pr_killer.Documents.World.{
  Strategy, fixed, AudioFile, TranscriptRow, TranscriptSegment, Chunk, Tables, returned,
  get_audio_file, get_transcript_row, select_where, delete_where, in_transcript,
}
use pr_killer.Documents.Chunks.{
  Config, chunk_transcript_sync, segments_of_transcript, rows_from, parts_of_text, transcript_base,
  store_transcript_chunks, join_texts, chunk_base, delete_chunks,
}
use pr_killer.Documents.Select.{select-append, select-delete}

-- The rows of the merge as the orchestrator reads them: the segment spans 0 to 0.
abbrev pub as_row : MergedTranscript → TranscriptRow
as_row t = record {
  id = t.id;
  source_audio_id = t.source_audio_id;
  full_text = t.full_text;
  language = t.language;
  provider_name = t.provider_name;
}

abbrev pub segment_of : ℕ × Text → TranscriptSegment
segment_of (k, t) = record { transcript_id = k; start = 0; end = 0; text = t }

-- No transcript with this identifier has a segment yet.
abbrev pub IsFresh : ℕ → List (ℕ × Text) → Type 0
IsFresh k [] = Unit {0}
IsFresh k ((j, t) ∷ ps) = (j == k ≡ false) × IsFresh k ps

segments_of-IsFresh :
    (k : ℕ) (ps : List (ℕ × Text))
    → IsFresh k ps
    → segments_of_transcript k (map segment_of ps) ≡ []
unfolding segments_of_transcript
segments_of-IsFresh k [] f = refl
segments_of-IsFresh k ((j, t) ∷ ps) f = rw f.0 (segments_of-IsFresh k ps f.1)

module _ (c : Config) (s : Strategy) (p k : ℕ) where
  select_where-rows :
      (i next : ℕ) (ts : List Text)
      → select_where (in_transcript k) (rows_from c s p none (some k) i next ts)
        ≡ rows_from c s p none (some k) i next ts
  unfolding select_where rows_from
  select_where-rows i next [] = refl
  select_where-rows i next (t ∷ ts) =
      rw (==_refl k) (rw (select_where-rows (i + 1) (next + 1) ts) refl)

  rows-text :
      (i next : ℕ) (ts : List Text)
      → map (λ (r : Chunk). r.text) (rows_from c s p none (some k) i next ts) ≡ ts
  unfolding rows_from
  rows-text i next [] = refl
  rows-text i next (t ∷ ts) = rw (rows-text (i + 1) (next + 1) ts) refl

segments_of-added :
    (k : ℕ) (t : Text) (ps : List (ℕ × Text))
    → IsFresh k ps
    → segments_of_transcript k (map segment_of ((k, t) ∷ ps)) ≡ segment_of (k, t) ∷ []
unfolding segments_of_transcript
segments_of-added k t ps f = rw (==_refl k) (rw (segments_of-IsFresh k ps f) refl)

get_transcript_row-head :
    (t : TranscriptRow) (ts : List TranscriptRow) → get_transcript_row t.id (t ∷ ts) ≡ some t
unfolding get_transcript_row
get_transcript_row-head t ts = rw (==_refl t.id) refl

-- A transcript with one segment is chunked by the text of that segment.
chunk_one_segment :
    (c : Config) (s : Strategy) (w : Tables) (t : TranscriptRow) (f : AudioFile)
    (seg : TranscriptSegment)
    → get_transcript_row t.id w.transcripts ≡ some t
    → get_audio_file t.source_audio_id w.audios ≡ some f
    → segments_of_transcript t.id w.transcript_segments ≡ seg ∷ []
    → chunk_transcript_sync c s t.id w ≡ chunk_base c s f.project_id t.id (strip seg.text) w
unfolding chunk_transcript_sync transcript_base join_texts sort insert
chunk_one_segment c s w t f seg row audio segs = rw (row, audio, segs) refl

-- Chunking a base that is not blank under the strategy "fixed".
chunk_base_rows :
    (c : Config) (p k : ℕ) (base : Text) (w : Tables)
    → is_empty base ≡ false
    → let (r, w') = chunk_base c fixed p k base w in
      (parts : List Text) × (chunk_text (new_chunker c.chunk_max_chars c.chunk_overlap_chars) base
        ≡ some parts)
      × (r ≡ returned (length parts))
      × (map (λ (x : Chunk). x.text) (select_where (in_transcript k) w'.chunks) ≡ parts)
unfolding store_transcript_chunks parts_of_text delete_chunks
chunk_base_rows c p k base w full =
    let (parts, total, all) = chunk_text_total c.chunk_max_chars c.chunk_overlap_chars base in
    let mine : select_where (in_transcript k) (
          delete_where (in_transcript k) w.chunks
          ++ rows_from c fixed p none (some k) 0 w.next_id parts)
        ≡ rows_from c fixed p none (some k) 0 w.next_id parts =
      rw
        (
          select-append (in_transcript k) (delete_where (in_transcript k) w.chunks)
              (rows_from c fixed p none (some k) 0 w.next_id parts),
          select-delete (in_transcript k) w.chunks,
          select_where-rows c fixed p k 0 w.next_id parts,
        )
        refl in
    rw full (rw total (parts, refl, refl, rw mine (rows-text c fixed p k 0 w.next_id parts)))

-- Of a merged transcript, the first 8000 characters are cut into chunks, and nothing of the rest:
-- where the tables hold the transcript and the segment that the merge of a recording has stored
-- under a fresh identifier, chunking it under the strategy "fixed" returns the number of parts that
-- `chunk_text` gives for these characters, if one of them is no space, and they are the
-- transcript's chunks.
pub merged_tail_unread :
    (c : Config) (a : Recording) (f : AudioFile) (done_segments : List AsrSegment) (merged : Text)
    (n_failed : ℕ) (w : AsrWorld) (t : Tables)
    → let v = store_transcript a done_segments merged n_failed w in
      t.transcripts ≡ map as_row v.transcripts
      → t.transcript_segments ≡ map segment_of v.previews
      → IsFresh w.next_id w.previews
      → get_audio_file a.id t.audios ≡ some f
      → is_empty (strip (take 8000 merged)) ≡ false
      → let (r, t') = chunk_transcript_sync c fixed w.next_id t in
        (parts : List Text) × (chunk_text
            (new_chunker c.chunk_max_chars c.chunk_overlap_chars)
            (strip (take 8000 merged))
          ≡ some parts)
        × (r ≡ returned (length parts))
        × (map (λ (x : Chunk). x.text) (select_where (in_transcript w.next_id) t'.chunks) ≡ parts)
unfolding store_transcript
merged_tail_unread c a f done_segments merged n_failed w t rows segs fresh found full =
    let tr : TranscriptRow = record {
      id = w.next_id;
      source_audio_id = a.id;
      full_text = merged;
      language = a.language;
      provider_name = provider_from done_segments;
    } in
    let k = w.next_id in
    let others = map as_row (without_transcripts a.id w.transcripts) in
    let row : get_transcript_row k t.transcripts ≡ some tr =
      ap (λ (l : List TranscriptRow). get_transcript_row k l) rows
      ∙ get_transcript_row-head tr others in
    let seg : segments_of_transcript k t.transcript_segments
        ≡ segment_of (k, take 8000 merged) ∷ [] =
      ap (λ (l : List TranscriptSegment). segments_of_transcript k l) segs
      ∙ segments_of-added k (take 8000 merged) w.previews fresh in
    rw (chunk_one_segment c fixed t tr f (segment_of (k, take 8000 merged)) row found seg)
      (chunk_base_rows c f.project_id k (strip (take 8000 merged)) t full)
