-- ===== src/Documents/Tests.antt =====
-- Runs of the document pipeline.
use pr_killer.Prelude.{
  ℕ, ◌≤◌, ◌≡◌, refl, none, some, List, [], ◌∷◌, ◌++◌, map, arith, length, take, inl,
}
use pr_killer.Text.{Text, codes, strip, is_space, or_text, text_eq}
use pr_killer.Text.Ink.{HasInk}
use pr_killer.Chunking.{chunk_text, new_chunker}
use pr_killer.Queue.Pick.Sound.{All}
use pr_killer.AudioMerge.{Recording, AsrWorld, PipelineStatus, join_parts, store_transcript}
use pr_killer.Documents.World.{
  fixed, Chunk, Tables, Result, returned, get_source_document, get_audio_file, select_where,
  delete_where, in_document, in_transcript,
}
use pr_killer.Documents.Samples.{small, silent, silent-Answers, worker, report, talk, one_document}
use pr_killer.Documents.Semantic.{windows}
use pr_killer.Documents.Semantic.Windows.{concat, AllWithin, windows_cut}
use pr_killer.Documents.Chunks.{
  chunk_source_document_sync, chunk_source_document, chunk_transcript_sync, ChunkReply,
  existing_chunks, chunked, noop_already_chunked,
}
use pr_killer.Documents.Chunks.Rows.{count_up, chunk_document_rows, chunk_document_again}
use pr_killer.Documents.Chunks.Merged.{as_row, segment_of, merged_tail_unread}
use pr_killer.Documents.Extract.{finalize_chunk_entities}
use pr_killer.Documents.Extract.Bounds.{IsShort, finalize_bounded}
use pr_killer.Documents.Entities.{of_document, extracted}
use pr_killer.Documents.Entities.Counts.{Adds}
use pr_killer.Documents.Units.{paragraphs, split_heuristic_blocks}
use pr_killer.Documents.Units.Blocks.{blocks_keep_paragraphs}
use pr_killer.Documents.Pipeline.{ran, analysed, pipeline_document_analysis}
use pr_killer.Documents.Pipeline.Phases.{IsOpen, IsRecovered, runs, recovery_never_ends}
use pr_killer.Documents.Pipeline.Failures.{Leaves, run-Leaves}
use pr_killer.Documents.Pipeline.Whole.{pipeline_succeeds}
use pr_killer.Documents.Recovery.{Clock}

pipeline_run :
    (pipeline_document_analysis worker 7 one_document).0
    ≡ analysed (ran (chunked 3 fixed)) (extracted 3)
unfolding pipeline_document_analysis
pipeline_run = refl

pipeline_succeeds_example :
    (m : ℕ) × (n : ℕ) × ((pipeline_document_analysis worker 7 one_document).0
      ≡ analysed (ran (chunked m fixed)) (extracted n))
    × (1 ≤ m)
    × (length
          (select_where (in_document 7) (pipeline_document_analysis worker 7 one_document).1.chunks)
        ≡ m)
    × Adds 7 m n
        (select_where (of_document 7) (pipeline_document_analysis worker 7 one_document).1.entities)
unfolding get_source_document strip or_text is_space existing_chunks
pipeline_succeeds_example =
    pipeline_succeeds worker 7 report one_document refl refl refl refl (inl refl) silent-Answers

abbrev noon : Clock
noon = record { now = 43200; active_ttl = 900; fromisoformat = λ t. none }

recovery_never_ends_example :
    All
      (λ d. IsOpen d × IsRecovered noon d)
      (runs ((worker, 7) ∷ (worker, 7) ∷ []) one_document).documents
recovery_never_ends_example =
    recovery_never_ends noon ((worker, 7) ∷ (worker, 7) ∷ []) one_document (inl refl, tt)

abbrev blank_document : Tables
blank_document = record one_document {
  documents = record report { raw_text = some (codes "  ") } ∷ [];
}

run-Leaves_example : Leaves 7 blank_document (pipeline_document_analysis worker 7 blank_document)
run-Leaves_example = run-Leaves worker 7 blank_document

chunk_document_rows_example :
    (parts : List Text) × (chunk_text (new_chunker 10 2) (strip (codes " one two three  four "))
      ≡ some parts)
    × ((chunk_source_document_sync small fixed 7 one_document).0 ≡ returned (length parts))
    × (map
          (λ (x : Chunk). x.text)
          (select_where
            (in_document 7)
            (chunk_source_document_sync small fixed 7 one_document).1.chunks)
        ≡ parts)
    × (map
          (λ (x : Chunk). x.chunk_index)
          (select_where
            (in_document 7)
            (chunk_source_document_sync small fixed 7 one_document).1.chunks)
        ≡ count_up 0 (length parts))
    × (delete_where (in_document 7) (chunk_source_document_sync small fixed 7 one_document).1.chunks
        ≡ delete_where (in_document 7) [])
unfolding get_source_document strip or_text is_space existing_chunks
chunk_document_rows_example = chunk_document_rows small 7 report one_document refl refl refl

abbrev first_run : Result ChunkReply × Tables
first_run = chunk_source_document small 7 (codes "auto") one_document

chunked_three : first_run ≡ (returned (chunked 3 fixed), first_run.1)
unfolding chunk_source_document
chunked_three = refl

chunk_document_again_example :
    chunk_source_document small 7 (codes "fixed") first_run.1
    ≡ (returned (noop_already_chunked 3 fixed), first_run.1)
unfolding text_eq
chunk_document_again_example =
    chunk_document_again small 7 (codes "auto") (codes "fixed") 3 fixed one_document first_run.1
      chunked_three (omega arith) refl refl

abbrev speech : Recording
speech = record {
  id = 3;
  audio_pipeline_status = PipelineStatus.transcribing;
  audio_pipeline_last_error = none;
  language = none;
  original_path = none;
  mime_type = none;
  duration_ms = none;
  audio_file_bytes = none;
}

abbrev asr : AsrWorld
asr = record {
  recordings = speech ∷ [];
  segments = [];
  transcripts = [];
  previews = [];
  text_chunks = [];
  next_id = 40;
  calls = [];
}

abbrev merged_world : AsrWorld
merged_world = store_transcript speech [] (codes "hello there world") 0 asr

abbrev merged_tables : Tables
merged_tables = record one_document {
  transcripts = map as_row merged_world.transcripts;
  transcript_segments = map segment_of merged_world.previews;
}

merged_tail_unread_example :
    (parts : List Text) × (chunk_text
        (new_chunker 10 2)
        (strip (take 8000 (codes "hello there world")))
      ≡ some parts)
    × ((chunk_transcript_sync small fixed 40 merged_tables).0 ≡ returned (length parts))
    × (map
          (λ (x : Chunk). x.text)
          (select_where
            (in_transcript 40)
            (chunk_transcript_sync small fixed 40 merged_tables).1.chunks)
        ≡ parts)
unfolding strip is_space get_audio_file
merged_tail_unread_example =
    merged_tail_unread small speech talk [] (codes "hello there world") 0 asr merged_tables refl
      refl tt refl refl

finalize_bounded_example :
    All IsShort (finalize_chunk_entities silent (codes "short") [] none)
    × (1 ≤ length (finalize_chunk_entities silent (codes "short") [] none))
    × (length (finalize_chunk_entities silent (codes "short") [] none) ≤ 8)
unfolding strip is_space
finalize_bounded_example = finalize_bounded silent (codes "short") [] none refl

abbrev two_paragraphs : Text
two_paragraphs = codes "one" ++ 10 ∷ 10 ∷ 10 ∷ codes "two"

blocks_keep_paragraphs_example :
    (join_parts (split_heuristic_blocks two_paragraphs)
      ≡ join_parts (paragraphs (strip two_paragraphs)))
    × All HasInk (split_heuristic_blocks two_paragraphs)
unfolding strip is_space paragraphs
blocks_keep_paragraphs_example = blocks_keep_paragraphs two_paragraphs refl refl

windows_cut_example :
    (concat (windows 4 (codes "0123456789")) ≡ codes "0123456789")
    × AllWithin 4 (windows 4 (codes "0123456789"))
windows_cut_example = windows_cut 4 (codes "0123456789") (omega arith) (omega arith)
