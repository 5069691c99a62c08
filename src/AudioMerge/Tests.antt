-- ===== src/AudioMerge/Tests.antt =====
-- A recording of three segments, one of which failed.
use pr_killer.Prelude.{ℕ, ◌≡◌, refl, Option, none, some, [], ◌∷◌, ◌++◌}
use pr_killer.Sort.{sort}
use pr_killer.Text.{Text, codes, is_space}
use pr_killer.AudioMerge.{
  transcribing, ready, SegmentStatus, done, segment_failed, AsrSegment, chunk_transcript,
  extract_entities, AsrWorld, get_recording, try_merge_audio,
}
use pr_killer.AudioMerge.Stored.{transcripts_of, ready_has_transcript}
use pr_killer.AudioMerge.Once.{merge_once}

abbrev asr_segment : ℕ → SegmentStatus → Option Text → AsrSegment
asr_segment i status t = record {
  id = i;
  source_audio_id = 7;
  segment_index = i;
  status = status;
  transcript_text = t;
  provider = some (codes "gemini");
  start_ms = 0;
  end_ms = 1000;
  segment_path = [];
  error_message = none;
}

abbrev interview : AsrWorld
interview = record {
  recordings =
      record {
        id = 7;
        audio_pipeline_status = transcribing;
        audio_pipeline_last_error = none;
        language = none;
        original_path = none;
        mime_type = none;
        duration_ms = none;
        audio_file_bytes = none;
      }
      ∷ [];
  segments =
      asr_segment 2 done (some (codes " end "))
      ∷ asr_segment 1 segment_failed none
      ∷ asr_segment 0 done (some (codes "start"))
      ∷ [];
  transcripts = [];
  previews = [];
  text_chunks = 7 ∷ [];
  next_id = 40;
  calls = [];
}

abbrev merged_text : Text
merged_text = codes "start" ++ 10 ∷ 10 ∷ codes "end"

merge_stores :
    (try_merge_audio 7 interview).transcripts
    ≡ record {
      id = 40;
      source_audio_id = 7;
      full_text = merged_text;
      language = none;
      provider_name = codes "gemini";
    }
      ∷ []
unfolding try_merge_audio sort is_space
merge_stores = refl

merge_calls : (try_merge_audio 7 interview).calls ≡ chunk_transcript 40 ∷ extract_entities 40 ∷ []
unfolding try_merge_audio sort is_space
merge_calls = refl

merge_once_example : try_merge_audio 7 (try_merge_audio 7 interview) ≡ try_merge_audio 7 interview
unfolding try_merge_audio
merge_once_example = merge_once 7 interview refl

ready_has_transcript_example : transcripts_of 7 (try_merge_audio 7 interview).transcripts ≡ 1
unfolding try_merge_audio get_recording sort is_space
ready_has_transcript_example =
    ready_has_transcript 7 interview
      (record {
        id = 7;
        audio_pipeline_status = transcribing;
        audio_pipeline_last_error = none;
        language = none;
        original_path = none;
        mime_type = none;
        duration_ms = none;
        audio_file_bytes = none;
      })
      (record {
        id = 7;
        audio_pipeline_status = ready;
        audio_pipeline_last_error = some (codes "1 segment(s) failed; merged 2 slice(s).");
        language = none;
        original_path = none;
        mime_type = none;
        duration_ms = none;
        audio_file_bytes = none;
      })
      refl refl refl refl
