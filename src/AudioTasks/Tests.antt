-- ===== src/AudioTasks/Tests.antt =====
-- A recording whose transcription is refused by the service.
use pr_killer.Prelude.{◌≡◌, refl, Option, none, some, [], ◌∷◌}
use pr_killer.Text.{Text, codes}
use pr_killer.AudioMerge.{
  uploaded, Recording, AsrWorld, finalize_project_failure, finalize_batch_failure, split_audio,
  get_recording, modify_recording,
}
use pr_killer.AudioTasks.{
  AsrConfig, raised, get_segment, without_segments, begin_segment, transcribe_audio_segment,
}
use pr_killer.AudioTasks.FastPath.{whole_segment, begin_fast, transcribe_full_audio_gemini_fast}
use pr_killer.AudioTasks.Split.{split_audio_into_segments}
use pr_killer.AudioTasks.Failures.{SplitFails, split_always_fails}
use pr_killer.AudioTasks.Deferred.{FastLeaves, fast_leaves}

-- With what the calls raise, if they raise.
abbrev config : Option Text → AsrConfig
config refused = record {
  transcription_provider = some (codes "Gemini");
  fast_path_max_ms = 600000;
  settings = record { transcription_max_segment_bytes = 2000000 };
  refuses = λ before m. refused;
  file_size = λ path. some 1200000;
  transcribe = λ s a. raised (codes "HTTP 503");
  media = λ a n. record { duration = some 150000; encode = λ idx start stop. some 800000 };
  segment_file = λ a idx. idx ∷ [];
  describe = λ e. codes "AttributeError";
}

abbrev recording : Recording
recording = record {
  id = 7;
  audio_pipeline_status = uploaded;
  audio_pipeline_last_error = none;
  language = none;
  original_path = some (codes "a.ogg");
  mime_type = none;
  duration_ms = some 150000;
  audio_file_bytes = none;
}

abbrev speech : AsrWorld
speech = record {
  recordings = recording ∷ [];
  segments = [];
  transcripts = [];
  previews = [];
  text_chunks = [];
  next_id = 40;
  calls = [];
}

-- Both queues are told that the recording has failed, although it is split and transcribed again.
told_before_fallback :
    (transcribe_full_audio_gemini_fast (config none) 7 speech).1.calls
    ≡ finalize_project_failure 7 (codes "All transcription segments failed")
      ∷ finalize_batch_failure 7 (codes "All transcription segments failed")
      ∷ split_audio 7
      ∷ []
unfolding transcribe_full_audio_gemini_fast
told_before_fallback = refl

-- The broker is down: the segment is left in progress, with the recording as it was.
abbrev in_fast_path : AsrWorld
unfolding begin_fast modify_recording without_segments
in_fast_path = begin_fast recording (codes "a.ogg") speech

left_in_progress :
    get_segment 40
      (transcribe_audio_segment (config (some (codes "broker down"))) 40 in_fast_path).1.segments
    ≡ some (begin_segment (whole_segment recording (codes "a.ogg") 40))
unfolding transcribe_audio_segment in_fast_path
left_in_progress = refl

fast_leaves_example :
    FastLeaves (config none) 7 speech (transcribe_full_audio_gemini_fast (config none) 7 speech)
unfolding get_segment
fast_leaves_example = fast_leaves (config none) 7 speech refl

split_always_fails_example : SplitFails 7 speech (split_audio_into_segments (config none) 7 speech)
unfolding get_recording
split_always_fails_example = split_always_fails (config none) 7 speech recording refl
