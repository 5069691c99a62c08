-- ===== src/AudioTasks/FastPath.antt =====
-- `should_use_gemini_fast_path` and `transcribe_full_audio_gemini_fast` of
-- app/workers/tasks/audio_segment_pipeline.py.
use pr_killer.Prelude.{
  ℕ, ◌+◌, ◌*◌, min, Bool, false, not, ◌&&◌, ◌||◌, Option, none, some, [], ◌∷◌, ◌++◌, take, ltb, leb,
  if◌then◌else◌,
}
use pr_killer.Text.{Text, codes, is_empty, or_text, lower, text_eq}
use pr_killer.AudioMerge.{
  Recording, AsrSegment, pending, split_audio, AsrWorld, get_recording, modify_recording,
}
use pr_killer.AudioTasks.{
  AsrConfig, session, without_segments, begin_transcribing, TaskResult, missing, skipped,
  transcribed, task_raised, transcribe_audio_segment,
}

-- `_max_gemini_inline_bytes`
abbrev pub max_gemini_inline_bytes : AsrConfig → ℕ
max_gemini_inline_bytes c = min c.settings.transcription_max_segment_bytes (18 * 1024 * 1024)

-- Where the size is stored in the row, the file must be there all the same.
abbrev pub size_of : Option ℕ → Option ℕ → Option ℕ
size_of stored none = none
size_of none (some n) = some n
size_of (some m) (some n) = some m

abbrev pub fits_inline : AsrConfig → Option ℕ → Bool
fits_inline c none = false
fits_inline c (some n) = ltb 0 n && leb n (max_gemini_inline_bytes c)

abbrev pub is_short : AsrConfig → Option ℕ → Bool
is_short c none = false
is_short c (some ms) = leb ms c.fast_path_max_ms

unfoldable pub should_use_gemini_fast_path : AsrConfig → Recording → Text → Bool
unfolding lower text_eq or_text
should_use_gemini_fast_path c a path =
    text_eq (lower (or_text c.transcription_provider [])) (codes "gemini")
    && is_short c a.duration_ms
    && fits_inline c (size_of a.audio_file_bytes (c.file_size path))

pub data FastResult : Type 0 where
  fast_missing deferred : FastResult
  fast_ok : TaskResult → FastResult
  fallback fast_raised : Text → FastResult

abbrev pub without_error : Recording → Recording
without_error a = record a { audio_pipeline_last_error = none }

-- `split_audio_into_segments.delay`
unfoldable pub delay_split : AsrConfig → ℕ → AsrWorld → Option Text × AsrWorld
unfolding session
delay_split c k w = session c w (record w { calls = split_audio k ∷ [] })

abbrev pub fell_back : Text → Option Text × AsrWorld → FastResult × AsrWorld
fell_back e (none, w) = (fallback (take 800 e), w)
fell_back e (some e', w) = (fast_raised e', w)

-- `except Exception`: the segments of the fast path are deleted, and the recording is split.
unfoldable pub fall_back : AsrConfig → ℕ → Text → AsrWorld → FastResult × AsrWorld
unfolding modify_recording without_segments delay_split
fall_back c k e w = fell_back e (
    delay_split c k (record w {
      recordings = modify_recording k without_error w.recordings;
      segments = without_segments k w.segments;
    }))

abbrev pub after_defer : AsrConfig → ℕ → Option Text × AsrWorld → FastResult × AsrWorld
after_defer c k (none, w) = (deferred, w)
after_defer c k (some e, w) = fall_back c k e w

abbrev pub after_fast : AsrConfig → ℕ → TaskResult × AsrWorld → FastResult × AsrWorld
after_fast c k (task_raised e, w) = fall_back c k e w
after_fast c k (missing, w) = (fast_ok missing, w)
after_fast c k (skipped, w) = (fast_ok skipped, w)
after_fast c k (transcribed, w) = (fast_ok transcribed, w)

abbrev pub duration_or : Option ℕ → ℕ
duration_or none = 0
duration_or (some ms) = ms

abbrev pub whole_segment : Recording → Text → ℕ → AsrSegment
whole_segment a path k = record {
  id = k;
  source_audio_id = a.id;
  segment_index = 0;
  status = pending;
  transcript_text = none;
  provider = none;
  start_ms = 0;
  end_ms = duration_or a.duration_ms;
  segment_path = path;
  error_message = none;
}

-- The session that replaces the segments of the recording by a single one.
unfoldable pub begin_fast : Recording → Text → AsrWorld → AsrWorld
unfolding modify_recording without_segments
begin_fast a path w = record w {
  recordings = modify_recording a.id begin_transcribing w.recordings;
  segments = without_segments a.id w.segments ++ whole_segment a path w.next_id ∷ [];
  next_id = w.next_id + 1;
}

abbrev pub fast_path : AsrConfig → Recording → Option Text → AsrWorld → FastResult × AsrWorld
fast_path c a none w = after_defer c a.id (delay_split c a.id w)
fast_path c a (some path) w =
    if is_empty path || not (should_use_gemini_fast_path c a path)
    then after_defer c a.id (delay_split c a.id w)
    else after_fast c a.id (transcribe_audio_segment c w.next_id (begin_fast a path w))

abbrev pub fast_found : AsrConfig → Option Recording → AsrWorld → FastResult × AsrWorld
fast_found c none w = (fast_missing, w)
fast_found c (some a) w = fast_path c a a.original_path w

unfoldable pub transcribe_full_audio_gemini_fast : AsrConfig → ℕ → AsrWorld → FastResult × AsrWorld
unfolding transcribe_audio_segment begin_fast fall_back delay_split should_use_gemini_fast_path
    get_recording
transcribe_full_audio_gemini_fast c k w = fast_found c (get_recording k w.recordings) w
