-- ===== src/AudioTasks.antt =====
-- The tasks of app/workers/tasks/audio_segment_pipeline.py: here the transcription of a segment, in
-- FastPath the fast path over a whole recording, and in Split the split of a recording into segments.
-- What other tasks do between two sessions of a task is not modelled.
pub mod FastPath
pub mod Split
pub mod Failures
pub mod Deferred
pub mod Whole
pub mod Committed
pub mod Settled
mod Tests
use pr_killer.Prelude.{
  ℕ, ◌*◌, Bool, Option, none, some, List, [], ◌∷◌, ◌++◌, take, ◌==◌, if◌then◌else◌,
}
use pr_killer.Text.{Text, codes, strip, is_empty}
use pr_killer.AudioSplit.{Media, SplitError, SplitSettings}
use pr_killer.AudioMerge.{
  Recording, transcribing, AsrSegment, processing, done, segment_failed, Call, AsrWorld,
  get_recording, is_done, try_merge_audio,
}

-- The answer of the transcription service for one file.
pub data Spoken : Type 0 where
  -- the file cannot be read, and the service is not asked
  unreadable : Text → Spoken
  raised : Text → Spoken
  spoken : Text → Option Text → Spoken

pub record AsrConfig : Type 0 where
  pub transcription_provider : Option Text
  pub fast_path_max_ms : ℕ
  pub settings : SplitSettings
  -- the exception that a call raises, after the calls that have returned
  pub refuses : List Call → Call → Option Text
  -- the size of a file, where there is one
  pub file_size : Text → Option ℕ
  pub transcribe : AsrSegment → Option Recording → Spoken
  -- ffprobe and ffmpeg on a recording, by attempt; the path of a segment; the text of an error
  pub media : Recording → ℕ → Media
  pub segment_file : Recording → ℕ → Text
  pub describe : SplitError → Text

unfoldable pub get_segment : ℕ → List AsrSegment → Option AsrSegment
get_segment k [] = none
get_segment k (s ∷ ss) = if s.id == k then some s else get_segment k ss

unfoldable pub modify_segment : ℕ → (AsrSegment → AsrSegment) → List AsrSegment → List AsrSegment
modify_segment k f [] = []
modify_segment k f (s ∷ ss) = (if s.id == k then f s else s) ∷ modify_segment k f ss

-- DELETE of the segments of a recording.
unfoldable pub without_segments : ℕ → List AsrSegment → List AsrSegment
without_segments k [] = []
without_segments k (s ∷ ss) =
    let rest = without_segments k ss in if s.source_audio_id == k then rest else s ∷ rest

abbrev pub begin_transcribing : Recording → Recording
begin_transcribing a = record a {
  audio_pipeline_status = transcribing;
  audio_pipeline_last_error = none;
}

pub data TaskResult : Type 0 where
  missing skipped transcribed : TaskResult
  task_raised : Text → TaskResult

abbrev pub begin_segment : AsrSegment → AsrSegment
begin_segment s = record s { status = processing; error_message = none }

abbrev pub fail_segment : Text → AsrSegment → AsrSegment
fail_segment message s = record s { status = segment_failed; error_message = some message }

abbrev pub finish_segment : Text → Option Text → AsrSegment → AsrSegment
finish_segment text provider s = record s {
  transcript_text = some text;
  provider = provider;
  status = done;
}

-- Calls are made in order until one raises; those that have returned are kept.
unfoldable pub make_calls : AsrConfig → List Call → List Call → Option Text × List Call
make_calls c before [] = (none, before)
make_calls c before (m ∷ ms) = elim (c.refuses before m) [
  | none ↦ make_calls c (before ++ m ∷ []) ms
  | some e ↦ (some e, before)
]

abbrev pub commit : AsrWorld → AsrWorld → Option Text × List Call → Option Text × AsrWorld
commit w v (none, calls) = (none, record v { calls = calls })
commit w v (some e, calls) = (some e, record w { calls = calls })

-- A session on w that comes to v and makes the calls of v: an exception rolls it back.
unfoldable pub session : AsrConfig → AsrWorld → AsrWorld → Option Text × AsrWorld
unfolding make_calls
session c w v = commit w v (make_calls c w.calls v.calls)

-- The last session of the task: the segment is changed, and the recording merged if none is waiting.
unfoldable pub settle_segment :
    AsrConfig → AsrSegment → (AsrSegment → AsrSegment) → AsrWorld → Option Text × AsrWorld
unfolding session try_merge_audio modify_segment
settle_segment c s f w = session c w (
    try_merge_audio s.source_audio_id
      (record w { segments = modify_segment s.id f w.segments; calls = [] }))

-- `raise` after a session, and the end of the task.
abbrev pub then_raise : Text → Option Text × AsrWorld → TaskResult × AsrWorld
then_raise e (none, w) = (task_raised e, w)
then_raise e (some e', w) = (task_raised e', w)

abbrev pub then_end : Option Text × AsrWorld → TaskResult × AsrWorld
then_end (none, w) = (transcribed, w)
then_end (some e, w) = (task_raised e, w)

abbrev pub after_transcription : AsrConfig → AsrSegment → Spoken → AsrWorld → TaskResult × AsrWorld
after_transcription c s (unreadable e) w = (task_raised e, w)
after_transcription c s (raised e) w =
    then_raise e (settle_segment c s (fail_segment (take 4000 e)) w)
after_transcription c s (spoken text provider) w =
    if is_empty (strip text)
    then then_raise (codes "empty_transcription")
        (settle_segment c s (fail_segment (codes "empty_transcription")) w)
    else then_end (settle_segment c s (finish_segment text provider) w)

abbrev pub segment_found : AsrConfig → Option AsrSegment → AsrWorld → TaskResult × AsrWorld
segment_found c none w = (missing, w)
segment_found c (some s) w =
    if is_done s.status
    then (skipped, w)
    else after_transcription c s (c.transcribe s (get_recording s.source_audio_id w.recordings))
        (record w { segments = modify_segment s.id begin_segment w.segments })

unfoldable pub transcribe_audio_segment : AsrConfig → ℕ → AsrWorld → TaskResult × AsrWorld
unfolding settle_segment modify_segment get_segment get_recording strip
transcribe_audio_segment c k w = segment_found c (get_segment k w.segments) w
