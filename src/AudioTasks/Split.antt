-- ===== src/AudioTasks/Split.antt =====
-- `split_audio_into_segments` of app/workers/tasks/audio_segment_pipeline.py.
use pr_killer.Prelude.{ℕ, ◌+◌, true, Option, none, some, List, [], ◌∷◌, ◌++◌, take, if◌then◌else◌}
use pr_killer.Sort.{sort}
use pr_killer.Text.{Text, codes, is_empty}
use pr_killer.AudioSplit.{Segment, Result, ok, error, split_audio_into_segment_files}
use pr_killer.AudioMerge.{
  Recording, failed, AsrSegment, pending, Call, transcribe_segment, AsrWorld, get_recording,
  modify_recording, segments_of, by_index,
}
use pr_killer.AudioTasks.{AsrConfig, make_calls, without_segments, begin_transcribing}

pub data SplitReply : Type 0 where
  split_missing : SplitReply
  split_error split_raised : Text → SplitReply
  split_ok : ℕ → SplitReply

abbrev pub fail_splitting : Text → Recording → Recording
fail_splitting message a = record a {
  audio_pipeline_status = failed;
  audio_pipeline_last_error = some message;
}

-- The recording fails; neither queue is told.
unfoldable pub split_fails : ℕ → Text → Text → AsrWorld → SplitReply × AsrWorld
unfolding modify_recording
split_fails k code message w = (
  split_error code,
  record w { recordings = modify_recording k (fail_splitting message) w.recordings },
)

-- The rows of the plan.
unfoldable pub plan_rows : AsrConfig → Recording → ℕ → List Segment → List AsrSegment
plan_rows c a next [] = []
plan_rows c a next (g ∷ gs) =
    record {
      id = next;
      source_audio_id = a.id;
      segment_index = g.segment_index;
      status = pending;
      transcript_text = none;
      provider = none;
      start_ms = g.start_ms;
      end_ms = g.end_ms;
      segment_path = c.segment_file a g.segment_index;
      error_message = none;
    }
    ∷ plan_rows c a (next + 1) gs

abbrev pub count_plan : List Segment → ℕ
count_plan [] = 0
count_plan (g ∷ gs) = count_plan gs + 1

unfoldable pub segment_calls : List AsrSegment → List Call
segment_calls [] = []
segment_calls (s ∷ ss) = transcribe_segment s.id ∷ segment_calls ss

-- `for sgid in seg_ids`, after the commit: an exception leaves the rest unsent.
abbrev pub queue_plan : ℕ → AsrWorld → Option Text × List Call → SplitReply × AsrWorld
queue_plan n w (none, calls) = (split_ok n, record w { calls = calls })
queue_plan n w (some e, calls) = (split_raised e, record w { calls = calls })

unfoldable pub store_plan : AsrConfig → Recording → List Segment → AsrWorld → SplitReply × AsrWorld
unfolding plan_rows segment_calls segments_of without_segments modify_recording make_calls sort
store_plan c a plan w =
    let rows = plan_rows c a w.next_id plan in
    let segments' = without_segments a.id w.segments ++ rows in
    let stored : AsrWorld = record w {
      recordings = modify_recording a.id begin_transcribing w.recordings;
      segments = segments';
      next_id = w.next_id + count_plan plan;
    } in
    queue_plan (count_plan plan) stored (
      make_calls c w.calls (segment_calls (sort by_index (segments_of (λ s. true) a.id segments'))))

-- `split_audio_into_segments` from the plan on: an exception rolls the session back before the
-- recording fails, an empty plan does not. That the fuel of the plan runs out is excluded by
-- AudioSplit/Ends, and so is a plan with these settings by AudioSplit/Raises.
unfoldable pub split_with :
    AsrConfig → Recording → Option (Result (List Segment)) → AsrWorld → SplitReply × AsrWorld
unfolding split_fails store_plan without_segments
split_with c a none w = split_fails a.id (codes "fuel") (codes "fuel") w
split_with c a (some (error e)) w = split_fails a.id (c.describe e) (take 4000 (c.describe e)) w
split_with c a (some (ok [])) w =
    split_fails a.id (codes "no_segments") (codes "no_segments_produced")
      (record w { segments = without_segments a.id w.segments })
split_with c a (some (ok (g ∷ gs))) w = store_plan c a (g ∷ gs) w

abbrev pub split_file : AsrConfig → Recording → Text → Option ℕ → AsrWorld → SplitReply × AsrWorld
split_file c a path none w =
    split_fails a.id (codes "file_not_found") (codes "file_not_found:" ++ path)
      (record w { segments = without_segments a.id w.segments })
split_file c a path (some n) w =
    split_with c a (split_audio_into_segment_files (c.media a) c.settings none none) w

abbrev pub split_path : AsrConfig → Recording → Option Text → AsrWorld → SplitReply × AsrWorld
split_path c a none w =
    split_fails a.id (codes "missing_original_path") (codes "missing_original_path") w
split_path c a (some path) w =
    if is_empty path
    then split_fails a.id (codes "missing_original_path") (codes "missing_original_path") w
    else split_file c a path (c.file_size path) w

abbrev pub split_found : AsrConfig → Option Recording → AsrWorld → SplitReply × AsrWorld
split_found c none w = (split_missing, w)
split_found c (some a) w = split_path c a a.original_path w

unfoldable pub split_audio_into_segments : AsrConfig → ℕ → AsrWorld → SplitReply × AsrWorld
unfolding split_with split_fails get_recording without_segments split_audio_into_segment_files
split_audio_into_segments c k w = split_found c (get_recording k w.recordings) w
